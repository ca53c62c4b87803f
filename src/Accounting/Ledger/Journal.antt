-- ===== src/Accounting/Ledger/Journal.antt =====
-- The journal over any run of the ledger's operations.
use mathlib.Core.List.{append-nil, append_assoc}
use wintermute.Prelude.{
  ℕ, suc, ◌+◌, ◌≤◌, ◌<◌, ◌≡◌, ◌≢◌, refl, sym, ap, ◌∙◌, subst, inl, inr, true, some, Option-cases,
  if_intro, nat_beq, if◌then◌else◌, List, [], ◌∷◌, ◌++◌, length, All, All-append, All-imp, arith,
  Result, ok, err,
}
use wintermute.Prelude.Int.{pos, int_beq_iff}
use wintermute.Prelude.Int64.{add64}
use wintermute.Prelude.Str.{Str, trim_space}
use wintermute.Prelude.Results.{seq-ok, ok_inj, Result-cases}
use wintermute.Accounting.Money.{Money}
use wintermute.Accounting.Model.{
  Account, JournalSource, JournalLine, JournalEntry, Period, Posting, Books, Clock, Fault,
  get_account, get_entry, debits, credits, source_valid, total, balanced,
}
use wintermute.Accounting.Ledger.{
  post, filled, post_from, reversal, reverse, lock_period, save_period,
}
use wintermute.Accounting.Ledger.Post.{IsOneSided, IsUsable, IsPostable, numbered, stored, post_iff}

-- A line's account is in the chart, whether archived since or not.
abbrev pub IsKnown : List Account → JournalLine → Type 0
IsKnown accounts l = (a : Account) × (get_account l.account_id accounts ≡ some a)

pub record IsSound (accounts : List Account) (next : ℕ) (e : JournalEntry) : Type 0 where
  pub issued : e.id < next
  pub sourced : source_valid e.source_type ≡ true
  pub two_lines : 2 ≤ length e.lines
  pub sided : All IsOneSided e.lines
  pub known : All (IsKnown accounts) e.lines
  pub balances : balanced e ≡ true
  pub worth : total e ≢ pos 0

abbrev pub IsSoundBooks : Books → Type 0
IsSoundBooks b = All (IsSound b.accounts b.next_entry) b.entries

pub data Op : Type 0 where
  do_post : JournalEntry → Op
  do_post_from : Str → Str → JournalSource → ℕ → List Posting → Op
  do_reverse : ℕ → Str → Str → Op
  do_lock : Period → Op

-- A refused call leaves the state as it was.
abbrev after {ℓ} : {A : Type ℓ} → Books → Result Fault (A × Books) → Books
after b (ok r) = r.1
after b (err f) = b

unfoldable pub apply : Clock → Op → Books → Books
apply now (do_post e) b = after b (post now e b)
apply now (do_post_from date memo src id ps) b = after b (post_from now date memo src id ps b)
apply now (do_reverse id date memo) b = after b (reverse now id date memo b)
apply now (do_lock p) b = after b (lock_period now p b)

-- The calls with the time of each.
unfoldable pub run : List (Clock × Op) → Books → Books
run [] b = b
run (o ∷ os) b = run os (apply o.0 o.1 b)

length-numbered : (i : ℕ) (ls : List JournalLine) → length (numbered i ls) ≡ length ls
unfolding numbered
length-numbered i [] = refl
length-numbered i (l ∷ ls) = ap suc (length-numbered (i + 1) ls)

debits-numbered :
    (i : ℕ) (s : Money) (ls : List JournalLine) → debits s (numbered i ls) ≡ debits s ls
unfolding numbered debits
debits-numbered i s [] = refl
debits-numbered i s (l ∷ ls) = debits-numbered (i + 1) (add64 s l.debit) ls

credits-numbered :
    (i : ℕ) (s : Money) (ls : List JournalLine) → credits s (numbered i ls) ≡ credits s ls
unfolding numbered credits
credits-numbered i s [] = refl
credits-numbered i s (l ∷ ls) = credits-numbered (i + 1) (add64 s l.credit) ls

IsOneSided-numbered :
    (i : ℕ) (ls : List JournalLine) → All IsOneSided ls → All IsOneSided (numbered i ls)
unfolding numbered
IsOneSided-numbered i [] h = tt
IsOneSided-numbered i (l ∷ ls) h = (h.0, IsOneSided-numbered (i + 1) ls h.1)

IsKnown-numbered :
    (accounts : List Account) (i : ℕ) (ls : List JournalLine)
    → All (IsUsable accounts) ls
    → All (IsKnown accounts) (numbered i ls)
unfolding numbered
IsKnown-numbered accounts i [] h = tt
IsKnown-numbered accounts i (l ∷ ls) h = ((h.0.0, h.0.1), IsKnown-numbered accounts (i + 1) ls h.1)

stored-IsSound :
    (now : Clock) (e : JournalEntry) (b : Books)
    → IsPostable e b
    → IsSound b.accounts (suc b.next_entry) (stored now e b)
unfolding stored balanced total
stored-IsSound now e b h = record {
  issued = omega arith;
  sourced = h.sourced;
  two_lines = rw (length-numbered 0 e.lines) h.two_lines;
  sided = IsOneSided-numbered 0 e.lines h.sided;
  known = IsKnown-numbered b.accounts 0 e.lines h.accounts_usable;
  balances =
      (int_beq_iff _ _).1
        (debits-numbered 0 (pos 0) e.lines ∙ h.balances ∙ sym (credits-numbered 0 (pos 0) e.lines));
  worth = λ q. h.worth (sym (debits-numbered 0 (pos 0) e.lines) ∙ q);
}

later :
    (accounts : List Account) (m n : ℕ)
    → m ≤ n
    → (e : JournalEntry) → IsSound accounts m e
    → IsSound accounts n e
later accounts m n k e h = record {
  issued = omega (arith, h.issued);
  sourced = h.sourced;
  two_lines = h.two_lines;
  sided = h.sided;
  known = h.known;
  balances = h.balances;
  worth = h.worth;
}

-- The second state is the first with sound entries at the end of its journal.
record IsExtension (b b' : Books) : Type 0 where
  same_accounts : b'.accounts ≡ b.accounts
  grows : b.next_entry ≤ b'.next_entry
  added : List JournalEntry
  appended : b'.entries ≡ b.entries ++ added
  sound : All (IsSound b.accounts b'.next_entry) added

unchanged :
    (b b' : Books)
    → b'.accounts ≡ b.accounts
    → b'.next_entry ≡ b.next_entry
    → b'.entries ≡ b.entries
    → IsExtension b b'
unchanged b b' h k q = record {
  same_accounts = h;
  grows = omega (arith, k);
  added = [];
  appended = q ∙ sym (append-nil b.entries);
  sound = tt;
}

post-IsExtension :
    (now : Clock) (e : JournalEntry) (b : Books) → IsExtension b (after b (post now e b))
post-IsExtension now e b = elim (Result-cases (post now e b)) [
  | inl r ↦
      let p = (post_iff now e b r.0).0 r.1 in
      rw (r.1, p.1)
        (record {
          same_accounts = refl;
          grows = omega arith;
          added = stored now (filled now e) b ∷ [];
          appended = refl;
          sound = (stored-IsSound now (filled now e) b p.0, tt);
        })
  | inr f ↦ rw (f.1) (unchanged b b refl refl refl)
]

reverse-IsExtension :
    (now : Clock) (id : ℕ) (date memo : Str) (b : Books)
    → IsExtension b (after b (reverse now id date memo b))
unfolding reverse
reverse-IsExtension now id date memo b = elim (Option-cases (get_entry id b.entries)) [
  | inl n ↦ rw n (unchanged b b refl refl refl)
  | inr o ↦ rw (o.1) (post-IsExtension now (reversal now date memo o.0) b)
]

save_period-IsExtension : (p : Period) (b : Books) → IsExtension b (save_period p b).1
unfolding save_period
save_period-IsExtension p b =
    if_intro (λ (r : Period × Books). IsExtension b r.1) (nat_beq p.id 0)
      (unchanged _ _ refl refl refl) (unchanged _ _ refl refl refl)

lock_period-IsExtension :
    (now : Clock) (p : Period) (b : Books) → IsExtension b (after b (lock_period now p b))
unfolding lock_period
lock_period-IsExtension now p b = elim (Result-cases (lock_period now p b)) [
  | inl r ↦
      subst (λ (x : Result Fault (Period × Books)). IsExtension b (after b x)) (sym (r.1))
        (subst (λ (x : Period × Books). IsExtension b x.1) (ok_inj (seq-ok _ _ r.0 r.1).1)
          (save_period-IsExtension
            (record p { locked_at = if p.locked then now.stamp else []; note = trim_space p.note })
            b))
  | inr f ↦ rw (f.1) (unchanged b b refl refl refl)
]

apply-IsExtension : (now : Clock) (o : Op) (b : Books) → IsExtension b (apply now o b)
unfolding apply post_from
apply-IsExtension now (do_post e) b = post-IsExtension now e b
apply-IsExtension now (do_post_from date memo src id ps) b = post-IsExtension now _ b
apply-IsExtension now (do_reverse id date memo) b = reverse-IsExtension now id date memo b
apply-IsExtension now (do_lock p) b = lock_period-IsExtension now p b

chain : (a b c : Books) → IsExtension a b → IsExtension b c → IsExtension a c
chain a b c h k = record {
  same_accounts = k.same_accounts ∙ h.same_accounts;
  grows = omega (arith, h.grows, k.grows);
  added = h.added ++ k.added;
  appended =
      k.appended ∙ ap (λ es. es ++ k.added) h.appended ∙ append_assoc a.entries h.added k.added;
  sound =
      All-append _ h.added k.added
        (All-imp _ _ (later a.accounts b.next_entry c.next_entry k.grows) h.added h.sound)
        (subst (λ accounts. All (IsSound accounts c.next_entry) k.added) h.same_accounts k.sound);
}

run-IsExtension : (os : List (Clock × Op)) (b : Books) → IsExtension b (run os b)
unfolding run
run-IsExtension [] b = unchanged b b refl refl refl
run-IsExtension (o ∷ os) b =
    chain b (apply o.0 o.1 b) (run os (apply o.0 o.1 b)) (apply-IsExtension o.0 o.1 b)
      (run-IsExtension os (apply o.0 o.1 b))

-- Whatever is posted, reversed or locked, in any order and refused or not, the journal only gets longer:
-- its entries stay as they are, before the new ones.
pub run-appends :
    (os : List (Clock × Op)) (b : Books)
    → (added : List JournalEntry) × ((run os b).entries ≡ b.entries ++ added)
run-appends os b = let x = run-IsExtension os b in (x.added, x.appended)

-- Any run of posts, reversals and locks keeps a journal sound: every entry has an id already given out,
-- a known source, at least two lines, on each line one positive side and an account of the chart, and debits that
-- equal its credits and are not nothing (sums wrap around at 64 bits).
pub run-IsSoundBooks :
    (os : List (Clock × Op)) (b : Books) → IsSoundBooks b → IsSoundBooks (run os b)
run-IsSoundBooks os b h =
    let x = run-IsExtension os b in
    subst (λ accounts. All (IsSound accounts (run os b).next_entry) (run os b).entries)
      (sym x.same_accounts)
      (subst (All (IsSound b.accounts (run os b).next_entry)) (sym x.appended) (
        All-append _ b.entries x.added
          (All-imp _ _ (later b.accounts b.next_entry (run os b).next_entry x.grows) b.entries h)
          x.sound))
