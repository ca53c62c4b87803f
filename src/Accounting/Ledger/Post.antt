-- ===== src/Accounting/Ledger/Post.antt =====
-- What `Post` accepts, written apart from its checks, and what it then does.
use wintermute.Prelude.{
  ℕ, zero, suc, ◌+◌, ◌≤◌, ◌≡◌, ◌≢◌, refl, sym, ap, ◌∙◌, ◌⊎◌, ◌↔◌, inl, inr, Bool, true, false, not,
  ◌||◌, Option, none, some, List, [], ◌∷◌, ◌++◌, length, All, arith, ltb, Bool-cases, ok, refuse_if,
  ◌>>◌,
}
use wintermute.Prelude.Int.{ℤ, pos, negsuc, int_beq, int_beq_iff}
use wintermute.Prelude.Int64.{add64}
use wintermute.Prelude.Str.{Str, trim_space}
use wintermute.Prelude.Results.{bind-ok, seq-ok, refuse_if-ok, ok_inj}
use wintermute.Accounting.Money.{Money, is_negative}
use wintermute.Accounting.Model.{
  Account, JournalLine, JournalEntry, Period, Books, Clock, sides_wrong, account_archived, no_value,
  unbalanced, too_few_lines, get_account, debits, credits, source_valid,
}
use wintermute.Accounting.Date.{valid_date}
use wintermute.Accounting.Ledger.{
  same, usable, check_lines, line_admitted, insert_lines, post_entry, post_filled, post, filled,
  lock_covering, check_period_open, locked_by,
}

-- Exactly one side, and more than nothing on it.
abbrev pub IsOneSided : JournalLine → Type 0
IsOneSided l =
    (n : ℕ) × ((l.debit ≡ pos (suc n)) × (l.credit ≡ pos 0)
      ⊎ (l.debit ≡ pos 0) × (l.credit ≡ pos (suc n)))

-- The account is there and open.
abbrev pub IsUsable : List Account → JournalLine → Type 0
IsUsable accounts l =
    (a : Account) × (get_account l.account_id accounts ≡ some a) × (a.archived ≡ false)

sides_of :
    (d c : ℤ)
    → (is_negative d || is_negative c) ≡ false
    → same (int_beq d (pos 0)) (int_beq c (pos 0)) ≡ false
    → (n : ℕ) × ((d ≡ pos (suc n)) × (c ≡ pos 0) ⊎ (d ≡ pos 0) × (c ≡ pos (suc n)))
sides_of (pos zero) (pos zero) h k = ground arith
sides_of (pos zero) (pos (suc n)) h k = (n, inr (refl, refl))
sides_of (pos (suc n)) (pos zero) h k = (n, inl (refl, refl))
sides_of (pos (suc m)) (pos (suc n)) h k = ground arith
sides_of (negsuc m) c h k = ground arith
sides_of (pos m) (negsuc n) h k = ground arith

sides_admitted :
    (l : JournalLine)
    → IsOneSided l
    → ((is_negative l.debit || is_negative l.credit) ≡ false)
      × (same (int_beq l.debit (pos 0)) (int_beq l.credit (pos 0)) ≡ false)
sides_admitted l h = ground arith

usable_of :
    (n id : ℕ) (o : Option Account)
    → usable n id o ≡ ok tt
    → (a : Account) × (o ≡ some a) × (a.archived ≡ false)
usable_of n id none h = ground arith
usable_of n id (some a) h = (a, refl, refuse_if-ok a.archived (account_archived n a.code) h)

usable_ok :
    (n id : ℕ) (o : Option Account)
    → (a : Account) × (o ≡ some a) × (a.archived ≡ false)
    → usable n id o ≡ ok tt
usable_ok n id o h = rw (h.1, h.2) refl

lines_of :
    (accounts : List Account) (n : ℕ) (d c : Money) (ls : List JournalLine) (sums : Money × Money)
    → check_lines accounts n d c ls ≡ ok sums
    → All IsOneSided ls × All (IsUsable accounts) ls × (sums ≡ (debits d ls, credits c ls))
unfolding check_lines debits credits
lines_of accounts n d c [] sums h = (tt, tt, sym (ok_inj h))
lines_of accounts n d c (l ∷ ls) sums h =
    let last =
      seq-ok _ (check_lines accounts (suc n) (add64 d l.debit) (add64 c l.credit) ls) sums h in
    let third = seq-ok _ (usable n l.account_id (get_account l.account_id accounts)) tt last.0 in
    let second =
      seq-ok _
        (refuse_if (same (int_beq l.debit (pos 0)) (int_beq l.credit (pos 0))) (sides_wrong n)) tt
        third.0 in
    let rest = lines_of accounts (suc n) (add64 d l.debit) (add64 c l.credit) ls sums last.1 in
    (
      (sides_of l.debit l.credit (refuse_if-ok _ _ second.0) (refuse_if-ok _ _ second.1), rest.0),
      (usable_of n l.account_id (get_account l.account_id accounts) third.1, rest.1),
      rest.2,
    )

lines_ok :
    (accounts : List Account) (n : ℕ) (d c : Money) (ls : List JournalLine)
    → All IsOneSided ls
    → All (IsUsable accounts) ls
    → check_lines accounts n d c ls ≡ ok (debits d ls, credits c ls)
unfolding check_lines debits credits
lines_ok accounts n d c [] h k = refl
lines_ok accounts n d c (l ∷ ls) h k =
    let sides = sides_admitted l h.0 in
    rw (sides.0, sides.1, usable_ok n l.account_id (get_account l.account_id accounts) k.0)
      (lines_ok accounts (suc n) (add64 d l.debit) (add64 c l.credit) ls h.1 k.1)

line_ok :
    (accounts : List Account) (l : JournalLine)
    → IsOneSided l
    → IsUsable accounts l
    → line_admitted accounts l ≡ true
unfolding line_admitted
line_ok accounts l h k = rw (k.1) ground (arith, sides_admitted l h)

-- The lines with their places in the entry.
unfoldable pub numbered : ℕ → List JournalLine → List JournalLine
numbered i [] = []
numbered i (l ∷ ls) = record l { ordinal = i } ∷ numbered (i + 1) ls

insert_lines_ok :
    (accounts : List Account) (i : ℕ) (ls : List JournalLine)
    → All IsOneSided ls
    → All (IsUsable accounts) ls
    → insert_lines accounts i ls ≡ ok (numbered i ls)
unfolding insert_lines numbered
insert_lines_ok accounts i [] h k = refl
insert_lines_ok accounts i (l ∷ ls) h k =
    rw (line_ok accounts l h.0 k.0, insert_lines_ok accounts (i + 1) ls h.1 k.1) refl

-- What an entry must be to be posted.
pub record IsPostable (e : JournalEntry) (b : Books) : Type 0 where
  pub dated : valid_date e.entry_date ≡ ok tt
  pub sourced : source_valid e.source_type ≡ true
  pub is_open : lock_covering e.entry_date b.periods ≡ none
  pub two_lines : 2 ≤ length e.lines
  pub sided : All IsOneSided e.lines
  pub accounts_usable : All (IsUsable b.accounts) e.lines
  pub balances : debits (pos 0) e.lines ≡ credits (pos 0) e.lines
  pub worth : debits (pos 0) e.lines ≢ pos 0

-- The entry as it is stored, and the state with it.
unfoldable pub stored : Clock → JournalEntry → Books → JournalEntry
stored now e b = record e {
  id = b.next_entry;
  memo = trim_space e.memo;
  created_at = now.stamp;
  lines = numbered 0 e.lines;
}

abbrev pub with_entry : JournalEntry → Books → Books
with_entry e b = record b { entries = b.entries ++ (e ∷ []); next_entry = suc b.next_entry }

open_of : (date : Str) (o : Option Period) → locked_by date o ≡ ok tt → o ≡ none
open_of date none h = refl
open_of date (some p) h = ground arith

post_entry_ok :
    (now : Clock) (e : JournalEntry) (b : Books)
    → All IsOneSided e.lines
    → All (IsUsable b.accounts) e.lines
    → post_entry (record e { memo = trim_space e.memo; created_at = now.stamp }) b
      ≡ ok (stored now e b, with_entry (stored now e b) b)
unfolding post_entry stored
post_entry_ok now e b h k = rw (insert_lines_ok b.accounts 0 e.lines h k) refl

two_ok : (n : ℕ) → 2 ≤ n → ltb n 2 ≡ false
two_ok n h = ground arith

two_of : (n : ℕ) → ltb n 2 ≡ false → 2 ≤ n
two_of n h = ground arith

int_ne : (a b : ℤ) → a ≢ b → int_beq a b ≡ false
int_ne a b h = elim (Bool-cases (int_beq a b)) [
  | inl t ↦ absurd (h ((int_beq_iff a b).0 t))
  | inr f ↦ f
]

post_filled_ok :
    (now : Clock) (e : JournalEntry) (b : Books)
    → IsPostable e b
    → post_filled now e b ≡ ok (stored now e b, with_entry (stored now e b) b)
unfolding post_filled check_period_open
post_filled_ok now e b h =
    rw
      (
        h.dated,
        h.sourced,
        h.is_open,
        lines_ok b.accounts 1 (pos 0) (pos 0) e.lines h.sided h.accounts_usable,
        two_ok (length e.lines) h.two_lines,
        (int_beq_iff _ _).1 h.balances,
        int_ne _ _ h.worth,
      )
      (post_entry_ok now e b h.sided h.accounts_usable)

not-false : (c : Bool) → not c ≡ false → c ≡ true
not-false true h = refl
not-false false h = ground arith

true-false : true ≢ false
true-false h = ground arith

post_filled_of :
    (now : Clock) (e : JournalEntry) (b : Books) (r : JournalEntry × Books)
    → post_filled now e b ≡ ok r
    → IsPostable e b
unfolding post_filled check_period_open
post_filled_of now e b r h =
    let summed = bind-ok _ _ r h in
    let sums = summed.0 in
    let written =
      seq-ok
        (refuse_if (not (int_beq sums.0 sums.1)) (unbalanced sums.0 sums.1)
          >> refuse_if (int_beq sums.0 (pos 0)) no_value)
        _ r summed.2 in
    let valued = seq-ok _ (refuse_if (int_beq sums.0 (pos 0)) no_value) tt written.0 in
    let checked = seq-ok _ (check_lines b.accounts 1 (pos 0) (pos 0) e.lines) sums summed.1 in
    let many =
      seq-ok _ (refuse_if (ltb (length e.lines) 2) (too_few_lines (length e.lines))) tt checked.0 in
    let opened =
      seq-ok _ (locked_by e.entry_date (lock_covering e.entry_date b.periods)) tt many.0 in
    let known = seq-ok (valid_date e.entry_date) _ tt opened.0 in
    let lines = lines_of b.accounts 1 (pos 0) (pos 0) e.lines sums checked.1 in
    record {
      dated = known.0;
      sourced = not-false _ (refuse_if-ok _ _ known.1);
      is_open = open_of e.entry_date _ opened.1;
      two_lines = two_of (length e.lines) (refuse_if-ok _ _ many.1);
      sided = lines.0;
      accounts_usable = lines.1;
      balances =
          sym (ap (λ s. s.0) lines.2)
          ∙ (int_beq_iff _ _).0 (not-false _ (refuse_if-ok _ _ valued.0))
          ∙ ap (λ s. s.1) lines.2;
      worth = λ q.
          true-false
            (sym ((int_beq_iff _ _).1 (ap (λ s. s.0) lines.2 ∙ q)) ∙ refuse_if-ok _ _ valued.1);
    }

-- `Post` succeeds exactly on an entry that, once its date and source are defaulted, has a real date in
-- no locked period, a known source, at least two lines, on each line one positive side and an open
-- account, equal debits and credits and not nothing (sums wrap around at 64 bits). It then stores that
-- entry under the next id, its lines numbered, at the end of the journal, and changes nothing else.
pub post_iff :
    (now : Clock) (e : JournalEntry) (b : Books) (r : JournalEntry × Books)
    → (post now e b ≡ ok r) ↔ (
        IsPostable (filled now e) b
        × (r ≡ (stored now (filled now e) b, with_entry (stored now (filled now e) b) b)))
unfolding post
post_iff now e b r = (
  λ h.
      let able = post_filled_of now (filled now e) b r h in
      (able, ok_inj (sym h ∙ post_filled_ok now (filled now e) b able)),
  λ h. post_filled_ok now (filled now e) b h.0 ∙ ap ok (sym h.1),
)
