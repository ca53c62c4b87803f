-- ===== src/Accounting/Ledger/Reverse.antt =====
-- `Reverse`: what a reversal does to each account, and that it is never refused without cause.
use wintermute.Prelude.{
  ℕ, ◌+◌, ◌≡◌, refl, sym, ◌∙◌, inl, inr, true, none, some, List, [], ◌∷◌, map, length-map, All,
  arith, ◌==◌, nat_eq, if◌then◌else◌, ok,
}
use wintermute.Prelude.Int.{pos, int_beq_iff}
use wintermute.Prelude.Int64.{add64}
use wintermute.Prelude.Str.{Str}
use wintermute.Accounting.Money.{Money}
use wintermute.Accounting.Model.{
  Account, JournalSource, JournalLine, JournalEntry, Books, Clock, get_entry, debits, credits,
  source_valid, total, balanced,
}
use wintermute.Accounting.Date.{valid_date}
use wintermute.Accounting.Ledger.{
  post, filled, or_manual, or_today, mirror, reversal, reverse, lock_covering,
}
use wintermute.Accounting.Ledger.Post.{IsOneSided, IsUsable, IsPostable, numbered, stored, post_iff}
use wintermute.Accounting.Ledger.Journal.{IsSound}

-- What an entry puts on the debit side of an account, and on its credit side.
unfoldable pub debits_of : ℕ → List JournalLine → Money
debits_of a [] = pos 0
debits_of a (l ∷ ls) =
    let rest = debits_of a ls in if l.account_id == a then add64 l.debit rest else rest

unfoldable pub credits_of : ℕ → List JournalLine → Money
credits_of a [] = pos 0
credits_of a (l ∷ ls) =
    let rest = credits_of a ls in if l.account_id == a then add64 l.credit rest else rest

swapped :
    (a i : ℕ) (ls : List JournalLine)
    → (debits_of a (numbered i (map mirror ls)) ≡ credits_of a ls)
      × (credits_of a (numbered i (map mirror ls)) ≡ debits_of a ls)
unfolding debits_of credits_of numbered mirror
swapped a i [] = (refl, refl)
swapped a i (l ∷ ls) = let rest = swapped a (i + 1) ls in (rw (rest.0) refl, rw (rest.1) refl)

debits-mirror : (s : Money) (ls : List JournalLine) → debits s (map mirror ls) ≡ credits s ls
unfolding debits credits mirror
debits-mirror s [] = refl
debits-mirror s (l ∷ ls) = debits-mirror (add64 s l.credit) ls

credits-mirror : (s : Money) (ls : List JournalLine) → credits s (map mirror ls) ≡ debits s ls
unfolding debits credits mirror
credits-mirror s [] = refl
credits-mirror s (l ∷ ls) = credits-mirror (add64 s l.debit) ls

turn : (l : JournalLine) → IsOneSided l → IsOneSided (mirror l)
unfolding mirror
turn l (n, inl h) = (n, inr (h.1, h.0))
turn l (n, inr h) = (n, inl (h.1, h.0))

IsOneSided-mirror : (ls : List JournalLine) → All IsOneSided ls → All IsOneSided (map mirror ls)
IsOneSided-mirror [] h = tt
IsOneSided-mirror (l ∷ ls) h = (turn l h.0, IsOneSided-mirror ls h.1)

IsUsable-mirror :
    (accounts : List Account) (ls : List JournalLine)
    → All (IsUsable accounts) ls
    → All (IsUsable accounts) (map mirror ls)
unfolding mirror
IsUsable-mirror accounts [] h = tt
IsUsable-mirror accounts (l ∷ ls) h = (h.0, IsUsable-mirror accounts ls h.1)

found_reverse :
    (now : Clock) (id : ℕ) (date memo : Str) (b : Books) (orig : JournalEntry)
    → get_entry id b.entries ≡ some orig
    → reverse now id date memo b ≡ post now (reversal now date memo orig) b
unfolding reverse
found_reverse now id date memo b orig h = rw h refl

-- A reversal that succeeds names the entry it reverses, and puts on each side of each account what that
-- entry put on the other side.
pub reverse-cancels :
    (now : Clock) (id : ℕ) (date memo : Str) (b : Books) (orig : JournalEntry)
    (r : JournalEntry × Books)
    → get_entry id b.entries ≡ some orig
    → reverse now id date memo b ≡ ok r
    → (r.0.reverses_id ≡ orig.id)
      × ((a : ℕ)
          → (debits_of a r.0.lines ≡ credits_of a orig.lines)
            × (credits_of a r.0.lines ≡ debits_of a orig.lines))
unfolding stored filled reversal
reverse-cancels now id date memo b orig r h k =
    let p =
      (post_iff now (reversal now date memo orig) b r).0
        (sym (found_reverse now id date memo b orig h) ∙ k) in
    rw (p.1) (refl, λ a. swapped a 0 orig.lines)

manual_same : (s : JournalSource) → source_valid s ≡ true → or_manual s ≡ s
unfolding source_valid
manual_same s h = ground arith

today_same : (now : Clock) (date : Str) → valid_date date ≡ ok tt → or_today now date ≡ date
unfolding valid_date
today_same now [] h = ground arith
today_same now (c ∷ cs) h = refl

reversal-IsPostable :
    (now : Clock) (date memo : Str) (b : Books) (orig : JournalEntry)
    → IsSound b.accounts b.next_entry orig
    → All (IsUsable b.accounts) orig.lines
    → valid_date date ≡ ok tt
    → lock_covering date b.periods ≡ none
    → IsPostable (filled now (reversal now date memo orig)) b
unfolding filled reversal balanced total
reversal-IsPostable now date memo b orig s u v o = record {
  dated = rw (today_same now date v, today_same now date v) v;
  sourced = rw (manual_same orig.source_type s.sourced) s.sourced;
  is_open = rw (today_same now date v, today_same now date v) o;
  two_lines = rw (length-map mirror orig.lines) s.two_lines;
  sided = IsOneSided-mirror orig.lines s.sided;
  accounts_usable = IsUsable-mirror b.accounts orig.lines u;
  balances =
      debits-mirror (pos 0) orig.lines
      ∙ sym ((int_beq_iff _ _).0 s.balances)
      ∙ sym (credits-mirror (pos 0) orig.lines);
  worth =
      λ q. s.worth ((int_beq_iff _ _).0 s.balances ∙ sym (debits-mirror (pos 0) orig.lines) ∙ q);
}

-- A sound entry whose accounts are all open can be reversed on any real date that no locked period covers.
pub reverse-succeeds :
    (now : Clock) (id : ℕ) (date memo : Str) (b : Books) (orig : JournalEntry)
    → get_entry id b.entries ≡ some orig
    → IsSound b.accounts b.next_entry orig
    → All (IsUsable b.accounts) orig.lines
    → valid_date date ≡ ok tt
    → lock_covering date b.periods ≡ none
    → (r : JournalEntry × Books) × (reverse now id date memo b ≡ ok r)
reverse-succeeds now id date memo b orig h s u v o = (
  _,
  found_reverse now id date memo b orig h
      ∙ (post_iff now (reversal now date memo orig) b _).1
          (reversal-IsPostable now date memo b orig s u v o, refl),
)
