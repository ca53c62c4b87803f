-- ===== src/Accounting/Reports/Volume.antt =====
-- reports_repo.go: what the lines of a window add up to, and each account's share of it, exactly.
use wintermute.Prelude.{
  ℕ, ◌+◌, ◌≤◌, ◌≡◌, refl, sym, subst, ◌∙◌, inl, inr, Bool-cases, if_intro, false, none, some, List,
  [], ◌∷◌, ◌++◌, All, arith, ◌==◌, nat_eq, if◌then◌else◌,
}
use wintermute.Prelude.Int.{pos_part}
use wintermute.Prelude.Str.{Str, ltb_str}
use wintermute.Accounting.Money.{Money}
use wintermute.Accounting.Model.{Account, JournalEntry, JournalLine, get_account}
use wintermute.Accounting.Ledger.Journal.{IsKnown}
use wintermute.Accounting.Reports.{in_window, window_lines, insert_by_code, sort_by_code}

-- No id twice, as PRIMARY KEY demands.
abbrev pub HasDistinctIds : List Account → Type 0
HasDistinctIds [] = Unit
HasDistinctIds (a ∷ rest) = (get_account a.id rest ≡ none) × HasDistinctIds rest

-- The amounts of one side of the lines, added up exactly.
unfoldable pub sum_side : (JournalLine → Money) → List JournalLine → ℕ
sum_side side [] = 0
sum_side side (l ∷ ls) = pos_part (side l) + sum_side side ls

unfoldable pub volume : (JournalLine → Money) → List JournalEntry → ℕ
volume side [] = 0
volume side (e ∷ es) = sum_side side e.lines + volume side es

-- What of it is an account's.
unfoldable pub share : (JournalLine → Money) → ℕ → List JournalLine → ℕ
share side id [] = 0
share side id (l ∷ ls) =
    let rest = share side id ls in if l.account_id == id then pos_part (side l) + rest else rest

unfoldable pub shares : (JournalLine → Money) → List JournalLine → List Account → ℕ
shares side ls [] = 0
shares side ls (a ∷ rest) = share side a.id ls + shares side ls rest

pub sum_side-append :
    (side : JournalLine → Money) (xs ys : List JournalLine)
    → sum_side side (xs ++ ys) ≡ sum_side side xs + sum_side side ys
unfolding sum_side
sum_side-append side [] ys = omega arith
sum_side-append side (l ∷ xs) ys = omega (arith, sum_side-append side xs ys)

pub window-le :
    (side : JournalLine → Money) (from to : Str) (es : List JournalEntry)
    → sum_side side (window_lines from to es) ≤ volume side es
unfolding window_lines volume sum_side
window-le side from to [] = omega arith
window-le side from to (e ∷ es) =
    let rest = window-le side from to es in
    if_intro (λ (ls : List JournalLine). sum_side side ls ≤ sum_side side e.lines + volume side es)
      (in_window from to e.entry_date)
      (omega (arith, rest, sum_side-append side e.lines (window_lines from to es)))
      (omega (arith, rest))

pub share-le :
    (side : JournalLine → Money) (id : ℕ) (ls : List JournalLine)
    → share side id ls ≤ sum_side side ls
unfolding share sum_side
share-le side id [] = omega arith
share-le side id (l ∷ ls) =
    let rest = share-le side id ls in
    if_intro (λ (n : ℕ). n ≤ pos_part (side l) + sum_side side ls) (l.account_id == id)
      (omega (arith, rest)) (omega (arith, rest))

-- An account that the chart has once takes all of a line, and one that it has not takes nothing.
taken : ℕ → ℕ → List Account → ℕ
taken id x [] = 0
taken id x (a ∷ rest) = (if id == a.id then x else 0) + taken id x rest

taken_absent :
    (id x : ℕ) (chart : List Account) → get_account id chart ≡ none → taken id x chart ≡ 0
unfolding taken get_account
taken_absent id x [] h = refl
taken_absent id x (a ∷ rest) h = ground (arith, taken_absent id x rest)

get_other :
    (id : ℕ) (b : Account) (rest : List Account)
    → (b.id == id) ≡ false
    → get_account id (b ∷ rest) ≡ get_account id rest
unfolding get_account
get_other id b rest e = rw e refl

taken_one :
    (id x : ℕ) (chart : List Account) (a : Account)
    → HasDistinctIds chart
    → get_account id chart ≡ some a
    → taken id x chart ≡ x
unfolding taken get_account
taken_one id x [] a d h = ground arith
taken_one id x (b ∷ rest) a d h = elim (Bool-cases (b.id == id)) [
  | inl e ↦
      let same : (b.id ≡ id) = ground arith in
      let none_left =
        taken_absent id x rest (subst (λ (k : ℕ). get_account k rest ≡ none) same d.0) in
      ground (arith, none_left, same)
  | inr e ↦
      let there : (get_account id rest ≡ some a) = sym (get_other id b rest e) ∙ h in
      ground (arith, taken_one id x rest a d.1 there)
]

shares-cons :
    (side : JournalLine → Money) (l : JournalLine) (ls : List JournalLine) (chart : List Account)
    → shares side (l ∷ ls) chart
      ≡ taken l.account_id (pos_part (side l)) chart + shares side ls chart
unfolding shares taken share
shares-cons side l ls [] = refl
shares-cons side l ls (a ∷ rest) = ground (arith, shares-cons side l ls rest)

shares_nil : (side : JournalLine → Money) (chart : List Account) → shares side [] chart ≡ 0
unfolding shares share
shares_nil side [] = refl
shares_nil side (a ∷ rest) = omega (arith, shares_nil side rest)

-- Every line is some account's: the shares add up to the whole.
pub shares_whole :
    (side : JournalLine → Money) (chart : List Account) (ls : List JournalLine)
    → HasDistinctIds chart
    → All (IsKnown chart) ls
    → shares side ls chart ≡ sum_side side ls
unfolding sum_side
shares_whole side chart [] d h = shares_nil side chart
shares_whole side chart (l ∷ ls) d h = omega (
  arith,
  shares-cons side l ls chart,
  taken_one l.account_id (pos_part (side l)) chart h.0.0 d h.0.1,
  shares_whole side chart ls d h.1,
)

shares-insert :
    (side : JournalLine → Money) (ls : List JournalLine) (a : Account) (bs : List Account)
    → shares side ls (insert_by_code a bs) ≡ share side a.id ls + shares side ls bs
unfolding shares insert_by_code
shares-insert side ls a [] = refl
shares-insert side ls a (b ∷ bs) =
    if_intro
      (λ (x : List Account).
        shares side ls x ≡ share side a.id ls + (share side b.id ls + shares side ls bs))
      (ltb_str b.code a.code) (omega (arith, shares-insert side ls a bs)) refl

pub shares-sort :
    (side : JournalLine → Money) (ls : List JournalLine) (chart : List Account)
    → shares side ls (sort_by_code chart) ≡ shares side ls chart
unfolding shares sort_by_code
shares-sort side ls [] = refl
shares-sort side ls (a ∷ rest) =
    omega (arith, shares-insert side ls a (sort_by_code rest), shares-sort side ls rest)
