-- ===== src/Accounting/Reports/Position.antt =====
-- reports.go: the balance sheet of a sound journal balances.
use mathlib.Core.List.{foldl}
use wintermute.Prelude.{
  ℕ, ◌+◌, ◌-◌, ◌%◌, ◌<◌, ◌≡◌, refl, ap, ◌∙◌, inl, inr, Bool-cases, if_intro, true, List, [], ◌∷◌,
  arith, ok,
}
use wintermute.Prelude.Int.{ℤ, pos, int_beq, int_beq_iff, ◌+ℤ◌}
use wintermute.Prelude.Int64.{
  two64, add64, sub64, neg64, residue, residue-lt, residue-add64, residue-sub64, residue-neg64,
  zero_residue, IsInt64, wrap-IsInt64, same_int64,
}
use wintermute.Prelude.Str.{Str}
use wintermute.Accounting.Money.{Money}
use wintermute.Accounting.Model.{
  AccountType, asset, liability, equity, income, expense, Account, Books, Clock,
}
use wintermute.Accounting.Date.{valid_date}
use wintermute.Accounting.Ledger.{or_today}
use wintermute.Accounting.Ledger.Journal.{IsSoundBooks}
use wintermute.Accounting.Reports.{Balance, date_floor}
use wintermute.Accounting.Reports.Sheet.{
  BalanceSheet, Tally, sheet_turn, sheet_step, empty_tally, closed_sheet, balance_sheet,
}
use wintermute.Accounting.Reports.Volume.{HasDistinctIds}
use wintermute.Accounting.Reports.Exact.{Fits, IsEven, debit_residues, credit_residues, balances_ok}

-- What the accounts seen so far hold: debits `d`, credits `c`.
abbrev Tracks : ℕ → ℕ → Tally → Type 0
Tracks d c t =
    (residue t.sheet.total_assets + residue t.expense_sum + c) % two64
    ≡ (residue t.sheet.total_liabilities + residue t.sheet.total_equity + residue t.income_sum + d)
      % two64

zero_net : (net : ℤ) → int_beq net (pos 0) ≡ true → residue net ≡ 0
zero_net net h = ap residue ((int_beq_iff net (pos 0)).0 h) ∙ zero_residue

sheet_turn-Tracks :
    (type : AccountType) (a : Account) (d c x y : ℕ) (net : Money) (t : Tally)
    → Tracks d c t
    → residue net ≡ (x + (two64 - y)) % two64
    → y < two64
    → Tracks (d + x) (c + y) (sheet_turn type a net t)
sheet_turn-Tracks asset a d c x y net t h k l = elim (Bool-cases (int_beq net (pos 0))) [
  | inl e ↦ rw e (omega (arith, h, k, l, zero_net net e))
  | inr e ↦ rw e (omega (arith, h, k, l, residue-add64 t.sheet.total_assets net))
]
sheet_turn-Tracks liability a d c x y net t h k l =
    elim (Bool-cases (int_beq (neg64 net) (pos 0))) [
      | inl e ↦
          rw e (omega (arith, h, k, l, residue-neg64 net, residue-lt net, zero_net (neg64 net) e))
      | inr e ↦ rw e (
          omega (
            arith,
            h,
            k,
            l,
            residue-neg64 net,
            residue-lt net,
            residue-add64 t.sheet.total_liabilities (neg64 net),
          ))
    ]
sheet_turn-Tracks equity a d c x y net t h k l = elim (Bool-cases (int_beq (neg64 net) (pos 0))) [
  | inl e ↦ rw e (omega (arith, h, k, l, residue-neg64 net, residue-lt net, zero_net (neg64 net) e))
  | inr e ↦ rw e (
      omega (
        arith,
        h,
        k,
        l,
        residue-neg64 net,
        residue-lt net,
        residue-add64 t.sheet.total_equity (neg64 net),
      ))
]
sheet_turn-Tracks income a d c x y net t h k l =
    omega
      (arith, h, k, l, residue-add64 t.income_sum (neg64 net), residue-neg64 net, residue-lt net)
sheet_turn-Tracks expense a d c x y net t h k l =
    omega (arith, h, k, l, residue-add64 t.expense_sum net)

fold-Tracks :
    (d c : ℕ) (t : Tally) (bs : List Balance)
    → Tracks d c t
    → Tracks (d + debit_residues bs) (c + credit_residues bs) (foldl sheet_step t bs)
unfolding debit_residues credit_residues sheet_step
fold-Tracks d c t [] h = omega (arith, h)
fold-Tracks d c t (b ∷ bs) h = omega (
  arith,
  fold-Tracks (d + residue b.debit_total) (c + residue b.credit_total) (sheet_step t b) bs (
      sheet_turn-Tracks b.account.type b.account d c (residue b.debit_total)
        (residue b.credit_total) (sub64 b.debit_total b.credit_total) t h
        (residue-sub64 b.debit_total b.credit_total) (residue-lt b.credit_total)),
)

sheet_turn-IsInt64 :
    (type : AccountType) (a : Account) (net : Money) (t : Tally)
    → IsInt64 t.sheet.total_assets
    → IsInt64 (sheet_turn type a net t).sheet.total_assets
unfolding add64
sheet_turn-IsInt64 asset a net t h =
    if_intro (λ (s : BalanceSheet). IsInt64 s.total_assets) (int_beq net (pos 0)) h
      (wrap-IsInt64 (t.sheet.total_assets +ℤ net))
sheet_turn-IsInt64 liability a net t h =
    if_intro (λ (s : BalanceSheet). IsInt64 s.total_assets) (int_beq (neg64 net) (pos 0)) h h
sheet_turn-IsInt64 equity a net t h =
    if_intro (λ (s : BalanceSheet). IsInt64 s.total_assets) (int_beq (neg64 net) (pos 0)) h h
sheet_turn-IsInt64 income a net t h = h
sheet_turn-IsInt64 expense a net t h = h

fold-IsInt64 :
    (t : Tally) (bs : List Balance)
    → IsInt64 t.sheet.total_assets
    → IsInt64 (foldl sheet_step t bs).sheet.total_assets
unfolding sheet_step
fold-IsInt64 t [] h = h
fold-IsInt64 t (b ∷ bs) h =
    fold-IsInt64 (sheet_step t b) bs (sheet_turn-IsInt64 b.account.type b.account _ t h)

add64-IsInt64 : (a b : ℤ) → IsInt64 (add64 a b)
unfolding add64
add64-IsInt64 a b = wrap-IsInt64 (a +ℤ b)

even_sheet :
    (day : Str) (bs : List Balance)
    → IsEven bs
    → (closed_sheet (foldl sheet_step (empty_tally day) bs)).balanced ≡ true
unfolding closed_sheet residue
even_sheet day bs h =
    let t = foldl sheet_step (empty_tally day) bs in
    let earned = sub64 t.income_sum t.expense_sum in
    let owed = add64 t.sheet.total_liabilities t.sheet.total_equity in
    (int_beq_iff t.sheet.total_assets (add64 owed earned)).1 (
      same_int64 t.sheet.total_assets (add64 owed earned)
        (fold-IsInt64 (empty_tally day) bs (omega arith, omega arith)) (add64-IsInt64 owed earned)
        (omega (
          arith,
          h,
          fold-Tracks 0 0 (empty_tally day) bs refl,
          residue-lt t.sheet.total_assets,
          residue-lt t.income_sum,
          residue-lt t.expense_sum,
          residue-add64 t.sheet.total_liabilities t.sheet.total_equity,
          residue-add64 owed earned,
          residue-sub64 t.income_sum t.expense_sum,
        )))

-- On a sound journal whose debits and whose credits each add up to an int64, over a chart with no id twice,
-- BalanceSheet returns a balance sheet for any real date, or for today where none is given, and its assets
-- are its liabilities, its equity and the earnings not yet closed.
pub balance_sheet-balanced :
    (now : Clock) (as_of : Str) (b : Books)
    → IsSoundBooks b
    → HasDistinctIds b.accounts
    → Fits b
    → valid_date (or_today now as_of) ≡ ok tt
    → (s : BalanceSheet) × (balance_sheet now as_of b ≡ ok s) × (s.balanced ≡ true)
unfolding balance_sheet
balance_sheet-balanced now as_of b h d f v =
    let day = or_today now as_of in
    let found = balances_ok date_floor day b h d f in
    (
      closed_sheet (foldl sheet_step (empty_tally day) found.0),
      rw (v, found.1) refl,
      even_sheet day found.0 found.2,
    )
