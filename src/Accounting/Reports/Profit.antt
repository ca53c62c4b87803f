-- ===== src/Accounting/Reports/Profit.antt =====
-- reports.go: the profit that ProfitAndLoss states is the earnings that BalanceSheet carries.
use mathlib.Core.List.{foldl}
use wintermute.Prelude.{
  ◌≡◌, refl, sym, ap, subst, ◌∙◌, inl, inr, Bool-cases, true, List, [], ◌∷◌, arith, ok,
}
use wintermute.Prelude.Int.{pos, int_beq, int_beq_iff, ◌+ℤ◌}
use wintermute.Prelude.Int64.{
  add64, sub64, neg64, residue-lt, residue-sub, residue-sub64, zero_residue, residue-add, wrap,
  wrap_eq, wrap_of_IsInt64, IsInt64, wrap-IsInt64,
}
use wintermute.Prelude.Str.{Str}
use wintermute.Prelude.Results.{bind-ok, seq-ok, ok_inj}
use wintermute.Accounting.Money.{Money}
use wintermute.Accounting.Model.{
  AccountType, asset, liability, equity, income, expense, Books, Clock,
}
use wintermute.Accounting.Date.{valid_date}
use wintermute.Accounting.Ledger.{or_today}
use wintermute.Accounting.Reports.{
  Balance, ProfitAndLoss, balances, date_floor, date_ceiling, bound_or, profit_turn, profit_step,
  empty_profit, closed_profit, profit_and_loss,
}
use wintermute.Accounting.Reports.Sheet.{
  BalanceSheet, Tally, sheet_turn, sheet_step, empty_tally, closed_sheet, balance_sheet,
}

-- The report and the sheet have seen the same income and the same expenses.
abbrev Agree : ProfitAndLoss → Tally → Type 0
Agree p t =
    (p.total_income ≡ t.income_sum)
    × (p.total_expenses ≡ t.expense_sum)
    × IsInt64 p.total_income
    × IsInt64 p.total_expenses

-- A difference negated is the difference the other way round.
neg64-sub64 : (d c : Money) → neg64 (sub64 d c) ≡ sub64 c d
unfolding neg64 sub64
neg64-sub64 d c = wrap_eq _ _ (
    omega (
      arith,
      residue-sub (pos 0) (sub64 d c),
      residue-sub64 d c,
      residue-sub c d,
      zero_residue,
      residue-lt d,
      residue-lt c,
    ))

add64_zero :
    (total net : Money) → IsInt64 total → int_beq net (pos 0) ≡ true → add64 total net ≡ total
unfolding add64
add64_zero total net h e =
    ap (λ x. wrap (total +ℤ x)) ((int_beq_iff net (pos 0)).0 e)
    ∙ wrap_eq _ _ (omega (arith, residue-add total (pos 0), zero_residue, residue-lt total))
    ∙ wrap_of_IsInt64 total h

turn-Agree :
    (type : AccountType) (b : Balance) (p : ProfitAndLoss) (t : Tally)
    → Agree p t
    → Agree
        (profit_turn type p b)
        (sheet_turn type b.account (sub64 b.debit_total b.credit_total) t)
unfolding add64
turn-Agree asset b p t h = h
turn-Agree liability b p t h = h
turn-Agree equity b p t h = h
turn-Agree income b p t h =
    let amount = sub64 b.credit_total b.debit_total in
    let same = neg64-sub64 b.debit_total b.credit_total in
    elim (Bool-cases (int_beq amount (pos 0))) [
      | inl e ↦
          rw (e, same)
            (h.0 ∙ sym (add64_zero t.income_sum amount (subst IsInt64 h.0 h.2) e), h.1, h.2, h.3)
      | inr e ↦
          rw (e, same)
            (ap (λ x. add64 x amount) h.0, h.1, wrap-IsInt64 (p.total_income +ℤ amount), h.3)
    ]
turn-Agree expense b p t h =
    let amount = sub64 b.debit_total b.credit_total in
    elim (Bool-cases (int_beq amount (pos 0))) [
      | inl e ↦
          rw e
            (h.0, h.1 ∙ sym (add64_zero t.expense_sum amount (subst IsInt64 h.1 h.3) e), h.2, h.3)
      | inr e ↦
          rw e (h.0, ap (λ x. add64 x amount) h.1, h.2, wrap-IsInt64 (p.total_expenses +ℤ amount))
    ]

fold-Agree :
    (p : ProfitAndLoss) (t : Tally) (bs : List Balance)
    → Agree p t
    → Agree (foldl profit_step p bs) (foldl sheet_step t bs)
unfolding profit_step sheet_step
fold-Agree p t [] h = h
fold-Agree p t (b ∷ bs) h =
    fold-Agree (profit_step p b) (sheet_step t b) bs (turn-Agree b.account.type b p t h)

-- A real date is not the empty text, so the bound is the date itself.
bound_lem : (d day : Str) → valid_date day ≡ ok tt → bound_or d day ≡ day
unfolding valid_date
bound_lem d [] h = ground arith
bound_lem d (c ∷ cs) h = refl

-- Where BalanceSheet returns a sheet, ProfitAndLoss with no start and the same last day returns a report, and
-- the net profit of the one is the current earnings of the other.
pub balance_sheet-profit_and_loss :
    (now : Clock) (as_of : Str) (b : Books) (s : BalanceSheet)
    → balance_sheet now as_of b ≡ ok s
    → (p : ProfitAndLoss) × (profit_and_loss [] (or_today now as_of) b ≡ ok p)
      × (p.net_profit ≡ s.current_earnings)
unfolding balance_sheet profit_and_loss closed_sheet
balance_sheet-profit_and_loss now as_of b s h =
    let day = or_today now as_of in
    let found = bind-ok _ _ s h in
    let dated = seq-ok (valid_date day) (balances date_floor day b) found.0 found.1 in
    let p = closed_profit (foldl profit_step (empty_profit date_floor day) found.0) in
    let same =
      fold-Agree (empty_profit date_floor day) (empty_tally day) found.0
        (refl, refl, (omega arith, omega arith), (omega arith, omega arith)) in
    (
      p,
      rw (bound_lem date_ceiling day dated.0, dated.1) refl,
      subst (λ (x : BalanceSheet). p.net_profit ≡ x.current_earnings) (ok_inj found.2)
          (ap (λ x. sub64 x p.total_expenses) same.0
            ∙ ap (sub64 (foldl sheet_step (empty_tally day) found.0).income_sum) same.1),
    )
