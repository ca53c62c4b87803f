-- ===== src/Accounting/Reports/Tests.antt =====
-- internal/accounting/reports.go: the reports on a journal of one sale.
use wintermute.Prelude.{◌≡◌, refl, true, [], ◌∷◌, arith, ok}
use wintermute.Prelude.Int.{pos, ◌+ℤ◌, ◌-ℤ◌}
use wintermute.Prelude.Int64.{add64, sub64, neg64, wrap, residue, signed}
use wintermute.Prelude.Str.{codes, ltb_str}
use wintermute.Accounting.Model.{get_account, debit_normal}
use wintermute.Accounting.Date.{valid_date, parses, real_day, days_in}
use wintermute.Accounting.Ledger.Journal.{IsSoundBooks}
use wintermute.Accounting.Tests.{bank, books, clock, sale-IsSound}
use wintermute.Accounting.Reports.{
  TrialBalance, ProfitAndLoss, trial_balance, profit_and_loss, balances, balances_of, balance_of,
  sql_sum, side_of, window_lines, sort_by_code, insert_by_code, report_line,
}
use wintermute.Accounting.Reports.Sheet.{BalanceSheet, balance_sheet, sheet_step, closed_sheet}
use wintermute.Accounting.Reports.Volume.{HasDistinctIds, sum_side, volume}
use wintermute.Accounting.Reports.Exact.{Fits}
use wintermute.Accounting.Reports.Trial.{trial_balance-balanced}
use wintermute.Accounting.Reports.Position.{balance_sheet-balanced}
use wintermute.Accounting.Reports.Profit.{balance_sheet-profit_and_loss}

books-HasDistinctIds : HasDistinctIds books.accounts
unfolding get_account
books-HasDistinctIds = (refl, (refl, (refl, (refl, tt))))

books-Fits : Fits books
unfolding volume sum_side
books-Fits = record { debits_fit = omega arith; credits_fit = omega arith }

books_sound : IsSoundBooks books
books_sound = (sale-IsSound, tt)

leap_day : valid_date (codes "2024-02-29") ≡ ok tt
unfolding valid_date parses real_day days_in
leap_day = refl

trial_balance-balanced_example :
    (t : TrialBalance) × (trial_balance [] (codes "2024-12-31") books ≡ ok t) × (t.balanced ≡ true)
trial_balance-balanced_example =
    trial_balance-balanced [] (codes "2024-12-31") books books_sound books-HasDistinctIds books-Fits

balance_sheet-balanced_example :
    (s : BalanceSheet) × (balance_sheet clock (codes "2024-02-29") books ≡ ok s)
    × (s.balanced ≡ true)
balance_sheet-balanced_example =
    balance_sheet-balanced clock (codes "2024-02-29") books books_sound books-HasDistinctIds
      books-Fits leap_day

the_sheet : BalanceSheet
the_sheet = record {
  as_of = codes "2024-02-29";
  asset_lines = report_line bank (pos 500) ∷ [];
  liability_lines = [];
  equity_lines = [];
  total_assets = pos 500;
  total_liabilities = pos 0;
  total_equity = pos 0;
  current_earnings = pos 500;
  balanced = true;
}

sheet_runs : balance_sheet clock (codes "2024-02-29") books ≡ ok the_sheet
unfolding balance_sheet the_sheet valid_date parses real_day days_in balances window_lines
    sort_by_code insert_by_code balances_of balance_of sql_sum side_of sheet_step closed_sheet
    ltb_str add64 sub64 neg64 wrap residue signed ◌+ℤ◌ ◌-ℤ◌ debit_normal
sheet_runs = refl

balance_sheet-profit_and_loss_example :
    (p : ProfitAndLoss) × (profit_and_loss [] (codes "2024-02-29") books ≡ ok p)
    × (p.net_profit ≡ the_sheet.current_earnings)
balance_sheet-profit_and_loss_example =
    balance_sheet-profit_and_loss clock (codes "2024-02-29") books the_sheet sheet_runs
