-- ===== src/Accounting/Reports/Sheet.antt =====
-- internal/accounting/reports.go: BalanceSheet, and that it balances.
use mathlib.Core.List.{foldl}
use wintermute.Prelude.{Bool, false, List, [], ◌∷◌, ◌++◌, if◌then◌else◌, Result, ok, ◌>>=◌, ◌>>◌}
use wintermute.Prelude.Int.{pos, int_beq}
use wintermute.Prelude.Int64.{add64, sub64, neg64}
use wintermute.Prelude.Str.{Str}
use wintermute.Accounting.Money.{Money}
use wintermute.Accounting.Model.{
  AccountType, asset, liability, equity, income, expense, Account, Books, Clock, Fault,
}
use wintermute.Accounting.Date.{valid_date}
use wintermute.Accounting.Ledger.{or_today}
use wintermute.Accounting.Reports.{Balance, ReportLine, report_line, balances, date_floor}

pub record BalanceSheet : Type 0 where
  pub as_of : Str
  pub asset_lines : List ReportLine
  pub liability_lines : List ReportLine
  pub equity_lines : List ReportLine
  pub total_assets : Money
  pub total_liabilities : Money
  pub total_equity : Money
  pub current_earnings : Money
  pub balanced : Bool

-- The variables of `BalanceSheet` while it loops over the accounts.
pub record Tally : Type 0 where
  pub sheet : BalanceSheet
  pub income_sum : Money
  pub expense_sum : Money

abbrev with_asset : Account → Money → BalanceSheet → BalanceSheet
with_asset a net s = if int_beq net (pos 0) then s else record s {
  asset_lines = s.asset_lines ++ (report_line a net ∷ []);
  total_assets = add64 s.total_assets net;
}

abbrev with_liability : Account → Money → BalanceSheet → BalanceSheet
with_liability a net s = if int_beq net (pos 0) then s else record s {
  liability_lines = s.liability_lines ++ (report_line a net ∷ []);
  total_liabilities = add64 s.total_liabilities net;
}

abbrev with_equity : Account → Money → BalanceSheet → BalanceSheet
with_equity a net s = if int_beq net (pos 0) then s else record s {
  equity_lines = s.equity_lines ++ (report_line a net ∷ []);
  total_equity = add64 s.total_equity net;
}

abbrev pub sheet_turn : AccountType → Account → Money → Tally → Tally
sheet_turn asset a debit_net t = record t { sheet = with_asset a debit_net t.sheet }
sheet_turn liability a debit_net t = record t { sheet = with_liability a (neg64 debit_net) t.sheet }
sheet_turn equity a debit_net t = record t { sheet = with_equity a (neg64 debit_net) t.sheet }
sheet_turn income a debit_net t = record t { income_sum = add64 t.income_sum (neg64 debit_net) }
sheet_turn expense a debit_net t = record t { expense_sum = add64 t.expense_sum debit_net }

-- One turn of the loop of `BalanceSheet`.
unfoldable pub sheet_step : Tally → Balance → Tally
sheet_step t b = sheet_turn b.account.type b.account (sub64 b.debit_total b.credit_total) t

abbrev pub empty_tally : Str → Tally
empty_tally as_of = record {
  sheet = record {
    as_of = as_of;
    asset_lines = [];
    liability_lines = [];
    equity_lines = [];
    total_assets = pos 0;
    total_liabilities = pos 0;
    total_equity = pos 0;
    current_earnings = pos 0;
    balanced = false;
  };
  income_sum = pos 0;
  expense_sum = pos 0;
}

-- The current earnings, and whether the sheet balances.
unfoldable pub closed_sheet : Tally → BalanceSheet
closed_sheet t =
    let earned = sub64 t.income_sum t.expense_sum in
    record t.sheet {
      current_earnings = earned;
      balanced =
          int_beq t.sheet.total_assets
            (add64 (add64 t.sheet.total_liabilities t.sheet.total_equity) earned);
    }

-- `BalanceSheet`
unfoldable pub balance_sheet : Clock → Str → Books → Result Fault BalanceSheet
balance_sheet now as_of b =
    let day = or_today now as_of in
    valid_date day >> balances date_floor day b >>= λ bs.
    ok (closed_sheet (foldl sheet_step (empty_tally day) bs))
