-- ===== src/Accounting/Reports.antt =====
-- internal/accounting/reports.go: TrialBalance, ProfitAndLoss and BalanceSheet, over Balances of
-- internal/accounting/reports_repo.go. SUM is SQLite's: it fails where the sum leaves the int64s.
pub mod Volume
pub mod Exact
pub mod Trial
pub mod Sheet
pub mod Position
pub mod Profit
mod Tests
use mathlib.Core.List.{foldl}
use wintermute.Prelude.{
  ℕ, Bool, true, false, not, ◌&&◌, List, [], ◌∷◌, ◌++◌, ltb, leb, ◌==◌, nat_eq, if◌then◌else◌,
  Result, ok, err, ◌>>=◌, ◌>>◌,
}
use wintermute.Prelude.Int.{ℤ, pos, pos_part, neg_part, ◌+ℤ◌, int_beq}
use wintermute.Prelude.Int64.{two63, add64, sub64, neg64}
use wintermute.Prelude.Str.{Str, codes, ltb_str}
use wintermute.Accounting.Money.{Money, is_negative}
use wintermute.Accounting.Money.Text.{money_string}
use wintermute.Accounting.Model.{
  AccountType, asset, liability, equity, income, expense, debit_normal, Account, JournalEntry,
  JournalLine, Books, Clock, Fault, sum_overflow,
}
use wintermute.Accounting.Date.{valid_date}
use wintermute.Accounting.Ledger.{or_today}

-- `Account` with the totals that a balance query fills in.
pub record Balance : Type 0 where
  pub account : Account
  pub debit_total : Money
  pub credit_total : Money
  pub balance : Money

abbrev pub is_int64 : ℤ → Bool
is_int64 z = ltb (pos_part z) two63 && leb (neg_part z) two63

-- COALESCE(SUM(...), 0), from what is summed so far.
unfoldable pub sql_sum : ℤ → List Money → Result Fault Money
sql_sum acc [] = ok acc
sql_sum acc (v ∷ vs) =
    let next = acc +ℤ v in
    let rest = sql_sum next vs in if is_int64 next then rest else err sum_overflow

-- `entry_date >= ? AND entry_date <= ?`, by bytes
abbrev pub in_window : Str → Str → Str → Bool
in_window from to date = not (ltb_str date from) && not (ltb_str to date)

-- The lines of the entries that are dated in the window.
unfoldable pub window_lines : Str → Str → List JournalEntry → List JournalLine
window_lines from to [] = []
window_lines from to (e ∷ es) =
    let rest = window_lines from to es in
    if in_window from to e.entry_date then e.lines ++ rest else rest

-- One side of the lines of an account.
unfoldable pub side_of : (JournalLine → Money) → ℕ → List JournalLine → List Money
side_of side id [] = []
side_of side id (l ∷ ls) =
    let rest = side_of side id ls in if l.account_id == id then side l ∷ rest else rest

unfoldable pub balance_of : List JournalLine → Account → Result Fault Balance
balance_of ls a = sql_sum (pos 0) (side_of (λ l. l.debit) a.id ls) >>= λ d.
    sql_sum (pos 0) (side_of (λ l. l.credit) a.id ls) >>= λ c. ok (record {
      account = a;
      debit_total = d;
      credit_total = c;
      balance = if debit_normal a.type then sub64 d c else sub64 c d;
    })

unfoldable pub balances_of : List JournalLine → List Account → Result Fault (List Balance)
balances_of ls [] = ok []
balances_of ls (a ∷ rest) = balance_of ls a >>= λ b. balances_of ls rest >>= λ bs. ok (b ∷ bs)

-- ORDER BY a.code
unfoldable pub insert_by_code : Account → List Account → List Account
insert_by_code a [] = a ∷ []
insert_by_code a (b ∷ bs) =
    let rest = insert_by_code a bs in if ltb_str b.code a.code then b ∷ rest else a ∷ b ∷ bs

unfoldable pub sort_by_code : List Account → List Account
sort_by_code [] = []
sort_by_code (a ∷ rest) = insert_by_code a (sort_by_code rest)

-- `Balances`
unfoldable pub balances : Str → Str → Books → Result Fault (List Balance)
balances from to b = balances_of (window_lines from to b.entries) (sort_by_code b.accounts)

pub record ReportLine : Type 0 where
  pub account_id : ℕ
  pub code : Str
  pub name : Str
  pub type : AccountType
  pub amount : Money
  pub amount_label : Str

-- `reportLine`
unfoldable pub report_line : Account → Money → ReportLine
report_line a amount = record {
  account_id = a.id;
  code = a.code;
  name = a.name;
  type = a.type;
  amount = amount;
  amount_label = money_string amount;
}

-- `dateFloor` and `dateCeiling`
abbrev pub date_floor : Str
date_floor = codes "0000-01-01"

abbrev pub date_ceiling : Str
date_ceiling = codes "9999-12-31"

-- `boundOrDefault`, one bound at a time.
abbrev pub bound_or : Str → Str → Str
bound_or d [] = d
bound_or d (c ∷ cs) = c ∷ cs

pub record TrialBalanceRow : Type 0 where
  pub account_id : ℕ
  pub code : Str
  pub name : Str
  pub type : AccountType
  pub debit : Money
  pub credit : Money

pub record TrialBalance : Type 0 where
  pub from : Str
  pub to : Str
  pub rows : List TrialBalanceRow
  pub total_debit : Money
  pub total_credit : Money
  pub balanced : Bool

unfoldable pub trial_row : Account → Money → TrialBalanceRow
trial_row a net = record {
  account_id = a.id;
  code = a.code;
  name = a.name;
  type = a.type;
  debit = if is_negative net then pos 0 else net;
  credit = if is_negative net then neg64 net else pos 0;
}

-- One turn of the loop of `TrialBalance`.
unfoldable pub trial_step : TrialBalance → Balance → TrialBalance
trial_step t b =
    let net = sub64 b.debit_total b.credit_total in
    let row = trial_row b.account net in
    if int_beq net (pos 0) then t else record t {
      rows = t.rows ++ (row ∷ []);
      total_debit = add64 t.total_debit row.debit;
      total_credit = add64 t.total_credit row.credit;
    }

abbrev pub closed_trial : TrialBalance → TrialBalance
closed_trial t = record t { balanced = int_beq t.total_debit t.total_credit }

abbrev pub empty_trial : Str → Str → TrialBalance
empty_trial from to = record {
  from = from;
  to = to;
  rows = [];
  total_debit = pos 0;
  total_credit = pos 0;
  balanced = false;
}

-- `TrialBalance`
unfoldable pub trial_balance : Str → Str → Books → Result Fault TrialBalance
trial_balance from to b =
    let from' = bound_or date_floor from in
    let to' = bound_or date_ceiling to in
    balances from' to' b >>= λ bs. ok (closed_trial (foldl trial_step (empty_trial from' to') bs))

pub record ProfitAndLoss : Type 0 where
  pub from : Str
  pub to : Str
  pub income_lines : List ReportLine
  pub expense_lines : List ReportLine
  pub total_income : Money
  pub total_expenses : Money
  pub net_profit : Money

-- One turn of the loop of `ProfitAndLoss`.
abbrev pub profit_turn : AccountType → ProfitAndLoss → Balance → ProfitAndLoss
profit_turn income p b =
    let amount = sub64 b.credit_total b.debit_total in
    if int_beq amount (pos 0) then p else record p {
      income_lines = p.income_lines ++ (report_line b.account amount ∷ []);
      total_income = add64 p.total_income amount;
    }
profit_turn expense p b =
    let amount = sub64 b.debit_total b.credit_total in
    if int_beq amount (pos 0) then p else record p {
      expense_lines = p.expense_lines ++ (report_line b.account amount ∷ []);
      total_expenses = add64 p.total_expenses amount;
    }
profit_turn _ p b = p

unfoldable pub profit_step : ProfitAndLoss → Balance → ProfitAndLoss
profit_step p b = profit_turn b.account.type p b

abbrev pub empty_profit : Str → Str → ProfitAndLoss
empty_profit from to = record {
  from = from;
  to = to;
  income_lines = [];
  expense_lines = [];
  total_income = pos 0;
  total_expenses = pos 0;
  net_profit = pos 0;
}

abbrev pub closed_profit : ProfitAndLoss → ProfitAndLoss
closed_profit p = record p { net_profit = sub64 p.total_income p.total_expenses }

-- `ProfitAndLoss`
unfoldable pub profit_and_loss : Str → Str → Books → Result Fault ProfitAndLoss
profit_and_loss from to b =
    let from' = bound_or date_floor from in
    let to' = bound_or date_ceiling to in
    balances from' to' b >>= λ bs.
    ok (closed_profit (foldl profit_step (empty_profit from' to') bs))
