-- ===== src/Accounting/Tests.antt =====
-- internal/accounting: the theorems at work on a chart of four accounts, with one entry in the journal.
use wintermute.Prelude.{
  ℕ, err, ◌≡◌, ◌≢◌, refl, sym, ◌∙◌, All, ◌↔◌, inl, inr, true, false, none, some, List, [], ◌∷◌,
  ◌++◌, arith, ok,
}
use wintermute.Prelude.Int.{pos, negsuc, ◌*ℤ◌, ◌+ℤ◌, ◌-ℤ◌}
use wintermute.Prelude.Int64.{mul64, wrap, residue, signed, div64, add64, sub64, neg64}
use wintermute.Prelude.Str.{codes, str_eq, str_beq, ltb_str, trim_space}
use wintermute.Accounting.Money.{vat, extend}
use wintermute.Accounting.Money.Rounding.{IsNearest, vat-IsNearest}
use wintermute.Accounting.Money.Text.{
  money_string, parse_money, milli_string, too_many_places, two_places, cut, remove, parse_amount,
  cents_of, abs64, trim_zeros, trim_point,
}
use wintermute.Accounting.Money.Text.Round.{parse_money-money_string}
use wintermute.Prelude.Decimal.{print_int, print_nat, digits, parse_int, read_digits}
use wintermute.Accounting.Model.{
  asset, income, liability, Account, manual, unset_source, JournalLine, JournalEntry, Period,
  Posting, standard, Books, Clock, get_account, get_entry, debits, credits, balanced, total,
  source_valid,
}
use wintermute.Accounting.Date.{valid_date, parses, real_day, days_in}
use wintermute.Accounting.Ledger.{
  post_filled, check_period_open, check_lines, post_entry, insert_lines, line_admitted, reversal,
  mirror, default_memo, post, filled, reverse, lock_period, save_period, lock_covering,
}
use wintermute.Accounting.Ledger.Post.{IsUsable, IsPostable, stored, with_entry, post_iff}
use wintermute.Accounting.Ledger.Journal.{
  Op, do_post, do_reverse, do_lock, run, IsSound, IsSoundBooks, run-appends, run-IsSoundBooks,
}
use wintermute.Accounting.Ledger.Reverse.{debits_of, credits_of, reverse-cancels, reverse-succeeds}
use wintermute.Accounting.Ledger.Lock.{lock_period-closes}
use wintermute.Accounting.Invoice.{
  credit_note, draft, Invoice, InvoiceLine, Pricing, taxed, rate_of, get_rate, check_income,
  price_line, price_lines, price, by_key, invoice_postings, debit_sum, credit_sum,
}
use wintermute.Accounting.Invoice.Balance.{invoice_postings-balance}

abbrev pub bank : Account
bank = record {
  id = 1;
  code = codes "1000";
  name = [];
  type = asset;
  system_key = codes "bank";
  archived = false;
}

abbrev pub receivable : Account
receivable = record bank { id = 2; code = codes "1100"; system_key = codes "ar" }

abbrev pub sales : Account
sales = record bank { id = 3; code = codes "4000"; type = income; system_key = codes "sales" }

abbrev pub vat_owed : Account
vat_owed = record bank {
  id = 4;
  code = codes "2100";
  type = liability;
  system_key = codes "vat_output";
}

abbrev pub line_of : ℕ → ℕ → ℕ → ℕ → JournalLine
line_of account d c i = record {
  account_id = account;
  debit = pos d;
  credit = pos c;
  description = [];
  ordinal = i;
}

abbrev pub sale : JournalEntry
sale = record {
  id = 1;
  entry_date = codes "2024-02-29";
  memo = [];
  source_type = manual;
  source_id = 0;
  reverses_id = 0;
  created_at = codes "t";
  lines = line_of 1 500 0 0 ∷ line_of 3 0 500 1 ∷ [];
}

abbrev pub books : Books
books = record {
  accounts = bank ∷ receivable ∷ sales ∷ vat_owed ∷ [];
  entries = sale ∷ [];
  next_entry = 2;
  periods = [];
  next_period = 1;
}

abbrev pub clock : Clock
clock = record { today = codes "2024-03-01"; stamp = codes "t" }

abbrev new_sale : JournalEntry
new_sale = record sale { id = 0; entry_date = []; source_type = unset_source }

abbrev closed_quarter : Period
closed_quarter = record {
  id = 0;
  starts_on = codes "2024-01-01";
  ends_on = codes "2024-03-31";
  locked = true;
  locked_at = [];
  note = [];
}

vat-IsNearest_example : IsNearest 10000 5000 (pos 333 *ℤ pos 2100) (vat (pos 333) (pos 2100))
unfolding ◌*ℤ◌
vat-IsNearest_example = vat-IsNearest (pos 333) (pos 2100) (omega arith, omega arith)

parse_money-money_string_example : parse_money (money_string (negsuc 123455)) ≡ ok (negsuc 123455)
parse_money-money_string_example =
    parse_money-money_string (negsuc 123455) (omega arith, omega arith)

money_string_runs : money_string (negsuc 5) ≡ codes "-0.06"
unfolding money_string neg64 wrap residue signed ◌-ℤ◌ div64 print_int print_nat digits two_places
money_string_runs = refl

parse_money_runs : parse_money (codes " 1,234.5 ") ≡ ok (pos 123450)
unfolding parse_money trim_space remove cut parse_amount parse_int read_digits cents_of add64 mul64
    wrap residue signed ◌*ℤ◌ ◌+ℤ◌
parse_money_runs = refl

parse_money_refuses : parse_money (codes "1.234") ≡ err (too_many_places (codes "1.234"))
unfolding parse_money trim_space remove cut parse_amount parse_int read_digits cents_of
parse_money_refuses = refl

-- A sign after the point is read as part of the cents.
parse_money_inner_sign : parse_money (codes "1.-5") ≡ ok (pos 95)
unfolding parse_money trim_space remove cut parse_amount parse_int read_digits cents_of add64 mul64
    wrap residue signed ◌*ℤ◌ ◌+ℤ◌
parse_money_inner_sign = refl

-- A whole part that fits but whose hundredfold does not wraps around.
parse_money_wraps : parse_money (codes "184467440737095517") ≡ ok (pos 84)
unfolding parse_money trim_space remove cut parse_amount parse_int read_digits cents_of add64 mul64
    wrap residue signed ◌*ℤ◌ ◌+ℤ◌
parse_money_wraps = refl

-- Half a unit owed prints like half a unit due.
milli_string_sign : milli_string (negsuc 499) ≡ codes "0.5"
unfolding milli_string abs64 neg64 wrap residue signed ◌-ℤ◌ ◌+ℤ◌ div64 print_int print_nat digits
    trim_zeros trim_point
milli_string_sign = refl

vat_runs : vat (pos 333) (pos 2100) ≡ pos 70
unfolding vat mul64 wrap residue signed ◌*ℤ◌ div64 add64 sub64 ◌+ℤ◌ ◌-ℤ◌
vat_runs = refl

sale_total : total sale ≡ pos 500
unfolding total debits add64 wrap residue signed ◌+ℤ◌
sale_total = refl

sale-balanced : balanced sale ≡ true
unfolding balanced debits credits add64 wrap residue signed ◌+ℤ◌
sale-balanced = refl

something : pos 500 ≢ pos 0
something h = cc h

pub sale-IsSound : IsSound books.accounts 2 sale
unfolding get_account source_valid
sale-IsSound = record {
  issued = omega arith;
  sourced = refl;
  two_lines = omega arith;
  sided = ((499, inl (refl, refl)), ((499, inr (refl, refl)), tt));
  known = ((bank, refl), ((sales, refl), tt));
  balances = sale-balanced;
  worth = λ h. something (sym sale_total ∙ h);
}

abbrev posted_sale : JournalEntry
posted_sale = record sale { id = 2; entry_date = codes "2024-03-01" }

abbrev posted : JournalEntry × Books
posted = (posted_sale, record books { entries = sale ∷ posted_sale ∷ []; next_entry = 3 })

post_iff_example : (post clock new_sale books ≡ ok posted) ↔ (
    IsPostable (filled clock new_sale) books
    × (posted ≡ (
      stored clock (filled clock new_sale) books,
      with_entry (stored clock (filled clock new_sale) books) books,
    )))
post_iff_example = post_iff clock new_sale books posted

post_runs : post clock new_sale books ≡ ok posted
unfolding post post_filled filled valid_date parses real_day days_in source_valid check_period_open
    lock_covering check_lines get_account post_entry insert_lines line_admitted trim_space add64
    wrap residue signed ◌+ℤ◌
post_runs = refl

abbrev ops : List (Clock × Op)
ops =
    (clock, do_post new_sale)
    ∷ (clock, do_reverse 1 [] [])
    ∷ (clock, do_lock closed_quarter)
    ∷ (clock, do_post new_sale)
    ∷ []

run-appends_example :
    (added : List JournalEntry) × ((run ops books).entries ≡ books.entries ++ added)
run-appends_example = run-appends ops books

run-IsSoundBooks_example : IsSoundBooks (run ops books)
run-IsSoundBooks_example = run-IsSoundBooks ops books (sale-IsSound, tt)

found_sale : get_entry 1 books.entries ≡ some sale
unfolding get_entry
found_sale = refl

sale-IsUsable : All (IsUsable books.accounts) sale.lines
unfolding get_account
sale-IsUsable = ((bank, refl, refl), ((sales, refl, refl), tt))

dated_sale : valid_date (codes "2024-03-05") ≡ ok tt
unfolding valid_date parses real_day days_in
dated_sale = refl

nothing_locked : lock_covering (codes "2024-03-05") books.periods ≡ none
unfolding lock_covering
nothing_locked = refl

reverse-succeeds_example :
    (r : JournalEntry × Books) × (reverse clock 1 (codes "2024-03-05") [] books ≡ ok r)
reverse-succeeds_example =
    reverse-succeeds clock 1 (codes "2024-03-05") [] books sale found_sale sale-IsSound
      sale-IsUsable dated_sale nothing_locked

abbrev reversed_sale : JournalEntry
reversed_sale = record sale {
  id = 2;
  entry_date = codes "2024-03-05";
  memo = codes "undone";
  reverses_id = 1;
  lines = line_of 1 0 500 0 ∷ line_of 3 500 0 1 ∷ [];
}

abbrev reversed : JournalEntry × Books
reversed = (reversed_sale, record books { entries = sale ∷ reversed_sale ∷ []; next_entry = 3 })

reverse_runs : reverse clock 1 (codes "2024-03-05") (codes "undone") books ≡ ok reversed
unfolding reverse reversal mirror default_memo get_entry post post_filled filled valid_date parses
    real_day days_in source_valid check_period_open lock_covering check_lines get_account post_entry
    insert_lines line_admitted trim_space add64 wrap residue signed ◌+ℤ◌
reverse_runs = refl

reverse-cancels_example :
    (reversed_sale.reverses_id ≡ 1)
    × ((a : ℕ)
        → (debits_of a reversed_sale.lines ≡ credits_of a sale.lines)
          × (credits_of a reversed_sale.lines ≡ debits_of a sale.lines))
reverse-cancels_example =
    reverse-cancels clock 1 (codes "2024-03-05") (codes "undone") books sale reversed found_sale
      reverse_runs

abbrev priced_line : InvoiceLine
priced_line = record {
  description = codes "work";
  quantity = pos 1500;
  unit_price = pos 9000;
  net = pos 13500;
  vat_rate_id = 1;
  vat_rate_bp = pos 2100;
  vat = pos 2835;
  income_account_id = 3;
  time_entry_id = 0;
  expense_id = 0;
  ordinal = 0;
}

abbrev pub priced_invoice : Invoice
priced_invoice = record {
  id = 1;
  kind = credit_note;
  number = [];
  client_id = 1;
  engagement_id = 0;
  status = draft;
  issue_date = codes "2024-03-01";
  due_date = codes "2024-03-15";
  terms_days = pos 14;
  subtotal = pos 13500;
  vat = pos 2835;
  total = pos 16335;
  paid = pos 0;
  reverse_charge = false;
  customer_vat = [];
  bill_to = [];
  notes = [];
  corrects_id = 0;
  journal_entry = 0;
  created_at = [];
  issued_at = [];
  client_name = codes "c";
  lines = priced_line ∷ [];
}

abbrev raw_invoice : Invoice
raw_invoice = record priced_invoice {
  subtotal = pos 0;
  vat = pos 0;
  total = pos 0;
  lines =
      record priced_line {
        net = pos 0;
        vat_rate_id = 0;
        vat_rate_bp = pos 0;
        vat = pos 0;
        income_account_id = 0;
      }
      ∷ [];
}

abbrev pricing : Pricing
pricing = record {
  accounts = books.accounts;
  rates = record { id = 1; rate_bp = pos 2100; kind = standard; archived = false } ∷ [];
  default_rate = 1;
  default_income = 3;
  reversed = none;
}

price_runs : price pricing raw_invoice ≡ ok priced_invoice
unfolding price price_lines price_line taxed rate_of get_rate check_income get_account extend vat
    trim_space mul64 wrap residue signed ◌*ℤ◌ div64 add64 ◌+ℤ◌
price_runs = refl

receivable_key : by_key (codes "ar") books.accounts ≡ ok receivable
unfolding by_key str_beq
receivable_key = refl

vat_key : by_key (codes "vat_output") books.accounts ≡ ok vat_owed
unfolding by_key str_beq
vat_key = refl

invoice_postings-balance_example :
    (ps : List Posting) × (invoice_postings books.accounts priced_invoice ≡ ok ps)
    × (debit_sum (pos 0) ps ≡ credit_sum (pos 0) ps)
invoice_postings-balance_example =
    invoice_postings-balance pricing books.accounts raw_invoice priced_invoice receivable vat_owed
      price_runs receivable_key vat_key

lock_runs :
    lock_period clock closed_quarter books
    ≡ ok (save_period (record closed_quarter { locked_at = codes "t" }) books)
unfolding lock_period valid_date parses real_day days_in ltb_str trim_space
lock_runs = refl

lock_period-closes_example :
    post clock new_sale (save_period (record closed_quarter { locked_at = codes "t" }) books).1
    ≢ ok (sale, books)
unfolding ltb_str
lock_period-closes_example =
    lock_period-closes clock closed_quarter books
      (save_period (record closed_quarter { locked_at = codes "t" }) books) clock new_sale
      (sale, books) refl refl lock_runs refl refl
