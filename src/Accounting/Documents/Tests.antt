-- ===== src/Accounting/Documents/Tests.antt =====
-- internal/accounting/invoice.go and payment.go at work on one draft.
use wintermute.Prelude.{◌≡◌, refl, arith, Result, ok, err, map, List, [], ◌∷◌}
use wintermute.Prelude.Int.{ℤ, pos, ◌+ℤ◌, ◌-ℤ◌, ◌*ℤ◌}
use wintermute.Prelude.Int64.{add64, sub64, neg64, mul64, wrap, residue, signed}
use wintermute.Prelude.Str.{Str, codes, str_eq, str_beq, ltb_str, trim_space}
use wintermute.Prelude.Decimal.{print_nat, digits}
use wintermute.Accounting.Model.{Clock, get_account}
use wintermute.Accounting.Date.{valid_date, parses, real_day, days_in}
use wintermute.Accounting.Ledger.{
  check_period_open, lock_covering, post_entry, insert_lines, line_admitted, posting_lines,
}
use wintermute.Accounting.Invoice.{
  InvoiceKind, invoice, credit_note, InvoiceStatus, part_paid, editable, Invoice, outstanding,
  payment_status, by_key, invoice_postings, all_postings, posting, grouped, add_to, income_postings,
  checked, tax_account, debit_sum, credit_sum,
}
use wintermute.Accounting.Reports.{sql_sum}
use wintermute.Accounting.Tests.{books, clock, priced_invoice}
use wintermute.Accounting.Documents.{
  Sequence, Payment, Desk, DocFault, find_invoice, get_invoice, update_invoice, allocate_number,
  serial, zeros, relabelled, replace_first, after_prefix,
}
use wintermute.Accounting.Documents.Steps.{issue, issue_invoice, issue_entry, taken, time_entries}
use wintermute.Accounting.Documents.Pay.{
  record_payment, store_payment, payment_entry, recount, recalc, amounts, may_pay, deposit_of,
}
use wintermute.Accounting.Documents.Run.{DocOp, do_issue, do_pay, do_void, perform, run_desk}
use wintermute.Accounting.Documents.Allots.{Allots}
use wintermute.Accounting.Documents.Gapless.{run_desk-Allots}
use wintermute.Accounting.Documents.Owed.{owed}
use wintermute.Accounting.Documents.Rows.{IsPaid}
use wintermute.Accounting.Documents.Settled.{record_payment-ok}
use wintermute.Accounting.Documents.Agreed.{run_desk-IsPaid}

abbrev series : InvoiceKind → Sequence
series invoice = record { prefix = codes "INV-"; next_value = 7; padding = 4 }
series credit_note = record { prefix = codes "CN-"; next_value = 1; padding = 4 }

abbrev desk : Desk
desk = record {
  books = books;
  clients = (1, codes "Ada") ∷ [];
  rates = [];
  settings = record { default_terms_days = 14; default_vat_rate = 0 };
  invoices = record priced_invoice { kind = invoice } ∷ [];
  next_invoice = 2;
  sequence = series;
  payments = [];
  next_payment = 1;
  billed = [];
}

abbrev part : Payment
part = record {
  id = 0;
  invoice_id = 1;
  paid_on = [];
  amount = pos 6335;
  method = [];
  reference = [];
  deposit_account = 0;
  journal_entry = 0;
  created_at = [];
}

abbrev calls : List (Clock × DocOp)
calls =
    (clock, do_issue 1) ∷ (clock, do_issue 1) ∷ (clock, do_pay part) ∷ (clock, do_void 1 []) ∷ []

run_desk-Allots_example : Allots invoice desk (run_desk calls desk)
run_desk-Allots_example = run_desk-Allots invoice calls desk

desk-IsPaid : IsPaid desk
unfolding owed payment_status
desk-IsPaid = record {
  rows = (
    record {
      paid_is = refl;
      small = (omega arith, omega arith);
      within = omega arith;
      idle = λ q. refl;
      status_is = refl;
    },
    tt,
  );
  distinct = (tt, tt);
  fresh = (omega arith, tt);
  positive = tt;
  known = tt;
}

run_desk-IsPaid_example : IsPaid (run_desk calls desk)
run_desk-IsPaid_example = run_desk-IsPaid calls desk (tt, (tt, (tt, (tt, tt)))) desk-IsPaid

-- The state once the draft is issued, and what the payment then returns.
abbrev once_issued : Desk
once_issued = run_desk ((clock, do_issue 1) ∷ []) desk

abbrev or_nothing :
    Result DocFault (Result DocFault Payment × Desk) → Result DocFault Payment × Desk
or_nothing (ok r) = r
or_nothing (err f) = (err f, desk)

abbrev paid_once : Result DocFault Payment × Desk
paid_once = or_nothing (record_payment clock part once_issued)

is_paid_once : record_payment clock part once_issued ≡ ok paid_once
unfolding run_desk perform issue get_invoice find_invoice editable check_period_open lock_covering
    invoice_postings by_key str_beq tax_account checked all_postings posting grouped add_to
    income_postings debit_sum credit_sum add64 sub64 neg64 mul64 wrap residue signed ◌+ℤ◌ ◌-ℤ◌ ◌*ℤ◌
    issue_invoice allocate_number serial zeros print_nat digits issue_entry relabelled replace_first
    after_prefix posting_lines post_entry insert_lines line_admitted get_account taken
    update_invoice time_entries record_payment may_pay outstanding valid_date parses real_day
    days_in deposit_of store_payment payment_entry recount recalc amounts sql_sum payment_status
    trim_space ltb_str
is_paid_once = refl

record_payment-ok_example : (q : Payment) × (paid_once.0 ≡ ok q) × (q.invoice_id ≡ part.invoice_id)
record_payment-ok_example =
    record_payment-ok clock part once_issued paid_once
      (run_desk-IsPaid ((clock, do_issue 1) ∷ []) desk (tt, tt) desk-IsPaid) is_paid_once

-- The first call issues the draft, the second is refused, and the payment leaves a part to pay.
abbrev seen : Invoice → Str × InvoiceStatus × ℤ
seen i = (i.number, i.status, i.paid)

calls_run :
    map seen
      (run_desk
        ((clock, do_issue 1) ∷ (clock, do_issue 1) ∷ (clock, do_pay part) ∷ [])
        desk).invoices
    ≡ (codes "INV-0007", part_paid, pos 6335) ∷ []
unfolding run_desk perform issue get_invoice find_invoice editable check_period_open lock_covering
    invoice_postings by_key str_beq tax_account checked all_postings posting grouped add_to
    income_postings debit_sum credit_sum add64 sub64 neg64 mul64 wrap residue signed ◌+ℤ◌ ◌-ℤ◌ ◌*ℤ◌
    issue_invoice allocate_number serial zeros print_nat digits issue_entry relabelled replace_first
    after_prefix posting_lines post_entry insert_lines line_admitted get_account taken
    update_invoice time_entries record_payment may_pay outstanding valid_date parses real_day
    days_in deposit_of store_payment payment_entry recount recalc amounts sql_sum payment_status
    trim_space ltb_str
calls_run = refl
