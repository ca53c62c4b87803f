-- ===== src/Accounting/Documents/Pay.antt =====
-- internal/accounting/payment.go RecordPayment and DeletePayment, and RecalcInvoicePayments of
-- internal/accounting/invoice_repo.go. A payment's entry gets the payment's id for its source in the
-- transaction that writes both.
use wintermute.Prelude.{
  ℕ, suc, Bool, true, false, not, Option, none, some, List, [], ◌∷◌, ◌++◌, nat_beq, ◌==◌, nat_eq,
  if◌then◌else◌, Result, ok, err, refuse_if, ◌>>=◌, ◌>>◌,
}
use wintermute.Prelude.Int.{pos, ltb_ℤ, leb_ℤ}
use wintermute.Prelude.Str.{Str, codes, str_eq, trim_space}
use wintermute.Accounting.Money.{Money}
use wintermute.Accounting.Model.{
  AccountType, asset, Account, payment, JournalEntry, JournalLine, Books, Clock, get_account,
}
use wintermute.Accounting.Date.{valid_date}
use wintermute.Accounting.Ledger.{check_period_open, post_entry, or_today}
use wintermute.Accounting.Invoice.{
  InvoiceStatus, draft, issued, part_paid, paid_up, void, Invoice, outstanding, payment_status,
  by_key,
}
use wintermute.Accounting.Reports.{sql_sum}
use wintermute.Accounting.Documents.{
  Payment, Desk, DocFault, no_document, still_draft, no_invoice, is_void, paid_in_full,
  not_positive, overpaid, no_deposit, deposit_wrong, lift, get_invoice, update_invoice, with_name,
}
use wintermute.Accounting.Documents.Steps.{undo_entry}

-- The amounts of an invoice's payments.
unfoldable pub amounts : ℕ → List Payment → List Money
amounts id [] = []
amounts id (p ∷ ps) =
    let rest = amounts id ps in if p.invoice_id == id then p.amount ∷ rest else rest

abbrev pub settled : Money → Invoice → Invoice
settled paid i = record i { paid = paid; status = payment_status i.status paid i.total }

-- `RecalcInvoicePayments`
unfoldable pub recalc : ℕ → Desk → Result DocFault Desk
recalc id d = get_invoice id d >>= λ (inv : Invoice).
    lift (sql_sum (pos 0) (amounts id d.payments)) >>= λ (paid : Money).
    ok (record d { invoices = update_invoice id (settled paid) d.invoices })

-- The refusals of `RecordPayment` for the amount, and for the status.
abbrev pub amount_check : Invoice → Money → Result DocFault (Unit {0})
amount_check inv amount =
    refuse_if (leb_ℤ amount (pos 0)) not_positive
    >> refuse_if (ltb_ℤ (outstanding inv) amount) (overpaid amount (outstanding inv) inv.number)

abbrev pub pay_check : Invoice → Money → InvoiceStatus → Result DocFault (Unit {0})
pay_check inv amount draft = err still_draft
pay_check inv amount void = err (is_void inv.number)
pay_check inv amount paid_up = err (paid_in_full inv.number)
pay_check inv amount issued = amount_check inv amount
pay_check inv amount part_paid = amount_check inv amount

unfoldable pub may_pay : Invoice → Money → Result DocFault (Unit {0})
may_pay inv amount = pay_check inv amount inv.status

is_asset : AccountType → Bool
is_asset asset = true
is_asset _ = false

-- The account that the money lands in.
unfoldable pub deposit_of : ℕ → List Account → Result DocFault Account
unfolding is_asset
deposit_of id accounts =
    (if nat_beq id 0
      then lift (by_key (codes "bank") accounts) >>= (λ (b : Account). ok b.id)
      else ok id)
    >>= λ (account : ℕ). go account (get_account account accounts)
  where
    go : ℕ → Option Account → Result DocFault Account
    go account none = err (no_deposit account)
    go account (some a) = refuse_if (not (is_asset a.type)) (deposit_wrong a.code a.type) >> ok a

abbrev pub or_bank : Str → Str
or_bank [] = codes "bank"
or_bank (c ∷ cs) = c ∷ cs

unfoldable pub payment_entry : Payment → Str → ℕ → ℕ → JournalEntry
payment_entry p memo ar id = record {
  id = 0;
  entry_date = p.paid_on;
  memo = memo;
  source_type = payment;
  source_id = id;
  reverses_id = 0;
  created_at = p.created_at;
  lines = line p.deposit_account p.amount (pos 0) ∷ line ar (pos 0) p.amount ∷ [];
}
  where
    line : ℕ → Money → Money → JournalLine
    line account d c = record {
      account_id = account;
      debit = d;
      credit = c;
      description = memo;
      ordinal = 0;
    }

-- The row with the id is there.
unfoldable pub find_payment : ℕ → List Payment → Option Payment
find_payment id [] = none
find_payment id (p ∷ rest) =
    let found = find_payment id rest in if p.id == id then some p else found

-- `GetPayment`, without the names that it joins in.
unfoldable pub get_payment : ℕ → Desk → Result DocFault Payment
get_payment id d = go (find_payment id d.payments)
  where
    go : Option Payment → Result DocFault Payment
    go none = err no_document
    go (some p) = ok p

-- The call of `RecalcInvoicePayments` comes after the rows are committed: when it fails, they stay.
abbrev pub counted {ℓ} : {A : Type ℓ} → A → Desk → Result DocFault Desk → Result DocFault A × Desk
counted a d (ok d') = (ok a, d')
counted a d (err f) = (err f, d)

unfoldable pub recount {ℓ} : {A : Type ℓ} → A → ℕ → Desk → Result DocFault A × Desk
recount a id d = counted a d (recalc id d)

-- The repository's RecordPayment: the outer result refuses, and nothing is written.
unfoldable pub store_payment :
    Payment → Str → ℕ → Desk → Result DocFault (Result DocFault Payment × Desk)
store_payment p memo ar d =
    lift (post_entry (payment_entry p memo ar d.next_payment) d.books)
    >>= λ (posted : JournalEntry × Books).
        let p' = record p { id = d.next_payment; journal_entry = posted.0.id } in
        ok (
          recount p' p.invoice_id (record d {
            books = posted.1;
            payments = d.payments ++ (p' ∷ []);
            next_payment = suc d.next_payment;
          }))

abbrev pub found_invoice : ℕ → Result DocFault Invoice → Result DocFault Invoice
found_invoice id (ok inv) = ok inv
found_invoice id (err f) = err (no_invoice id)

-- The service's RecordPayment.
unfoldable pub record_payment :
    Clock → Payment → Desk → Result DocFault (Result DocFault Payment × Desk)
record_payment now p d =
    found_invoice p.invoice_id (get_invoice p.invoice_id d) >>= λ (inv : Invoice).
    let day = or_today now p.paid_on in
    let memo = with_name (codes "Payment for " ++ inv.number) inv.client_name in
    may_pay inv p.amount
    >> lift (valid_date day)
    >> lift (check_period_open day d.books)
    >> deposit_of p.deposit_account d.books.accounts
    >>= λ (deposit : Account). lift (by_key (codes "ar") d.books.accounts) >>= λ (ar : Account).
        store_payment
          (record p {
            paid_on = day;
            deposit_account = deposit.id;
            method = or_bank (trim_space p.method);
            reference = trim_space p.reference;
            created_at = now.stamp;
          })
          memo ar.id d

-- DELETE FROM acct_payments WHERE id = ?; an id is one row's.
unfoldable pub without_payment : ℕ → List Payment → List Payment
without_payment id [] = []
without_payment id (p ∷ ps) =
    let rest = without_payment id ps in if p.id == id then ps else p ∷ rest

abbrev pub number_of : Result DocFault Invoice → Str
number_of (ok inv) = inv.number
number_of (err f) = []

-- The service's DeletePayment, with the repository's.
unfoldable pub delete_payment :
    Clock → ℕ → Desk → Result DocFault (Result DocFault (Unit {0}) × Desk)
delete_payment now id d = get_payment id d >>= λ (p : Payment).
    lift (check_period_open p.paid_on d.books)
    >> undo_entry now p.journal_entry
        (codes "Reversal of payment for " ++ number_of (get_invoice p.invoice_id d)) d
    >>= λ (d' : Desk).
        ok (recount tt p.invoice_id (record d' { payments = without_payment id d'.payments }))
