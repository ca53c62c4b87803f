-- ===== src/Accounting/Documents/Settled.antt =====
-- payment.go: each payment that is stored or deleted keeps the documents and their payments in agreement.
use wintermute.Prelude.{
  ℕ, suc, ◌+◌, ◌≤◌, ◌<◌, ◌≡◌, refl, sym, ap, subst, ◌∙◌, false, some, [], ◌∷◌, ◌++◌, arith, nat_eq,
  Result, ok, err, ◌>>◌,
}
use wintermute.Prelude.Int.{pos, pos_part}
use wintermute.Prelude.Str.{codes}
use wintermute.Prelude.Results.{bind-ok, seq-ok, ok_inj}
use wintermute.Accounting.Model.{Books, Clock, Fault}
use wintermute.Accounting.Ledger.{check_period_open, or_today}
use wintermute.Accounting.Date.{valid_date}
use wintermute.Accounting.Invoice.{Invoice, by_key}
use wintermute.Accounting.Documents.{Payment, Desk, DocFault, get_invoice, find_invoice, lift}
use wintermute.Accounting.Documents.Pay.{
  recount, may_pay, found_invoice, deposit_of, record_payment, find_payment, get_payment,
  without_payment, delete_payment,
}
use wintermute.Accounting.Documents.Allots.{get_of}
use wintermute.Accounting.Documents.Gaps.{store_of, delete_of}
use wintermute.Accounting.Documents.Owed.{owed, IsPositive, IsPaidRow, is_idle, owed_other}
use wintermute.Accounting.Documents.Rows.{IsPaid, All-find}
use wintermute.Accounting.Documents.Removed.{owed-without, All-without_payment}
use wintermute.Accounting.Documents.Paid.{pay_check_of}
use wintermute.Accounting.Documents.Recount.{recount-IsPaid, more-IsPaid, recount-more}

pub lift_of : {A : Type 0} (m : Result Fault A) (a : A) → lift m ≡ ok a → m ≡ ok a
lift_of (ok x) a h = ap ok (ok_inj h)
lift_of (err f) a h = ground arith

-- What `RecordPayment` has found and stored where nothing is refused.
record IsStored (p : Payment) (d : Desk) (r : Result DocFault Payment × Desk) : Type 0 where
  invoice : Invoice
  minor : ℕ
  stored : Payment
  books : Books
  same_invoice : stored.invoice_id ≡ p.invoice_id
  found : find_invoice stored.invoice_id d.invoices ≡ some invoice
  busy : is_idle invoice.status ≡ false
  amount : stored.amount ≡ pos (suc minor)
  room : owed invoice.id d.payments + suc minor ≤ pos_part invoice.total
  result :
      recount stored stored.invoice_id (record d {
        books = books;
        payments = d.payments ++ (stored ∷ []);
        next_payment = suc d.next_payment;
      })
      ≡ r

record_payment-IsStored :
    (now : Clock) (p : Payment) (d : Desk) (r : Result DocFault Payment × Desk)
    → IsPaid d
    → record_payment now p d ≡ ok r
    → IsStored p d r
unfolding record_payment may_pay
record_payment-IsStored now p d r all h =
    let inv = bind-ok (found_invoice p.invoice_id (get_invoice p.invoice_id d)) _ r h in
    let found = get_of p.invoice_id d inv.0 (found_ok p.invoice_id _ inv.0 inv.1) in
    let i = found.0 in
    let row = All-find (IsPaidRow d.payments) p.invoice_id d.invoices i found.1 all.rows in
    let day = or_today now p.paid_on in
    let deposit =
      bind-ok
        (may_pay inv.0 p.amount
          >> lift (valid_date day)
          >> lift (check_period_open day d.books)
          >> deposit_of p.deposit_account d.books.accounts)
        _ r inv.2 in
    let opened =
      seq-ok
        (may_pay inv.0 p.amount >> lift (valid_date day) >> lift (check_period_open day d.books)) _
        deposit.0 deposit.1 in
    let dated = seq-ok (may_pay inv.0 p.amount >> lift (valid_date day)) _ tt opened.0 in
    let allowed = (seq-ok (may_pay inv.0 p.amount) _ tt dated.0).0 in
    let checked =
      pay_check_of _ p.amount i.status (owed i.id d.payments) row.0.paid_is row.0.small row.0.within
        (subst (λ x. may_pay x p.amount ≡ ok tt) (sym found.2) allowed) in
    let ar = bind-ok (lift (by_key (codes "ar") d.books.accounts)) _ r deposit.2 in
    let stored = store_of _ _ ar.0.id d r ar.2 in
    record {
      invoice = i;
      minor = checked.1;
      stored = _;
      books = stored.0;
      same_invoice = refl;
      found = found.1;
      busy = checked.0;
      amount = checked.2;
      room = checked.3;
      result = stored.2;
    }
  where
    found_ok :
        (id : ℕ) (m : Result DocFault Invoice) (inv : Invoice)
        → found_invoice id m ≡ ok inv
        → m ≡ ok inv
    found_ok id (ok x) inv e = e
    found_ok id (err f) inv e = ground arith

pub record_payment-IsPaid :
    (now : Clock) (p : Payment) (d : Desk) (r : Result DocFault Payment × Desk)
    → IsPaid d
    → record_payment now p d ≡ ok r
    → IsPaid r.1
record_payment-IsPaid now p d r all h =
    let s : IsStored p d r = record_payment-IsStored now p d r all h in
    subst (λ x. IsPaid x.1) s.result
      (more-IsPaid s.stored d s.invoice s.minor all s.found s.amount s.room s.stored s.books s.busy)

-- Where the documents agree with their payments, a payment that `RecordPayment` has stored is also counted:
-- the update of its document, which comes after the commit, does not fail.
pub record_payment-ok :
    (now : Clock) (p : Payment) (d : Desk) (r : Result DocFault Payment × Desk)
    → IsPaid d
    → record_payment now p d ≡ ok r
    → (q : Payment) × (r.0 ≡ ok q) × (q.invoice_id ≡ p.invoice_id)
record_payment-ok now p d r all h =
    let s : IsStored p d r = record_payment-IsStored now p d r all h in
    (
      s.stored,
      ap (λ x. x.0) (sym s.result)
          ∙ recount-more s.stored d s.invoice s.minor all s.found s.amount s.room s.stored s.books,
      s.same_invoice,
    )

payment_of :
    (id : ℕ) (d : Desk) (p : Payment)
    → get_payment id d ≡ ok p
    → find_payment id d.payments ≡ some p
unfolding get_payment
payment_of id d p h = ground arith

pub delete_payment-IsPaid :
    (now : Clock) (id : ℕ) (d : Desk) (r : Result DocFault (Unit {0}) × Desk)
    → IsPaid d
    → delete_payment now id d ≡ ok r
    → IsPaid r.1
delete_payment-IsPaid now id d r all h =
    let (p, b, got, e) = delete_of now id d r h in
    let ps = without_payment id d.payments in
    let split = λ (j : ℕ). owed-without id j d.payments p (payment_of id d p got) in
    subst (λ x. IsPaid x.1) e
      (recount-IsPaid (tt {0}) p.invoice_id d b ps d.next_payment all
        (λ j e. omega (arith, split j, owed_other j p (λ q. e (sym q))))
        (All-without_payment IsPositive id d.payments all.positive)
        (All-without_payment (λ q. q.invoice_id < d.next_invoice) id d.payments all.known)
        (λ i f row e. record {
          within = omega (arith, split i.id, row.within);
          idle = λ q. omega (arith, split i.id, row.idle q);
        }))
