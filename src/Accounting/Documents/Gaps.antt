-- ===== src/Accounting/Documents/Gaps.antt =====
-- The numbering of documents has no gap: what each call allots, and what any run of calls allots.
use mathlib.Core.List.{append-nil}
use wintermute.Prelude.{
  ℕ, suc, ◌≡◌, refl, sym, ap, subst, ◌∙◌, true, false, not, List, [], ◌∷◌, ◌++◌, arith, nat_eq,
  if◌then◌else◌, Result, ok, refuse_if, ◌>>◌,
}
use wintermute.Prelude.Str.{Str, codes}
use wintermute.Prelude.Results.{bind-ok, seq-ok, ok_inj}
use wintermute.Accounting.Model.{Books, Clock}
use wintermute.Accounting.Invoice.{
  InvoiceKind, InvoiceStatus, InvoiceLine, draft, issued, part_paid, paid_up, void, editable,
  Invoice, by_key,
}
use wintermute.Accounting.Documents.{Payment, Desk, DocFault, get_invoice, lift}
use wintermute.Accounting.Ledger.{post_entry, check_period_open, or_today}
use wintermute.Accounting.Date.{valid_date}
use wintermute.Accounting.Documents.Steps.{
  void_invoice, undo_entry, void_check, may_void, with_reason, set_status,
}
use wintermute.Accounting.Documents.Pay.{
  payment_entry, recount, found_invoice, may_pay, deposit_of, get_payment, number_of,
  without_payment, store_payment, record_payment, delete_payment,
}
use wintermute.Accounting.Documents.Draft.{
  known_client, prepare_draft, create_invoice, create_draft, update_draft, delete_draft, credit_for,
  may_credit, credit_draft, rewritten,
}
use wintermute.Accounting.Documents.Numbers.{
  listed, entry_of, numbers, numbers-append, numbers_same,
}
use wintermute.Accounting.Documents.Allots.{
  Allots, Allots-refl, get_of, rewritten_entry, numbers-without_draft, recount-Allots, undo_of,
}

create_invoice-Allots :
    (k : InvoiceKind) (inv : Invoice) (d : Desk) (r : Invoice × Desk)
    → create_invoice inv d ≡ ok r
    → editable inv.status ≡ true
    → Allots k d r.1
unfolding create_invoice numbers
create_invoice-Allots k inv d r h e =
    let new = record inv { id = d.next_invoice; issued_at = [] } in
    let after = seq-ok (refuse_if (not (known_client inv.client_id d.clients)) _) _ r h in
    let got = bind-ok (get_invoice d.next_invoice _) _ r after.1 in
    let nothing : (entry_of k new ≡ []) =
      ap (λ x. if x then [] else listed k inv.kind inv.number) e in
    subst (Allots k d) (ap (λ x. x.1) (ok_inj got.2)) (
      Allots-refl k d _
        (numbers-append k d.invoices (new ∷ [])
          ∙ ap (λ x. numbers k d.invoices ++ (x ++ [])) nothing
          ∙ append-nil (numbers k d.invoices))
        refl)

pub create_draft-Allots :
    (k : InvoiceKind) (now : Clock) (inv : Invoice) (d : Desk) (r : Invoice × Desk)
    → create_draft now inv d ≡ ok r
    → Allots k d r.1
unfolding create_draft editable
create_draft-Allots k now inv d r h =
    let ready = bind-ok (prepare_draft now d inv) _ r h in
    create_invoice-Allots k _ d r ready.2 refl

pub update_draft-Allots :
    (k : InvoiceKind) (now : Clock) (id : ℕ) (new : Invoice) (d : Desk) (r : Invoice × Desk)
    → update_draft now id new d ≡ ok r
    → Allots k d r.1
unfolding update_draft
update_draft-Allots k now id new d r h =
    let old = bind-ok (get_invoice id d) _ r h in
    let row = get_of id d old.0 old.1 in
    let ready =
      bind-ok
        (refuse_if (not (editable old.0.status)) _
          >> prepare_draft now d (record new { kind = old.0.kind }))
        _ r old.2 in
    let known = seq-ok (refuse_if (not (known_client ready.0.client_id d.clients)) _) _ r ready.2 in
    let got = bind-ok (get_invoice id _) _ r known.1 in
    subst (Allots k d) (ap (λ x. x.1) (ok_inj got.2)) (
      Allots-refl k d _
        (numbers_same k id (rewritten ready.0) d.invoices row.0 row.1
          (rewritten_entry k ready.0 row.0))
        refl)

pub delete_draft-Allots :
    (k : InvoiceKind) (id : ℕ) (d d' : Desk) → delete_draft id d ≡ ok d' → Allots k d d'
unfolding delete_draft
delete_draft-Allots k id d d' h =
    let old = bind-ok (get_invoice id d) _ d' h in
    let free = seq-ok (refuse_if (not (editable old.0.status)) _) _ d' old.2 in
    subst (Allots k d) (ok_inj free.1)
      (Allots-refl k d _ (numbers-without_draft k id d.invoices) refl)

pub credit_for-Allots :
    (k : InvoiceKind) (now : Clock) (id : ℕ) (ls : List InvoiceLine) (reason : Str) (d : Desk)
    (r : Invoice × Desk)
    → credit_for now id ls reason d ≡ ok r
    → Allots k d r.1
unfolding credit_for
credit_for-Allots k now id ls reason d r h =
    let orig = bind-ok (get_invoice id d) _ r h in
    let allowed = seq-ok (may_credit orig.0) _ r orig.2 in
    create_draft-Allots k now (credit_draft now ls reason orig.0) d r allowed.1

pub store_of :
    (p : Payment) (memo : Str) (ar : ℕ) (d : Desk) (r : Result DocFault Payment × Desk)
    → store_payment p memo ar d ≡ ok r
    → (b : Books) × (j : ℕ) × (let p' = record p { id = d.next_payment; journal_entry = j } in
        recount p' p.invoice_id (record d {
          books = b;
          payments = d.payments ++ (p' ∷ []);
          next_payment = suc d.next_payment;
        })
        ≡ r)
unfolding store_payment
store_of p memo ar d r h =
    let posted =
      bind-ok (lift (post_entry (payment_entry p memo ar d.next_payment) d.books)) _ r h in
    (posted.0.1, posted.0.0.id, ok_inj posted.2)

pub record_payment-Allots :
    (k : InvoiceKind) (now : Clock) (p : Payment) (d : Desk) (r : Result DocFault Payment × Desk)
    → record_payment now p d ≡ ok r
    → Allots k d r.1
unfolding record_payment
record_payment-Allots k now p d r h =
    let inv = bind-ok (found_invoice p.invoice_id (get_invoice p.invoice_id d)) _ r h in
    let day = or_today now p.paid_on in
    let deposit =
      bind-ok
        (may_pay inv.0 p.amount
          >> lift (valid_date day)
          >> lift (check_period_open day d.books)
          >> deposit_of p.deposit_account d.books.accounts)
        _ r inv.2 in
    let ar = bind-ok (lift (by_key (codes "ar") d.books.accounts)) _ r deposit.2 in
    let stored = store_of _ _ ar.0.id d r ar.2 in
    subst (λ x. Allots k d x.1) stored.2 (recount-Allots k _ p.invoice_id d stored.0 _ _)

pub delete_of :
    (now : Clock) (id : ℕ) (d : Desk) (r : Result DocFault (Unit {0}) × Desk)
    → delete_payment now id d ≡ ok r
    → (p : Payment) × (b : Books) × (get_payment id d ≡ ok p)
      × (recount
            (tt {0})
            p.invoice_id
            (record d { books = b; payments = without_payment id d.payments })
          ≡ r)
unfolding delete_payment
delete_of now id d r h =
    let p = bind-ok (get_payment id d) _ r h in
    let memo = codes "Reversal of payment for " ++ number_of (get_invoice p.0.invoice_id d) in
    let undone =
      bind-ok
        (lift (check_period_open p.0.paid_on d.books) >> undo_entry now p.0.journal_entry memo d) _
        r p.2 in
    let open_day = seq-ok (lift (check_period_open p.0.paid_on d.books)) _ undone.0 undone.1 in
    let b = undo_of now p.0.journal_entry memo d undone.0 open_day.1 in
    (
      p.0,
      b.0,
      p.1,
      ap
            (λ (x : Desk).
              recount (tt {0}) p.0.invoice_id
                (record x { payments = without_payment id x.payments }))
            b.1
          ∙ ok_inj undone.2,
    )

pub delete_payment-Allots :
    (k : InvoiceKind) (now : Clock) (id : ℕ) (d : Desk) (r : Result DocFault (Unit {0}) × Desk)
    → delete_payment now id d ≡ ok r
    → Allots k d r.1
delete_payment-Allots k now id d r h =
    let (p, b, _, e) = delete_of now id d r h in
    subst (λ x. Allots k d x.1) e (recount-Allots k _ p.invoice_id d b _ d.next_payment)

void_check_of : (inv : Invoice) (s : InvoiceStatus) → void_check inv s ≡ ok tt → editable s ≡ false
unfolding editable
void_check_of inv draft h = ground arith
void_check_of inv issued h = refl
void_check_of inv part_paid h = refl
void_check_of inv paid_up h = refl
void_check_of inv void h = refl

not_draft_of : (inv : Invoice) → may_void inv ≡ ok tt → editable inv.status ≡ false
unfolding may_void
not_draft_of inv h = void_check_of inv inv.status h

void_entry :
    (k : InvoiceKind) (i : Invoice)
    → editable i.status ≡ false
    → entry_of k (record i { status = void }) ≡ entry_of k i
unfolding editable
void_entry k i e = sym (ap (λ x. if x then [] else listed k i.kind i.number) e)

pub void_invoice-Allots :
    (k : InvoiceKind) (now : Clock) (id : ℕ) (reason : Str) (d : Desk) (r : Invoice × Desk)
    → void_invoice now id reason d ≡ ok r
    → Allots k d r.1
unfolding void_invoice
void_invoice-Allots k now id reason d r h =
    let old = bind-ok (get_invoice id d) _ r h in
    let row = get_of id d old.0 old.1 in
    let memo = with_reason (codes "Void of " ++ old.0.number) reason in
    let undone =
      bind-ok
        (may_void old.0
          >> lift (check_period_open now.today d.books)
          >> undo_entry now old.0.journal_entry memo d)
        _ r old.2 in
    let allowed =
      seq-ok (may_void old.0 >> lift (check_period_open now.today d.books)) _ undone.0 undone.1 in
    let out = not_draft_of old.0 (seq-ok (may_void old.0) _ tt allowed.0).0 in
    let b = undo_of now old.0.journal_entry memo d undone.0 allowed.1 in
    let got = bind-ok (get_invoice id (set_status id void undone.0)) _ r undone.2 in
    subst (Allots k d) (ap (λ x. set_status id void x) b.1 ∙ ap (λ x. x.1) (ok_inj got.2)) (
      Allots-refl k d _
        (numbers_same k id (λ i. record i { status = void }) d.invoices row.0 row.1
          (void_entry k row.0 (ap (λ x. editable x.status) row.2 ∙ out)))
        refl)
