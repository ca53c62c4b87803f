-- ===== src/Accounting/Documents/Agreed.antt =====
-- invoice.go and payment.go: the documents and their payments agree, over any run of calls.
use wintermute.Prelude.{
  ℕ, ◌≡◌, refl, ap, subst, ◌∙◌, not, List, [], ◌∷◌, ◌++◌, All, nat_eq, if_intro, Result, ok, err,
  refuse_if, ◌>>◌,
}
use wintermute.Prelude.Int.{pos}
use wintermute.Prelude.Str.{Str, codes}
use wintermute.Prelude.Results.{bind-ok, seq-ok, ok_inj}
use wintermute.Accounting.Model.{Clock, Posting}
use wintermute.Accounting.Ledger.{post_entry, check_period_open}
use wintermute.Accounting.Invoice.{Invoice, void, editable}
use wintermute.Accounting.Documents.{
  Desk, DocFault, get_invoice, lift, allocate_number, serial, stamped,
}
use wintermute.Accounting.Documents.Steps.{
  issue, issue_invoice, issue_entry, taken, set_status, with_reason, undo_entry, may_void,
  void_invoice,
}
use wintermute.Accounting.Documents.Pay.{record_payment, delete_payment}
use wintermute.Accounting.Documents.Draft.{create_draft, update_draft, delete_draft, credit_for}
use wintermute.Accounting.Documents.Allots.{get_of, undo_of}
use wintermute.Accounting.Documents.Rows.{IsPaid, changed_row}
use wintermute.Accounting.Documents.Paid.{stamped-IsPaidRow, void-IsPaidRow}
use wintermute.Accounting.Documents.Settled.{record_payment-IsPaid, delete_payment-IsPaid}
use wintermute.Accounting.Documents.Run.{
  DocOp, do_create, do_update, do_delete, do_issue, do_void, do_credit, do_pay, do_unpay, perform,
  next_of, or_same, run_desk,
}
use wintermute.Accounting.Documents.Drafted.{
  create_draft-IsPaid, update_draft-IsPaid, delete_draft-IsPaid, credit_for-IsPaid,
}

stamped_id :
    (number : Str) (entry : ℕ) (at : Str) (i : Invoice) → (stamped number entry at i).id ≡ i.id
stamped_id number entry at i = if_intro (λ (x : Invoice). x.id ≡ i.id) (editable i.status) refl refl

issue_invoice-IsPaid :
    (now : Clock) (id : ℕ) (ps : List Posting) (d : Desk) (r : Invoice × Desk)
    → IsPaid d
    → issue_invoice now id ps d ≡ ok r
    → IsPaid r.1
unfolding issue_invoice allocate_number
issue_invoice-IsPaid now id ps d r all h =
    let old = bind-ok (get_invoice id d) _ r h in
    let row = get_of id d old.0 old.1 in
    let free = seq-ok (refuse_if (not (editable old.0.status)) _) _ r old.2 in
    let number = serial (d.sequence old.0.kind) (d.sequence old.0.kind).next_value in
    let posted =
      bind-ok (lift (post_entry (issue_entry now number ps old.0 old.0.client_name) d.books)) _ r
        free.1 in
    let unique = seq-ok (refuse_if (taken id number d.invoices) _) _ r posted.2 in
    let got = bind-ok (get_invoice id _) _ r unique.1 in
    subst IsPaid (ap (λ x. x.1) (ok_inj got.2)) (
      changed_row id (stamped number posted.0.0.id now.stamp)
        (stamped_id number posted.0.0.id now.stamp) d row.0 _ _ _ all row.1
        (stamped-IsPaidRow d.payments number posted.0.0.id now.stamp row.0))

issue-IsPaid :
    (now : Clock) (id : ℕ) (d : Desk) (r : Invoice × Desk)
    → IsPaid d
    → issue now id d ≡ ok r
    → IsPaid r.1
unfolding issue
issue-IsPaid now id d r all h =
    let inv = bind-ok (get_invoice id d) _ r h in
    let posted = bind-ok _ (λ (ps : List Posting). issue_invoice now id ps d) r inv.2 in
    issue_invoice-IsPaid now id posted.0 d r all posted.2

void_invoice-IsPaid :
    (now : Clock) (id : ℕ) (reason : Str) (d : Desk) (r : Invoice × Desk)
    → IsPaid d
    → void_invoice now id reason d ≡ ok r
    → IsPaid r.1
unfolding void_invoice
void_invoice-IsPaid now id reason d r all h =
    let old = bind-ok (get_invoice id d) _ r h in
    let row = get_of id d old.0 old.1 in
    let memo = with_reason (codes "Void of " ++ old.0.number) reason in
    let undone =
      bind-ok
        (may_void old.0
          >> lift (check_period_open now.today d.books)
          >> undo_entry now old.0.journal_entry memo d)
        _ r old.2 in
    let allowed =
      seq-ok (may_void old.0 >> lift (check_period_open now.today d.books)) _ undone.0 undone.1 in
    let may = (seq-ok (may_void old.0) _ tt allowed.0).0 in
    let b = undo_of now old.0.journal_entry memo d undone.0 allowed.1 in
    let got = bind-ok (get_invoice id (set_status id void undone.0)) _ r undone.2 in
    subst IsPaid (ap (λ x. set_status id void x) b.1 ∙ ap (λ x. x.1) (ok_inj got.2)) (
      changed_row id (λ i. record i { status = void }) (λ i. refl) d row.0 b.0 d.sequence d.billed
        all row.1 (void-IsPaidRow d.payments old.0 row.0 may (ap (λ x. x.paid) row.2)))

next_of-IsPaid :
    {A : Type 0} (d : Desk) (m : Result DocFault (A × Desk))
    → IsPaid d
    → ((r : A × Desk) → m ≡ ok r → IsPaid r.1)
    → IsPaid (next_of d m)
next_of-IsPaid d (ok r) all h = h r refl
next_of-IsPaid d (err f) all h = all

or_same-IsPaid :
    (d : Desk) (m : Result DocFault Desk)
    → IsPaid d
    → ((d' : Desk) → m ≡ ok d' → IsPaid d')
    → IsPaid (or_same d m)
or_same-IsPaid d (ok d') all h = h d' refl
or_same-IsPaid d (err f) all h = all

-- A call that drafts a document says of it that nothing is paid yet.
abbrev pub IsUnpaid : DocOp → Type 0
IsUnpaid (do_create inv) = inv.paid ≡ pos 0
IsUnpaid _ = Unit

perform-IsPaid :
    (now : Clock) (o : DocOp) (d : Desk) → IsUnpaid o → IsPaid d → IsPaid (perform now o d)
unfolding perform
perform-IsPaid now (do_create inv) d u h =
    next_of-IsPaid d (create_draft now inv d) h (λ r. create_draft-IsPaid now inv d r h u)
perform-IsPaid now (do_update id inv) d u h =
    next_of-IsPaid d (update_draft now id inv d) h (λ r. update_draft-IsPaid now id inv d r h)
perform-IsPaid now (do_delete id) d u h =
    or_same-IsPaid d (delete_draft id d) h (λ d'. delete_draft-IsPaid id d d' h)
perform-IsPaid now (do_issue id) d u h =
    next_of-IsPaid d (issue now id d) h (λ r. issue-IsPaid now id d r h)
perform-IsPaid now (do_void id reason) d u h =
    next_of-IsPaid d (void_invoice now id reason d) h (λ r. void_invoice-IsPaid now id reason d r h)
perform-IsPaid now (do_credit id ls reason) d u h =
    next_of-IsPaid d (credit_for now id ls reason d) h
      (λ r. credit_for-IsPaid now id ls reason d r h)
perform-IsPaid now (do_pay p) d u h =
    next_of-IsPaid d (record_payment now p d) h (λ r. record_payment-IsPaid now p d r h)
perform-IsPaid now (do_unpay id) d u h =
    next_of-IsPaid d (delete_payment now id d) h (λ r. delete_payment-IsPaid now id d r h)

-- Whatever is drafted, changed, deleted, issued, voided, credited, paid and unpaid, in any order and refused
-- or not, where each new draft says that nothing is paid: the documents keep in agreement with the
-- payments. What a document says is paid is the exact sum of its payments, all of them positive, that sum
-- is never more than its total, a draft or a void document has none, and its status is the one that the
-- sum gives.
pub run_desk-IsPaid :
    (os : List (Clock × DocOp)) (d : Desk)
    → All (λ (o : Clock × DocOp). IsUnpaid o.1) os
    → IsPaid d
    → IsPaid (run_desk os d)
unfolding run_desk
run_desk-IsPaid [] d u h = h
run_desk-IsPaid (o ∷ os) d u h =
    run_desk-IsPaid os (perform o.0 o.1 d) u.1 (perform-IsPaid o.0 o.1 d u.0 h)
