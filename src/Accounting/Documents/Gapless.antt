-- ===== src/Accounting/Documents/Gapless.antt =====
-- The numbering of documents has no gap, over any run of calls.
use mathlib.Core.List.{Perm, append_assoc}
use mathlib.Core.List.Perm
use wintermute.Prelude.{
  ℕ, zero, suc, ◌+◌, ◌≡◌, refl, sym, ap, subst, ◌∙◌, Bool, true, false, not, List, [], ◌∷◌, ◌++◌,
  arith, nat_eq, if◌then◌else◌, Result, ok, err, refuse_if,
}
use wintermute.Prelude.Str.{Str}
use wintermute.Prelude.Results.{bind-ok, seq-ok, refuse_if-ok, ok_inj}
use wintermute.Accounting.Model.{Clock, Posting}
use wintermute.Accounting.Invoice.{InvoiceKind, invoice, credit_note, issued, editable, Invoice}
use wintermute.Accounting.Documents.{
  Sequence, Desk, DocFault, get_invoice, update_invoice, serial, at_kind, stamped, lift,
  allocate_number,
}
use wintermute.Accounting.Ledger.{post_entry}
use wintermute.Accounting.Documents.Steps.{issue, issue_invoice, void_invoice, issue_entry, taken}
use wintermute.Accounting.Documents.Pay.{record_payment, delete_payment}
use wintermute.Accounting.Documents.Draft.{create_draft, update_draft, delete_draft, credit_for}
use wintermute.Accounting.Documents.Numbers.{
  listed, entry_of, numbers, numbers-update, serials, serials-append,
}
use wintermute.Accounting.Documents.Allots.{Allots, Allots-refl, get_of}
use wintermute.Accounting.Documents.Run.{
  DocOp, do_create, do_update, do_delete, do_issue, do_void, do_credit, do_pay, do_unpay, perform,
  next_of, or_same, run_desk,
}
use wintermute.Accounting.Documents.Gaps.{
  create_draft-Allots, update_draft-Allots, delete_draft-Allots, credit_for-Allots,
  record_payment-Allots, delete_payment-Allots, void_invoice-Allots,
}

-- How many numbers of the series `k` an issue of a document of the other kind takes.
one_of : InvoiceKind → InvoiceKind → ℕ
one_of invoice invoice = 1
one_of credit_note credit_note = 1
one_of _ _ = 0

one_serial :
    (k kind : InvoiceKind) (q : InvoiceKind → Sequence)
    → serials (q k) (q k).next_value (one_of k kind)
      ≡ listed k kind (serial (q kind) (q kind).next_value)
unfolding serials one_of
one_serial invoice invoice q = refl
one_serial invoice credit_note q = refl
one_serial credit_note invoice q = refl
one_serial credit_note credit_note q = refl

one_counted :
    (k kind : InvoiceKind) (q : InvoiceKind → Sequence)
    → at_kind kind q k ≡ record (q k) { next_value = (q k).next_value + one_of k kind }
unfolding one_of
one_counted invoice invoice q = ap (λ n. record (q invoice) { next_value = n }) (omega arith)
one_counted invoice credit_note q = ap (λ n. record (q invoice) { next_value = n }) (omega arith)
one_counted credit_note invoice q =
    ap (λ n. record (q credit_note) { next_value = n }) (omega arith)
one_counted credit_note credit_note q =
    ap (λ n. record (q credit_note) { next_value = n }) (omega arith)

stamped_entry :
    (k : InvoiceKind) (number : Str) (entry : ℕ) (at : Str) (i : Invoice)
    → editable i.status ≡ true
    → entry_of k (stamped number entry at i) ≡ listed k i.kind number
unfolding editable
stamped_entry k number entry at i e =
    ap
      (λ c. entry_of k (
        if c
        then record i { number = number; status = issued; journal_entry = entry; issued_at = at }
        else i))
      e

draft_entry : (k : InvoiceKind) (i : Invoice) → editable i.status ≡ true → entry_of k i ≡ []
draft_entry k i e = ap (λ x. if x then [] else listed k i.kind i.number) e

not-false : (c : Bool) → not c ≡ false → c ≡ true
not-false true h = refl
not-false false h = ground arith

issue_invoice-Allots :
    (k : InvoiceKind) (now : Clock) (id : ℕ) (ps : List Posting) (d : Desk) (r : Invoice × Desk)
    → issue_invoice now id ps d ≡ ok r
    → Allots k d r.1
unfolding issue_invoice allocate_number
issue_invoice-Allots k now id ps d r h =
    let old = bind-ok (get_invoice id d) _ r h in
    let row = get_of id d old.0 old.1 in
    let free = seq-ok (refuse_if (not (editable old.0.status)) _) _ r old.2 in
    let number = serial (d.sequence old.0.kind) (d.sequence old.0.kind).next_value in
    let posted =
      bind-ok (lift (post_entry (issue_entry now number ps old.0 old.0.client_name) d.books)) _ r
        free.1 in
    let unique = seq-ok (refuse_if (taken id number d.invoices) _) _ r posted.2 in
    let got = bind-ok (get_invoice id _) _ r unique.1 in
    let was_draft = ap (λ x. editable x.status) row.2 ∙ not-false _ (refuse_if-ok _ _ free.0) in
    let kind = ap (λ x. x.kind) row.2 in
    subst (Allots k d) (ap (λ x. x.1) (ok_inj got.2)) (record {
      count = one_of k old.0.kind;
      counted = one_counted k old.0.kind d.sequence;
      listed_all =
          subst
            (λ (x : List Str).
              Perm
                (numbers k (update_invoice id (stamped number posted.0.0.id now.stamp) d.invoices))
                (numbers k d.invoices ++ x))
            (stamped_entry k number posted.0.0.id now.stamp row.0 was_draft
              ∙ ap (λ x. listed k x number) kind
              ∙ sym (one_serial k old.0.kind d.sequence))
            (numbers-update k id (stamped number posted.0.0.id now.stamp) d.invoices row.0 row.1
              (draft_entry k row.0 was_draft));
    })

issue-Allots :
    (k : InvoiceKind) (now : Clock) (id : ℕ) (d : Desk) (r : Invoice × Desk)
    → issue now id d ≡ ok r
    → Allots k d r.1
unfolding issue
issue-Allots k now id d r h =
    let inv = bind-ok (get_invoice id d) _ r h in
    let posted = bind-ok _ (λ (ps : List Posting). issue_invoice now id ps d) r inv.2 in
    issue_invoice-Allots k now id posted.0 d r posted.2

next_of-Allots :
    {A : Type 0} (k : InvoiceKind) (d : Desk) (m : Result DocFault (A × Desk))
    → ((r : A × Desk) → m ≡ ok r → Allots k d r.1)
    → Allots k d (next_of d m)
next_of-Allots k d (ok r) h = h r refl
next_of-Allots k d (err f) h = Allots-refl k d d refl refl

or_same-Allots :
    (k : InvoiceKind) (d : Desk) (m : Result DocFault Desk)
    → ((d' : Desk) → m ≡ ok d' → Allots k d d')
    → Allots k d (or_same d m)
or_same-Allots k d (ok d') h = h d' refl
or_same-Allots k d (err f) h = Allots-refl k d d refl refl

perform-Allots :
    (k : InvoiceKind) (now : Clock) (o : DocOp) (d : Desk) → Allots k d (perform now o d)
unfolding perform
perform-Allots k now (do_create inv) d =
    next_of-Allots k d (create_draft now inv d) (create_draft-Allots k now inv d)
perform-Allots k now (do_update id inv) d =
    next_of-Allots k d (update_draft now id inv d) (update_draft-Allots k now id inv d)
perform-Allots k now (do_delete id) d =
    or_same-Allots k d (delete_draft id d) (delete_draft-Allots k id d)
perform-Allots k now (do_issue id) d = next_of-Allots k d (issue now id d) (issue-Allots k now id d)
perform-Allots k now (do_void id reason) d =
    next_of-Allots k d (void_invoice now id reason d) (void_invoice-Allots k now id reason d)
perform-Allots k now (do_credit id ls reason) d =
    next_of-Allots k d (credit_for now id ls reason d) (credit_for-Allots k now id ls reason d)
perform-Allots k now (do_pay p) d =
    next_of-Allots k d (record_payment now p d) (record_payment-Allots k now p d)
perform-Allots k now (do_unpay id) d =
    next_of-Allots k d (delete_payment now id d) (delete_payment-Allots k now id d)

same_format :
    (q : Sequence) (n m count : ℕ)
    → serials (record q { next_value = n }) m count ≡ serials q m count
unfolding serials serial
same_format q n m zero = refl
same_format q n m (suc count) = ap (λ t. serial q m ∷ t) (same_format q n (suc m) count)

abbrev numbered_from : Sequence → ℕ → Sequence
numbered_from q n = record q { next_value = n }

Allots-trans : (k : InvoiceKind) (a b c : Desk) → Allots k a b → Allots k b c → Allots k a c
Allots-trans k a b c x y =
    let q = a.sequence k in
    let n = q.next_value in
    let with_more : (Sequence → Sequence) = λ r. numbered_from r (r.next_value + y.count) in
    let sum : (n + x.count + y.count ≡ n + (x.count + y.count)) = omega arith in
    let later : (serials (b.sequence k) (b.sequence k).next_value y.count
        ≡ serials q (n + x.count) y.count) =
      ap (λ r. serials r r.next_value y.count) x.counted
      ∙ same_format q (n + x.count) (n + x.count) y.count in
    record {
      count = x.count + y.count;
      counted = y.counted ∙ ap with_more x.counted ∙ ap (λ z. numbered_from q z) sum;
      listed_all =
          subst (Perm (numbers k c.invoices))
            (append_assoc (numbers k a.invoices) (serials q n x.count)
                (serials q (n + x.count) y.count)
              ∙ ap (λ z. numbers k a.invoices ++ z) (sym (serials-append q n x.count y.count)))
            (Perm.trans y.listed_all (
              subst
                (λ z. Perm (numbers k b.invoices ++ z) (
                  (numbers k a.invoices ++ serials q n x.count) ++ serials q (n + x.count) y.count))
                (sym later) (Perm.append_right (serials q (n + x.count) y.count) x.listed_all)));
    }

-- Whatever is drafted, changed, deleted, issued, voided, credited, paid and unpaid, in any order and refused
-- or not: of each kind, the numbers on the documents that are no drafts are those they had before, and
-- then the next numbers of the kind's sequence, each of them once, as many as the sequence has moved on.
-- So no number is given out twice, none is skipped, and none is lost.
pub run_desk-Allots :
    (k : InvoiceKind) (os : List (Clock × DocOp)) (d : Desk) → Allots k d (run_desk os d)
unfolding run_desk
run_desk-Allots k [] d = Allots-refl k d d refl refl
run_desk-Allots k (o ∷ os) d =
    Allots-trans k d (perform o.0 o.1 d) (run_desk os (perform o.0 o.1 d))
      (perform-Allots k o.0 o.1 d) (run_desk-Allots k os (perform o.0 o.1 d))
