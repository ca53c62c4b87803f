-- ===== src/Accounting/Documents/Drafted.antt =====
-- invoice.go CreateDraft, UpdateDraft, DeleteDraft and CreditNote keep the documents and their payments in agreement.
use wintermute.Prelude.{
  ℕ, ◌≡◌, refl, ap, subst, ◌∙◌, not, List, nat_eq, if_intro, ok, refuse_if, ◌>>◌,
}
use wintermute.Prelude.Int.{pos}
use wintermute.Prelude.Int64.{IsInt64, add64, wrap-IsInt64}
use wintermute.Prelude.Str.{Str}
use wintermute.Prelude.Results.{bind-ok, seq-ok, ok_inj}
use wintermute.Accounting.Model.{Account, Clock}
use wintermute.Accounting.Invoice.{Invoice, InvoiceLine, Pricing, editable, price, price_lines}
use wintermute.Accounting.Documents.{Desk, get_invoice, lift}
use wintermute.Accounting.Documents.Draft.{
  known_client, defaulted, reversed_rate, price_draft, prepare_draft, create_invoice, create_draft,
  update_draft, delete_draft, credit_for, may_credit, credit_draft, rewritten,
}
use wintermute.Accounting.Documents.Allots.{get_of}
use wintermute.Accounting.Documents.Rows.{IsPaid, changed_row, with_new, without_draft-IsPaid}
use wintermute.Accounting.Documents.Paid.{draft_row, rewritten-IsPaidRow}
use wintermute.Accounting.Documents.Settled.{lift_of}

-- What pricing leaves and makes: what is paid stays, and the total is an int64.
record IsPriced (inv i : Invoice) : Type 0 where
  same_paid : i.paid ≡ inv.paid
  small : IsInt64 i.total

price-IsPriced : (p : Pricing) (inv i : Invoice) → price p inv ≡ ok i → IsPriced inv i
unfolding price add64
price-IsPriced p inv i h =
    let r = bind-ok (price_lines p 0 (pos 0) (pos 0) inv.lines) _ i h in
    subst (IsPriced inv) (ok_inj r.2) (record { same_paid = refl; small = wrap-IsInt64 _ })

price_draft-IsPriced :
    (d : Desk) (inv : Invoice) (sales : Account) (i : Invoice)
    → price_draft d inv sales ≡ ok i
    → IsPriced inv i
unfolding price_draft
price_draft-IsPriced d inv sales i h =
    let reversed = bind-ok (lift (reversed_rate inv.reverse_charge d.rates)) _ i h in
    price-IsPriced _ inv i (lift_of _ i reversed.2)

prepare_draft-IsPriced :
    (now : Clock) (d : Desk) (inv i : Invoice) → prepare_draft now d inv ≡ ok i → IsPriced inv i
unfolding prepare_draft defaulted
prepare_draft-IsPriced now d inv i h =
    let sales = bind-ok _ (price_draft d (defaulted now d inv)) i h in
    let priced = price_draft-IsPriced d (defaulted now d inv) sales.0 i sales.2 in
    record { same_paid = priced.same_paid; small = priced.small }

pub create_draft-IsPaid :
    (now : Clock) (inv : Invoice) (d : Desk) (r : Invoice × Desk)
    → IsPaid d
    → inv.paid ≡ pos 0
    → create_draft now inv d ≡ ok r
    → IsPaid r.1
unfolding create_draft create_invoice
create_draft-IsPaid now inv d r all unpaid h =
    let ready = bind-ok (prepare_draft now d inv) _ r h in
    let priced = prepare_draft-IsPriced now d inv ready.0 ready.1 in
    let after = seq-ok (refuse_if (not (known_client ready.0.client_id d.clients)) _) _ r ready.2 in
    let got = bind-ok (get_invoice d.next_invoice _) _ r after.1 in
    subst IsPaid (ap (λ x. x.1) (ok_inj got.2)) (
      with_new d _ all refl
        (λ o. draft_row d.payments _ refl o (priced.same_paid ∙ unpaid) priced.small))

rewritten_id : (new i : Invoice) → (rewritten new i).id ≡ i.id
rewritten_id new i = if_intro (λ (x : Invoice). x.id ≡ i.id) (editable i.status) refl refl

pub update_draft-IsPaid :
    (now : Clock) (id : ℕ) (new : Invoice) (d : Desk) (r : Invoice × Desk)
    → IsPaid d
    → update_draft now id new d ≡ ok r
    → IsPaid r.1
unfolding update_draft
update_draft-IsPaid now id new d r all h =
    let old = bind-ok (get_invoice id d) _ r h in
    let row = get_of id d old.0 old.1 in
    let ready =
      bind-ok
        (refuse_if (not (editable old.0.status)) _
          >> prepare_draft now d (record new { kind = old.0.kind }))
        _ r old.2 in
    let free = seq-ok (refuse_if (not (editable old.0.status)) _) _ ready.0 ready.1 in
    let priced = prepare_draft-IsPriced now d (record new { kind = old.0.kind }) ready.0 free.1 in
    let known = seq-ok (refuse_if (not (known_client ready.0.client_id d.clients)) _) _ r ready.2 in
    let got = bind-ok (get_invoice id _) _ r known.1 in
    subst IsPaid (ap (λ x. x.1) (ok_inj got.2)) (
      changed_row id (rewritten ready.0) (rewritten_id ready.0) d row.0 d.books d.sequence d.billed
        all row.1 (rewritten-IsPaidRow d.payments ready.0 row.0 priced.small))

pub delete_draft-IsPaid : (id : ℕ) (d d' : Desk) → IsPaid d → delete_draft id d ≡ ok d' → IsPaid d'
unfolding delete_draft
delete_draft-IsPaid id d d' all h =
    let old = bind-ok (get_invoice id d) _ d' h in
    let free = seq-ok (refuse_if (not (editable old.0.status)) _) _ d' old.2 in
    subst IsPaid (ok_inj free.1) (without_draft-IsPaid id d all)

pub credit_for-IsPaid :
    (now : Clock) (id : ℕ) (ls : List InvoiceLine) (reason : Str) (d : Desk) (r : Invoice × Desk)
    → IsPaid d
    → credit_for now id ls reason d ≡ ok r
    → IsPaid r.1
unfolding credit_for credit_draft
credit_for-IsPaid now id ls reason d r all h =
    let orig = bind-ok (get_invoice id d) _ r h in
    let allowed = seq-ok (may_credit orig.0) _ r orig.2 in
    create_draft-IsPaid now (credit_draft now ls reason orig.0) d r all refl allowed.1
