-- ===== src/Accounting/Documents/Run.antt =====
-- The calls on documents and payments, in any order; a refused call leaves the state as it was.
use wintermute.Prelude.{ℕ, List, [], ◌∷◌, Result, ok, err}
use wintermute.Prelude.Str.{Str}
use wintermute.Accounting.Model.{Clock}
use wintermute.Accounting.Invoice.{Invoice, InvoiceLine}
use wintermute.Accounting.Documents.{Desk, DocFault, Payment}
use wintermute.Accounting.Documents.Draft.{create_draft, update_draft, delete_draft, credit_for}
use wintermute.Accounting.Documents.Steps.{issue, void_invoice}
use wintermute.Accounting.Documents.Pay.{record_payment, delete_payment}

pub data DocOp : Type 0 where
  do_create : Invoice → DocOp
  do_update : ℕ → Invoice → DocOp
  do_delete : ℕ → DocOp
  do_issue : ℕ → DocOp
  do_void : ℕ → Str → DocOp
  do_credit : ℕ → List InvoiceLine → Str → DocOp
  do_pay : Payment → DocOp
  do_unpay : ℕ → DocOp

abbrev pub next_of {ℓ} : {A : Type ℓ} → Desk → Result DocFault (A × Desk) → Desk
next_of d (ok r) = r.1
next_of d (err f) = d

abbrev pub or_same : Desk → Result DocFault Desk → Desk
or_same d (ok d') = d'
or_same d (err f) = d

unfoldable pub perform : Clock → DocOp → Desk → Desk
perform now (do_create inv) d = next_of d (create_draft now inv d)
perform now (do_update id inv) d = next_of d (update_draft now id inv d)
perform now (do_delete id) d = or_same d (delete_draft id d)
perform now (do_issue id) d = next_of d (issue now id d)
perform now (do_void id reason) d = next_of d (void_invoice now id reason d)
perform now (do_credit id ls reason) d = next_of d (credit_for now id ls reason d)
perform now (do_pay p) d = next_of d (record_payment now p d)
perform now (do_unpay id) d = next_of d (delete_payment now id d)

-- The calls with the time of each.
unfoldable pub run_desk : List (Clock × DocOp) → Desk → Desk
run_desk [] d = d
run_desk (o ∷ os) d = run_desk os (perform o.0 o.1 d)
