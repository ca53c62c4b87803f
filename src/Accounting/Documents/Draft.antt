-- ===== src/Accounting/Documents/Draft.antt =====
-- internal/accounting/invoice.go CreateDraft, UpdateDraft, DeleteDraft, prepareDraft and CreditNote, with
-- their statements in internal/accounting/invoice_repo.go. A kind is one of the two by its type.
use wintermute.Prelude.{
  ℕ, suc, Bool, true, false, not, ◌&&◌, Option, none, some, List, [], ◌∷◌, ◌++◌, map, nat_beq, ◌==◌,
  nat_eq, if◌then◌else◌, Result, ok, err, refuse_if, ◌>>=◌, ◌>>◌,
}
use wintermute.Prelude.Int.{ℤ, pos, leb_ℤ}
use wintermute.Prelude.Str.{Str, codes, ltb_str, trim_space}
use wintermute.Accounting.Model.{VatKind, reverse_charge, VatRate, Account, Clock, Fault, not_found}
use wintermute.Accounting.Date.{valid_date, is_empty, add_days}
use wintermute.Accounting.Ledger.{or_today}
use wintermute.Accounting.Invoice.{
  InvoiceKind, invoice, credit_note, InvoiceStatus, draft, void, editable, Invoice, InvoiceLine,
  price, by_key,
}
use wintermute.Accounting.Documents.{
  Desk, DocFault, already_issued, no_lines, client_missing, client_unknown, due_too_early,
  vat_number_missing, still_draft, only_invoices, nothing_to_credit, lift, get_invoice,
  update_invoice,
}

is_reverse : VatKind → Bool
is_reverse reverse_charge = true
is_reverse _ = false

-- `VATRateByKind` of the reverse charge; the rates stand by their ids.
unfoldable pub reverse_rate : List VatRate → Result Fault ℕ
unfolding is_reverse
reverse_rate [] = err not_found
reverse_rate (r ∷ rest) =
    let found = reverse_rate rest in if is_reverse r.kind && not r.archived then ok r.id else found

abbrev pub reversed_rate : Bool → List VatRate → Result Fault (Option ℕ)
reversed_rate false rates = ok none
reversed_rate true rates = reverse_rate rates >>= λ (r : ℕ). ok (some r)

abbrev terms_of : ℕ → ℤ → ℤ
terms_of default terms = if leb_ℤ terms (pos 0) then pos default else terms

abbrev days_of : ℤ → ℕ
days_of (pos n) = n
days_of _ = 0

abbrev or_due : Str → Str → Str
or_due d [] = d
or_due d (c ∷ cs) = c ∷ cs

abbrev pub lineless : Invoice → Bool
lineless inv = none_of inv.lines
  where
    none_of : List InvoiceLine → Bool
    none_of [] = true
    none_of (l ∷ ls) = false

-- The defaults and the trimmed texts of `prepareDraft`.
unfoldable pub defaulted : Clock → Desk → Invoice → Invoice
defaulted now d inv =
    let day = or_today now inv.issue_date in
    let terms = terms_of d.settings.default_terms_days inv.terms_days in
    record inv {
      issue_date = day;
      terms_days = terms;
      due_date = or_due (add_days day (days_of terms)) inv.due_date;
      notes = trim_space inv.notes;
      bill_to = trim_space inv.bill_to;
      customer_vat = trim_space inv.customer_vat;
    }

-- The rates and the totals of `prepareDraft`.
unfoldable pub price_draft : Desk → Invoice → Account → Result DocFault Invoice
price_draft d i sales = lift (reversed_rate i.reverse_charge d.rates) >>= λ (reversed : Option ℕ).
    lift (
      price
        (record {
          accounts = d.books.accounts;
          rates = d.rates;
          default_rate = d.settings.default_vat_rate;
          default_income = sales.id;
          reversed = reversed;
        })
        i)

-- `prepareDraft`
unfoldable pub prepare_draft : Clock → Desk → Invoice → Result DocFault Invoice
prepare_draft now d inv =
    let i = defaulted now d inv in
    refuse_if (nat_beq inv.client_id 0) client_missing
    >> lift (valid_date i.issue_date)
    >> lift (valid_date i.due_date)
    >> refuse_if (ltb_str i.due_date i.issue_date) (due_too_early i.due_date i.issue_date)
    >> refuse_if (lineless inv) no_lines
    >> refuse_if (i.reverse_charge && is_empty i.customer_vat) vat_number_missing
    >> lift (by_key (codes "sales") d.books.accounts)
    >>= λ (sales : Account). price_draft d i sales

-- REFERENCES crm_clients
unfoldable pub known_client : ℕ → List (ℕ × Str) → Bool
known_client id [] = false
known_client id (c ∷ cs) = let rest = known_client id cs in if c.0 == id then true else rest

-- `CreateInvoice`
unfoldable pub create_invoice : Invoice → Desk → Result DocFault (Invoice × Desk)
create_invoice inv d =
    refuse_if (not (known_client inv.client_id d.clients)) (client_unknown inv.client_id)
    >> (let d' = record d {
      invoices = d.invoices ++ (record inv { id = d.next_invoice; issued_at = [] } ∷ []);
      next_invoice = suc d.next_invoice;
    } in
        get_invoice d.next_invoice d' >>= λ (inv' : Invoice). ok (inv', d'))

-- `CreateDraft`
unfoldable pub create_draft : Clock → Invoice → Desk → Result DocFault (Invoice × Desk)
create_draft now inv d = prepare_draft now d inv >>= λ (i : Invoice).
    create_invoice (record i { status = draft; number = []; created_at = now.stamp }) d

-- What UPDATE writes on a row that is still a draft; another row it leaves.
abbrev pub rewritten : Invoice → Invoice → Invoice
rewritten new i =
    if editable i.status
    then record i {
      client_id = new.client_id;
      engagement_id = new.engagement_id;
      issue_date = new.issue_date;
      due_date = new.due_date;
      terms_days = new.terms_days;
      subtotal = new.subtotal;
      vat = new.vat;
      total = new.total;
      reverse_charge = new.reverse_charge;
      customer_vat = new.customer_vat;
      bill_to = new.bill_to;
      notes = new.notes;
      lines = new.lines;
    }
    else i

-- `UpdateDraft` with `UpdateDraftInvoice`
unfoldable pub update_draft : Clock → ℕ → Invoice → Desk → Result DocFault (Invoice × Desk)
update_draft now id new d = get_invoice id d >>= λ (old : Invoice).
    refuse_if (not (editable old.status)) (already_issued old.number old.status)
    >> prepare_draft now d (record new { kind = old.kind })
    >>= λ (i : Invoice).
        refuse_if (not (known_client i.client_id d.clients)) (client_unknown i.client_id)
        >> (let d' = record d { invoices = update_invoice id (rewritten i) d.invoices } in
            get_invoice id d' >>= λ (inv' : Invoice). ok (inv', d'))

-- DELETE FROM acct_invoices WHERE id = ? AND status = 'draft'
unfoldable pub without_draft : ℕ → List Invoice → List Invoice
without_draft id [] = []
without_draft id (i ∷ rest) =
    let later = without_draft id rest in
    if i.id == id && editable i.status then later else i ∷ later

-- `DeleteDraft` with `DeleteDraftInvoice`
unfoldable pub delete_draft : ℕ → Desk → Result DocFault Desk
delete_draft id d = get_invoice id d >>= λ (inv : Invoice).
    refuse_if (not (editable inv.status)) (already_issued inv.number inv.status)
    >> ok (record d { invoices = without_draft id d.invoices })

-- The lines of a full credit: those of the original, with no source of their own.
abbrev unlinked : InvoiceLine → InvoiceLine
unlinked l = record l { time_entry_id = 0; expense_id = 0 }

unfoldable pub credited_lines : List InvoiceLine → List InvoiceLine → List InvoiceLine
credited_lines [] original = map unlinked original
credited_lines (l ∷ ls) original = l ∷ ls

-- Only an invoice that is out can be credited.
unfoldable pub may_credit : Invoice → Result DocFault (Unit {0})
may_credit orig = by_kind orig.kind >> by_status orig.status
  where
    by_kind : InvoiceKind → Result DocFault (Unit {0})
    by_kind invoice = ok tt
    by_kind credit_note = err only_invoices

    by_status : InvoiceStatus → Result DocFault (Unit {0})
    by_status draft = err still_draft
    by_status void = err (nothing_to_credit orig.number)
    by_status _ = ok tt

-- The draft that `CreditNote` stores.
unfoldable pub credit_draft : Clock → List InvoiceLine → Str → Invoice → Invoice
credit_draft now lines reason orig = record orig {
  id = 0;
  kind = credit_note;
  number = [];
  status = draft;
  issue_date = now.today;
  due_date = [];
  subtotal = pos 0;
  vat = pos 0;
  total = pos 0;
  paid = pos 0;
  notes = trim_space (codes "Credit note for " ++ orig.number ++ codes ". " ++ reason);
  corrects_id = orig.id;
  journal_entry = 0;
  created_at = [];
  issued_at = [];
  client_name = [];
  lines = credited_lines lines orig.lines;
}

-- `CreditNote`
unfoldable pub credit_for :
    Clock → ℕ → List InvoiceLine → Str → Desk → Result DocFault (Invoice × Desk)
credit_for now id lines reason d = get_invoice id d >>= λ (orig : Invoice).
    may_credit orig >> create_draft now (credit_draft now lines reason orig) d
