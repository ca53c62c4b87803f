-- ===== src/Accounting/Documents/Steps.antt =====
-- internal/accounting/invoice.go Issue and Void, with IssueInvoice and SetInvoiceStatus of
-- internal/accounting/invoice_repo.go.
use wintermute.Prelude.{
  ℕ, Bool, true, false, not, ◌&&◌, ◌||◌, List, [], ◌∷◌, ◌++◌, nat_beq, ◌==◌, nat_eq, if◌then◌else◌,
  Result, ok, err, refuse_if, ◌>>=◌, ◌>>◌,
}
use wintermute.Prelude.Int.{pos, int_beq}
use wintermute.Prelude.Str.{Str, codes, str_eq, trim_space}
use wintermute.Accounting.Model.{JournalEntry, Posting, Books, Clock}
use wintermute.Accounting.Date.{is_empty}
use wintermute.Accounting.Ledger.{check_period_open, post_entry, posting_lines, reverse}
use wintermute.Accounting.Invoice.{
  InvoiceStatus, draft, void, editable, Invoice, InvoiceLine, invoice_postings,
}
use wintermute.Accounting.Documents.{
  Desk, DocFault, already_issued, no_lines, not_a_draft, number_taken, still_draft, already_void,
  has_payments, lift, get_invoice, update_invoice, stamped, allocate_number, relabelled, with_name,
  source_of,
}

-- The entry that an issue posts.
unfoldable pub issue_entry : Clock → Str → List Posting → Invoice → Str → JournalEntry
issue_entry now number postings inv client = record {
  id = 0;
  entry_date = inv.issue_date;
  memo = with_name number client;
  source_type = source_of inv.kind;
  source_id = inv.id;
  reverses_id = 0;
  created_at = now.stamp;
  lines = posting_lines (relabelled number postings);
}

-- The index on acct_invoices(number) WHERE number <> '': another row has the number.
unfoldable pub taken : ℕ → Str → List Invoice → Bool
taken id number [] = false
taken id number (i ∷ rest) =
    (not (i.id == id) && i.number == number && not (is_empty number)) || taken id number rest

-- The time entries that the lines bill.
unfoldable pub time_entries : List InvoiceLine → List ℕ
time_entries [] = []
time_entries (l ∷ ls) =
    let rest = time_entries ls in if nat_beq l.time_entry_id 0 then rest else l.time_entry_id ∷ rest

-- `IssueInvoice`
unfoldable pub issue_invoice : Clock → ℕ → List Posting → Desk → Result DocFault (Invoice × Desk)
issue_invoice now id postings d = get_invoice id d >>= λ (inv : Invoice).
    refuse_if (not (editable inv.status)) (not_a_draft inv.status)
    >> (let allocated = allocate_number inv.kind d in
        let number = allocated.0 in
        lift (post_entry (issue_entry now number postings inv inv.client_name) d.books)
        >>= λ (posted : JournalEntry × Books).
            refuse_if (taken id number d.invoices) (number_taken number)
            >> (let d' = record allocated.1 {
              books = posted.1;
              invoices = update_invoice id (stamped number posted.0.id now.stamp) d.invoices;
              billed = d.billed ++ time_entries inv.lines;
            } in
                get_invoice id d' >>= λ (inv' : Invoice). ok (inv', d')))

-- `Issue`
unfoldable pub issue : Clock → ℕ → Desk → Result DocFault (Invoice × Desk)
issue now id d = get_invoice id d >>= λ (inv : Invoice).
    refuse_if (not (editable inv.status)) (already_issued inv.number inv.status)
    >> refuse_if (has_none inv.lines) no_lines
    >> lift (check_period_open inv.issue_date d.books)
    >> lift (invoice_postings d.books.accounts inv)
    >>= λ (ps : List Posting). issue_invoice now id ps d
  where
    has_none : List InvoiceLine → Bool
    has_none [] = true
    has_none (l ∷ ls) = false

-- `SetInvoiceStatus`
abbrev pub set_status : ℕ → InvoiceStatus → Desk → Desk
set_status id s d = record d {
  invoices = update_invoice id (λ (i : Invoice). record i { status = s }) d.invoices;
}

abbrev pub with_reason : Str → Str → Str
with_reason memo reason = with_name memo (trim_space reason)

-- The reversal of a document's entry, when it has one.
unfoldable pub undo_entry : Clock → ℕ → Str → Desk → Result DocFault Desk
undo_entry now entry memo d =
    if nat_beq entry 0
    then ok d
    else lift (reverse now entry now.today memo d.books) >>= λ (r : JournalEntry × Books).
        ok (record d { books = r.1 })

abbrev pub void_check : Invoice → InvoiceStatus → Result DocFault (Unit {0})
void_check inv draft = err still_draft
void_check inv void = err (already_void inv.number)
void_check inv _ = refuse_if (not (int_beq inv.paid (pos 0))) (has_payments inv.number inv.paid)

-- What `Void` asks of the status and of what is paid.
unfoldable pub may_void : Invoice → Result DocFault (Unit {0})
may_void inv = void_check inv inv.status

-- `Void`
unfoldable pub void_invoice : Clock → ℕ → Str → Desk → Result DocFault (Invoice × Desk)
void_invoice now id reason d = get_invoice id d >>= λ (inv : Invoice).
    may_void inv
    >> lift (check_period_open now.today d.books)
    >> undo_entry now inv.journal_entry (with_reason (codes "Void of " ++ inv.number) reason) d
    >>= λ (d' : Desk). get_invoice id (set_status id void d') >>= λ (inv' : Invoice).
        ok (inv', set_status id void d')
