-- ===== src/Accounting/Documents.antt =====
-- internal/accounting/invoice.go Issue and Void, internal/accounting/payment.go, and the statements of
-- internal/accounting/invoice_repo.go that they run. An error leaves the state it was called in; a
-- failing disk is left out, and so is another writer between two statements of one call.
pub mod Steps
pub mod Pay
pub mod Draft
pub mod Run
pub mod Numbers
pub mod Allots
pub mod Gaps
pub mod Gapless
pub mod Owed
pub mod Rows
pub mod Paid
pub mod Removed
pub mod Recount
pub mod Settled
pub mod Drafted
pub mod Agreed
mod Tests
use wintermute.Prelude.{
  ℕ, zero, suc, ◌+◌, ◌-◌, Bool, true, false, not, ◌&&◌, Option, none, some, List, [], ◌∷◌, ◌++◌,
  map, length, ltb, nat_beq, ◌==◌, nat_eq, if◌then◌else◌, Result, ok, err, refuse_if, ◌>>=◌, ◌>>◌,
}
use wintermute.Prelude.Int.{ℤ, pos, int_beq, ltb_ℤ, leb_ℤ}
use wintermute.Prelude.Decimal.{print_nat}
use wintermute.Prelude.Str.{Str, codes, str_eq, trim_space}
use wintermute.Accounting.Money.{Money}
use wintermute.Accounting.Model.{
  AccountType, asset, Account, VatRate, JournalSource, invoice_source, credit_note_source, payment,
  JournalEntry, JournalLine, Posting, debit_posting, credit_posting, Books, Clock, Fault,
  get_account,
}
use wintermute.Accounting.Date.{valid_date}
use wintermute.Accounting.Ledger.{check_period_open, post_entry, posting_lines, reverse, or_today}
use wintermute.Accounting.Invoice.{
  InvoiceKind, invoice, credit_note, InvoiceStatus, draft, issued, part_paid, paid_up, void,
  editable, InvoiceLine, Invoice, outstanding, payment_status, by_key, invoice_postings,
}
use wintermute.Accounting.Reports.{sql_sum}

pub record Sequence : Type 0 where
  pub prefix : Str
  pub next_value : ℕ
  pub padding : ℕ

pub record Payment : Type 0 where
  pub id : ℕ
  pub invoice_id : ℕ
  pub paid_on : Str
  pub amount : Money
  pub method : Str
  pub reference : Str
  pub deposit_account : ℕ
  pub journal_entry : ℕ
  pub created_at : Str

-- The two fields of acct_settings that documents read.
pub record Settings : Type 0 where
  pub default_terms_days : ℕ
  pub default_vat_rate : ℕ

-- The tables that documents read and write. An invoice holds its lines. `clients` are the ids and names of
-- crm_clients, `billed` the ids of the time entries that are flagged as invoiced. The two rows of
-- acct_sequences that documents use stand by their kind.
pub record Desk : Type 0 where
  pub books : Books
  pub clients : List (ℕ × Str)
  pub rates : List VatRate
  pub settings : Settings
  pub invoices : List Invoice
  pub next_invoice : ℕ
  pub sequence : InvoiceKind → Sequence
  pub payments : List Payment
  pub next_payment : ℕ
  pub billed : List ℕ

-- The errors of documents, and those of the ledger.
pub data DocFault : Type 0 where
  of_ledger : Fault → DocFault
  no_document : DocFault
  already_issued : Str → InvoiceStatus → DocFault
  no_lines : DocFault
  not_a_draft : InvoiceStatus → DocFault
  number_taken : Str → DocFault
  still_draft : DocFault
  already_void : Str → DocFault
  has_payments : Str → Money → DocFault
  no_invoice : ℕ → DocFault
  is_void : Str → DocFault
  paid_in_full : Str → DocFault
  not_positive : DocFault
  overpaid : Money → Money → Str → DocFault
  no_deposit : ℕ → DocFault
  deposit_wrong : Str → AccountType → DocFault
  client_missing : DocFault
  client_unknown : ℕ → DocFault
  due_too_early : Str → Str → DocFault
  vat_number_missing : DocFault
  only_invoices : DocFault
  nothing_to_credit : Str → DocFault

abbrev pub lift {ℓ} : {A : Type ℓ} → Result Fault A → Result DocFault A
lift (ok a) = ok a
lift (err f) = err (of_ledger f)

abbrev pub name_of : ℕ → List (ℕ × Str) → Str
name_of id [] = []
name_of id (c ∷ cs) = let rest = name_of id cs in if c.0 == id then c.1 else rest

-- The row of an id, as it is stored.
unfoldable pub find_invoice : ℕ → List Invoice → Option Invoice
find_invoice id [] = none
find_invoice id (i ∷ rest) =
    let found = find_invoice id rest in if i.id == id then some i else found

abbrev pub joined : List (ℕ × Str) → Option Invoice → Result DocFault Invoice
joined clients none = err no_document
joined clients (some i) = ok (record i { client_name = name_of i.client_id clients })

-- `GetInvoice`, with the name of the client joined in.
unfoldable pub get_invoice : ℕ → Desk → Result DocFault Invoice
get_invoice id d = joined d.clients (find_invoice id d.invoices)

-- UPDATE acct_invoices SET ... WHERE id = ?; an id is one row's.
unfoldable pub update_invoice : ℕ → (Invoice → Invoice) → List Invoice → List Invoice
update_invoice id f [] = []
update_invoice id f (i ∷ rest) =
    let later = update_invoice id f rest in if i.id == id then f i ∷ rest else i ∷ later

-- `UPDATE acct_invoices SET number = ?, status = ?, journal_entry_id = ?, issued_at = ?
--  WHERE id = ? AND status = 'draft'`
abbrev pub stamped : Str → ℕ → Str → Invoice → Invoice
stamped number entry at i =
    if editable i.status
    then record i { number = number; status = issued; journal_entry = entry; issued_at = at }
    else i

-- "%0*d" of a number.
unfoldable pub zeros : ℕ → Str
zeros zero = []
zeros (suc n) = 48 ∷ zeros n

-- The number that a sequence gives out.
unfoldable pub serial : Sequence → ℕ → Str
unfolding zeros
serial q n = q.prefix ++ zeros (q.padding - length (print_nat n)) ++ print_nat n

abbrev pub bumped : Sequence → Sequence
bumped q = record q { next_value = suc q.next_value }

abbrev pub at_kind : InvoiceKind → (InvoiceKind → Sequence) → InvoiceKind → Sequence
at_kind invoice q invoice = bumped (q invoice)
at_kind invoice q credit_note = q credit_note
at_kind credit_note q invoice = q invoice
at_kind credit_note q credit_note = bumped (q credit_note)

-- `allocateNumberTx`
unfoldable pub allocate_number : InvoiceKind → Desk → Str × Desk
allocate_number k d =
    (serial (d.sequence k) (d.sequence k).next_value, record d { sequence = at_kind k d.sequence })

-- strings.Replace(s, old, new, 1), for an old that is not empty.
unfoldable pub after_prefix : Str → Str → Option Str
after_prefix [] s = some s
after_prefix (a ∷ p) [] = none
after_prefix (a ∷ p) (b ∷ s) = let rest = after_prefix p s in if nat_beq a b then rest else none

unfoldable pub replace_first : Str → Str → Str → Str
replace_first old new [] = []
replace_first old new (c ∷ s) =
    let rest = replace_first old new s in go rest (after_prefix old (c ∷ s))
  where
    go : Str → Option Str → Str
    go rest none = c ∷ rest
    go rest (some t) = new ++ t

unfoldable pub relabelled : Str → List Posting → List Posting
unfolding replace_first
relabelled number [] = []
relabelled number (p ∷ ps) =
    record p { description = replace_first (codes "invoice") number p.description }
    ∷ relabelled number ps

abbrev pub dash : Str
dash = 32 ∷ 226 ∷ 128 ∷ 148 ∷ 32 ∷ []

abbrev pub with_name : Str → Str → Str
with_name memo [] = memo
with_name memo (c ∷ cs) = memo ++ dash ++ c ∷ cs

abbrev pub source_of : InvoiceKind → JournalSource
source_of invoice = invoice_source
source_of credit_note = credit_note_source
