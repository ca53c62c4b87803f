-- ===== src/Accounting/Model.antt =====
-- internal/accounting/model.go, and the tables of internal/accounting/repository.go as one state.
-- A line's own id and the columns that are joined in for display are left out; an entry holds its
-- lines, which are written with it in one transaction and never change.
use wintermute.Prelude.{
  ℕ, Bool, true, false, Option, none, some, List, [], ◌∷◌, ◌==◌, if◌then◌else◌, nat_eq,
}
use wintermute.Prelude.Int.{ℤ, pos, int_beq}
use wintermute.Prelude.Int64.{add64}
use wintermute.Prelude.Str.{Str}
use wintermute.Accounting.Money.{Money}

pub data AccountType : Type 0 where
  asset : AccountType
  liability : AccountType
  equity : AccountType
  income : AccountType
  expense : AccountType

unfoldable pub debit_normal : AccountType → Bool
debit_normal asset = true
debit_normal expense = true
debit_normal _ = false

pub record Account : Type 0 where
  pub id : ℕ
  pub code : Str
  pub name : Str
  pub type : AccountType
  pub system_key : Str
  pub archived : Bool

-- The constants; `other_source` is any other string.
pub data JournalSource : Type 0 where
  unset_source : JournalSource
  manual : JournalSource
  opening : JournalSource
  invoice_source : JournalSource
  credit_note_source : JournalSource
  payment : JournalSource
  expense_source : JournalSource
  funding : JournalSource
  other_source : Str → JournalSource

-- `JournalSource.valid`
unfoldable pub source_valid : JournalSource → Bool
source_valid unset_source = false
source_valid (other_source s) = false
source_valid _ = true

pub record JournalLine : Type 0 where
  pub account_id : ℕ
  pub debit : Money
  pub credit : Money
  pub description : Str
  pub ordinal : ℕ

pub record JournalEntry : Type 0 where
  pub id : ℕ
  pub entry_date : Str
  pub memo : Str
  pub source_type : JournalSource
  pub source_id : ℕ
  pub reverses_id : ℕ
  pub created_at : Str
  pub lines : List JournalLine

-- The sums of `JournalEntry.Total` and `JournalEntry.Balanced`, from what is added up so far.
unfoldable pub debits : Money → List JournalLine → Money
debits sum [] = sum
debits sum (l ∷ ls) = debits (add64 sum l.debit) ls

unfoldable pub credits : Money → List JournalLine → Money
credits sum [] = sum
credits sum (l ∷ ls) = credits (add64 sum l.credit) ls

-- `JournalEntry.Total`
unfoldable pub total : JournalEntry → Money
total e = debits (pos 0) e.lines

-- `JournalEntry.Balanced`
unfoldable pub balanced : JournalEntry → Bool
balanced e = int_beq (debits (pos 0) e.lines) (credits (pos 0) e.lines)

-- `VATKind`
pub data VatKind : Type 0 where
  standard : VatKind
  reduced : VatKind
  zero_rated : VatKind
  exempt : VatKind
  reverse_charge : VatKind

pub record VatRate : Type 0 where
  pub id : ℕ
  pub rate_bp : ℤ
  pub kind : VatKind
  pub archived : Bool

pub record Period : Type 0 where
  pub id : ℕ
  pub starts_on : Str
  pub ends_on : Str
  pub locked : Bool
  pub locked_at : Str
  pub note : Str

pub record Posting : Type 0 where
  pub account_id : ℕ
  pub debit : Money
  pub credit : Money
  pub description : Str

-- `Debit` and `Credit`
abbrev pub debit_posting : ℕ → Money → Str → Posting
debit_posting a m d = record { account_id = a; debit = m; credit = pos 0; description = d }

abbrev pub credit_posting : ℕ → Money → Str → Posting
credit_posting a m d = record { account_id = a; debit = pos 0; credit = m; description = d }

-- The tables that the ledger reads and writes. AUTOINCREMENT counts the ids up.
pub record Books : Type 0 where
  pub accounts : List Account
  pub entries : List JournalEntry
  pub next_entry : ℕ
  pub periods : List Period
  pub next_period : ℕ

-- `today` and `nowStamp`
pub record Clock : Type 0 where
  pub today : Str
  pub stamp : Str

-- The texts of the errors, as values.
pub data Fault : Type 0 where
  not_found : Fault
  date_missing : Fault
  date_malformed : Str → Fault
  source_unknown : JournalSource → Fault
  too_few_lines : ℕ → Fault
  amount_negative : ℕ → Fault
  sides_wrong : ℕ → Fault
  account_missing : ℕ → ℕ → Fault
  account_archived : ℕ → Str → Fault
  unbalanced : Money → Money → Fault
  no_value : Fault
  period_locked : Str → Period → Fault
  period_backwards : Str → Str → Fault
  constraint_failed : ℕ → Fault
  description_missing : ℕ → Fault
  income_missing : ℕ → ℕ → Fault
  income_wrong : ℕ → Str → Fault
  rate_missing : ℕ → ℕ → Fault
  invoice_unbalanced : Money → Money → Fault
  sum_overflow : Fault

-- SELECT ... FROM acct_accounts WHERE id = ?
unfoldable pub get_account : ℕ → List Account → Option Account
get_account id [] = none
get_account id (a ∷ rest) = let found = get_account id rest in if a.id == id then some a else found

-- SELECT ... FROM acct_journal_entries WHERE id = ?
unfoldable pub get_entry : ℕ → List JournalEntry → Option JournalEntry
get_entry id [] = none
get_entry id (e ∷ rest) = let found = get_entry id rest in if e.id == id then some e else found
