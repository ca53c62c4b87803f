-- ===== src/Accounting/Invoice.antt =====
-- internal/accounting/invoice.go: the pricing of an invoice's lines (the loop of prepareDraft), the
-- postings of invoicePostings, and the status that payments give. What comes before the loop in
-- prepareDraft (dates, terms, texts) is left out. A map that the source keeps with the order of its
-- keys is an association list in that order.
pub mod Excess
pub mod Balance
use wintermute.Prelude.{
  ℕ, suc, ◌+◌, Bool, true, false, not, Option, none, some, List, [], ◌∷◌, ◌++◌, map, nat_beq, ◌==◌,
  nat_eq, if◌then◌else◌, Result, ok, err, refuse_if, ◌>>=◌, ◌>>◌,
}
use wintermute.Prelude.Int.{ℤ, pos, negsuc, int_beq, ltb_ℤ}
use wintermute.Prelude.Int64.{add64, sub64, mul64, neg64}
use wintermute.Prelude.Str.{Str, codes, str_eq, trim_space}
use wintermute.Accounting.Money.{Money, Milli, extend, vat, is_negative}
use wintermute.Accounting.Model.{
  AccountType, income, Account, VatRate, Posting, debit_posting, credit_posting, Fault, not_found,
  description_missing, income_missing, income_wrong, rate_missing, invoice_unbalanced, get_account,
}
use wintermute.Accounting.Date.{is_empty}

pub data InvoiceKind : Type 0 where
  invoice : InvoiceKind
  credit_note : InvoiceKind

pub data InvoiceStatus : Type 0 where
  draft : InvoiceStatus
  issued : InvoiceStatus
  part_paid : InvoiceStatus
  paid_up : InvoiceStatus
  void : InvoiceStatus

-- `Editable`
unfoldable pub editable : InvoiceStatus → Bool
editable draft = true
editable _ = false

pub record InvoiceLine : Type 0 where
  pub description : Str
  pub quantity : Milli
  pub unit_price : Money
  pub net : Money
  pub vat_rate_id : ℕ
  pub vat_rate_bp : ℤ
  pub vat : Money
  pub income_account_id : ℕ
  pub time_entry_id : ℕ
  pub expense_id : ℕ
  pub ordinal : ℕ

pub record Invoice : Type 0 where
  pub id : ℕ
  pub kind : InvoiceKind
  pub number : Str
  pub client_id : ℕ
  pub engagement_id : ℕ
  pub status : InvoiceStatus
  pub issue_date : Str
  pub due_date : Str
  pub terms_days : ℤ
  pub subtotal : Money
  pub vat : Money
  pub total : Money
  pub paid : Money
  pub reverse_charge : Bool
  pub customer_vat : Str
  pub bill_to : Str
  pub notes : Str
  pub corrects_id : ℕ
  pub journal_entry : ℕ
  pub created_at : Str
  pub issued_at : Str
  pub client_name : Str
  pub lines : List InvoiceLine

-- `Outstanding`
unfoldable pub outstanding : Invoice → Money
outstanding i = sub64 i.total i.paid

-- `paymentStatus`
unfoldable pub payment_status : InvoiceStatus → Money → Money → InvoiceStatus
payment_status void paid total = void
payment_status draft paid total = draft
payment_status _ paid total =
    if int_beq paid (pos 0) then issued else if ltb_ℤ paid total then part_paid else paid_up

unfoldable pub get_rate : ℕ → List VatRate → Option VatRate
get_rate id [] = none
get_rate id (r ∷ rest) = let found = get_rate id rest in if r.id == id then some r else found

-- What the loop reads: the chart, the rates, the two defaults, and the rate of a reverse charge when
-- the invoice is one.
pub record Pricing : Type 0 where
  pub accounts : List Account
  pub rates : List VatRate
  pub default_rate : ℕ
  pub default_income : ℕ
  pub reversed : Option ℕ

is_income : AccountType → Bool
is_income income = true
is_income _ = false

-- The income account of a line is there, and is one of income.
unfoldable pub check_income : ℕ → ℕ → Option Account → Result Fault (Unit {0})
unfolding is_income
check_income n id none = err (income_missing n id)
check_income n id (some a) = refuse_if (not (is_income a.type)) (income_wrong n a.code)

-- The rate of a line that names one.
unfoldable pub rate_of : ℕ → ℕ → Option VatRate → Result Fault ℤ
rate_of n id none = err (rate_missing n id)
rate_of n id (some r) = ok r.rate_bp

-- The tax of a line, from the line with its net amount.
unfoldable pub taxed : Pricing → ℕ → InvoiceLine → Option ℕ → Result Fault InvoiceLine
taxed p n l (some rate) = ok (record l { vat_rate_id = rate; vat_rate_bp = pos 0; vat = pos 0 })
taxed p n l none =
    let id = if nat_beq l.vat_rate_id 0 then p.default_rate else l.vat_rate_id in
    (if nat_beq id 0 then ok l.vat_rate_bp else rate_of n id (get_rate id p.rates)) >>= λ bp.
    ok (record l { vat_rate_id = id; vat_rate_bp = bp; vat = vat l.net bp })

-- One round of the loop, for the line at index `i`.
unfoldable pub price_line : Pricing → ℕ → InvoiceLine → Result Fault InvoiceLine
price_line p i l =
    let quantity = if int_beq l.quantity (pos 0) then pos 1000 else l.quantity in
    let account = if nat_beq l.income_account_id 0 then p.default_income else l.income_account_id in
    refuse_if (is_empty (trim_space l.description)) (description_missing (suc i))
    >> check_income (suc i) account (get_account account p.accounts)
    >> taxed p (suc i)
        (record l {
          description = trim_space l.description;
          quantity = quantity;
          income_account_id = account;
          net = extend quantity l.unit_price;
          ordinal = i;
        })
        p.reversed

-- The loop of prepareDraft: the priced lines, and the sums of their net amounts and of their taxes.
unfoldable pub price_lines :
    Pricing → ℕ → Money → Money → List InvoiceLine → Result Fault (List InvoiceLine × Money × Money)
price_lines p i subtotal tax [] = ok ([], subtotal, tax)
price_lines p i subtotal tax (l ∷ ls) = price_line p i l >>= λ (l' : InvoiceLine).
    price_lines p (suc i) (add64 subtotal l'.net) (add64 tax l'.vat) ls
    >>= λ (r : List InvoiceLine × Money × Money). ok (l' ∷ r.0, r.1, r.2)

-- The loop, and the three totals that prepareDraft stores.
unfoldable pub price : Pricing → Invoice → Result Fault Invoice
price p inv =
    price_lines p 0 (pos 0) (pos 0) inv.lines >>= λ (r : List InvoiceLine × Money × Money).
    ok (record inv { lines = r.0; subtotal = r.1; vat = r.2; total = add64 r.1 r.2 })

-- `posting`
unfoldable pub posting : ℕ → Money → Str → Bool → Posting
posting account amount desc debit_normal =
    let m = if debit_normal then amount else neg64 amount in
    if is_negative m then credit_posting account (neg64 m) desc else debit_posting account m desc

-- `byAccount[id] += net`, a new key at the end
unfoldable pub add_to : ℕ → Money → List (ℕ × Money) → List (ℕ × Money)
add_to a net [] = (a, add64 (pos 0) net) ∷ []
add_to a net (g ∷ gs) =
    let rest = add_to a net gs in if g.0 == a then (g.0, add64 g.1 net) ∷ gs else g ∷ rest

-- The net amounts by income account.
unfoldable pub grouped : List (ℕ × Money) → List InvoiceLine → List (ℕ × Money)
grouped gs [] = gs
grouped gs (l ∷ ls) = grouped (add_to l.income_account_id l.net gs) ls

abbrev pub sign_of : InvoiceKind → ℤ
sign_of invoice = pos 1
sign_of credit_note = negsuc 0

abbrev pub label_of : Str → Str
label_of [] = codes "invoice"
label_of (c ∷ cs) = c ∷ cs

unfoldable pub income_postings : ℤ → Str → List (ℕ × Money) → List Posting
income_postings sign label [] = []
income_postings sign label (g ∷ gs) =
    posting g.0 (mul64 sign g.1) label false ∷ income_postings sign label gs

unfoldable pub debit_sum : Money → List Posting → Money
debit_sum sum [] = sum
debit_sum sum (p ∷ ps) = debit_sum (add64 sum p.debit) ps

unfoldable pub credit_sum : Money → List Posting → Money
credit_sum sum [] = sum
credit_sum sum (p ∷ ps) = credit_sum (add64 sum p.credit) ps

-- `AccountBySystemKey`
unfoldable pub by_key : Str → List Account → Result Fault Account
by_key key [] = err not_found
by_key key (a ∷ rest) = let found = by_key key rest in if a.system_key == key then ok a else found

-- The three groups of postings, in the order of the source: the receivable, the income by account, and
-- the tax if there is any.
unfoldable pub all_postings : ℕ → Option ℕ → Invoice → List Posting
all_postings ar tax_account inv =
    let sign = sign_of inv.kind in
    let label = label_of inv.number in
    posting ar (mul64 sign inv.total)
      (label ++ codes " " ++ (226 ∷ 128 ∷ 148 ∷ []) ++ codes " " ++ inv.client_name) true
    ∷ (income_postings sign label (grouped [] inv.lines) ++ tax_posting sign label tax_account)
  where
    tax_posting : ℤ → Str → Option ℕ → List Posting
    tax_posting sign label none = []
    tax_posting sign label (some a) =
        posting a (mul64 sign inv.vat) (label ++ codes " VAT") false ∷ []

-- The account the tax goes to, when any was charged.
unfoldable pub tax_account : List Account → Money → Result Fault (Option ℕ)
tax_account accounts tax =
    if int_beq tax (pos 0)
    then ok none
    else by_key (codes "vat_output") accounts >>= λ (a : Account). ok (some a.id)

-- The check at the end of invoicePostings.
unfoldable pub checked : List Posting → Result Fault (List Posting)
checked ps =
    refuse_if (not (int_beq (debit_sum (pos 0) ps) (credit_sum (pos 0) ps)))
      (invoice_unbalanced (debit_sum (pos 0) ps) (credit_sum (pos 0) ps))
    >> ok ps

-- `invoicePostings`
unfoldable pub invoice_postings : List Account → Invoice → Result Fault (List Posting)
invoice_postings accounts inv = by_key (codes "ar") accounts >>= λ (ar : Account).
    tax_account accounts inv.vat >>= λ (t : Option ℕ). checked (all_postings ar.id t inv)
