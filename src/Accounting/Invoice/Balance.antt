-- ===== src/Accounting/Invoice/Balance.antt =====
-- The postings of a priced invoice always balance, also when a sum wraps around: modulo 2 ^ 64 the
-- debits exceed the credits by nothing.
use mathlib.Core.List.{append-nil}
use wintermute.Prelude.{
  ℕ, suc, ◌+◌, ◌-◌, ◌%◌, ◌≡◌, refl, ap, subst, if_intro, true, false, Option, none, some, inl, inr,
  Bool-cases, List, [], ◌∷◌, ◌++◌, arith, ◌==◌, nat_eq, ok,
}
use wintermute.Prelude.Int.{pos, ◌+ℤ◌, int_beq, int_beq_iff}
use wintermute.Prelude.Int64.{
  two64, residue, residue-lt, IsInt64, wrap-IsInt64, add64, mul64, residue-add64, zero_residue,
  same_int64,
}
use wintermute.Prelude.Str.{Str, codes, str_eq}
use wintermute.Accounting.Money.{Money}
use wintermute.Prelude.Results.{bind-ok, ok_inj}
use wintermute.Accounting.Model.{Account, Posting}
use wintermute.Accounting.Invoice.{
  InvoiceKind, label_of, invoice, credit_note, InvoiceLine, Invoice, Pricing, sign_of, posting,
  debit_sum, credit_sum, income_postings, add_to, grouped, all_postings, checked, tax_account,
  by_key, invoice_postings, price_line, price_lines, price,
}
use wintermute.Accounting.Invoice.Excess.{
  Exceeds, Moves, posting-debit, posting-credit, one_times, minus_times, weight, weight-split,
  weight_zero,
}

-- What is still to be credited: the groups, and then `t`.
rem : List (ℕ × Money) → Money → Money
rem [] t = t
rem (g ∷ gs) t = add64 g.1 (rem gs t)

abbrev After : InvoiceKind → Money → Money → Money → Type 0
After k d c x = Exceeds d c (weight k x)

-- A credit of part of what is left leaves the rest.
credit_part :
    (k : InvoiceKind) (account : ℕ) (desc : Str) (x y z : Money) (d c : Money)
    → residue x ≡ (residue y + residue z) % two64
    → After k d c x
    → Moves d c (weight k z) (posting account (mul64 (sign_of k) y) desc false)
credit_part k account desc x y z d c h e = omega (
  arith,
  posting-credit account (mul64 (sign_of k) y) desc d c (weight k x) e,
  weight-split k x y z h,
  residue-lt (mul64 (sign_of k) y),
  residue-lt (mul64 (sign_of k) z),
)

income_left :
    (k : InvoiceKind) (label : Str) (gs : List (ℕ × Money)) (t d c : Money)
    → After k d c (rem gs t)
    → After k
        (debit_sum d (income_postings (sign_of k) label gs))
        (credit_sum c (income_postings (sign_of k) label gs))
        t
unfolding income_postings debit_sum credit_sum rem
income_left k label [] t d c e = e
income_left k label (g ∷ gs) t d c e = income_left k label gs t _ _ (
    credit_part k g.0 label (add64 g.1 (rem gs t)) g.1 (rem gs t) d c (residue-add64 g.1 (rem gs t))
      e)

rem-add_to :
    (a : ℕ) (n : Money) (gs : List (ℕ × Money)) (t : Money)
    → residue (rem (add_to a n gs) t) ≡ (residue (rem gs t) + residue n) % two64
unfolding add_to rem
rem-add_to a n [] t =
    omega (arith, residue-add64 (add64 (pos 0) n) t, residue-add64 (pos 0) n, zero_residue)
rem-add_to a n (g ∷ gs) t =
    if_intro
      (λ (x : List (ℕ × Money)).
        residue (rem x t) ≡ (residue (add64 g.1 (rem gs t)) + residue n) % two64)
      (g.0 == a)
      (omega (
        arith,
        residue-add64 (add64 g.1 n) (rem gs t),
        residue-add64 g.1 n,
        residue-add64 g.1 (rem gs t),
      ))
      (omega (
        arith,
        residue-add64 g.1 (rem (add_to a n gs) t),
        rem-add_to a n gs t,
        residue-add64 g.1 (rem gs t),
      ))

-- The net amounts added up as bit patterns.
nets : List InvoiceLine → ℕ
nets [] = 0
nets (l ∷ ls) = residue l.net + nets ls

rem-grouped :
    (gs : List (ℕ × Money)) (ls : List InvoiceLine) (t : Money)
    → residue (rem (grouped gs ls) t) ≡ (residue (rem gs t) + nets ls) % two64
unfolding grouped nets
rem-grouped gs [] t = omega (arith, residue-lt (rem gs t))
rem-grouped gs (l ∷ ls) t = omega (
  arith,
  rem-grouped (add_to l.income_account_id l.net gs) ls t,
  rem-add_to l.income_account_id l.net gs t,
)

debit_sum-append :
    (s : Money) (ps qs : List Posting) → debit_sum s (ps ++ qs) ≡ debit_sum (debit_sum s ps) qs
unfolding debit_sum
debit_sum-append s [] qs = refl
debit_sum-append s (p ∷ ps) qs = debit_sum-append (add64 s p.debit) ps qs

credit_sum-append :
    (s : Money) (ps qs : List Posting) → credit_sum s (ps ++ qs) ≡ credit_sum (credit_sum s ps) qs
unfolding credit_sum
credit_sum-append s [] qs = refl
credit_sum-append s (p ∷ ps) qs = credit_sum-append (add64 s p.credit) ps qs

debit_sum-IsInt64 : (s : Money) (ps : List Posting) → IsInt64 s → IsInt64 (debit_sum s ps)
unfolding debit_sum add64
debit_sum-IsInt64 s [] h = h
debit_sum-IsInt64 s (p ∷ ps) h =
    debit_sum-IsInt64 (add64 s p.debit) ps (wrap-IsInt64 (s +ℤ p.debit))

credit_sum-IsInt64 : (s : Money) (ps : List Posting) → IsInt64 s → IsInt64 (credit_sum s ps)
unfolding credit_sum add64
credit_sum-IsInt64 s [] h = h
credit_sum-IsInt64 s (p ∷ ps) h =
    credit_sum-IsInt64 (add64 s p.credit) ps (wrap-IsInt64 (s +ℤ p.credit))

checked_ok :
    (ps : List Posting)
    → residue (debit_sum (pos 0) ps) ≡ residue (credit_sum (pos 0) ps)
    → checked ps ≡ ok ps
unfolding checked
checked_ok ps h =
    rw
      ((int_beq_iff _ _).1 (
        same_int64 _ _ (debit_sum-IsInt64 (pos 0) ps (ground arith))
          (credit_sum-IsInt64 (pos 0) ps (ground arith)) h))
      refl

weight_eq : (k : InvoiceKind) (x y : Money) → residue x ≡ residue y → weight k x ≡ weight k y
weight_eq invoice x y h = rw (one_times x, one_times y) h
weight_eq credit_note x y h = rw (minus_times x, minus_times y) (ap (λ z. (two64 - z) % two64) h)

starts :
    (k : InvoiceKind) (ar : ℕ) (desc : Str) (total left : Money)
    → residue total ≡ residue left
    → Moves (pos 0) (pos 0) (weight k left) (posting ar (mul64 (sign_of k) total) desc true)
starts k ar desc total left h = omega (
  arith,
  weight_eq k total left h,
  posting-debit ar (mul64 (sign_of k) total) desc (pos 0) (pos 0) 0 (omega (arith, zero_residue)),
)

settled : (k : InvoiceKind) (x d c : Money) → residue x ≡ 0 → After k d c x → residue d ≡ residue c
settled k x d c h e = omega (arith, weight_zero k x h, e, residue-lt c)

-- Once the receivable and the income are posted, the tax is what is left.
tax_left :
    (ar : ℕ) (desc label : Str) (inv : Invoice)
    → residue inv.total ≡ (nets inv.lines + residue inv.vat) % two64
    → let p = posting ar (mul64 (sign_of inv.kind) inv.total) desc true in
      let ps = income_postings (sign_of inv.kind) label (grouped [] inv.lines) in
      After inv.kind
        (debit_sum (add64 (pos 0) p.debit) ps)
        (credit_sum (add64 (pos 0) p.credit) ps)
        inv.vat
unfolding residue rem
tax_left ar desc label inv h = income_left inv.kind label (grouped [] inv.lines) inv.vat _ _ (
    starts inv.kind ar desc inv.total (rem (grouped [] inv.lines) inv.vat)
      (omega (arith, h, rem-grouped [] inv.lines inv.vat)))

-- Nothing is left once the tax is credited, or when there is none.
all_balance :
    (ar : ℕ) (t : Option ℕ) (inv : Invoice)
    → residue inv.total ≡ (nets inv.lines + residue inv.vat) % two64
    → (t ≡ none → residue inv.vat ≡ 0)
    → residue (debit_sum (pos 0) (all_postings ar t inv))
      ≡ residue (credit_sum (pos 0) (all_postings ar t inv))
unfolding all_postings debit_sum credit_sum
all_balance ar none inv h n =
    rw
      (append-nil (income_postings (sign_of inv.kind) (label_of inv.number) (grouped [] inv.lines)))
      (settled inv.kind inv.vat _ _ (n refl) (tax_left ar _ _ inv h))
all_balance ar (some a) inv h n =
    rw (debit_sum-append, credit_sum-append)
      (settled inv.kind (pos 0) _ _ zero_residue (
        credit_part inv.kind a _ inv.vat inv.vat (pos 0) _ _
          (omega (arith, zero_residue, residue-lt inv.vat)) (tax_left ar _ _ inv h)))

price_lines-nets :
    (p : Pricing) (i : ℕ) (s t : Money) (ls : List InvoiceLine)
    (r : List InvoiceLine × Money × Money)
    → price_lines p i s t ls ≡ ok r
    → residue r.1 ≡ (residue s + nets r.0) % two64
unfolding price_lines nets
price_lines-nets p i s t [] r h =
    subst (λ (x : List InvoiceLine × Money × Money). residue x.1 ≡ (residue s + nets x.0) % two64)
      (ok_inj h) (omega (arith, residue-lt s))
price_lines-nets p i s t (l ∷ ls) r h =
    let one = bind-ok (price_line p i l) _ r h in
    let more =
      bind-ok (price_lines p (suc i) (add64 s one.0.net) (add64 t one.0.vat) ls) _ r one.2 in
    subst (λ (x : List InvoiceLine × Money × Money). residue x.1 ≡ (residue s + nets x.0) % two64)
      (ok_inj more.2)
      (omega (
        arith,
        price_lines-nets p (suc i) (add64 s one.0.net) (add64 t one.0.vat) ls more.0 more.1,
        residue-add64 s one.0.net,
      ))

priced :
    (p : Pricing) (inv inv' : Invoice)
    → price p inv ≡ ok inv'
    → residue inv'.total ≡ (nets inv'.lines + residue inv'.vat) % two64
unfolding price
priced p inv inv' h =
    let lines = bind-ok (price_lines p 0 (pos 0) (pos 0) inv.lines) _ inv' h in
    subst (λ (x : Invoice). residue x.total ≡ (nets x.lines + residue x.vat) % two64)
      (ok_inj lines.2)
      (omega (
        arith,
        residue-add64 lines.0.1 lines.0.2,
        price_lines-nets p 0 (pos 0) (pos 0) inv.lines lines.0 lines.1,
        zero_residue,
      ))

tax_account_ok :
    (accounts : List Account) (tax : Money) (a : Account)
    → by_key (codes "vat_output") accounts ≡ ok a
    → (t : Option ℕ) × (tax_account accounts tax ≡ ok t) × (t ≡ none → residue tax ≡ 0)
unfolding tax_account residue
tax_account_ok accounts tax a h = elim (Bool-cases (int_beq tax (pos 0))) [
  | inl z ↦ (none, rw z refl, λ q. ap residue ((int_beq_iff tax (pos 0)).0 z))
  | inr n ↦ (some a.id, rw (n, h) refl, λ q. ground arith)
]

-- An invoice or a credit note whose lines were priced, as `price` leaves it, gets its postings wherever
-- the chart has the receivable and the VAT account: the check that they balance never refuses them,
-- even when amounts wrap around at 64 bits, and their debits and credits add up to one amount.
pub invoice_postings-balance :
    (p : Pricing) (accounts : List Account) (inv inv' : Invoice) (ar tax : Account)
    → price p inv ≡ ok inv'
    → by_key (codes "ar") accounts ≡ ok ar
    → by_key (codes "vat_output") accounts ≡ ok tax
    → (ps : List Posting) × (invoice_postings accounts inv' ≡ ok ps)
      × (debit_sum (pos 0) ps ≡ credit_sum (pos 0) ps)
unfolding invoice_postings
invoice_postings-balance p accounts inv inv' ar tax h a v =
    let t = tax_account_ok accounts inv'.vat tax v in
    let ps = all_postings ar.id t.0 inv' in
    let even = all_balance ar.id t.0 inv' (priced p inv inv' h) t.2 in
    (
      ps,
      rw (a, t.1) (checked_ok ps even),
      same_int64 _ _ (debit_sum-IsInt64 (pos 0) ps (ground arith))
          (credit_sum-IsInt64 (pos 0) ps (ground arith)) even,
    )
