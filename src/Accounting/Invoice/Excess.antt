-- ===== src/Accounting/Invoice/Excess.antt =====
-- By how much the debits exceed the credits, as bit patterns of 64 bits, and how a posting moves that.
use wintermute.Prelude.{ℕ, ◌+◌, ◌-◌, ◌%◌, ◌≡◌, ap, subst, if_intro, ◌∙◌, true, false, arith, nat_eq}
use wintermute.Prelude.Int.{ℤ, pos, negsuc, ◌-ℤ◌, ◌*ℤ◌}
use wintermute.Prelude.Int64.{
  two64, residue, residue-lt, residue-wrap, residue-add64, residue-neg64, zero_residue, wrap, add64,
  mul64, neg64,
}
use wintermute.Prelude.Str.{Str, str_eq}
use wintermute.Accounting.Money.{Money, is_negative}
use wintermute.Accounting.Model.{Posting}
use wintermute.Accounting.Invoice.{InvoiceKind, invoice, credit_note, sign_of, posting}

pub minus_is : (x : ℤ) → negsuc 0 *ℤ x ≡ pos 0 -ℤ x
unfolding ◌*ℤ◌ ◌-ℤ◌
minus_is x = ground arith

-- Debits exceed credits by `m`, as bit patterns.
abbrev pub Exceeds : ℤ → ℤ → ℕ → Type 0
Exceeds d c m = residue d ≡ (residue c + m) % two64

pub to_debit :
    (d c amount : ℤ) (m : ℕ)
    → Exceeds d c m
    → Exceeds (add64 d amount) (add64 c (pos 0)) (m + residue amount)
to_debit d c amount m h = omega (
  arith,
  h,
  zero_residue,
  residue-add64 d amount,
  residue-add64 c (pos 0),
  residue-lt d,
  residue-lt c,
  residue-lt amount,
)

pub to_credit :
    (d c amount : ℤ) (m : ℕ)
    → Exceeds d c m
    → Exceeds (add64 d (pos 0)) (add64 c (neg64 amount)) (m + residue amount)
to_credit d c amount m h = omega (
  arith,
  h,
  zero_residue,
  residue-neg64 amount,
  residue-add64 d (pos 0),
  residue-add64 c (neg64 amount),
  residue-lt d,
  residue-lt c,
  residue-lt amount,
)

-- A posting on the debit side moves the excess up by its amount.
abbrev pub Moves : ℤ → ℤ → ℕ → Posting → Type 0
Moves d c m p = Exceeds (add64 d p.debit) (add64 c p.credit) m

pub posting-debit :
    (account : ℕ) (amount : Money) (desc : Str) (d c : Money) (m : ℕ)
    → Exceeds d c m
    → Moves d c (m + residue amount) (posting account amount desc true)
unfolding posting
posting-debit account amount desc d c m h =
    if_intro (Moves d c (m + residue amount)) (is_negative amount) (to_credit d c amount m h)
      (to_debit d c amount m h)

-- One on the credit side moves it down.
pub posting-credit :
    (account : ℕ) (amount : Money) (desc : Str) (d c : Money) (m : ℕ)
    → Exceeds d c m
    → Moves d c (m + (two64 - residue amount) % two64) (posting account amount desc false)
unfolding posting
posting-credit account amount desc d c m h =
    if_intro (Moves d c (m + (two64 - residue amount) % two64)) (is_negative (neg64 amount))
      (subst (λ k. Exceeds (add64 d (pos 0)) (add64 c (neg64 (neg64 amount))) (m + k))
        (residue-neg64 amount) (to_credit d c (neg64 amount) m h))
      (subst (λ k. Exceeds (add64 d (neg64 amount)) (add64 c (pos 0)) (m + k))
        (residue-neg64 amount) (to_debit d c (neg64 amount) m h))

pub one_times : (x : ℤ) → residue (mul64 (pos 1) x) ≡ residue x
unfolding mul64 ◌*ℤ◌
one_times x = residue-wrap (pos 1 *ℤ x) ∙ ap residue (ground arith)

pub minus_times : (x : ℤ) → residue (mul64 (negsuc 0) x) ≡ (two64 - residue x) % two64
unfolding mul64 neg64
minus_times x = ap (λ z. residue (wrap z)) (minus_is x) ∙ residue-neg64 x

-- A signed amount, as a bit pattern.
abbrev pub weight : InvoiceKind → Money → ℕ
weight k x = residue (mul64 (sign_of k) x)

pub weight-split :
    (k : InvoiceKind) (x y z : Money)
    → residue x ≡ (residue y + residue z) % two64
    → weight k x ≡ (weight k y + weight k z) % two64
weight-split invoice x y z h = rw (one_times x, one_times y, one_times z) h
weight-split credit_note x y z h =
    rw (minus_times x, minus_times y, minus_times z) (omega (arith, h, residue-lt y, residue-lt z))

pub weight_zero : (k : InvoiceKind) (x : Money) → residue x ≡ 0 → weight k x ≡ 0
weight_zero invoice x h = one_times x ∙ h
weight_zero credit_note x h = minus_times x ∙ omega (arith, h)
