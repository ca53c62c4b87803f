-- ===== src/Accounting/Money/Rounding.antt =====
-- money.go: what the roundings return.
use wintermute.Prelude.{
  ℕ, suc, ◌+◌, ◌*◌, ◌≤◌, ◌<◌, ◌≡◌, subst, ap, sym, ◌∙◌, arith, if◌then◌else◌, true, false,
}
use wintermute.Prelude.Int.{ℤ, pos, negsuc, pos_part, neg_part, ◌+ℤ◌, ◌-ℤ◌, ◌*ℤ◌}
use wintermute.Prelude.Int64.{two63, wrap, wrap_of_IsInt64, add64, sub64, mul64, div64}
use wintermute.Accounting.Money.{Money, vat, is_negative}

-- A product that leaves room for the rounding term.
abbrev pub Fits : ℤ → ℕ → Type 0
Fits z room = (pos_part z + room < two63) × (neg_part z + room < two63)

-- `t` is within half a unit of `z / d`.
abbrev pub IsNearest : ℕ → ℕ → ℤ → ℤ → Type 0
IsNearest d half z t =
    (pos_part t * d + neg_part z ≤ pos_part z + neg_part t * d + half)
    × (pos_part z + neg_part t * d ≤ pos_part t * d + neg_part z + half)

-- A dividend that stays in range keeps its sign, and is rounded away from zero at the half.
add_pos : (n : ℕ) → pos n +ℤ pos 5000 ≡ pos (n + 5000)
unfolding ◌+ℤ◌
add_pos n = ground arith

sub_negsuc : (n : ℕ) → negsuc n -ℤ pos 5000 ≡ negsuc (n + 5000)
unfolding ◌-ℤ◌
sub_negsuc n = ground arith

up : (n : ℕ) → n + 5000 < two63 → add64 (pos n) (pos 5000) ≡ pos (n + 5000)
unfolding add64
up n h = ap wrap (add_pos n) ∙ wrap_of_IsInt64 (pos (n + 5000)) (ground arith)

down : (n : ℕ) → suc n + 5000 < two63 → sub64 (negsuc n) (pos 5000) ≡ negsuc (n + 5000)
unfolding sub64
down n h = ap wrap (sub_negsuc n) ∙ wrap_of_IsInt64 (negsuc (n + 5000)) (ground arith)

rounded : ℤ → ℤ
rounded n =
    if is_negative n then div64 (sub64 n (pos 5000)) 10000 else div64 (add64 n (pos 5000)) 10000

IsNearest-pos : (n : ℕ) → IsNearest 10000 5000 (pos n) (div64 (pos (n + 5000)) 10000)
unfolding div64
IsNearest-pos n = (omega arith, omega arith)

IsNearest-negsuc : (n : ℕ) → IsNearest 10000 5000 (negsuc n) (div64 (negsuc (n + 5000)) 10000)
unfolding div64
IsNearest-negsuc n = ground arith

pos-sign : (n : ℕ) → is_negative (pos n) ≡ false
pos-sign n = ground arith

negsuc-sign : (n : ℕ) → is_negative (negsuc n) ≡ true
negsuc-sign n = ground arith

rounded-IsNearest : (n : ℤ) → Fits n 5000 → IsNearest 10000 5000 n (rounded n)
unfolding rounded
rounded-IsNearest (pos n) h = rw (pos-sign n, up n h.0) (IsNearest-pos n)
rounded-IsNearest (negsuc n) h = rw (negsuc-sign n, down n h.1) (IsNearest-negsuc n)

-- The tax is the product of the net amount and the rate divided by 10000, to the nearest cent (half
-- a cent off at most), when that product stays clear of the 64-bit bounds by 5000.
pub vat-IsNearest :
    (net : Money) (rate_bp : ℤ)
    → Fits (net *ℤ rate_bp) 5000
    → IsNearest 10000 5000 (net *ℤ rate_bp) (vat net rate_bp)
unfolding vat mul64 rounded
vat-IsNearest net rate_bp h =
    subst (λ n. IsNearest 10000 5000 (net *ℤ rate_bp) (rounded n))
      (sym (wrap_of_IsInt64 (net *ℤ rate_bp) (ground arith))) (rounded-IsNearest (net *ℤ rate_bp) h)
