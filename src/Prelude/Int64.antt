-- ===== src/Prelude/Int64.antt =====
-- Go's int64: integers that wrap around at 64 bits. `residue` is the bit pattern of an integer, and
-- `wrap` the int64 with that pattern; two integers wrap alike when their patterns are one.
use wintermute.Prelude.{
  ℕ, suc, ◌+◌, ◌-◌, ◌/◌, ◌%◌, ◌<◌, ◌≤◌, ◌≡◌, refl, sym, ap, ◌∙◌, arith, ltb, if◌then◌else◌,
}
use wintermute.Prelude.Int.{ℤ, pos, negsuc, pos_part, neg_part, sub_ℕ, ◌+ℤ◌, ◌-ℤ◌, ◌*ℤ◌}

abbrev pub two64 : ℕ
two64 = 18446744073709551616

abbrev pub two63 : ℕ
two63 = 9223372036854775808

unfoldable pub residue : ℤ → ℕ
residue (pos n) = n % two64
residue (negsuc n) = 18446744073709551615 - n % two64

unfoldable pub signed : ℕ → ℤ
signed r = if ltb r two63 then pos r else negsuc (18446744073709551615 - r)

unfoldable pub wrap : ℤ → ℤ
unfolding residue signed
wrap z = signed (residue z)

unfoldable pub add64 : ℤ → ℤ → ℤ
add64 a b = wrap (a +ℤ b)

unfoldable pub sub64 : ℤ → ℤ → ℤ
sub64 a b = wrap (a -ℤ b)

unfoldable pub neg64 : ℤ → ℤ
neg64 a = wrap (pos 0 -ℤ a)

unfoldable pub mul64 : ℤ → ℤ → ℤ
mul64 a b = wrap (a *ℤ b)

-- `/` by a positive constant: towards zero.
unfoldable pub div64 : ℤ → ℕ → ℤ
div64 (pos n) d = pos (n / d)
div64 (negsuc n) d = sub_ℕ 0 (suc n / d)

-- An int64 is an integer that wraps to itself.
abbrev pub IsInt64 : ℤ → Type 0
IsInt64 z = (pos_part z < two63) × (neg_part z ≤ two63)

pub residue-lt : (a : ℤ) → residue a < two64
unfolding residue
residue-lt a = ground arith

pub residue-wrap : (a : ℤ) → residue (wrap a) ≡ residue a
unfolding wrap
residue-wrap a = ground arith

pub wrap-IsInt64 : (a : ℤ) → IsInt64 (wrap a)
unfolding wrap
wrap-IsInt64 a = ground arith

pub wrap_of_IsInt64 : (a : ℤ) → IsInt64 a → wrap a ≡ a
unfolding wrap
wrap_of_IsInt64 a h = ground arith

pub residue-add : (a b : ℤ) → residue (a +ℤ b) ≡ (residue a + residue b) % two64
unfolding residue ◌+ℤ◌
residue-add a b = ground arith

pub residue-sub : (a b : ℤ) → residue (a -ℤ b) ≡ (residue a + (two64 - residue b)) % two64
unfolding residue ◌-ℤ◌
residue-sub a b = ground arith

pub wrap_eq : (a b : ℤ) → residue a ≡ residue b → wrap a ≡ wrap b
unfolding wrap
wrap_eq a b h = ap signed h

pub residue-add64 : (a b : ℤ) → residue (add64 a b) ≡ (residue a + residue b) % two64
unfolding add64
residue-add64 a b = residue-wrap (a +ℤ b) ∙ residue-add a b

pub zero_residue : residue (pos 0) ≡ 0
unfolding residue
zero_residue = refl

pub residue-neg64 : (a : ℤ) → residue (neg64 a) ≡ (two64 - residue a) % two64
unfolding neg64
residue-neg64 a =
    residue-wrap (pos 0 -ℤ a)
    ∙ residue-sub (pos 0) a
    ∙ ap (λ z. (z + (two64 - residue a)) % two64) zero_residue
    ∙ omega arith

pub residue-sub64 : (a b : ℤ) → residue (sub64 a b) ≡ (residue a + (two64 - residue b)) % two64
unfolding sub64
residue-sub64 a b = residue-wrap (a -ℤ b) ∙ residue-sub a b

pub same_int64 : (a b : ℤ) → IsInt64 a → IsInt64 b → residue a ≡ residue b → a ≡ b
same_int64 a b h k q = sym (wrap_of_IsInt64 a h) ∙ wrap_eq a b q ∙ wrap_of_IsInt64 b k
