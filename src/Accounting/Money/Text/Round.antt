-- ===== src/Accounting/Money/Text/Round.antt =====
-- money.go: ParseMoney reads back what String prints.
use wintermute.Prelude.{
  ℕ, suc, ◌+◌, ◌*◌, ◌/◌, ◌%◌, ◌≤◌, ◌<◌, ◌≡◌, refl, sym, ap, subst, ◌∙◌, inl, inr, true, false, some,
  Bool, Bool-cases, if◌then◌else◌, [], ◌∷◌, ◌++◌, All, All-imp, All-append, arith, ltb, nat_beq, ok,
}
use wintermute.Prelude.Int.{pos, negsuc, ◌+ℤ◌, ◌-ℤ◌, ◌*ℤ◌}
use wintermute.Prelude.Int64.{
  two63, IsInt64, wrap, wrap_of_IsInt64, add64, neg64, mul64, div64, residue, signed,
}
use wintermute.Prelude.Str.{Str, IsPrintable, trim_space, trim_space-IsPrintable}
use wintermute.Prelude.Decimal.{
  IsDigit, IsCons, print_nat, print_nat-All, print_nat-IsCons, read_digits, digits, print_int,
  print_nat_one, print_nat_two, parse_int, parse_int-print_int, parse_int-digits,
}
use wintermute.Accounting.Money.{Money, is_negative}
use wintermute.Accounting.Money.Text.{
  padded, money_string, cents_text, two_places, remove, cut, cents_of, parse_amount, or_zero,
  parse_stripped, parse_money,
}

-- A digit, the point or a minus.
abbrev IsAmountByte : ℕ → Type 0
IsAmountByte c = (45 ≤ c) × (c ≤ 57)

padded_lem : (n : ℕ) → n < 100 → padded n ≡ (48 + n / 10) ∷ (48 + n % 10) ∷ []
padded_lem n h = elim (Bool-cases (ltb n 10)) [
  | inl e ↦
      let small : (n < 10) = ground arith in
      let tens : (n / 10 ≡ 0) = omega (arith, small) in
      let units : (n % 10 ≡ n) = omega (arith, small) in
      rw (e, print_nat_one n small, tens, units) refl
  | inr e ↦ rw e (print_nat_two n (ground arith) h)
]

cut_point : (s t : Str) → All IsDigit s → cut 46 (s ++ 46 ∷ t) ≡ (s, some t)
unfolding cut
cut_point [] t h = refl
cut_point (c ∷ s) t h =
    let other : (nat_beq c 46 ≡ false) = ground arith in rw (other, cut_point s t h.1) refl

two_digits : (n : ℕ) → n < 100 → parse_int ((48 + n / 10) ∷ (48 + n % 10) ∷ []) ≡ some (pos n)
unfolding read_digits
two_digits n h =
    parse_int-digits _ n (_, _, refl)
      ((omega arith, omega (arith, h)), ((omega arith, omega arith), tt)) (ground arith)
      (omega (arith, h))

or_zero_lem : (s : Str) → IsCons s → or_zero s ≡ s
or_zero_lem s h = rw (h.2) refl

exact : (q : ℕ) → pos q *ℤ pos 100 ≡ pos (q * 100)
unfolding ◌*ℤ◌
exact q = ground arith

exact_sum : (a b : ℕ) → pos a +ℤ pos b ≡ pos (a + b)
unfolding ◌+ℤ◌
exact_sum a b = ground arith

times_hundred : (q : ℕ) → q * 100 < two63 → mul64 (pos q) (pos 100) ≡ pos (q * 100)
unfolding mul64
times_hundred q h = ap wrap (exact q) ∙ wrap_of_IsInt64 (pos (q * 100)) (h, omega arith)

plus_pos : (a b : ℕ) → a + b < two63 → add64 (pos a) (pos b) ≡ pos (a + b)
unfolding add64
plus_pos a b h = ap wrap (exact_sum a b) ∙ wrap_of_IsInt64 (pos (a + b)) (h, omega arith)

whole : (n : ℕ) → n < two63 → add64 (mul64 (pos (n / 100)) (pos 100)) (pos (n % 100)) ≡ pos n
whole n h =
    ap (λ x. add64 x (pos (n % 100))) (times_hundred (n / 100) (omega (arith, h)))
    ∙ plus_pos (n / 100 * 100) (n % 100) (omega (arith, h))
    ∙ ap pos (omega arith)

-- The text of a non-negative amount is read back by what follows the sign.
parse_amount-pos :
    (neg : Bool) (n : ℕ)
    → n < two63
    → parse_amount neg (cents_text (pos n)) ≡ ok (if neg then neg64 (pos n) else pos n)
unfolding parse_amount two_places div64 print_int cents_of
parse_amount-pos neg n h =
    rw
      (
        padded_lem (n % 100) (omega arith),
        cut_point (print_nat (n / 100)) ((48 + n % 100 / 10) ∷ (48 + n % 100 % 10) ∷ [])
            (print_nat-All (n / 100)),
        or_zero_lem (print_nat (n / 100)) (print_nat-IsCons (n / 100)),
        parse_int-print_int (pos (n / 100)) (omega (arith, h), omega arith),
        two_digits (n % 100) (omega arith),
        whole n h,
      )
      refl

padded-All : (n : ℕ) → n < 100 → All IsAmountByte (padded n)
padded-All n h =
    subst (All IsAmountByte) (sym (padded_lem n h))
      ((omega arith, omega (arith, h)), ((omega arith, omega arith), tt))

cents_text-All : (n : ℕ) → All IsAmountByte (cents_text (pos n))
unfolding div64 print_int two_places
cents_text-All n =
    All-append IsAmountByte (print_nat (n / 100)) (46 ∷ padded (n % 100))
      (All-imp IsDigit IsAmountByte (λ c k. (omega (arith, k.0), k.1)) _ (print_nat-All (n / 100)))
      ((omega arith, omega arith), padded-All (n % 100) (omega arith))

remove_lem : (c : ℕ) (s : Str) → c < 45 → All IsAmountByte s → remove c s ≡ s
unfolding remove
remove_lem c [] h k = refl
remove_lem c (d ∷ s) h k =
    let other : (nat_beq d c ≡ false) = ground arith in rw (other, remove_lem c s h k.1) refl

clean : (s : Str) → All IsAmountByte s → parse_money s ≡ parse_stripped s
unfolding parse_money
clean s h =
    rw
      (
        trim_space-IsPrintable s (
            All-imp IsAmountByte IsPrintable (λ c k. (omega (arith, k.0), omega (arith, k.1))) s h),
        remove_lem 44 s (omega arith) h,
        remove_lem 32 s (omega arith) h,
      )
      refl

unsigned :
    (s t : Str) → IsCons s → All IsDigit s → parse_stripped (s ++ t) ≡ parse_amount false (s ++ t)
unsigned [] t h k = ground arith
unsigned (c ∷ s) t h k =
    let no_minus : (nat_beq c 45 ≡ false) = ground arith in
    let no_plus : (nat_beq c 43 ≡ false) = ground arith in rw (no_minus, no_plus) refl

after_minus :
    (s t : Str)
    → IsCons s
    → All IsDigit s
    → parse_stripped (45 ∷ s ++ t) ≡ parse_amount true (s ++ t)
after_minus [] t h k = ground arith
after_minus (c ∷ s) t h k = let no_plus : (nat_beq c 43 ≡ false) = ground arith in rw no_plus refl

read_pos : (n : ℕ) → n < two63 → parse_money (cents_text (pos n)) ≡ ok (pos n)
unfolding div64 print_int
read_pos n h =
    clean _ (cents_text-All n)
    ∙ unsigned (print_nat (n / 100)) _ (print_nat-IsCons (n / 100)) (print_nat-All (n / 100))
    ∙ parse_amount-pos false n h

read_neg : (n : ℕ) → n < two63 → parse_money (45 ∷ cents_text (pos n)) ≡ ok (neg64 (pos n))
unfolding div64 print_int
read_neg n h =
    clean _ ((omega arith, omega arith), cents_text-All n)
    ∙ after_minus (print_nat (n / 100)) _ (print_nat-IsCons (n / 100)) (print_nat-All (n / 100))
    ∙ parse_amount-pos true n h

negated : (n : ℕ) → suc n < two63 → neg64 (negsuc n) ≡ pos (suc n)
unfolding neg64 wrap residue signed ◌-ℤ◌
negated n h = ground arith

negated_back : (n : ℕ) → suc n < two63 → neg64 (pos (suc n)) ≡ negsuc n
unfolding neg64 wrap residue signed ◌-ℤ◌
negated_back n h = ground arith

-- The least int64 is its own negation, and prints with a minus of its own on both parts.
least_reads :
    parse_money (money_string (negsuc 9223372036854775807)) ≡ ok (negsuc 9223372036854775807)
unfolding parse_money money_string neg64 wrap residue signed ◌-ℤ◌ ◌+ℤ◌ ◌*ℤ◌ div64 print_int
    print_nat digits two_places remove cut parse_amount parse_int read_digits trim_space cents_of
    add64 mul64
least_reads = refl

-- ParseMoney reads back every amount from what String prints for it, the least int64 included.
pub parse_money-money_string : (m : Money) → IsInt64 m → parse_money (money_string m) ≡ ok m
unfolding money_string
parse_money-money_string (pos n) h =
    let up : (is_negative (pos n) ≡ false) = ground arith in rw up (read_pos n (h.0))
parse_money-money_string (negsuc n) h = elim (Bool-cases (ltb (suc n) two63)) [
  | inl e ↦
      let small : (suc n < two63) = ground arith in
      let down : (is_negative (negsuc n) ≡ true) = ground arith in
      rw (down, negated n small) (read_neg (suc n) small ∙ ap ok (negated_back n small))
  | inr e ↦
      let least : (9223372036854775807 ≡ n) = ground arith in
      subst (λ (k : ℕ). parse_money (money_string (negsuc k)) ≡ ok (negsuc k)) least least_reads
]
