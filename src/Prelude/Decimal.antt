-- ===== src/Prelude/Decimal.antt =====
-- Numbers in decimal, as package fmt prints them with %d and package strconv reads them.
use wintermute.Prelude.{
  ℕ, zero, suc, ◌+◌, ◌-◌, ◌*◌, ◌/◌, ◌%◌, ◌<◌, ◌≤◌, ◌≡◌, refl, ap, ◌∙◌, inl, inr, Bool-cases,
  if_intro, Bool, true, false, ◌&&◌, Option, none, some, [], ◌∷◌, All, arith, ltb, leb, nat_beq,
  if◌then◌else◌,
}
use wintermute.Prelude.Int.{ℤ, pos, negsuc, sub_ℕ}
use wintermute.Prelude.Int64.{two63, IsInt64}
use wintermute.Prelude.Str.{Str}

abbrev pub is_digit : ℕ → Bool
is_digit c = leb 48 c && leb c 57

-- The digits of a number before `acc`; the fuel is a bound on how many they are.
unfoldable pub digits : ℕ → ℕ → Str → Str
digits zero n acc = acc
digits (suc fuel) n acc =
    let acc' = (48 + n % 10) ∷ acc in
    let rest = digits fuel (n / 10) acc' in if ltb n 10 then acc' else rest

-- %d of a number of at most 20 digits, and of an integer.
unfoldable pub print_nat : ℕ → Str
unfolding digits
print_nat n = digits 20 n []

unfoldable pub print_int : ℤ → Str
unfolding print_nat
print_int (pos n) = print_nat n
print_int (negsuc n) = 45 ∷ print_nat (suc n)

unfoldable pub read_digits : ℕ → Str → Option ℕ
read_digits acc [] = some acc
read_digits acc (c ∷ s) =
    let rest = read_digits (acc * 10 + (c - 48)) s in if is_digit c then rest else none

abbrev pub below : ℕ → (ℕ → ℤ) → Option ℕ → Option ℤ
below limit f none = none
below limit f (some n) = if ltb n limit then some (f n) else none

abbrev pub unsigned_digits : Str → Option ℕ
unsigned_digits [] = none
unsigned_digits (c ∷ s) = read_digits 0 (c ∷ s)

-- strconv.ParseInt(s, 10, 64), with no value where it returns an error: a sign, then digits, of an int64.
unfoldable pub parse_int : Str → Option ℤ
parse_int [] = none
parse_int (c ∷ s) =
    let minus = below 9223372036854775809 (λ n. sub_ℕ 0 n) (unsigned_digits s) in
    let plus = below two63 pos (unsigned_digits s) in
    let plain = below two63 pos (unsigned_digits (c ∷ s)) in
    if nat_beq c 45 then minus else if nat_beq c 43 then plus else plain

abbrev pub IsDigit : ℕ → Type 0
IsDigit c = (48 ≤ c) × (c ≤ 57)

pow10 : ℕ → ℕ
pow10 zero = 1
pow10 (suc f) = 10 * pow10 f

pub digits-All : (f n : ℕ) (acc : Str) → All IsDigit acc → All IsDigit (digits f n acc)
unfolding digits
digits-All zero n acc h = h
digits-All (suc f) n acc h =
    let here : All IsDigit ((48 + n % 10) ∷ acc) = ((omega arith, omega arith), h) in
    if_intro (λ (s : Str). All IsDigit s) (ltb n 10) here (digits-All f (n / 10) _ here)

read_step :
    (a d : ℕ) (acc : Str) → d < 10 → read_digits a ((48 + d) ∷ acc) ≡ read_digits (a * 10 + d) acc
unfolding read_digits
read_step a d acc h =
    let seen : (is_digit (48 + d) ≡ true) = ground arith in
    let value : (48 + d - 48 ≡ d) = omega arith in rw (seen, value) refl

read_digits-digits :
    (f n : ℕ) (acc : Str) → n < pow10 f → read_digits 0 (digits f n acc) ≡ read_digits n acc
unfolding digits pow10
read_digits-digits zero n acc h = ap (λ k. read_digits k acc) (omega arith)
read_digits-digits (suc f) n acc h = elim (Bool-cases (ltb n 10)) [
  | inl e ↦
      rw e (read_step 0 (n % 10) acc (omega arith) ∙ ap (λ k. read_digits k acc) (ground arith))
  | inr e ↦ rw e (
      read_digits-digits f (n / 10) _ (omega arith)
      ∙ read_step (n / 10) (n % 10) acc (omega arith)
      ∙ ap (λ k. read_digits k acc) (omega arith))
]

abbrev pub IsCons : Str → Type 0
IsCons s = (c : ℕ) × (t : Str) × (s ≡ c ∷ t)

digits-IsCons : (f n : ℕ) (acc : Str) → IsCons (digits (suc f) n acc)
unfolding digits
digits-IsCons zero n acc = if_intro IsCons (ltb n 10) (_, _, refl) (_, _, refl)
digits-IsCons (suc f) n acc = if_intro IsCons (ltb n 10) (_, _, refl) (digits-IsCons f (n / 10) _)

digits_last : (f n : ℕ) (acc : Str) → n < 10 → digits (suc f) n acc ≡ (48 + n) ∷ acc
unfolding digits
digits_last f n acc h =
    let small : (ltb n 10 ≡ true) = ground arith in
    let same : (n % 10 ≡ n) = omega (arith, h) in rw (small, same) refl

digits_more :
    (f n : ℕ) (acc : Str) → 10 ≤ n → digits (suc f) n acc ≡ digits f (n / 10) ((48 + n % 10) ∷ acc)
unfolding digits
digits_more f n acc h = let large : (ltb n 10 ≡ false) = ground arith in rw large refl

pub print_nat_one : (n : ℕ) → n < 10 → print_nat n ≡ (48 + n) ∷ []
unfolding print_nat
print_nat_one n h = digits_last 19 n [] h

pub print_nat_two : (n : ℕ) → 10 ≤ n → n < 100 → print_nat n ≡ (48 + n / 10) ∷ (48 + n % 10) ∷ []
unfolding print_nat
print_nat_two n h k =
    digits_more 19 n [] h ∙ digits_last 18 (n / 10) ((48 + n % 10) ∷ []) (omega (arith, k))

pub print_nat-All : (n : ℕ) → All IsDigit (print_nat n)
unfolding print_nat
print_nat-All n = digits-All 20 n [] tt

pub read_digits-print_nat :
    (n : ℕ) → n < 18446744073709551616 → read_digits 0 (print_nat n) ≡ some n
unfolding print_nat pow10 read_digits
read_digits-print_nat n h = read_digits-digits 20 n [] (omega (arith, h))

pub print_nat-IsCons : (n : ℕ) → IsCons (print_nat n)
unfolding print_nat
print_nat-IsCons n = digits-IsCons 19 n []

-- Text that starts with a digit is read without a sign.
pub parse_int-digits :
    (s : Str) (n : ℕ)
    → IsCons s
    → All IsDigit s
    → read_digits 0 s ≡ some n
    → n < two63
    → parse_int s ≡ some (pos n)
unfolding parse_int
parse_int-digits [] n h k e l = ground arith
parse_int-digits (c ∷ s) n h k e l =
    let no_minus : (nat_beq c 45 ≡ false) = ground arith in
    let no_plus : (nat_beq c 43 ≡ false) = ground arith in
    let small : (ltb n two63 ≡ true) = ground arith in rw (no_minus, no_plus, e, small) refl

unsigned_digits_lem : (s : Str) → IsCons s → unsigned_digits s ≡ read_digits 0 s
unsigned_digits_lem s h = rw (h.2) refl

minus_lem : (n : ℕ) → suc n ≤ two63 → parse_int (45 ∷ print_nat (suc n)) ≡ some (negsuc n)
unfolding parse_int
minus_lem n h =
    let small : (ltb (suc n) 9223372036854775809 ≡ true) = ground arith in
    rw
      (
        unsigned_digits_lem (print_nat (suc n)) (print_nat-IsCons (suc n)),
        read_digits-print_nat (suc n) (omega (arith, h)),
        small,
      )
      (ground arith)

pub parse_int-print_int : (z : ℤ) → IsInt64 z → parse_int (print_int z) ≡ some z
unfolding print_int
parse_int-print_int (pos n) h =
    parse_int-digits (print_nat n) n (print_nat-IsCons n) (print_nat-All n)
      (read_digits-print_nat n (omega (arith, h))) (h.0)
parse_int-print_int (negsuc n) h = minus_lem n (h.1)
