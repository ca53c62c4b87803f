-- ===== src/Prelude/Str.antt =====
-- Go strings: sequences of bytes, compared byte by byte, with the parts of package strings that
-- the program calls. `codes` spells a literal of ASCII characters.
use Prim.Native.Char.{code}
use Prim.Native.String.{String}
use wintermute.Prelude.{
  ℕ, ◌+◌, ◌/◌, ◌%◌, ◌≤◌, ◌≡◌, refl, ap, ◌∙◌, ◌↔◌, Bool, true, false, ◌&&◌, ◌||◌, List, [], ◌∷◌,
  ◌++◌, arith, ltb, All, leb, nat_beq, nat_beq_iff, if◌then◌else◌, Eq,
}
use mathlib.Core.List.{reverse, reverse_aux, reverse-reverse}

abbrev pub Str : Type 0
Str = List ℕ

abbrev pub codes : String → Str
codes String.[] = []
codes (String.◌∷◌ c s) = code c ∷ codes s

unfoldable pub str_beq : Str → Str → Bool
str_beq [] [] = true
str_beq [] (b ∷ t) = false
str_beq (a ∷ s) [] = false
str_beq (a ∷ s) (b ∷ t) = nat_beq a b && str_beq s t

pub str_beq_iff : (s t : Str) → (str_beq s t ≡ true) ↔ (s ≡ t)
unfolding str_beq
str_beq_iff [] [] = (λ h. refl, λ h. refl)
str_beq_iff [] (b ∷ t) = (λ h. cc, λ h. cc)
str_beq_iff (a ∷ s) [] = (λ h. cc, λ h. cc)
str_beq_iff (a ∷ s) (b ∷ t) = (
  λ h. ground (arith, nat_beq_iff a b, str_beq_iff s t),
  λ h. ground (arith, nat_beq_iff a b, str_beq_iff s t),
)

instance abbrev pub str_eq : Eq Str
str_eq = record { test = str_beq; test_iff = str_beq_iff }

-- `s < t`: bytewise, a prefix first.
unfoldable pub ltb_str : Str → Str → Bool
ltb_str [] [] = false
ltb_str [] (b ∷ t) = true
ltb_str (a ∷ s) [] = false
ltb_str (a ∷ s) (b ∷ t) = ltb a b || (nat_beq a b && ltb_str s t)

-- The runes of Unicode's White_Space, as the bytes of their UTF-8 encoding.
ascii_space : ℕ → Bool
ascii_space a = (leb 9 a && leb a 13) || nat_beq a 32

two_byte_space : ℕ → ℕ → Bool
two_byte_space a b = nat_beq a 0xc2 && (nat_beq b 0x85 || nat_beq b 0xa0)

three_byte_space : ℕ → ℕ → ℕ → Bool
three_byte_space a b c =
    (nat_beq a 0xe1 && nat_beq b 0x9a && nat_beq c 0x80)
    || (nat_beq a 0xe2
        && nat_beq b 0x80
        && ((leb 0x80 c && leb c 0x8a) || nat_beq c 0xa8 || nat_beq c 0xa9 || nat_beq c 0xaf))
    || (nat_beq a 0xe2 && nat_beq b 0x81 && nat_beq c 0x9f)
    || (nat_beq a 0xe3 && nat_beq b 0x80 && nat_beq c 0x80)

-- Drops the white space at the front; the tests say which bytes are a rune of white space.
trim_front : (ℕ → ℕ → Bool) → (ℕ → ℕ → ℕ → Bool) → Str → Str
unfolding ascii_space
trim_front two three [] = []
trim_front two three (a ∷ []) = if ascii_space a then [] else a ∷ []
trim_front two three (a ∷ b ∷ []) = elim (ascii_space a) [
  | true ↦ trim_front two three (b ∷ [])
  | false ↦ if two a b then [] else a ∷ b ∷ []
]
trim_front two three (a ∷ b ∷ c ∷ s) = elim (ascii_space a) [
  | true ↦ trim_front two three (b ∷ c ∷ s)
  | false ↦ elim (two a b) [
    | true ↦ trim_front two three (c ∷ s)
    | false ↦ elim (three a b c) [ true ↦ trim_front two three s | false ↦ a ∷ b ∷ c ∷ s ]
  ]
]

-- strings.TrimSpace
unfoldable pub trim_space : Str → Str
unfolding trim_front two_byte_space three_byte_space
trim_space s = reverse (
    trim_front (λ b a. two_byte_space a b) (λ c b a. three_byte_space a b c)
      (reverse (trim_front two_byte_space three_byte_space s)))

-- strings.ToLower, as far as a comparison with an ASCII word sees it: the ASCII capitals and the
-- two other runes, U+0130 and U+212A, that have an ASCII letter for their lower case.
unfoldable pub to_lower : Str → Str
to_lower [] = []
to_lower (a ∷ []) = (if leb 65 a && leb a 90 then a + 32 else a) ∷ []
to_lower (a ∷ b ∷ []) =
    if nat_beq a 0xc4 && nat_beq b 0xb0
    then 105 ∷ []
    else (if leb 65 a && leb a 90 then a + 32 else a) ∷ to_lower (b ∷ [])
to_lower (a ∷ b ∷ c ∷ s) = elim (nat_beq a 0xc4 && nat_beq b 0xb0) [
  | true ↦ 105 ∷ to_lower (c ∷ s)
  | false ↦ elim (nat_beq a 0xe2 && nat_beq b 0x84 && nat_beq c 0xaa) [
    | true ↦ 107 ∷ to_lower s
    | false ↦ (if leb 65 a && leb a 90 then a + 32 else a) ∷ to_lower (b ∷ c ∷ s)
  ]
]

-- strconv.Quote, the verb %q; every rune beyond ASCII is taken to be printable.
hex_digit : ℕ → ℕ
hex_digit d = if ltb d 10 then 48 + d else 87 + d

-- \a \b \t \n \v \f \r
escape_letter : ℕ → ℕ
escape_letter c =
    if nat_beq c 7
    then b'a'
    else if nat_beq c 8
    then b'b'
    else if nat_beq c 9
    then b't'
    else if nat_beq c 10
    then b'n'
    else if nat_beq c 11
    then b'v'
    else if nat_beq c 12
    then b'f'
    else b'r'

quote_byte : ℕ → Str
unfolding hex_digit escape_letter
quote_byte c =
    if nat_beq c 34 || nat_beq c 92
    then 92 ∷ c ∷ []
    else if leb 7 c && leb c 13
    then 92 ∷ escape_letter c ∷ []
    else if ltb c 32 || nat_beq c 127
    then 92 ∷ 120 ∷ hex_digit (c / 16) ∷ hex_digit (c % 16) ∷ []
    else c ∷ []

quote_bytes : Str → Str
unfolding quote_byte
quote_bytes [] = []
quote_bytes (c ∷ s) = quote_byte c ++ quote_bytes s

unfoldable pub quote : Str → Str
unfolding quote_bytes
quote s = 34 ∷ quote_bytes s ++ 34 ∷ []

-- Printable ASCII other than the space; text of these has nothing to trim.
abbrev pub IsPrintable : ℕ → Type 0
IsPrintable c = (33 ≤ c) × (c ≤ 126)

not_blank : (a : ℕ) → IsPrintable a → ascii_space a ≡ false
unfolding ascii_space
not_blank a h = ground arith

trim_front_printable :
    (two : ℕ → ℕ → Bool) (three : ℕ → ℕ → ℕ → Bool)
    → ((a b : ℕ) → IsPrintable a → two a b ≡ false)
    → ((a b c : ℕ) → IsPrintable a → three a b c ≡ false)
    → (s : Str) → All IsPrintable s
    → trim_front two three s ≡ s
unfolding trim_front
trim_front_printable two three p q [] h = refl
trim_front_printable two three p q (a ∷ []) h = rw (not_blank a h.0) refl
trim_front_printable two three p q (a ∷ b ∷ []) h = rw (not_blank a h.0, p a b h.0, trim_front) refl
trim_front_printable two three p q (a ∷ b ∷ c ∷ s) h =
    rw (not_blank a h.0, p a b h.0, q a b c h.0, trim_front) refl

All-reverse_aux : (P : ℕ → Type 0) (s t : Str) → All P s → All P t → All P (reverse_aux s t)
All-reverse_aux P [] t h k = k
All-reverse_aux P (c ∷ s) t h k = All-reverse_aux P s (c ∷ t) h.1 (h.0, k)

pub trim_space-IsPrintable : (s : Str) → All IsPrintable s → trim_space s ≡ s
unfolding trim_space two_byte_space three_byte_space
trim_space-IsPrintable s h =
    ap
      (λ t.
        reverse
          (trim_front (λ b a. two_byte_space a b) (λ c b a. three_byte_space a b c) (reverse t)))
      (trim_front_printable two_byte_space three_byte_space (λ a b k. ground arith)
        (λ a b c k. ground arith) s h)
    ∙ ap reverse (
        trim_front_printable (λ b a. two_byte_space a b) (λ c b a. three_byte_space a b c)
          (λ a b k. ground arith) (λ a b c k. ground arith) (reverse s)
          (All-reverse_aux IsPrintable s [] h tt))
    ∙ reverse-reverse s

trim_lower_runs : to_lower (trim_space (codes "  YeS \n")) ≡ codes "yes"
unfolding to_lower trim_space
trim_lower_runs = refl

quote_runs : quote (codes "a\"b\n") ≡ codes "\"a\\\"b\\n\""
unfolding quote
quote_runs = refl
