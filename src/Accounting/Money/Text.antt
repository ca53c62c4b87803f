-- ===== src/Accounting/Money/Text.antt =====
-- money.go: String of an amount and of a quantity, and ParseMoney.
pub mod Round
use wintermute.Prelude.{
  ℕ, suc, ◌-◌, ◌/◌, ◌%◌, Bool, true, false, ◌&&◌, Option, none, some, List, [], ◌∷◌, ◌++◌, ltb,
  nat_beq, if◌then◌else◌, Result, ok, err, ◌>>=◌,
}
use wintermute.Prelude.Int.{ℤ, pos, negsuc, sub_ℕ}
use wintermute.Prelude.Int64.{add64, neg64, mul64, div64}
use wintermute.Prelude.Str.{Str, trim_space}
use wintermute.Prelude.Decimal.{print_nat, print_int, parse_int}
use wintermute.Accounting.Money.{Money, Milli, is_negative}

-- `%` by a positive constant: the sign of the dividend.
abbrev pub rem64 : ℤ → ℕ → ℤ
rem64 (pos n) d = pos (n % d)
rem64 (negsuc n) d = sub_ℕ 0 (suc n % d)

abbrev pub padded : ℕ → Str
padded n = if ltb n 10 then 48 ∷ print_nat n else print_nat n

-- %02d, where a sign is one of the two places.
unfoldable pub two_places : ℤ → Str
two_places (pos n) = padded n
two_places (negsuc n) = print_int (negsuc n)

abbrev with_sign : Bool → Str → Str
with_sign true s = 45 ∷ s
with_sign false s = s

abbrev pub cents_text : Money → Str
cents_text m = print_int (div64 m 100) ++ 46 ∷ two_places (rem64 m 100)

-- `Money.String`
unfoldable pub money_string : Money → Str
money_string m = let neg = is_negative m in with_sign neg (cents_text (if neg then neg64 m else m))

-- strings.ReplaceAll(s, string(c), "")
unfoldable pub remove : ℕ → Str → Str
remove c [] = []
remove c (d ∷ s) = let rest = remove c s in if nat_beq d c then rest else d ∷ rest

-- strings.Cut: what stands before the first separator, and what after it when there is one.
unfoldable pub cut : ℕ → Str → Str × Option Str
cut c [] = ([], none)
cut c (d ∷ s) = let rest = cut c s in if nat_beq d c then ([], some s) else (d ∷ rest.0, rest.1)

abbrev pub has_prefix : ℕ → Str → Bool
has_prefix c [] = false
has_prefix c (d ∷ s) = nat_beq d c

abbrev pub trim_prefix : ℕ → Str → Str
trim_prefix c [] = []
trim_prefix c (d ∷ s) = if nat_beq d c then s else d ∷ s

-- The errors of `ParseMoney`, with the text they quote.
pub data AmountFault : Type 0 where
  not_an_amount : Str → AmountFault
  too_many_places : Str → AmountFault

abbrev pub or_refused : {A : Type 0} → AmountFault → Option A → Result AmountFault A
or_refused e none = err e
or_refused e (some a) = ok a

-- The cents of what stands after the point; `s` is the text to quote.
unfoldable pub cents_of : Str → Option Str → Result AmountFault ℤ
cents_of s none = ok (pos 0)
cents_of s (some []) = ok (pos 0)
cents_of s (some (a ∷ [])) =
    or_refused (not_an_amount s) (parse_int (a ∷ [])) >>= (λ f. ok (mul64 f (pos 10)))
cents_of s (some (a ∷ b ∷ [])) = or_refused (not_an_amount s) (parse_int (a ∷ b ∷ []))
cents_of s (some (a ∷ b ∷ c ∷ t)) = err (too_many_places s)

abbrev pub or_zero : Str → Str
or_zero [] = 48 ∷ []
or_zero (c ∷ s) = c ∷ s

-- What is done once the sign is off.
unfoldable pub parse_amount : Bool → Str → Result AmountFault Money
parse_amount neg s =
    let parts = cut 46 s in
    or_refused (not_an_amount s) (parse_int (or_zero parts.0)) >>= λ w.
    cents_of s parts.1 >>= λ cents.
    let total = add64 (mul64 w (pos 100)) cents in ok (if neg then neg64 total else total)

abbrev pub parse_stripped : Str → Result AmountFault Money
parse_stripped [] = ok (pos 0)
parse_stripped (c ∷ s) =
    parse_amount (has_prefix 45 (c ∷ s)) (trim_prefix 43 (trim_prefix 45 (c ∷ s)))

-- `ParseMoney`
unfoldable pub parse_money : Str → Result AmountFault Money
parse_money s = parse_stripped (remove 32 (remove 44 (trim_space s)))

-- `abs64`
unfoldable pub abs64 : ℤ → ℤ
abs64 v = if is_negative v then neg64 v else v

-- %03d of a number.
abbrev pub three_places : ℕ → Str
three_places n =
    if ltb n 10 then 48 ∷ 48 ∷ print_nat n else if ltb n 100 then 48 ∷ print_nat n else print_nat n

-- strings.TrimRight(s, "0"): zeros at the end are dropped.
abbrev cons_unless_zero : ℕ → Str → Str
cons_unless_zero c [] = if nat_beq c 48 then [] else c ∷ []
cons_unless_zero c (d ∷ s) = c ∷ d ∷ s

unfoldable pub trim_zeros : Str → Str
trim_zeros [] = []
trim_zeros (c ∷ s) = cons_unless_zero c (trim_zeros s)

-- strings.TrimSuffix(s, ".")
unfoldable pub trim_point : Str → Str
trim_point [] = []
trim_point (c ∷ []) = if nat_beq c 46 then [] else c ∷ []
trim_point (c ∷ d ∷ s) = c ∷ trim_point (d ∷ s)

abbrev places_of : ℤ → Str
places_of (pos n) = three_places n
places_of (negsuc n) = print_int (negsuc n)

-- `Milli.String`
unfoldable pub milli_string : Milli → Str
milli_string q =
    trim_point (trim_zeros (print_int (div64 q 1000) ++ 46 ∷ places_of (rem64 (abs64 q) 1000)))
