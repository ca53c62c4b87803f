-- ===== src/Accounting/Date.antt =====
-- internal/accounting/service.go validDate and addDays: what Go's time.Parse takes under "2006-01-02", four, two
-- and two digits with a dash between, of a month and a day of the calendar.
use wintermute.Prelude.{
  ℕ, zero, suc, ◌+◌, ◌-◌, ◌*◌, ◌/◌, ◌%◌, ◌≡◌, refl, ltb, Bool, true, false, not, ◌&&◌, ◌||◌, [],
  ◌∷◌, leb, nat_beq, if◌then◌else◌, Result, refuse_if, ◌>>◌,
}
use wintermute.Prelude.Str.{Str, codes}
use wintermute.Accounting.Model.{Fault, date_missing, date_malformed}

abbrev pub is_digit : ℕ → Bool
is_digit c = leb 48 c && leb c 57

abbrev pub two : ℕ → ℕ → ℕ
two a b = (a - 48) * 10 + (b - 48)

abbrev pub leap : ℕ → Bool
leap y = nat_beq (y % 4) 0 && (not (nat_beq (y % 100) 0) || nat_beq (y % 400) 0)

unfoldable pub days_in : ℕ → ℕ → ℕ
days_in y m =
    if nat_beq m 2
    then if leap y then 29 else 28
    else if nat_beq m 4 || nat_beq m 6 || nat_beq m 9 || nat_beq m 11
    then 30
    else 31

-- The pieces of a date are a real day.
unfoldable pub real_day : ℕ → ℕ → ℕ → Bool
real_day y m d = leb 1 m && leb m 12 && leb 1 d && leb d (days_in y m)

unfoldable pub parses : Str → Bool
unfolding real_day days_in
parses (y1 ∷ y2 ∷ y3 ∷ y4 ∷ s1 ∷ m1 ∷ m2 ∷ s2 ∷ d1 ∷ d2 ∷ []) =
    is_digit y1
    && is_digit y2
    && is_digit y3
    && is_digit y4
    && nat_beq s1 45
    && is_digit m1
    && is_digit m2
    && nat_beq s2 45
    && is_digit d1
    && is_digit d2
    && real_day (two y1 y2 * 100 + two y3 y4) (two m1 m2) (two d1 d2)
parses _ = false

abbrev pub is_empty : Str → Bool
is_empty [] = true
is_empty (c ∷ cs) = false

-- `validDate`
unfoldable pub valid_date : Str → Result Fault (Unit {0})
unfolding parses
valid_date s = refuse_if (is_empty s) date_missing >> refuse_if (not (parses s)) (date_malformed s)

-- The day after a day.
unfoldable pub next_day : ℕ × ℕ × ℕ → ℕ × ℕ × ℕ
unfolding days_in
next_day (y, m, d) =
    if ltb d (days_in y m) then (y, m, d + 1) else if ltb m 12 then (y, m + 1, 1) else (y + 1, 1, 1)

unfoldable pub days_later : ℕ → ℕ × ℕ × ℕ → ℕ × ℕ × ℕ
unfolding next_day
days_later zero day = day
days_later (suc n) day = days_later n (next_day day)

abbrev digit : ℕ → ℕ
digit n = 48 + n % 10

-- Format("2006-01-02"), of a year of four digits.
unfoldable pub format_day : ℕ × ℕ × ℕ → Str
format_day (y, m, d) =
    digit (y / 1000)
    ∷ digit (y / 100)
    ∷ digit (y / 10)
    ∷ digit y
    ∷ 45
    ∷ digit (m / 10)
    ∷ digit m
    ∷ 45
    ∷ digit (d / 10)
    ∷ digit d
    ∷ []

-- `addDays`
unfoldable pub add_days : Str → ℕ → Str
unfolding parses days_later format_day
add_days (y1 ∷ y2 ∷ y3 ∷ y4 ∷ s1 ∷ m1 ∷ m2 ∷ s2 ∷ d1 ∷ d2 ∷ []) n =
    let date = y1 ∷ y2 ∷ y3 ∷ y4 ∷ s1 ∷ m1 ∷ m2 ∷ s2 ∷ d1 ∷ d2 ∷ [] in
    if parses date
    then format_day (days_later n (two y1 y2 * 100 + two y3 y4, two m1 m2, two d1 d2))
    else date
add_days date n = date

add_days_runs : add_days (codes "2024-02-20") 14 ≡ codes "2024-03-05"
unfolding add_days parses real_day days_in days_later next_day format_day
add_days_runs = refl
