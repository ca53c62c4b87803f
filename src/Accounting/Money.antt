-- ===== src/Accounting/Money.antt =====
-- internal/accounting/money.go: amounts in cents and quantities in thousandths, both int64, and the
-- two roundings. Amounts are integers that wrap around at 64 bits.
pub mod Rounding
pub mod Text
use wintermute.Prelude.{Bool, if◌then◌else◌}
use wintermute.Prelude.Int.{ℤ, pos, ltb_ℤ, pos_part, neg_part}
use wintermute.Prelude.Int64.{add64, sub64, mul64, div64}

abbrev pub Money : Type 0
Money = ℤ

abbrev pub Milli : Type 0
Milli = ℤ

abbrev pub is_negative : ℤ → Bool
is_negative n = ltb_ℤ n (pos 0)

-- `Milli.Extend`
unfoldable pub extend : Milli → Money → Money
extend q unit =
    let n = mul64 q unit in
    if is_negative n then div64 (sub64 n (pos 500)) 1000 else div64 (add64 n (pos 500)) 1000

-- `VAT`
unfoldable pub vat : Money → ℤ → Money
vat net rate_bp =
    let n = mul64 net rate_bp in
    if is_negative n then div64 (sub64 n (pos 5000)) 10000 else div64 (add64 n (pos 5000)) 10000
