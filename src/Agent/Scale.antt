-- ===== src/Agent/Scale.antt =====
-- agent/value.go: between fractions and the integers that a feed stores.
pub mod Laws
use gnoracle.Base.{
  ℕ, zero, suc, ◌+◌, ◌-◌, ◌*◌, ◌/◌, ◌%◌, ◌^◌, leb, ltb, ℤ, pos, negsuc, pos_part, neg_part, abs,
  sub_ℕ, ◌-ℤ◌, ◌*ℤ◌, ltb_ℤ, leb_ℤ, eqb_ℤ, Bool, true, false, ◌&&◌, ◌||◌, not, List, [], ◌∷◌, ◌++◌,
  Option, none, some, if◌then◌else◌, length, take, drop,
}
use gnoracle.Base.Int64.{two63, sub64}
use gnoracle.Base.Text.{Bytes}
use gnoracle.Base.Text.Decimal.{format_uint, format_int}
use gnoracle.Agent.Aggregate.{Rat}

-- A negative exponent gives 1, as `Exp` does without a modulus.
unfoldable pub pow10 : ℤ → ℕ
pow10 n = 10 ^ pos_part n

is_int64 : ℤ → Bool
is_int64 q = leb (neg_part q) two63 && ltb (pos_part q) two63

-- QuoRem of twice the numerator by twice the denominator, and one more from a half on.
unfoldable pub round_half : ℕ → ℕ → ℕ
round_half num den =
    let q = (2 * num) / (2 * den) in if leb den ((2 * num) % (2 * den)) then q + 1 else q

-- `none` is an error: there is no value, or it does not fit int64.
unfoldable pub scale_to_int : Option Rat → ℤ → Option ℤ
unfolding is_int64
scale_to_int none decimals = none
scale_to_int (some v) decimals =
    let magnitude = round_half (abs v.num * pow10 decimals) v.den in
    let q = if ltb_ℤ v.num (pos 0) then sub_ℕ 0 magnitude else pos magnitude in
    if not (is_int64 q) || ltb_ℤ (pos (two63 - 1)) q then none else some q

pub zeros : ℕ → Bytes
zeros zero = []
zeros (suc n) = b'0' ∷ zeros n

-- %0*d: zeros behind the sign up to the width.
unfoldable pub pad_zeros : ℕ → ℤ → Bytes
unfolding zeros format_uint
pad_zeros width (pos n) = let s = format_uint n in zeros (width - length s) ++ s
pad_zeros width (negsuc n) =
    let s = format_uint (suc n) in b'-' ∷ (zeros (width - 1 - length s) ++ s)

-- The text with a point before the last `decimals` bytes.
pub put_point : ℕ → Bytes → Bytes
unfolding take drop
put_point decimals s = take (length s - decimals) s ++ b'.' ∷ drop (length s - decimals) s

-- The negation is in int64.
unfoldable pub format_scaled : ℤ → ℤ → Bytes
format_scaled v decimals =
    let neg = ltb_ℤ v (pos 0) in
    let d = pos_part decimals in
    let out = put_point d (pad_zeros (d + 1) (if neg then sub64 (pos 0) v else v)) in
    if leb_ℤ decimals (pos 0) then format_int v else if neg then b'-' ∷ out else out

unfoldable pub within_bps : ℤ → ℤ → ℤ → Bool
unfolding ◌-ℤ◌ ◌*ℤ◌
within_bps v ref bps =
    if eqb_ℤ ref (pos 0)
    then eqb_ℤ v (pos 0)
    else leb_ℤ (pos (abs (v -ℤ ref) * 10000)) (pos (abs ref) *ℤ bps)
