-- ===== src/Agent/Scale/Laws.antt =====
-- Rounding, printing and the band around a reference.
use gnoracle.Base.{
  ℕ, zero, suc, ◌+◌, ◌-◌, ◌*◌, ◌/◌, ◌%◌, ◌≤◌, ◌<◌, leb, ℤ, pos, negsuc, pos_part, neg_part, abs,
  ◌≤ℤ◌, ◌<ℤ◌, leb→le, leb→gt, Bool-cases, inl, inr, ◌∷◌, ◌++◌, some, ◌≡◌, ◌⊎◌, refl, ap, ◌∙◌, arith,
  length, take, drop, length-take, length-drop, length-append, take-append-drop,
}
use gnoracle.Base.Int64.{two63, two64, IsInt64, sub64}
use gnoracle.Base.Text.{Bytes}
use gnoracle.Base.Text.Decimal.{format_uint, scan, scan-format_uint}
use gnoracle.Agent.Aggregate.{Rat}
use gnoracle.Agent.Scale.{
  pow10, round_half, scale_to_int, pad_zeros, put_point, zeros, format_scaled,
}

round_half_bounds :
    (n d : ℕ)
    → 0 < d
    → (2 * (round_half n d * d) ≤ 2 * n + d) × (2 * n < 2 * (round_half n d * d) + d)
unfolding round_half
round_half_bounds n d h =
    let q = (2 * n) / (2 * d) in
    let r = (2 * n) % (2 * d) in
    let whole : q * d * 2 + r ≡ 2 * n = grind arith in
    let small : r < 2 * d = grind arith in
    elim (Bool-cases (leb d r)) [
      | inl up ↦ rw up (omega (arith, leb→le d r up), omega (arith, leb→le d r up))
      | inr down ↦ rw down (omega (arith, leb→gt d r down), omega (arith, leb→gt d r down))
    ]

-- A scaled value that fits int64 is the nearest integer to v times ten to the decimals, a half
-- rounded away from zero, with v's sign. (The fraction has a positive denominator.)
pub scale_to_int_nearest :
    (v : Rat) (decimals : ℤ) {z : ℤ}
    → 0 < v.den
    → scale_to_int (some v) decimals ≡ some z
    → let n = abs v.num * pow10 decimals in
      (2 * (abs z * v.den) ≤ 2 * n + v.den)
      × (2 * n < 2 * (abs z * v.den) + v.den)
      × ((v.num <ℤ pos 0) ⊎ (pos 0 ≤ℤ z))
      × ((pos 0 ≤ℤ v.num) ⊎ (z ≤ℤ pos 0))
      × IsInt64 z
unfolding scale_to_int
scale_to_int_nearest v decimals {z} h e =
    let (lo, hi) = round_half_bounds (abs v.num * pow10 decimals) v.den h in
    (ground arith, ground arith, ground arith, ground arith, ground arith)

length-zeros : (k : ℕ) → length (zeros k) ≡ k
unfolding zeros
length-zeros zero = refl
length-zeros (suc k) = ap suc (length-zeros k)

scan-zeros : (k : ℕ) (s : Bytes) → scan 0 (zeros k ++ s) ≡ scan 0 s
unfolding scan zeros
scan-zeros zero s = refl
scan-zeros (suc k) s = scan-zeros k s

pad_zeros_pos :
    (width n : ℕ)
    → n < two64
    → (scan 0 (pad_zeros width (pos n)) ≡ some n) × (width ≤ length (pad_zeros width (pos n)))
unfolding pad_zeros
pad_zeros_pos width n h =
    let s = format_uint n in
    let k = width - length s in
    (scan-zeros k s ∙ scan-format_uint n h, rw (length-append, length-zeros) (omega arith))

-- A text that reads as `n` in units of ten to the minus `d`: something, a point, and `d` bytes,
-- which without the point are the digits of `n`.
pub record Shows (d n : ℕ) (s : Bytes) : Type 0 where
  pub whole : Bytes
  pub fraction : Bytes
  pub pointed : s ≡ whole ++ b'.' ∷ fraction
  pub some_whole : 0 < length whole
  pub places : length fraction ≡ d
  pub spells : scan 0 (whole ++ fraction) ≡ some n

put_point-Shows :
    (d n : ℕ) (s : Bytes) → scan 0 s ≡ some n → d < length s → Shows d n (put_point d s)
unfolding put_point
put_point-Shows d n s e long = record {
  whole = take (length s - d) s;
  fraction = drop (length s - d) s;
  pointed = refl;
  some_whole = rw length-take (omega arith);
  places = rw length-drop (omega arith);
  spells = rw take-append-drop e;
}

Shows-pos : (d n : ℕ) → n < two64 → Shows d n (put_point d (pad_zeros (d + 1) (pos n)))
Shows-pos d n h = let (e, long) = pad_zeros_pos (d + 1) n h in put_point-Shows d n _ e (omega arith)

negate64 : (n : ℕ) → suc n < two63 → sub64 (pos 0) (negsuc n) ≡ pos (suc n)
unfolding sub64
negate64 n h = ground arith

format_scaled_pos :
    (n d : ℕ) → 0 < d → format_scaled (pos n) (pos d) ≡ put_point d (pad_zeros (d + 1) (pos n))
unfolding format_scaled
format_scaled_pos n d h = ground arith

format_scaled_neg :
    (n d : ℕ)
    → 0 < d
    → format_scaled (negsuc n) (pos d)
      ≡ b'-' ∷ put_point d (pad_zeros (d + 1) (sub64 (pos 0) (negsuc n)))
unfolding format_scaled
format_scaled_neg n d h = ground arith

abs-pos : (n : ℕ) → abs (pos n) ≡ n
abs-pos n = omega arith

abs-negsuc : (n : ℕ) → abs (negsuc n) ≡ suc n
abs-negsuc n = omega arith

-- With decimals, the print of an int64 has a whole part, a point and exactly that many places, and
-- its digits spell the magnitude, behind a minus sign when it is negative. The least int64 is left
-- out.
pub format_scaled-Shows :
    (v : ℤ) (d : ℕ)
    → pos_part v < two63
    → neg_part v < two63
    → 0 < d
    → ((pos 0 ≤ℤ v) × Shows d (abs v) (format_scaled v (pos d)))
      ⊎ ((v <ℤ pos 0) × ((s : Bytes) × (format_scaled v (pos d) ≡ b'-' ∷ s) × Shows d (abs v) s))
format_scaled-Shows (pos n) d h _ p =
    inl (omega arith, rw (format_scaled_pos n d p, abs-pos n) (Shows-pos d n (omega arith)))
format_scaled-Shows (negsuc n) d _ h p = inr (
  omega arith,
  (
    put_point d (pad_zeros (d + 1) (pos (suc n))),
    rw (format_scaled_neg n d p, negate64 n h),
    rw (abs-negsuc n) (Shows-pos d (suc n) (omega arith)),
  ),
)

least_digits : sub64 (pos 0) (negsuc (two63 - 1)) ≡ negsuc (two63 - 1)
unfolding sub64
least_digits = refl

put_point_minus :
    (d : ℕ) (s : Bytes) → d ≤ length s → (t : Bytes) × (put_point d (b'-' ∷ s) ≡ b'-' ∷ t)
unfolding put_point
put_point_minus d s h =
    let e : suc (length s) - d ≡ suc (length s - d) = omega arith in
    (take (length s - d) s ++ b'.' ∷ drop (length s - d) s, rw e)

-- The least int64 has no negation in int64: with decimals its print begins with two minus signs.
pub format_scaled_least :
    (d : ℕ) → 0 < d → (s : Bytes) × (format_scaled (negsuc (two63 - 1)) (pos d) ≡ b'-' ∷ b'-' ∷ s)
unfolding pad_zeros
format_scaled_least d h =
    let digits = format_uint two63 in
    let body = zeros (d + 1 - 1 - length digits) ++ digits in
    let (t, e) = put_point_minus d body (rw (length-append, length-zeros) (omega arith)) in
    (t, rw (format_scaled_neg (two63 - 1) d h, least_digits) (rw e))
