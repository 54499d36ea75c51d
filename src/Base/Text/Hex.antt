-- ===== src/Base/Text/Hex.antt =====
-- encoding/hex: two digits for each byte.
use gnoracle.Base.{
  ℕ, ◌+◌, ◌-◌, ◌/◌, ◌%◌, ◌<◌, ◌≤◌, ◌≢◌, [], ◌∷◌, ◌≡◌, refl, arith, ltb, if◌then◌else◌, All,
}
use gnoracle.Base.Text.{Bytes}

hex_digit : ℕ → ℕ
hex_digit d = if ltb d 10 then b'0' + d else b'a' + (d - 10)

unfoldable pub encode_hex : Bytes → Bytes
unfolding hex_digit
encode_hex [] = []
encode_hex (b ∷ s) = hex_digit (b / 16) ∷ hex_digit (b % 16) ∷ encode_hex s

hex_digit_injective : (a b : ℕ) → a < 16 → b < 16 → hex_digit a ≡ hex_digit b → a ≡ b
unfolding hex_digit
hex_digit_injective a b _ _ e = ground arith

hex_pair_injective :
    (a b : ℕ)
    → a < 256
    → b < 256
    → hex_digit (a / 16) ≡ hex_digit (b / 16)
    → hex_digit (a % 16) ≡ hex_digit (b % 16)
    → a ≡ b
hex_pair_injective a b ha hb hi lo = omega (
  arith,
  hex_digit_injective (a / 16) (b / 16) (omega arith) (omega arith) hi,
  hex_digit_injective (a % 16) (b % 16) (omega arith) (omega arith) lo,
)

abbrev pub IsByte : ℕ → Type 0
IsByte b = b < 256

-- Texts of bytes with one hexadecimal print are equal.
pub encode_hex-injective :
    (s t : Bytes) → All IsByte s → All IsByte t → encode_hex s ≡ encode_hex t → s ≡ t
unfolding encode_hex
encode_hex-injective [] [] _ _ e = refl
encode_hex-injective [] (b ∷ t) _ _ e = cc
encode_hex-injective (a ∷ s) [] _ _ e = cc
encode_hex-injective (a ∷ s) (b ∷ t) (ha, hs) (hb, ht) e =
    cc (hex_pair_injective a b ha hb (cc) (cc), encode_hex-injective s t hs ht (cc))

hex_digit_bounds : (d : ℕ) → d < 16 → (b'0' ≤ hex_digit d) × (hex_digit d ≤ b'f')
unfolding hex_digit
hex_digit_bounds d h = ground arith

-- Hexadecimal text holds digits and the letters a to f, so no bar.
encode_hex-Lacks : (b : ℕ) (s : Bytes) → All IsByte s → b'f' < b → All (λ c. c ≢ b) (encode_hex s)
unfolding encode_hex
encode_hex-Lacks b [] _ _ = tt
encode_hex-Lacks b (a ∷ s) (h, hs) above = (
  ground (arith, hex_digit_bounds (a / 16)),
  (ground (arith, hex_digit_bounds (a % 16)), encode_hex-Lacks b s hs above),
)
