-- ===== src/Gnochain/Commitment.antt =====
-- internal/gnochain/commitment.go: the commitment to a dispute vote. SHA-256 and the source of
-- randomness are parameters.
pub mod Laws
use gnoracle.Base.{ℕ, Bool, true, false, ◌||◌, List, [], ◌∷◌, ◌++◌, ℤ, Option, none, some}
use gnoracle.Base.Text.{Bytes, codes, bytes_eq}
use gnoracle.Base.Text.Decimal.{format_uint, format_int}
use gnoracle.Base.Text.Hex.{encode_hex}

abbrev pub choice_uphold : Bytes
choice_uphold = codes "UPHOLD"

abbrev pub choice_overturn : Bytes
choice_overturn = codes "OVERTURN"

abbrev pub choice_overturn_minor : Bytes
choice_overturn_minor = codes "OVERTURN_MINOR"

abbrev pub choice_void : Bytes
choice_void = codes "VOID"

abbrev pub choice_abstain : Bytes
choice_abstain = codes "ABSTAIN"

unfoldable pub valid_choice : Bytes → Bool
unfolding bytes_eq
valid_choice s =
    bytes_eq s choice_uphold
    || (bytes_eq s choice_overturn
        || (bytes_eq s choice_overturn_minor
            || (bytes_eq s choice_void || bytes_eq s choice_abstain)))

-- The text that is hashed.
unfoldable pub message : ℕ → ℤ → Bytes → Bytes → Bytes → Bytes
unfolding format_uint format_int
message dispute round choice salt voter =
    codes "gnoracle|dispute|"
    ++ (format_uint dispute
        ++ b'|' ∷ (format_int round ++ b'|' ∷ (choice ++ b'|' ∷ (salt ++ b'|' ∷ voter))))

module _ (sum256 : Bytes → Bytes) where
  unfoldable pub commitment : ℕ → ℤ → Bytes → Bytes → Bytes → Bytes
  unfolding message encode_hex
  commitment dispute round choice salt voter =
      encode_hex (sum256 (message dispute round choice salt voter))

-- The sixteen random bytes are an argument, `none` where reading them fails.
unfoldable pub new_salt : Option Bytes → Option Bytes
unfolding encode_hex
new_salt none = none
new_salt (some b) = some (encode_hex b)
