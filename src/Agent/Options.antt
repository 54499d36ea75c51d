-- ===== src/Agent/Options.antt =====
-- agent/value.go: from a categorical label to the index of an option. Letters are folded as ASCII.
pub mod Laws
use gnoracle.Base.{
  ℕ, zero, suc, ◌+◌, ◌-◌, ◌*◌, leb, ltb, ◌==◌, ℤ, pos, negsuc, ltb_ℤ, leb_ℤ, Bool, true, false,
  ◌&&◌, ◌||◌, not, List, [], ◌∷◌, ◌++◌, Option, none, some, if◌then◌else◌, length,
}
use gnoracle.Base.Text.{Bytes, bytes_eq, is_space, trim_space}
use gnoracle.Base.Text.Decimal.{parse_int}

lower : ℕ → ℕ
lower c = if leb b'A' c && leb c b'Z' then c + 32 else c

unfoldable pub equal_fold : Bytes → Bytes → Bool
unfolding lower
equal_fold [] [] = true
equal_fold [] (_ ∷ _) = false
equal_fold (_ ∷ _) [] = false
equal_fold (a ∷ s) (b ∷ t) = (lower a == lower b) && equal_fold s t

unfoldable pub lookup : Bytes → List (Bytes × Bytes) → Option Bytes
unfolding bytes_eq
lookup k [] = none
lookup k ((j, v) ∷ m) = if bytes_eq j k then some v else lookup k m

-- The digits at the front of a text.
leading_digits : Bytes → Bytes
leading_digits [] = []
leading_digits (c ∷ s) =
    let rest = leading_digits s in if leb b'0' c && leb c b'9' then c ∷ rest else []

-- `fmt.Sscanf` with "%d": spaces but no line end, a sign, the digits that follow, held to int64.
-- What stands behind the digits is left unread.
unfoldable pub scan_int : Bytes → Option ℤ
unfolding leading_digits parse_int
scan_int [] = none
scan_int (c ∷ s) =
    let rest = scan_int s in
    if c == b'\n'
    then none
    else if is_space c
    then rest
    else if c == b'-' || c == b'+'
    then parse_int (c ∷ leading_digits s)
    else parse_int (leading_digits (c ∷ s))

unfoldable pub find_option : Bytes → List Bytes → ℕ → Option ℕ
unfolding equal_fold
find_option l [] i = none
find_option l (o ∷ options) i =
    let rest = find_option l options (i + 1) in if equal_fold o l then some i else rest

-- The label after the mapping, where it names the label.
unfoldable pub mapped : Bytes → List (Bytes × Bytes) → Bytes
unfolding lookup trim_space
mapped label mapping = let l = trim_space label in elim (lookup l mapping) [ some m ↦ m | none ↦ l ]

pub bare_index : ℕ → Bytes → Option ℤ
bare_index count l = elim (scan_int l) [
  | none ↦ none
  | some i ↦ if leb_ℤ (pos 0) i && ltb_ℤ i (pos count) then some i else none
]

-- `none` is an error: the label names no option.
unfoldable pub option_index : List Bytes → Bytes → List (Bytes × Bytes) → Option ℤ
unfolding bare_index
option_index options label mapping =
    let l = mapped label mapping in
    elim (find_option l options 0) [ some i ↦ some (pos i) | none ↦ bare_index (length options) l ]
