-- ===== src/Gnochain/Results.antt =====
-- internal/gnochain/parse.go: the typed result lines of the virtual machine, such as (5 int64).
-- `strconv.Unquote` is a parameter.
pub mod Laws
use gnoracle.Base.{
  ℕ, Bool, true, false, ◌&&◌, ◌||◌, not, ◌==◌, List, [], ◌∷◌, ℤ, Option, none, some, if◌then◌else◌,
}
use gnoracle.Base.Text.{
  Bytes, codes, bytes_eq, trim, trim_space, has_prefix, has_suffix, split, cut_last, drop_last,
}
use gnoracle.Base.Text.Decimal.{parse_int}

-- line[1:]
abbrev pub drop_first : Bytes → Bytes
drop_first [] = []
drop_first (_ ∷ s) = s

unfoldable pub is_text_type : Bytes → Bool
unfolding bytes_eq has_suffix
is_text_type typ =
    bytes_eq typ (codes "string")
    || (has_suffix typ (codes ".address") || bytes_eq typ (codes "address"))

module _ (unquote : Bytes → Option Bytes) where
  unquoted : Bytes → Bytes
  unfolding trim
  unquoted val = elim (unquote val) [ some s ↦ s | none ↦ trim (λ c. c == b'"') val ]

  unfoldable pub typed_value : Bytes → Bytes
  unfolding cut_last is_text_type unquoted
  typed_value inner = elim (cut_last b' ' inner) [
    | none ↦ inner
    | some (val, typ) ↦ if is_text_type typ then unquoted val else val
  ]

  unfoldable pub decode_result : Bytes → Bytes
  unfolding trim_space has_prefix has_suffix drop_last typed_value
  decode_result raw =
      let line = trim_space raw in
      if not (has_prefix line (codes "(")) || not (has_suffix line (codes ")"))
      then line
      else typed_value (drop_last (drop_first line))

  -- The loop over the lines: an empty one is skipped.
  decode_lines : List Bytes → List Bytes
  unfolding trim_space
  decode_lines [] = []
  decode_lines (raw ∷ lines) =
      let rest = decode_lines lines in
      elim (trim_space raw) [ [] ↦ rest | c ∷ s ↦ decode_result (c ∷ s) ∷ rest ]

  unfoldable pub decode_results : Bytes → List Bytes
  unfolding trim_space split decode_lines
  decode_results text = decode_lines (split b'\n' (trim_space text))

  -- `none` is the result with `false`.
  first_int : List Bytes → Option ℤ
  unfolding parse_int
  first_int [] = none
  first_int (r ∷ _) = parse_int r

  unfoldable pub int64_result : Bytes → Option ℤ
  unfolding decode_results first_int
  int64_result text = first_int (decode_results text)
