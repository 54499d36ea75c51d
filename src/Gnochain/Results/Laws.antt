-- ===== src/Gnochain/Results/Laws.antt =====
-- What the realms print as typed results is read back.
use gnoracle.Base.{false, [], ◌∷◌, ◌++◌, ℤ, Option, some, ◌≡◌, refl, arith, inl, ◌∙◌}
use gnoracle.Base.Int64.{IsInt64}
use gnoracle.Base.Text.{Bytes, codes}
use gnoracle.Base.Text.Search.{
  Lacks, All-append, trim_space_solid, split-Lacks, cut_last_append, has_suffix_append,
  drop_last_append,
}
use gnoracle.Base.Text.Decimal.{format_int, format_int-Lacks, parse_int-format_int}
use gnoracle.Gnochain.Results.{
  decode_result, decode_results, decode_lines, first_int, int64_result, typed_value, is_text_type,
}

-- "(" value " " type ")"
abbrev pub typed_line : Bytes → Bytes → Bytes
typed_line val typ = b'(' ∷ ((val ++ b' ' ∷ typ) ++ b')' ∷ [])

module _ (unquote : Bytes → Option Bytes) where
  decode_result_inner :
      (inner : Bytes)
      → decode_result unquote (b'(' ∷ (inner ++ b')' ∷ [])) ≡ typed_value unquote inner
  unfolding decode_result
  decode_result_inner inner =
      rw (trim_space_solid b'(' b')' inner refl refl)
        (rw (has_suffix_append (b'(' ∷ inner) b')', drop_last_append inner b')'))

  -- A line of a type that is no text gives its value as it is written, where the type's name
  -- holds no space.
  decode_result_value :
      (val typ : Bytes)
      → Lacks b' ' typ
      → is_text_type typ ≡ false
      → decode_result unquote (typed_line val typ) ≡ val
  unfolding typed_value
  decode_result_value val typ plain other =
      decode_result_inner (val ++ b' ' ∷ typ)
      ∙ rw (cut_last_append b' ' val typ plain, typed_value) (rw other)

  decode_results_line :
      (inner : Bytes)
      → Lacks b'\n' inner
      → decode_results unquote (b'(' ∷ (inner ++ b')' ∷ []))
        ≡ decode_result unquote (b'(' ∷ (inner ++ b')' ∷ [])) ∷ []
  unfolding decode_results
  decode_results_line inner plain =
      let line = b'(' ∷ (inner ++ b')' ∷ []) in
      let solid = trim_space_solid b'(' b')' inner refl refl in
      rw (solid, split-Lacks b'\n' line (omega arith, All-append _ inner _ plain (omega arith, tt)))
        (rw (solid, decode_lines))

  -- An int64 that a realm returns is read back as it is, for every int64.
  pub int64_result_line :
      (z : ℤ)
      → IsInt64 z
      → int64_result unquote (typed_line (format_int z) (codes "int64")) ≡ some z
  unfolding int64_result
  int64_result_line z h =
      let val = format_int z in
      let plain =
        All-append _ val (codes " int64")
          (format_int-Lacks b'\n' z (inl (omega arith)) (omega arith)) (omega arith) in
      rw (decode_results_line (val ++ codes " int64") plain) (
        rw
          (
            decode_result_value val (codes "int64") (omega arith) (unfold is_text_type in refl),
            first_int,
          )
          (parse_int-format_int z h))
