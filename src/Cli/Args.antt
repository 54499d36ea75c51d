-- ===== src/Cli/Args.antt =====
-- cmd/gnoracle/main.go: how arguments are read. The parser of fractions and lower-casing are parameters;
-- a feed that cannot be read is `none`.
use gnoracle.Base.{
  ℕ, ◌-◌, ℤ, pos, ◌&&◌, not, [], ◌∷◌, ◌++◌, map, Option, none, some, if◌then◌else◌, length, take,
  drop,
}
use gnoracle.Base.Text.{Bytes, codes, bytes_eq, trim_space, has_prefix, has_suffix}
use gnoracle.Base.Text.Decimal.{format_int, parse_int, parse_uint}
use gnoracle.Gnochain.Views.Feeds.{FeedInfo, is_numeric}
use gnoracle.Agent.Aggregate.{Rat}
use gnoracle.Agent.Options.{option_index}
use gnoracle.Agent.Scale.{scale_to_int}

-- What stands behind the last `mark`: `strings.LastIndex` with the slice.
behind_last : Bytes → Bytes → Option Bytes
unfolding has_prefix drop
behind_last mark [] = none
behind_last mark (c ∷ s) = elim (behind_last mark s) [
  | some rest ↦ some rest
  | none ↦ if has_prefix (c ∷ s) mark then some (drop (length mark) (c ∷ s)) else none
]

unfoldable pub short_pkg : Bytes → Bytes
unfolding behind_last
short_pkg p = elim (behind_last (codes "/gnoracle/") p) [ none ↦ p | some rest ↦ rest ]

-- The text without a suffix, where it ends with it.
trim_suffix : Bytes → Bytes → Bytes
unfolding has_suffix take
trim_suffix s suffix = if has_suffix s suffix then take (length s - length suffix) s else s

module _ (rat_of_text : Bytes → Option Rat) (lower : Bytes → Bytes) where
  gnot_amount : Bytes → Option Bytes
  unfolding trim_suffix scale_to_int format_int
  gnot_amount s = elim (rat_of_text (trim_suffix s (codes "gnot"))) [
    | none ↦ none
    | some r ↦ elim (scale_to_int (some r) (pos 6)) [
      | none ↦ none
      | some v ↦ some (format_int v ++ codes "ugnot")
    ]
  ]

  ugnot_amount : Bytes → Option Bytes
  unfolding parse_int
  ugnot_amount s = elim (parse_int s) [ none ↦ none | some _ ↦ some (s ++ codes "ugnot") ]

  -- An integer of the smallest unit, or a decimal of the whole one.
  unfoldable pub amount : Bytes → Option Bytes
  unfolding gnot_amount ugnot_amount trim_suffix has_suffix trim_space
  amount text =
      let s = lower (trim_space text) in
      if has_suffix s (codes "gnot") && not (has_suffix s (codes "ugnot"))
      then gnot_amount s
      else ugnot_amount (trim_suffix s (codes "ugnot"))

  unfoldable pub pyth : Bytes → Bytes
  unfolding trim_suffix has_suffix scale_to_int format_int
  pyth s = if has_suffix s (codes "u") then trim_suffix s (codes "u") else elim (rat_of_text s) [
    | none ↦ s
    | some r ↦ elim (scale_to_int (some r) (pos 6)) [ none ↦ s | some v ↦ format_int v ]
  ]

  unfoldable pub feed_value : Option FeedInfo → Bytes → Option (ℤ × FeedInfo)
  unfolding is_numeric scale_to_int option_index
  feed_value none text = none
  feed_value (some f) text =
      let labelled = option_index (map codes f.spec.options) text [] in
      let numeric : Option ℤ = elim (rat_of_text text) [
        | none ↦ none
        | some r ↦ scale_to_int (some r) f.spec.decimals
      ] in
      elim (if is_numeric f.spec then numeric else labelled) [ none ↦ none | some v ↦ some (v, f) ]

  unfoldable pub round_arg : Option FeedInfo → Bytes → Option ℕ
  unfolding bytes_eq parse_uint
  round_arg feed s =
      let current : Option ℕ = elim feed [ none ↦ none | some f ↦ f.current_round ] in
      if not (bytes_eq s (codes "current")) then parse_uint s else current
