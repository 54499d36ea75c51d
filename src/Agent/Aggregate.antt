-- ===== src/Agent/Aggregate.antt =====
-- agent/value.go: samples, and the one value that they are reduced to. A `big.Rat` is a fraction
-- with a positive denominator, which need not be in lowest terms here: nothing below looks at
-- more than the value. The parser and the printer of fractions are parameters.
pub mod Median
pub mod Plurality
use gnoracle.Base.{
  ℕ, suc, ◌+◌, ◌-◌, ◌/◌, ◌==◌, ltb, ℤ, pos, ◌*ℤ◌, ltb_ℤ, Bool, true, false, ◌&&◌, not, List, [],
  ◌∷◌, Option, none, some, if◌then◌else◌, length, get_elem?,
}
use gnoracle.Base.Sorting.{sort_by}
use gnoracle.Base.Text.{Bytes, is_empty, bytes_eq, trim_space}

pub record Rat : Type 0 where
  pub num : ℤ
  pub den : ℕ

-- a.Cmp(b) < 0
unfoldable pub rat_lt : Rat → Rat → Bool
unfolding ◌*ℤ◌
rat_lt a b = ltb_ℤ (a.num *ℤ pos b.den) (b.num *ℤ pos a.den)

pub record Sample : Type 0 where
  pub source : Bytes
  pub raw : Bytes
  pub num : Option Rat
  pub value : Bytes
  pub label : Bytes
  pub failure : Bytes

-- Why there is no value: too few of the sources answered, or the labels tie.
pub data AggregateError : Type 0 where
  too_few : ℕ → ℕ → ℤ → AggregateError
  no_plurality : AggregateError

pub data Aggregated : Type 0 where
  number : Rat → Aggregated
  option_label : Bytes → Aggregated
  rejected : AggregateError → Aggregated

-- The numbers of the samples that have one and no error.
unfoldable pub numbers : List Sample → List Rat
numbers [] = []
numbers (s ∷ samples) =
    let rest = numbers samples in
    elim s.num [ none ↦ rest | some r ↦ if is_empty s.failure then r ∷ rest else rest ]

-- vals[(len(vals)-1)/2]
unfoldable pub lower_median : List Rat → Option Rat
unfolding sort_by rat_lt
lower_median vals = get_elem? (sort_by rat_lt vals) ((length vals - 1) / 2)

-- counts[label]++
unfoldable pub count_label : Bytes → List (Bytes × ℕ) → List (Bytes × ℕ)
unfolding bytes_eq
count_label l [] = (l, 1) ∷ []
count_label l ((k, n) ∷ counts) =
    if bytes_eq k l then (k, n + 1) ∷ counts else (k, n) ∷ count_label l counts

unfoldable pub labels : List Sample → List Bytes
labels [] = []
labels (s ∷ samples) =
    let rest = labels samples in
    if is_empty s.failure && not (is_empty s.label) then s.label ∷ rest else rest

unfoldable pub count_labels : List Bytes → List (Bytes × ℕ) → List (Bytes × ℕ)
unfolding count_label
count_labels [] counts = counts
count_labels (l ∷ ls) counts = count_labels ls (count_label l counts)

-- The loop over the map, on the best label, its count and whether it ties. Go may visit the map in
-- any order: the list is that order.
unfoldable pub pick : List (Bytes × ℕ) → Bytes → ℕ → Bool → Bytes × ℕ × Bool
pick [] best best_n tie = (best, best_n, tie)
pick ((l, n) ∷ counts) best best_n tie =
    let better = pick counts l n false in
    let same = pick counts best best_n true in
    let worse = pick counts best best_n tie in
    if ltb best_n n then better else if n == best_n then same else worse

-- The sources that have to answer: at least one.
abbrev pub required : ℤ → ℤ
required min_sources = if ltb_ℤ min_sources (pos 1) then pos 1 else min_sources

unfoldable pub aggregate_numbers : List Sample → ℤ → Aggregated
unfolding numbers lower_median
aggregate_numbers samples min_sources =
    let vals = numbers samples in
    if ltb_ℤ (pos (length vals)) min_sources
    then rejected (too_few (length vals) (length samples) min_sources)
    else elim (lower_median vals) [
      | some r ↦ number r
      | none ↦ rejected (too_few 0 (length samples) min_sources)
    ]

unfoldable pub aggregate_labels : List Sample → ℤ → Aggregated
unfolding labels count_labels pick
aggregate_labels samples min_sources =
    let ls = labels samples in
    let (best, _, tie) = pick (count_labels ls []) [] 0 false in
    if ltb_ℤ (pos (length ls)) min_sources
    then rejected (too_few (length ls) (length samples) min_sources)
    else if tie
    then rejected no_plurality
    else option_label best

unfoldable pub aggregate : List Sample → Bool → ℤ → Aggregated
unfolding aggregate_numbers aggregate_labels
aggregate samples numeric min_sources =
    if numeric
    then aggregate_numbers samples (required min_sources)
    else aggregate_labels samples (required min_sources)

module _ (float_string : Rat → Bytes) (rat_of_text : Bytes → Option Rat) where
  pub finish : Sample → Sample
  finish s = elim s.num [ none ↦ s | some r ↦ record s { value = float_string r } ]

  unfoldable pub parse_number_or_label : Sample → Bytes → Sample
  unfolding finish trim_space
  parse_number_or_label s text =
      let t = trim_space text in
      let labelled = record s { label = t } in
      elim (rat_of_text t) [
        | some r ↦
            if not (is_empty t) then finish (record labelled { num = some r }) else finish labelled
        | none ↦ finish labelled
      ]
