-- ===== src/Agent/Adapters/Path.antt =====
-- agent/adapters.go, ExtractJSONPath and splitPath: the leaf of a JSON body. The decoder of JSON is a
-- parameter; of two equal keys in an object it keeps the last.
use gnoracle.Base.{
  ℕ, zero, suc, pos, pos_part, ltb_ℤ, Bool, true, false, List, [], ◌∷◌, ◌++◌, Option, none, some,
  if◌then◌else◌, length, ◌≡◌, ◌<◌, ◌≤◌, ◌==◌, arith, refl, inl, inr, Bool-cases, Option-cases,
}
use gnoracle.Base.Result.{Result, ok, err, ◌>>=◌}
use gnoracle.Base.Text.{Bytes, codes, bytes_eq, trim_space, split, cut_first}
use gnoracle.Base.Text.Decimal.{parse_int}

mutual
  pub data Json : Type 0 where
    null : Json
    boolean : Bool → Json
    number text : Bytes → Json
    array : Items → Json
    object : Fields → Json

  pub data Items : Type 0 where
    no_items : Items
    item : Json → Items → Items

  pub data Fields : Type 0 where
    no_fields : Fields
    field : Bytes → Json → Fields → Fields

unfoldable pub field_of : Bytes → Fields → Option Json
unfolding bytes_eq
field_of key no_fields = none
field_of key (field k v rest) = if bytes_eq k key then some v else field_of key rest

unfoldable pub item_at : ℕ → Items → Option Json
item_at i no_items = none
item_at zero (item v rest) = some v
item_at (suc i) (item v rest) = item_at i rest

no_step : Bytes → Result Bytes Json
no_step step = err (codes "path: cannot take the step " ++ step)

-- One step down.
descend : Json → Bytes → Result Bytes Json
unfolding field_of item_at parse_int
descend (object entries) step = elim (field_of step entries) [ some v ↦ ok v | none ↦ no_step step ]
descend (array items) step = elim (parse_int step) [
  | none ↦ no_step step
  | some i ↦
      if ltb_ℤ i (pos 0)
      then no_step step
      else elim (item_at (pos_part i) items) [ some v ↦ ok v | none ↦ no_step step ]
]
descend null step = no_step step
descend (boolean b) step = no_step step
descend (number s) step = no_step step
descend (text s) step = no_step step

walk : Json → List Bytes → Result Bytes Json
unfolding descend
walk v [] = ok v
walk v (step ∷ steps) = do next ← descend v step; walk next steps

leaf_text : Json → Result Bytes Bytes
leaf_text (number s) = ok s
leaf_text (text s) = ok s
leaf_text (boolean true) = ok (codes "true")
leaf_text (boolean false) = ok (codes "false")
leaf_text null = err (codes "path: null")
leaf_text (array _) = err (codes "path: the leaf is not a scalar")
leaf_text (object _) = err (codes "path: the leaf is not a scalar")

or_nothing : Bytes → List Bytes → List Bytes
or_nothing [] steps = steps
or_nothing (c ∷ s) steps = (c ∷ s) ∷ steps

-- The steps of one part between dots; fuel for each byte.
unfoldable pub part_steps : ℕ → Bytes → List Bytes
unfolding cut_first or_nothing
part_steps zero part = []
part_steps (suc fuel) [] = []
part_steps (suc fuel) (c ∷ s) = elim (cut_first b'[' (c ∷ s)) [
  | none ↦ (c ∷ s) ∷ []
  | some (before, behind) ↦ or_nothing before (elim (cut_first b']' before) [
    | some _ ↦ behind ∷ []
    | none ↦ elim (cut_first b']' behind) [
      | none ↦ behind ∷ []
      | some (index, rest) ↦ index ∷ part_steps fuel rest
    ]
  ])
]

parts_steps : List Bytes → List Bytes
unfolding part_steps
parts_steps [] = []
parts_steps (part ∷ parts) = part_steps (length part) part ++ parts_steps parts

unfoldable pub split_path : Bytes → List Bytes
unfolding trim_space split parts_steps
split_path path = parts_steps (split b'.' (trim_space path))

module _ (decode : Bytes → Result Bytes Json) where
  pub extract : Bytes → Bytes → Result Bytes Bytes
  unfolding walk leaf_text split_path
  extract body path = do v ← decode body; leaf ← walk v (split_path path); leaf_text leaf

cut_first-length :
    (c : ℕ) (s before behind : Bytes)
    → cut_first c s ≡ some (before, behind)
    → length behind < length s
unfolding cut_first
cut_first-length c [] before behind e = absurd (ground (arith, e))
cut_first-length c (x ∷ s) before behind e = elim (Bool-cases (x == c)) [
  | inl here ↦ let same : behind ≡ s = ground (arith, here, e) in rw same (omega arith)
  | inr other ↦ elim (Option-cases (cut_first c s)) [
    | inl nowhere ↦ absurd (ground (arith, other, nowhere, e))
    | inr ((before', behind'), found) ↦
        let same : behind ≡ behind' = ground (arith, other, found, e) in
        rw same (omega (arith, cut_first-length c s before' behind' found))
  ]
]

-- Fuel for each byte is enough: more of it gives the same steps.
pub part_steps_enough :
    (f g : ℕ) (part : Bytes)
    → length part ≤ f
    → length part ≤ g
    → part_steps f part ≡ part_steps g part
unfolding part_steps
part_steps_enough zero zero part h k = refl
part_steps_enough zero (suc g) [] h k = refl
part_steps_enough zero (suc g) (c ∷ s) h k = absurd (omega arith)
part_steps_enough (suc f) zero [] h k = refl
part_steps_enough (suc f) zero (c ∷ s) h k = absurd (omega arith)
part_steps_enough (suc f) (suc g) [] h k = refl
part_steps_enough (suc f) (suc g) (c ∷ s) h k = elim (Option-cases (cut_first b'[' (c ∷ s))) [
  | inl plain ↦ ground (arith, plain)
  | inr ((before, behind), opened) ↦ elim (Option-cases (cut_first b']' before)) [
    | inr (p, early) ↦ ground (arith, opened, early)
    | inl late ↦ elim (Option-cases (cut_first b']' behind)) [
      | inl unclosed ↦ ground (arith, opened, late, unclosed)
      | inr ((index, rest), closed) ↦
          let short = cut_first-length b'[' (c ∷ s) before behind opened in
          let shorter = cut_first-length b']' behind index rest closed in
          ground
            (arith, opened, late, closed, part_steps_enough f g rest (omega arith) (omega arith))
    ]
  ]
]
