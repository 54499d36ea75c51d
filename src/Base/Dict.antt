-- ===== src/Base/Dict.antt =====
-- A Go map with text keys, as an association list: what is stored under a key, and what is kept.
pub mod Laws
use gnoracle.Base.Tests.{if◌then◌else◌}
use gnoracle.Base.Text.{Bytes, bytes_eq}
use mathlib.Core.Bool.{Bool, true, false}
use mathlib.Core.List.{List, [], ◌∷◌}
use mathlib.Core.Option.{Option, none, some}

module _ {A : Type 0} where
  unfoldable pub get : Bytes → List (Bytes × A) → Option A
  unfolding bytes_eq
  get key [] = none
  get key ((k, a) ∷ entries) = if bytes_eq k key then some a else get key entries

  unfoldable pub put : Bytes → A → List (Bytes × A) → List (Bytes × A)
  unfolding bytes_eq
  put key a [] = (key, a) ∷ []
  put key a ((k, b) ∷ entries) =
      let rest = put key a entries in if bytes_eq k key then (k, a) ∷ entries else (k, b) ∷ rest

  -- The entries whose value passes a test; the others are deleted.
  unfoldable pub keep : (A → Bool) → List (Bytes × A) → List (Bytes × A)
  keep test [] = []
  keep test ((k, a) ∷ entries) =
      let rest = keep test entries in if test a then (k, a) ∷ rest else rest

  unfoldable pub remove : Bytes → List (Bytes × A) → List (Bytes × A)
  unfolding bytes_eq
  remove key [] = []
  remove key ((k, a) ∷ entries) =
      let rest = remove key entries in if bytes_eq k key then rest else (k, a) ∷ rest
