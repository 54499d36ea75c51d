-- ===== src/Base/Dict/Laws.antt =====
-- What a key shows after a change of the map, and that no key stands twice.
use gnoracle.Base.Dict.{get, put, keep, remove}
use gnoracle.Base.Tests.{if◌then◌else◌, Bool-cases}
use gnoracle.Base.Text.{Bytes, bytes_eq}
use gnoracle.Base.Text.Search.{bytes_eq_iff}
use mathlib.Core.Bool.{Bool}
use mathlib.Core.List.{List, [], ◌∷◌}
use mathlib.Core.Logic.{◌≢◌, inl, inr}
use mathlib.Core.Option.{none, some}
use mathlib.Core.Path.{◌≡◌, refl}
use native.Mathlib.Omega.{arith}

module _ {A : Type 0} where
  -- No key stands twice.
  abbrev pub IsKeyed : List (Bytes × A) → Type 0
  IsKeyed [] = Unit
  IsKeyed ((k, a) ∷ entries) = (get k entries ≡ none) × IsKeyed entries

  pub get-put :
      (j key : Bytes) (a : A) (entries : List (Bytes × A))
      → get j (put key a entries) ≡ (if bytes_eq key j then some a else get j entries)
  unfolding get put
  get-put j key a [] = refl
  get-put j key a ((k, b) ∷ entries) =
      ground
        (arith, bytes_eq_iff k key, bytes_eq_iff key j, bytes_eq_iff k j, get-put j key a entries)

  pub put-IsKeyed :
      (key : Bytes) (a : A) (entries : List (Bytes × A))
      → IsKeyed entries
      → IsKeyed (put key a entries)
  unfolding get put
  put-IsKeyed key a [] h = (refl, tt)
  put-IsKeyed key a ((k, b) ∷ entries) (fresh, rest) = elim (Bool-cases (bytes_eq k key)) [
    | inl same ↦ rw same (fresh, rest)
    | inr other ↦ rw other (
      ground (arith, get-put k key a entries, bytes_eq_iff k key, bytes_eq_iff key k, fresh),
      put-IsKeyed key a entries rest,
    )
  ]

  -- What a key shows behind a deletion: its own entry when that passes.
  pub get-keep :
      (test : A → Bool) (key : Bytes) (entries : List (Bytes × A))
      → IsKeyed entries
      → get key (keep test entries)
        ≡ elim (get key entries) [ none ↦ none | some a ↦ if test a then some a else none ]
  unfolding get keep
  get-keep test key [] h = refl
  get-keep test key ((k, a) ∷ entries) (fresh, rest) = ground (
    arith,
    bytes_eq_iff k key,
    get-keep test key entries rest,
    get-keep test k entries rest,
    fresh,
  )

  pub keep-IsKeyed :
      (test : A → Bool) (entries : List (Bytes × A)) → IsKeyed entries → IsKeyed (keep test entries)
  unfolding get keep
  keep-IsKeyed test [] h = tt
  keep-IsKeyed test ((k, a) ∷ entries) (fresh, rest) = elim (Bool-cases (test a)) [
    | inl passed ↦
        rw passed
          (ground (arith, get-keep test k entries rest, fresh), keep-IsKeyed test entries rest)
    | inr failed ↦ rw failed (keep-IsKeyed test entries rest)
  ]

  pub get-remove :
      (j key : Bytes) (entries : List (Bytes × A))
      → j ≢ key
      → get j (remove key entries) ≡ get j entries
  unfolding get remove
  get-remove j key [] differ = refl
  get-remove j key ((k, a) ∷ entries) differ =
      ground (arith, bytes_eq_iff k key, bytes_eq_iff k j, get-remove j key entries differ, differ)
