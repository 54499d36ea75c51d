-- ===== src/Base/Result.antt =====
-- A Go result with an error: either the value or the error.
use mathlib.Core.Bool.{Bool, true, false}
use mathlib.Core.Logic.{◌⊎◌, inl, inr}
use mathlib.Core.Path.{◌≡◌, refl}

pub data Result (E A : Type 0) : Type 0 where
  ok : A → Result E A
  err : E → Result E A

module _ {E : Type 0} where
  pub Result-cases :
      {A : Type 0} (r : Result E A) → ((a : A) × (r ≡ ok a)) ⊎ ((e : E) × (r ≡ err e))
  Result-cases (err e) = inr (e, refl)
  Result-cases (ok a) = inl (a, refl)

  -- The error unless the test passes.
  abbrev pub ensure : Bool → E → Result E (Unit {0})
  ensure passed e = elim passed [ false ↦ err e | true ↦ ok tt ]

infixl 5 ◌>>=◌ ◌>>◌
abbrev pub ◌>>=◌ : {E A B : Type 0} → Result E A → (A → Result E B) → Result E B
first >>= next = elim first [ err e ↦ err e | ok a ↦ next a ]

abbrev pub ◌>>◌ : {E B : Type 0} → Result E (Unit {0}) → Result E B → Result E B
check >> next = elim check [ err e ↦ err e | ok _ ↦ next ]

-- A chain that succeeded, taken apart.
pub bind_ok :
    {E A B : Type 0} (m : Result E A) (f : A → Result E B) (b : B)
    → (m >>= f) ≡ ok b
    → (a : A) × (m ≡ ok a) × (f a ≡ ok b)
bind_ok (ok a) f b e = (a, refl, e)
bind_ok (err x) f b e = absurd cc

pub then_ok :
    {E B : Type 0} (m : Result E (Unit {0})) (next : Result E B) (b : B)
    → (m >> next) ≡ ok b
    → (m ≡ ok tt) × (next ≡ ok b)
then_ok (ok _) next b e = (refl, e)
then_ok (err x) next b e = absurd cc

pub ensure_ok : {E : Type 0} (c : Bool) (x : E) → ensure c x ≡ ok tt → c ≡ true
ensure_ok true x e = refl
ensure_ok false x e = absurd cc
