-- ===== src/Base/Sorting.antt =====
-- Insertion sort by a Boolean order, which stands for `sort.Slice`, and the ranks in its result.
use gnoracle.Base.{
  ℕ, zero, suc, ◌≤◌, ◌<◌, Bool, true, false, not, Bool-cases, inl, inr, List, [], ◌∷◌, some, ◌≡◌,
  refl, ap, arith, if◌then◌else◌, length, get_elem?, All, ◌∙◌, subst,
}

module _ {A : Type 0} where
  insert_by : (A → A → Bool) → A → List A → List A
  insert_by lt x [] = x ∷ []
  insert_by lt x (y ∷ ys) = if lt y x then y ∷ insert_by lt x ys else x ∷ y ∷ ys

  unfoldable pub sort_by : (A → A → Bool) → List A → List A
  unfolding insert_by
  sort_by lt [] = []
  sort_by lt (x ∷ xs) = insert_by lt x (sort_by lt xs)

  -- How many elements pass a test.
  abbrev pub count : (A → Bool) → List A → ℕ
  count p [] = 0
  count p (x ∷ xs) = if p x then suc (count p xs) else count p xs

  count-insert_by :
      (lt : A → A → Bool) (p : A → Bool) (x : A) (xs : List A)
      → count p (insert_by lt x xs) ≡ count p (x ∷ xs)
  unfolding insert_by
  count-insert_by lt p x [] = refl
  count-insert_by lt p x (y ∷ ys) = ground (arith, count-insert_by lt p x ys)

  pub count-sort_by :
      (lt : A → A → Bool) (p : A → Bool) (xs : List A) → count p (sort_by lt xs) ≡ count p xs
  unfolding sort_by
  count-sort_by lt p [] = refl
  count-sort_by lt p (x ∷ xs) =
      ground (arith, count-insert_by lt p x (sort_by lt xs), count-sort_by lt p xs)

  length-insert_by :
      (lt : A → A → Bool) (x : A) (xs : List A) → length (insert_by lt x xs) ≡ suc (length xs)
  unfolding insert_by
  length-insert_by lt x [] = refl
  length-insert_by lt x (y ∷ ys) = ground (arith, length-insert_by lt x ys)

  pub length-sort_by : (lt : A → A → Bool) (xs : List A) → length (sort_by lt xs) ≡ length xs
  unfolding sort_by
  length-sort_by lt [] = refl
  length-sort_by lt (x ∷ xs) = length-insert_by lt x (sort_by lt xs) ∙ ap suc (length-sort_by lt xs)

  pub All-get_elem? :
      (P : A → Type 0) (xs : List A) (i : ℕ) {a : A} → All P xs → get_elem? xs i ≡ some a → P a
  All-get_elem? P [] i h e = cc
  All-get_elem? P (x ∷ xs) zero {a} h e = let same : x ≡ a = cc in subst P same h.0
  All-get_elem? P (x ∷ xs) (suc i) h e = All-get_elem? P xs i h.1 e

  All-insert_by :
      (P : A → Type 0) (lt : A → A → Bool) (x : A) (xs : List A)
      → P x
      → All P xs
      → All P (insert_by lt x xs)
  unfolding insert_by
  All-insert_by P lt x [] p h = (p, h)
  All-insert_by P lt x (y ∷ ys) p h = elim (Bool-cases (lt y x)) [
    | inl e ↦ rw e (h.0, All-insert_by P lt x ys p h.1)
    | inr e ↦ rw e (p, h)
  ]

  pub All-sort_by :
      (P : A → Type 0) (lt : A → A → Bool) (xs : List A) → All P xs → All P (sort_by lt xs)
  unfolding sort_by
  All-sort_by P lt [] h = tt
  All-sort_by P lt (x ∷ xs) h = All-insert_by P lt x (sort_by lt xs) h.0 (All-sort_by P lt xs h.1)

  abbrev pub IsSorted : (A → A → Bool) → List A → Type 0
  IsSorted lt [] = Unit
  IsSorted lt (x ∷ xs) = All (λ y. lt y x ≡ false) xs × IsSorted lt xs

-- An order on the elements that satisfy `P`.
pub record IsOrder {A : Type 0} (P : A → Type 0) (lt : A → A → Bool) : Type 0 where
  pub asym : (a b : A) → lt a b ≡ true → lt b a ≡ false
  pub trans : (a b c : A) → P a → P b → P c → lt b a ≡ false → lt c b ≡ false → lt c a ≡ false

module _ {A : Type 0} {P : A → Type 0} (lt : A → A → Bool) (o : IsOrder P lt) where
  irrefl : (a : A) → lt a a ≡ false
  irrefl a = elim (Bool-cases (lt a a)) [ inl e ↦ o.asym a a e | inr e ↦ e ]

  All-trans :
      (x h : A) (ys : List A)
      → P x
      → P h
      → All P ys
      → lt h x ≡ false
      → All (λ y. lt y h ≡ false) ys
      → All (λ y. lt y x ≡ false) ys
  All-trans x h [] _ _ _ _ _ = tt
  All-trans x h (y ∷ ys) px ph (py, pys) e (e', es) =
      (o.trans x h y px ph py e e', All-trans x h ys px ph pys e es)

  insert_by-IsSorted :
      (x : A) (xs : List A) → P x → All P xs → IsSorted lt xs → IsSorted lt (insert_by lt x xs)
  unfolding insert_by
  insert_by-IsSorted x [] p _ _ = (tt, tt)
  insert_by-IsSorted x (y ∷ ys) p (q, qs) (below, s) = elim (Bool-cases (lt y x)) [
    | inl e ↦ rw e (
      All-insert_by (λ z. lt z y ≡ false) lt x ys (o.asym y x e) below,
      insert_by-IsSorted x ys p qs s,
    )
    | inr e ↦ rw e ((e, All-trans x y ys p q qs e below), (below, s))
  ]

  pub sort_by-IsSorted : (xs : List A) → All P xs → IsSorted lt (sort_by lt xs)
  unfolding sort_by
  sort_by-IsSorted [] _ = tt
  sort_by-IsSorted (x ∷ xs) (p, ps) =
      insert_by-IsSorted x (sort_by lt xs) p (All-sort_by P lt xs ps) (sort_by-IsSorted xs ps)

  none_below : (x : A) (xs : List A) → All (λ y. lt y x ≡ false) xs → count (λ y. lt y x) xs ≡ 0
  none_below x [] _ = refl
  none_below x (y ∷ ys) (e, es) = ground (arith, none_below x ys es)

  -- In a sorted list at most `i` elements are below the one at `i`, and more than `i` are not
  -- above it.
  pub rank :
      (xs : List A) (i : ℕ) {a : A}
      → IsSorted lt xs
      → get_elem? xs i ≡ some a
      → (count (λ y. lt y a) xs ≤ i) × (i < count (λ y. not (lt a y)) xs)
  rank [] i s e = cc
  rank (x ∷ xs) zero {a} (below, s) e =
      let same : x ≡ a = cc in
      subst (λ a. (count (λ y. lt y a) (x ∷ xs) ≤ 0) × (0 < count (λ y. not (lt a y)) (x ∷ xs)))
        same (ground (arith, irrefl x, none_below x xs below), ground (arith, irrefl x))
  rank (x ∷ xs) (suc i) {a} (below, s) e =
      let (lo, hi) = rank xs i s e in
      let above = All-get_elem? (λ y. lt y x ≡ false) xs i below e in (ground arith, ground arith)
