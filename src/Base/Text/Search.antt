-- ===== src/Base/Text/Search.antt =====
-- How the searches and trims behave on texts whose parts are known.
use mathlib.Core.List.{reverse, reverse-append, reverse-reverse}
use gnoracle.Base.{
  ℕ, true, false, [], ◌∷◌, ◌++◌, none, some, ◌≡◌, ◌≢◌, ◌↔◌, refl, sym, ap, ◌∙◌, arith, All,
}
use gnoracle.Base.Text.{
  Bytes, bytes_eq, is_space, trim_left, trim_right, trim_space, has_suffix, split, cut_last,
  cut_first, drop_last,
}

abbrev pub Lacks : ℕ → Bytes → Type 0
Lacks b = All (λ c. c ≢ b)

module _ (P : ℕ → Type 0) where
  pub All-append : (s t : Bytes) → All P s → All P t → All P (s ++ t)
  All-append [] t _ h = h
  All-append (c ∷ s) t (p, hs) h = (p, All-append s t hs h)

pub bytes_eq_iff : (s t : Bytes) → (bytes_eq s t ≡ true) ↔ (s ≡ t)
unfolding bytes_eq
bytes_eq_iff [] [] = (λ _. refl, λ _. refl)
bytes_eq_iff [] (b ∷ t) = (λ h. cc, λ h. cc)
bytes_eq_iff (a ∷ s) [] = (λ h. cc, λ h. cc)
bytes_eq_iff (a ∷ s) (b ∷ t) =
    (λ h. ground (arith, (bytes_eq_iff s t).0), λ h. ground (arith, (bytes_eq_iff s t).1))

trim_left_at : (a : ℕ) (s : Bytes) → is_space a ≡ false → trim_left is_space (a ∷ s) ≡ a ∷ s
unfolding trim_left
trim_left_at a s h = rw h

trim_right_at :
    (z : ℕ) (s : Bytes) → is_space z ≡ false → trim_right is_space (s ++ z ∷ []) ≡ s ++ z ∷ []
unfolding trim_right
trim_right_at z s h =
    rw (reverse-append s (z ∷ []), trim_left_at z (reverse s) h)
      (ap reverse (sym (reverse-append s (z ∷ []))) ∙ reverse-reverse (s ++ z ∷ []))

-- A text that neither begins nor ends with a space is trimmed to itself.
pub trim_space_solid :
    (a z : ℕ) (s : Bytes)
    → is_space a ≡ false
    → is_space z ≡ false
    → trim_space (a ∷ (s ++ z ∷ [])) ≡ a ∷ (s ++ z ∷ [])
unfolding trim_space
trim_space_solid a z s ha hz = rw (trim_left_at a (s ++ z ∷ []) ha) (trim_right_at z (a ∷ s) hz)

-- Two texts that are equal up to behind their first separator are equal in both parts.
pub split_eq :
    (c : ℕ) (s t r r' : Bytes)
    → Lacks c s
    → Lacks c t
    → s ++ c ∷ r ≡ t ++ c ∷ r'
    → (s ≡ t) × (r ≡ r')
split_eq c [] [] r r' _ _ e = (refl, cc)
split_eq c [] (b ∷ t) r r' _ h e = absurd (h.0 (cc))
split_eq c (a ∷ s) [] r r' h _ e = absurd (h.0 (cc))
split_eq c (a ∷ s) (b ∷ t) r r' (_, h) (_, h') e =
    let (p, q) = split_eq c s t r r' h h' (cc) in (cc, q)

cut_last-none : (c : ℕ) (t : Bytes) → Lacks c t → cut_last c t ≡ none
unfolding cut_last
cut_last-none c [] h = refl
cut_last-none c (x ∷ t) (n, h) = rw (cut_last-none c t h) (ground arith)

-- The last separator is the one that no other follows.
pub cut_last_append : (c : ℕ) (s t : Bytes) → Lacks c t → cut_last c (s ++ c ∷ t) ≡ some (s, t)
unfolding cut_last
cut_last_append c [] t h = rw (cut_last-none c t h) (ground arith)
cut_last_append c (x ∷ s) t h = rw (cut_last_append c s t h)

pub cut_first_append : (c : ℕ) (s t : Bytes) → Lacks c s → cut_first c (s ++ c ∷ t) ≡ some (s, t)
unfolding cut_first
cut_first_append c [] t h = ground arith
cut_first_append c (x ∷ s) t (n, h) = ground (arith, cut_first_append c s t h)

-- A text without the separator is one part.
pub split-Lacks : (c : ℕ) (s : Bytes) → Lacks c s → split c s ≡ s ∷ []
unfolding split
split-Lacks c [] h = refl
split-Lacks c (x ∷ s) (n, h) = rw (split-Lacks c s h) (ground arith)

pub drop_last_append : (s : Bytes) (z : ℕ) → drop_last (s ++ z ∷ []) ≡ s
unfolding drop_last
drop_last_append [] z = refl
drop_last_append (a ∷ []) z = refl
drop_last_append (a ∷ b ∷ s) z = ap (◌∷◌ a) (drop_last_append (b ∷ s) z)

pub has_suffix_append : (s : Bytes) (z : ℕ) → has_suffix (s ++ z ∷ []) (z ∷ []) ≡ true
unfolding has_suffix
has_suffix_append s z = rw (reverse-append s (z ∷ [])) (ground arith)
