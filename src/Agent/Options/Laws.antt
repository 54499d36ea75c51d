-- ===== src/Agent/Options/Laws.antt =====
-- Which option a label resolves to.
use gnoracle.Base.{
  ℕ, zero, suc, ◌+◌, ◌<◌, ℤ, pos, negsuc, true, false, Bool-cases, Option-cases, inl, inr, ◌⊎◌,
  List, [], ◌∷◌, ◌++◌, none, some, ◌≡◌, refl, subst, arith, length, get_elem?, All,
}
use gnoracle.Base.Int64.{two63}
use gnoracle.Base.Text.{Bytes}
use gnoracle.Base.Text.Decimal.{
  parse_int, format_uint, format_int, IsDigit, format_uint-All, format_uint-cons,
  parse_int-format_int,
}
use gnoracle.Agent.Options.{
  equal_fold, leading_digits, scan_int, find_option, mapped, bare_index, option_index,
}

-- The first option that equals a label up to case.
pub record IsFirst (l : Bytes) (options : List Bytes) (i : ℕ) : Type 0 where
  pub option : Bytes
  pub stands : get_elem? options i ≡ some option
  pub folds : equal_fold option l ≡ true
  pub earlier : (j : ℕ) {o : Bytes} → j < i → get_elem? options j ≡ some o → equal_fold o l ≡ false

earlier_cons :
    (l o : Bytes) (options : List Bytes) (i : ℕ)
    → equal_fold o l ≡ false
    → IsFirst l options i
    → (j : ℕ) {o' : Bytes} → j < suc i
    → get_elem? (o ∷ options) j ≡ some o'
    → equal_fold o' l ≡ false
earlier_cons l o options i other first zero {o'} h e = let same : o ≡ o' = cc in rw (← same) other
earlier_cons l o options i other first (suc j) {o'} h e = first.earlier j {o = o'} (omega arith) e

find_option_sound :
    (l : Bytes) (options : List Bytes) (k : ℕ) {r : ℕ}
    → find_option l options k ≡ some r
    → (i : ℕ) × (r ≡ k + i) × IsFirst l options i
unfolding find_option
find_option_sound l [] k e = cc
find_option_sound l (o ∷ options) k {r} e = elim (Bool-cases (equal_fold o l)) [
  | inl found ↦ (
    0,
    ground arith,
    record { option = o; stands = refl; folds = found; earlier = λ j h _. elim h [ ] },
  )
  | inr other ↦
      let (i, at, first) = find_option_sound l options (k + 1) {r = r} (ground arith) in
      (
        suc i,
        omega arith,
        record {
          option = first.option;
          stands = first.stands;
          folds = first.folds;
          earlier = earlier_cons l o options i other first;
        },
      )
]

find_option-none :
    (l : Bytes) (options : List Bytes) (k : ℕ)
    → find_option l options k ≡ none
    → All (λ o. equal_fold o l ≡ false) options
unfolding find_option
find_option-none l [] k e = tt
find_option-none l (o ∷ options) k e =
    (ground arith, find_option-none l options (k + 1) (ground arith))

IsFirst-lt : (l : Bytes) (options : List Bytes) (i : ℕ) → IsFirst l options i → i < length options
IsFirst-lt l options i first = lt_of_found options i first.stands
  where
    lt_of_found :
        (options : List Bytes) (i : ℕ) {o : Bytes}
        → get_elem? options i ≡ some o
        → i < length options
    lt_of_found [] i e = cc
    lt_of_found (o ∷ options) zero e = omega arith
    lt_of_found (o ∷ options) (suc i) e = omega (arith, lt_of_found options i e)

bare_index_sound :
    (n : ℕ) (l : Bytes) (z : ℤ)
    → bare_index n l ≡ some z
    → (i : ℕ) × (z ≡ pos i) × (i < n) × (scan_int l ≡ some z)
unfolding bare_index
bare_index_sound n l (pos i) e = (i, refl, ground arith, ground arith)
bare_index_sound n l (negsuc i) e = absurd (ground arith)

-- An index that a label resolves to is that of the first option that equals the mapped label up to
-- case, or no option does, the label begins with that number, and the number is in range. Either
-- way it is the index of an option.
pub option_index_sound :
    (options : List Bytes) (label : Bytes) (mapping : List (Bytes × Bytes)) {z : ℤ}
    → option_index options label mapping ≡ some z
    → (i : ℕ) × (z ≡ pos i)
      × (i < length options)
      × (IsFirst (mapped label mapping) options i
          ⊎ (All (λ o. equal_fold o (mapped label mapping) ≡ false) options
              × (scan_int (mapped label mapping) ≡ some z)))
unfolding option_index bare_index
option_index_sound options label mapping {z} e =
    let l = mapped label mapping in
    elim (Option-cases (find_option l options 0)) [
      | inl nothing ↦
          let (i, index, range, bare) = bare_index_sound (length options) l z (ground arith) in
          (i, index, range, inr (find_option-none l options 0 nothing, bare))
      | inr (r, found) ↦
          let (i, at, first) = find_option_sound l options 0 {r = r} found in
          (i, ground arith, IsFirst-lt l options i first, inl first)
    ]

leading_digits_stop :
    (s : Bytes) (c : ℕ) (rest : Bytes)
    → All IsDigit s
    → (c < b'0') ⊎ (b'9' < c)
    → leading_digits (s ++ c ∷ rest) ≡ s
unfolding leading_digits
leading_digits_stop [] c rest _ stop = ground arith
leading_digits_stop (d ∷ s) c rest (h, hs) stop =
    ground (arith, leading_digits_stop s c rest hs stop)

scan_int_front :
    (n : ℕ) (c : ℕ) (rest : Bytes)
    → (c < b'0') ⊎ (b'9' < c)
    → scan_int (format_uint n ++ c ∷ rest) ≡ parse_int (format_uint n)
unfolding scan_int
scan_int_front n c rest stop =
    let (d, s, e) = format_uint-cons n in
    let digits = subst (All IsDigit) e (format_uint-All n) in
    let front = leading_digits_stop (d ∷ s) c rest digits stop in
    let digit = digits.0 in rw e (ground (arith, front, digit))

-- A label that begins with the print of an index in range goes to that option whatever follows the
-- digits, when it is neither mapped nor equal to an option: the rest of the label is not read.
pub option_index_front :
    (options : List Bytes) (mapping : List (Bytes × Bytes)) (i c : ℕ) (rest : Bytes)
    → let l = format_uint i ++ c ∷ rest in
      (i < length options)
      → i < two63
      → (c < b'0') ⊎ (b'9' < c)
      → mapped l mapping ≡ l
      → find_option l options 0 ≡ none
      → option_index options l mapping ≡ some (pos i)
unfolding option_index bare_index format_int
option_index_front options mapping i c rest h fits stop plain none_equal =
    let whole = parse_int-format_int (pos i) (ground arith) in
    ground (arith, plain, none_equal, scan_int_front i c rest stop, whole)
