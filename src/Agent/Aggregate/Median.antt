-- ===== src/Agent/Aggregate/Median.antt =====
-- agent/value.go, the numeric branch of Aggregate: where its value stands among the answers.
use gnoracle.Base.{
  ℕ, ◌+◌, ◌-◌, ◌*◌, ◌/◌, ◌≤◌, ◌<◌, ℤ, pos, negsuc, pos_part, neg_part, ◌*ℤ◌, ltb_ℤ, ◌≤ℤ◌, true,
  false, not, Bool-cases, inl, inr, ◌⊎◌, ◌<ℤ◌, List, some, ◌≡◌, refl, arith, length, get_elem?-some,
  All,
}
use gnoracle.Base.Sorting.{
  sort_by, count, count-sort_by, length-sort_by, All-get_elem?, All-sort_by, IsOrder,
  sort_by-IsSorted, rank,
}
use gnoracle.Agent.Aggregate.{
  Rat, rat_lt, Sample, number, rejected, too_few, numbers, lower_median, aggregate_numbers,
  aggregate, required,
}

abbrev pub IsFraction : Rat → Type 0
IsFraction r = 0 < r.den

pos_part-mul :
    (z : ℤ) (d : ℕ)
    → (pos_part (z *ℤ pos d) ≡ pos_part z * d) × (neg_part (z *ℤ pos d) ≡ neg_part z * d)
unfolding ◌*ℤ◌
pos_part-mul (pos n) d = (refl, omega arith)
pos_part-mul (negsuc n) d = (ground arith, ground arith)

mul_mono : (a b k : ℕ) → a ≤ b → a * k ≤ b * k
mul_mono a b k h = grind arith

mul_cancel : (a b k : ℕ) → 0 < k → a * k ≤ b * k → a ≤ b
mul_cancel a b k p h = grind arith

-- a/b ≤ c/d and c/d ≤ e/f, as cross products of the parts.
cross_trans :
    (p n d p' n' d' p'' n'' d'' : ℕ)
    → 0 < d'
    → p * d' + n' * d ≤ p' * d + n * d'
    → p' * d'' + n'' * d' ≤ p'' * d' + n' * d''
    → p * d'' + n'' * d ≤ p'' * d + n * d''
cross_trans p n d p' n' d' p'' n'' d'' h e f =
    mul_cancel (p * d'' + n'' * d) (p'' * d + n * d'') d' h
      (omega (arith, mul_mono _ _ d'' e, mul_mono _ _ d f))

abbrev RatLe : Rat → Rat → Type 0
RatLe a b =
    pos_part a.num * b.den + neg_part b.num * a.den
    ≤ pos_part b.num * a.den + neg_part a.num * b.den

rat_lt_le : (a b : Rat) → rat_lt b a ≡ false → RatLe a b
unfolding rat_lt
rat_lt_le a b e = ground (arith, pos_part-mul a.num b.den, pos_part-mul b.num a.den)

RatLe-lt : (a b : Rat) → RatLe a b → rat_lt b a ≡ false
unfolding rat_lt
RatLe-lt a b e = ground (arith, pos_part-mul a.num b.den, pos_part-mul b.num a.den)

rat_lt_asym : (a b : Rat) → rat_lt a b ≡ true → rat_lt b a ≡ false
unfolding rat_lt
rat_lt_asym a b e = ground arith

rat_lt-IsOrder : IsOrder IsFraction rat_lt
rat_lt-IsOrder = record {
  asym = rat_lt_asym;
  trans = λ a b c pa pb pc e f. RatLe-lt a c (
      cross_trans (pos_part a.num) (neg_part a.num) a.den (pos_part b.num) (neg_part b.num) b.den
        (pos_part c.num) (neg_part c.num) c.den pb (rat_lt_le a b e) (rat_lt_le b c f));
}

-- The element of a sorted list at its lower middle.
module _ (vals : List Rat) (fractions : All IsFraction vals) {r : Rat}
    (found : lower_median vals ≡ some r) where
  lower_median_ranks :
      (count (λ y. rat_lt y r) vals ≤ (length vals - 1) / 2)
      × ((length vals - 1) / 2 < count (λ y. not (rat_lt r y)) vals)
  unfolding lower_median
  lower_median_ranks =
      let (lo, hi) =
        rank rat_lt rat_lt-IsOrder (sort_by rat_lt vals) ((length vals - 1) / 2)
          (sort_by-IsSorted rat_lt rat_lt-IsOrder vals fractions) found in
      (
        omega (arith, count-sort_by rat_lt (λ y. rat_lt y r) vals, lo),
        omega (arith, count-sort_by rat_lt (λ y. not (rat_lt r y)) vals, hi),
      )

aggregate_found :
    (samples : List Sample) (min_sources : ℤ) {r : Rat}
    → aggregate samples true min_sources ≡ number r
    → (lower_median (numbers samples) ≡ some r)
      × (required min_sources ≤ℤ pos (length (numbers samples)))
unfolding aggregate aggregate_numbers
aggregate_found samples min_sources e = ground arith

lower_median-some : (vals : List Rat) → 0 < length vals → (r : Rat) × (lower_median vals ≡ some r)
unfolding lower_median
lower_median-some vals h =
    get_elem?-some (sort_by rat_lt vals) ((length vals - 1) / 2)
      (omega (arith, length-sort_by rat_lt vals))

-- A numeric aggregate `r` stands at the lower middle of the answers: at most (n - 1) / 2 of the n
-- usable numbers are below it, and more than (n - 1) / 2 are not above it; every bound that all
-- the answers keep, it keeps; and at least the required number of sources answered. (Fractions
-- have positive denominators.)
pub aggregate_median :
    (samples : List Sample) (min_sources : ℤ) {r : Rat}
    → All IsFraction (numbers samples)
    → aggregate samples true min_sources ≡ number r
    → let vals = numbers samples in
      (count (λ y. rat_lt y r) vals ≤ (length vals - 1) / 2)
      × ((length vals - 1) / 2 < count (λ y. not (rat_lt r y)) vals)
      × ((P : Rat → Type 0) → All P vals → P r)
      × (required min_sources ≤ℤ pos (length vals))
unfolding lower_median
aggregate_median samples min_sources {r} fractions e =
    let (found, enough) = aggregate_found samples min_sources e in
    let (lo, hi) = lower_median_ranks (numbers samples) fractions found in
    (lo, hi, λ P h. All-get_elem? P _ _ (All-sort_by P rat_lt (numbers samples) h) found, enough)

-- When enough sources answer, and at least one, the numeric aggregate is a number; when not, it is
-- refused with how many answered, of how many, and how many had to.
pub aggregate_numeric_total :
    (samples : List Sample) (min_sources : ℤ)
    → ((r : Rat) × (aggregate samples true min_sources ≡ number r)
        × (required min_sources ≤ℤ pos (length (numbers samples))))
      ⊎ ((aggregate samples true min_sources
            ≡ rejected (too_few (length (numbers samples)) (length samples) (required min_sources)))
          × (pos (length (numbers samples)) <ℤ required min_sources))
unfolding aggregate aggregate_numbers
aggregate_numeric_total samples min_sources =
    let vals = numbers samples in
    elim (Bool-cases (ltb_ℤ (pos (length vals)) (required min_sources))) [
      | inl few ↦ inr (rw few, ground arith)
      | inr many ↦
          let (r, found) = lower_median-some vals (ground arith) in
          inl (r, rw many (ground arith), ground arith)
    ]
