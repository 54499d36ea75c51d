-- ===== src/Agent/Aggregate/Plurality.antt =====
-- agent/value.go, the categorical branch of Aggregate: how often each label occurs.
use gnoracle.Base.{
  ℕ, ◌+◌, ◌≤◌, ◌<◌, ltb, ◌==◌, ltb→lt, ==_iff, ℤ, Bool, true, false, Bool-cases, inl, inr, ◌⊎◌,
  List, [], ◌∷◌, ◌≡◌, ◌≢◌, refl, ◌∙◌, subst, arith, if◌then◌else◌, length,
}
use gnoracle.Base.Sorting.{count}
use gnoracle.Base.Text.{Bytes, bytes_eq}
use gnoracle.Base.Text.Search.{bytes_eq_iff}
use gnoracle.Agent.Aggregate.{
  Sample, option_label, labels, count_label, count_labels, pick, aggregate_labels, aggregate,
}

-- The count of a label in the map, 0 when it has none.
look : Bytes → List (Bytes × ℕ) → ℕ
look k [] = 0
look k ((l, n) ∷ counts) = if bytes_eq k l then n else look k counts

-- No label has two entries.
abbrev IsKeyed : List (Bytes × ℕ) → Type 0
IsKeyed [] = Unit
IsKeyed ((l, n) ∷ counts) = (look l counts ≡ 0) × (0 < n) × IsKeyed counts

occurrences : Bytes → List Bytes → ℕ
occurrences k = count (bytes_eq k)

-- What the loop has found when it ends, against where it began.
record IsPicked (counts : List (Bytes × ℕ)) (best : Bytes) (best_n : ℕ) (tie : Bool) (b : Bytes)
    (n : ℕ) (t : Bool) : Type 0 where
  stays :
      ((b ≡ best) × (n ≡ best_n) × (tie ≡ true → t ≡ true)) ⊎ ((best_n < n) × (look b counts ≡ n))
  top : (k : Bytes) → look k counts ≤ n
  beats : (k : Bytes) → t ≡ false → 0 < n → k ≢ b → look k counts < n

abbrev Picks : List (Bytes × ℕ) → Bytes → ℕ → Bool → Type 0
Picks counts best best_n tie =
    let (b, n, t) = pick counts best best_n tie in IsPicked counts best best_n tie b n t

module _ (l : Bytes) (n : ℕ) (counts : List (Bytes × ℕ)) (best : Bytes) (best_n : ℕ) (tie : Bool)
    (fresh : look l counts ≡ 0) (positive : 0 < n) {b : Bytes} {m : ℕ} {t : Bool} where
  IsPicked-better :
      best_n < n
      → IsPicked counts l n false b m t
      → IsPicked ((l, n) ∷ counts) best best_n tie b m t
  unfolding look
  IsPicked-better more ih = record {
    stays = inr (ground (arith, bytes_eq_iff b l), ground (arith, bytes_eq_iff b l));
    top = λ k. ground (arith, bytes_eq_iff k l, ih.top k, ih.stays);
    beats = λ k single some_votes other.
        ground (arith, bytes_eq_iff k l, ih.beats k single some_votes other);
  }

  IsPicked-same :
      n ≡ best_n
      → IsPicked counts best best_n true b m t
      → IsPicked ((l, n) ∷ counts) best best_n tie b m t
  unfolding look
  IsPicked-same same ih = record {
    stays = elim ih.stays [
      | inl (e, e', kept) ↦ inl (e, e', λ _. kept refl)
      | inr (more, found) ↦ inr (more, ground (arith, bytes_eq_iff b l))
    ];
    top = λ k. ground (arith, bytes_eq_iff k l, ih.top k, ih.stays);
    beats = λ k single some_votes other.
        ground (arith, bytes_eq_iff k l, ih.beats k single some_votes other);
  }

  IsPicked-worse :
      n < best_n
      → IsPicked counts best best_n tie b m t
      → IsPicked ((l, n) ∷ counts) best best_n tie b m t
  unfolding look
  IsPicked-worse less ih = record {
    stays = elim ih.stays [
      | inl kept ↦ inl kept
      | inr (more, found) ↦ inr (more, ground (arith, bytes_eq_iff b l))
    ];
    top = λ k. ground (arith, bytes_eq_iff k l, ih.top k, ih.stays);
    beats = λ k single some_votes other.
        ground (arith, bytes_eq_iff k l, ih.beats k single some_votes other);
  }

pick-Picks :
    (counts : List (Bytes × ℕ)) (best : Bytes) (best_n : ℕ) (tie : Bool)
    → IsKeyed counts
    → Picks counts best best_n tie
unfolding pick look
pick-Picks [] best best_n tie h = record {
  stays = inl (refl, refl, λ e. e);
  top = λ k. omega arith;
  beats = λ k _ p _. p;
}
pick-Picks ((l, n) ∷ counts) best best_n tie (fresh, p, keyed) = elim (Bool-cases (ltb best_n n)) [
  | inl more ↦ rw more (
      IsPicked-better l n counts best best_n tie fresh p (ltb→lt best_n n more)
        (pick-Picks counts l n false keyed))
  | inr not_more ↦ rw not_more (elim (Bool-cases (n == best_n)) [
    | inl same ↦ rw same (
        IsPicked-same l n counts best best_n tie fresh p ((==_iff n best_n).0 same)
          (pick-Picks counts best best_n true keyed))
    | inr less ↦ rw less (
        IsPicked-worse l n counts best best_n tie fresh p (ground arith)
          (pick-Picks counts best best_n tie keyed))
  ])
]

look-count_label :
    (k l : Bytes) (counts : List (Bytes × ℕ))
    → look k (count_label l counts) ≡ look k counts + (if bytes_eq k l then 1 else 0)
unfolding look count_label
look-count_label k l [] = ground arith
look-count_label k l ((j, n) ∷ counts) =
    ground
      (arith, bytes_eq_iff k l, bytes_eq_iff j l, bytes_eq_iff k j, look-count_label k l counts)

count_label-IsKeyed :
    (l : Bytes) (counts : List (Bytes × ℕ)) → IsKeyed counts → IsKeyed (count_label l counts)
unfolding look count_label
count_label-IsKeyed l [] h = (refl, omega arith, tt)
count_label-IsKeyed l ((j, n) ∷ counts) (fresh, p, keyed) = elim (Bool-cases (bytes_eq j l)) [
  | inl same ↦ rw same (fresh, omega arith, keyed)
  | inr other ↦
      rw other (ground (arith, look-count_label j l counts), p, count_label-IsKeyed l counts keyed)
]

count_labels-IsKeyed :
    (ls : List Bytes) (counts : List (Bytes × ℕ))
    → IsKeyed counts
    → IsKeyed (count_labels ls counts)
unfolding count_labels
count_labels-IsKeyed [] counts h = h
count_labels-IsKeyed (l ∷ ls) counts h =
    count_labels-IsKeyed ls (count_label l counts) (count_label-IsKeyed l counts h)

look-count_labels :
    (k : Bytes) (ls : List Bytes) (counts : List (Bytes × ℕ))
    → look k (count_labels ls counts) ≡ look k counts + occurrences k ls
unfolding count_labels occurrences
look-count_labels k [] counts = omega arith
look-count_labels k (l ∷ ls) counts =
    ground (arith, look-count_labels k ls (count_label l counts), look-count_label k l counts)

look-counted : (k : Bytes) (ls : List Bytes) → look k (count_labels ls []) ≡ occurrences k ls
look-counted k ls = rw look-count_labels (unfold look in omega arith)

label_won :
    (samples : List Sample) (min_sources : ℤ) {b : Bytes}
    → aggregate samples false min_sources ≡ option_label b
    → let won = pick (count_labels (labels samples) []) [] 0 false in
      (won.0 ≡ b) × (won.2 ≡ false) × (0 < length (labels samples))
unfolding aggregate aggregate_labels
label_won samples min_sources e = ground arith

-- Some label is counted when there is one.
occurs_first : (l : Bytes) (ls : List Bytes) → 0 < occurrences l (l ∷ ls)
unfolding occurrences
occurs_first l ls = ground (arith, bytes_eq_iff l l)

picked_beats :
    (ls : List Bytes) (b : Bytes) (n : ℕ) (t : Bool)
    → IsPicked (count_labels ls []) [] 0 false b n t
    → 0 < length ls
    → t ≡ false
    → (l : Bytes) → l ≢ b
    → occurrences l ls < occurrences b ls
picked_beats [] b n t h p single l other = absurd (omega arith)
picked_beats (first ∷ ls) b n t h p single l other =
    let votes = rw (look-counted first (first ∷ ls)) at (h.top first) in
    let some_votes : 0 < n = omega (arith, occurs_first first ls, votes) in
    let least = rw (look-counted l (first ∷ ls)) at (h.beats l single some_votes other) in
    elim h.stays [
      | inl (_, none_won, _) ↦ absurd (omega arith)
      | inr (_, most) ↦ omega (arith, least, most, look-counted b (first ∷ ls))
    ]

-- A categorical aggregate `b` is the strict plurality of the labels that were answered without an
-- error: every other label was answered fewer times.
pub aggregate_plurality :
    (samples : List Sample) (min_sources : ℤ) {b : Bytes}
    → aggregate samples false min_sources ≡ option_label b
    → (l : Bytes) → l ≢ b
    → count (bytes_eq l) (labels samples) < count (bytes_eq b) (labels samples)
unfolding occurrences
aggregate_plurality samples min_sources {b} e l other =
    let counts = count_labels (labels samples) [] in
    let (named, single, some_labels) = label_won samples min_sources e in
    let picked = pick-Picks counts [] 0 false (count_labels-IsKeyed (labels samples) [] tt) in
    subst (λ w. count (bytes_eq l) (labels samples) < count (bytes_eq w) (labels samples)) named
      (picked_beats (labels samples) _ _ _ picked some_labels single l (λ e'. other (e' ∙ named)))
