-- ===== src/Gnochain/Schedule/Laws.antt =====
-- The calendar of internal/gnochain/schedule.go: rounds tile the time line from the start on, and
-- what a round is at a moment follows from its number.
use gnoracle.Base.{
  ℕ, ◌+◌, ◌-◌, ◌*◌, ◌/◌, ◌≤◌, ◌<◌, pos, ◌≤ℤ◌, ◌<ℤ◌, true, none, some, ◌≡◌, ap, arith, Bool-cases,
  inl, inr, ltb, ltb→lt, ltb→ge, ◌∙◌, ◌⊎◌,
}
use gnoracle.Base.Int64.{two63}
use gnoracle.Gnochain.Schedule.{Schedule, current, open_at, close_at, is_open}

-- A recurring schedule that starts at `a` with `i` seconds between rounds and a window of `w`.
pub record IsRecurring (s : Schedule) (a i w : ℕ) : Type 0 where
  pub starts : s.start_at ≡ pos a
  pub repeats : s.interval ≡ pos i
  pub accepts : s.submit_window ≡ pos w
  pub positive : 0 < i

le-mul : (n i : ℕ) → 0 < i → n ≤ n * i
le-mul n i h = grind arith

open_at_exact :
    {a i w : ℕ} (s : Schedule) (id : ℕ)
    → IsRecurring s a i w
    → a + id * i < two63
    → open_at s id ≡ pos (a + id * i)
unfolding open_at
open_at_exact {a} {i} {w} s id h fits = rw (h.starts, h.repeats) (ground (arith, le-mul id i))

current_exact :
    {a i w : ℕ} (s : Schedule) (n : ℕ)
    → IsRecurring s a i w
    → a ≤ n
    → n < two63
    → i < two63
    → current s (pos n) ≡ some ((n - a) / i)
unfolding current
current_exact {a} {i} {w} s n h later fits fits' = rw (h.starts, h.repeats) (ground arith)

current_early :
    {a i w : ℕ} (s : Schedule) (n : ℕ) → IsRecurring s a i w → n < a → current s (pos n) ≡ none
unfolding current
current_early {a} {i} {w} s n h early = rw h.starts (ground arith)

close_at_exact :
    {a i w : ℕ} (s : Schedule) (id : ℕ)
    → IsRecurring s a i w
    → a + id * i + w < two63
    → close_at s id ≡ pos (a + id * i + w)
unfolding close_at
close_at_exact {a} {i} {w} s id h fits =
    ground (arith, h.accepts, open_at_exact s id h (omega arith))

is_open_exact :
    {a i w : ℕ} (s : Schedule) (id n : ℕ)
    → IsRecurring s a i w
    → a + id * i + w < two63
    → is_open s id (pos n) ≡ true
    → (a + id * i ≤ n) × (n < a + id * i + w)
unfolding is_open
is_open_exact {a} {i} {w} s id n h fits o =
    ground (arith, open_at_exact s id h (omega arith), close_at_exact s id h fits)

div_brackets : (d i : ℕ) → 0 < i → ((d / i) * i ≤ d) × (d < (d / i + 1) * i)
div_brackets d i h = (grind arith, grind arith)

div_unique : (d i q : ℕ) → q * i ≤ d → d < (q + 1) * i → 0 < i → d / i ≡ q
div_unique d i q lo hi h = grind arith

mul-suc_right : (q i : ℕ) → (q + 1) * i ≡ q * i + i
mul-suc_right q i = omega arith

-- Up to the last moment whose interval still ends inside int64, the current round of a recurring
-- feed is the one with its opening at or before now and the next opening after now; before the
-- start there is none.
pub current_brackets :
    {a i w : ℕ} (s : Schedule) (n : ℕ)
    → IsRecurring s a i w
    → n + i < two63
    → ((current s (pos n) ≡ none) × (n < a))
      ⊎ ((r : ℕ) × (current s (pos n) ≡ some r)
          × (open_at s r ≤ℤ pos n)
          × (pos n <ℤ open_at s (r + 1)))
current_brackets {a} {i} {w} s n h fits = elim (Bool-cases (ltb n a)) [
  | inl early ↦
      inl (current_early s n h (omega (arith, ltb→lt n a early)), omega (arith, ltb→lt n a early))
  | inr late ↦
      let later : a ≤ n = ltb→ge n a late in
      let r = (n - a) / i in
      let (lo, hi) = div_brackets (n - a) i h.positive in
      inr (
        r,
        current_exact s n h later (omega arith) (omega arith),
        rw (open_at_exact s r h (omega arith)) (omega arith),
        rw (open_at_exact s (r + 1) h (omega (arith, mul-suc_right r i))) (omega arith),
      )
]

-- When a window is no longer than the interval, a round that accepts submissions, and whose window
-- ends inside int64, is the current one; the moment and the interval are inside int64 as well.
pub is_open-current :
    {a i w : ℕ} (s : Schedule) (id n : ℕ)
    → IsRecurring s a i w
    → w ≤ i
    → n < two63
    → i < two63
    → a + id * i + w < two63
    → is_open s id (pos n) ≡ true
    → current s (pos n) ≡ some id
is_open-current {a} {i} {w} s id n h short fits fits' fits'' o =
    let (lo, hi) = is_open_exact s id n h fits'' o in
    current_exact s n h (omega arith) fits fits'
    ∙ ap some (div_unique (n - a) i id (omega arith) (omega (arith, mul-suc_right id i)) h.positive)
