-- ===== src/Bot/State/Laws.antt =====
-- bot/state.go: keys that are sent and attempted, over restarts and pruning.
use gnoracle.Base.{
  ℕ, ◌+◌, ◌-◌, ◌≤◌, ◌<◌, ℤ, pos, ltb_ℤ, true, false, not, none, some, ◌≡◌, ◌⊎◌, inl, inr, refl,
  arith, ltb, sym, subst, Option-cases,
}
use gnoracle.Base.Dict.{get, put}
use gnoracle.Base.Dict.Laws.{IsKeyed, get-put, get-keep, put-IsKeyed}
use gnoracle.Base.Int64.{sub64, two63}
use gnoracle.Base.Text.{Bytes}
use gnoracle.Base.Text.Search.{bytes_eq_iff}
use gnoracle.Bot.State.{State, pruned, once, due, week}

-- No key stands twice in either map.
pub record IsSound (s : State) : Type 0 where
  pub sent_keyed : IsKeyed s.sent
  pub attempt_keyed : IsKeyed s.attempt

pub once-fresh :
    (key : Bytes) (now : ℤ) (s : State) → get key s.sent ≡ none → (once key now s).1 ≡ true
unfolding once
once-fresh key now s e = ground (arith, e)

pub once-stale :
    (key : Bytes) (now : ℤ) (s : State) {t : ℤ}
    → get key s.sent ≡ some t
    → (once key now s).1 ≡ false
unfolding once
once-stale key now s e = ground (arith, e)

-- What a pass that reads the clock at `now` may have made of the state: a mark in what was sent is as
-- it was, or it is new and made now; one in what was attempted is as it was, or made now.
pub record Follows (from : State) (now : ℤ) (s : State) : Type 0 where
  pub sound : IsSound s
  pub sent_kept :
      (key : Bytes)
      → (get key s.sent ≡ get key from.sent)
        ⊎ ((get key from.sent ≡ none) × (get key s.sent ≡ some now))
  pub attempt_kept :
      (key : Bytes) → (get key s.attempt ≡ get key from.attempt) ⊎ (get key s.attempt ≡ some now)

pub Follows-refl : (s : State) (now : ℤ) → IsSound s → Follows s now s
Follows-refl s now h = record {
  sound = h;
  sent_kept = λ key. inl refl;
  attempt_kept = λ key. inl refl;
}

pub once-Follows :
    {from : State} {now : ℤ} (key : Bytes) (s : State)
    → Follows from now s
    → Follows from now (once key now s).0
unfolding once
once-Follows {from} {now} key s h = elim (Option-cases (get key s.sent)) [
  | inr (t, old) ↦ rw (once, old) h
  | inl new ↦
      rw (once, new)
        record {
          sound = record {
            sent_keyed = put-IsKeyed key now s.sent h.sound.sent_keyed;
            attempt_keyed = h.sound.attempt_keyed;
          };
          sent_kept = λ j. ground (
            arith,
            get-put j key now s.sent,
            bytes_eq_iff key j,
            new,
            h.sent_kept j,
            h.sent_kept key,
          );
          attempt_kept = h.attempt_kept;
        }
]

pub due-Follows :
    {from : State} {now : ℤ} (key : Bytes) (every : ℤ) (s : State)
    → Follows from now s
    → Follows from now (due key every now s).0
unfolding due
due-Follows {from} {now} key every s h =
    let marked : Follows from now (record s { attempt = put key now s.attempt }) = record {
      sound = record {
        sent_keyed = h.sound.sent_keyed;
        attempt_keyed = put-IsKeyed key now s.attempt h.sound.attempt_keyed;
      };
      sent_kept = h.sent_kept;
      attempt_kept = λ j. ground (arith, get-put j key now s.attempt, h.attempt_kept j);
    } in
    ground (arith, h, marked)

-- The maps alone matter.
pub moved-Follows :
    {from : State} {now : ℤ} (s s' : State)
    → s'.sent ≡ s.sent
    → s'.attempt ≡ s.attempt
    → Follows from now s
    → Follows from now s'
moved-Follows s s' e e' h = record {
  sound = record {
    sent_keyed = rw e h.sound.sent_keyed;
    attempt_keyed = rw e' h.sound.attempt_keyed;
  };
  sent_kept = rw e h.sent_kept;
  attempt_kept = rw e' h.attempt_kept;
}

-- A step to one of two states.
pub either-Follows :
    {from : State} {now : ℤ} (s a b : State)
    → (s ≡ a) ⊎ (s ≡ b)
    → Follows from now a
    → Follows from now b
    → Follows from now s
either-Follows {from} {now} s a b (inl e) h h' = subst (λ s. Follows from now s) (sym e) h
either-Follows {from} {now} s a b (inr e) h h' = subst (λ s. Follows from now s) (sym e) h'

-- A key that was marked is not new a second time, whatever the clock says then; every other key is as new as before.
once-again :
    (key other : Bytes) (now later : ℤ) (s : State)
    → let s' = (once key now s).0 in
      ((once key later s').1 ≡ false)
      × ((other ≡ key) ⊎ ((once other later s').1 ≡ (once other later s).1))
unfolding once
once-again key other now later s = ground (
  arith,
  get-put key key now s.sent,
  get-put other key now s.sent,
  bytes_eq_iff key key,
  bytes_eq_iff key other,
)

seconds_apart :
    (n t : ℕ)
    → n < two63
    → t < two63
    → (k : ℕ) → k < two63
    → (ltb_ℤ (sub64 (pos n) (pos t)) (pos k)) ≡ ltb n (t + k)
unfolding sub64
seconds_apart n t h h' k h'' = ground arith

due_marks :
    (key : Bytes) (every now : ℕ) (s : State)
    → IsSound s
    → (due key (pos every) (pos now) s).1 ≡ true
    → let s' = (due key (pos every) (pos now) s).0 in
      (get key s'.attempt ≡ some (pos now)) × IsKeyed s'.attempt
unfolding due
due_marks key every now s h first = ground (
  arith,
  get-put key key (pos now) s.attempt,
  bytes_eq_iff key key,
  put-IsKeyed key (pos now) s.attempt h.attempt_keyed,
)

due_after :
    (key : Bytes) (every now later : ℕ) (s : State)
    → every ≤ 604800
    → now ≤ later
    → later < two63
    → get key s.attempt ≡ some (pos now)
    → (due key (pos every) (pos later) s).1 ≡ not (ltb later (now + every))
unfolding due
due_after key every now later s short order fits marked =
    ground (arith, marked, seconds_apart later now fits (omega arith) every (omega arith))

pub a_week_ago : (n : ℕ) → 604800 ≤ n → n < two63 → sub64 (pos n) week ≡ pos (n - 604800)
unfolding sub64
a_week_ago n old fits = ground arith

due-pruned :
    (key : Bytes) (every now later : ℕ) (s : State)
    → every ≤ 604800
    → 604800 ≤ now
    → now ≤ later
    → later < two63
    → IsKeyed s.attempt
    → get key s.attempt ≡ some (pos now)
    → (due key (pos every) (pos later) (pruned (pos later) s)).1 ≡ not (ltb later (now + every))
unfolding due pruned
due-pruned key every now later s short old order fits keyed marked = ground (
  arith,
  get-keep (λ (t : ℤ). not (ltb_ℤ t (sub64 (pos later) week))) key s.attempt keyed,
  marked,
  seconds_apart later now fits (omega arith) every (omega arith),
  a_week_ago later (omega arith) fits,
)

-- After a yes the key answers yes again exactly when the interval has passed, its last second
-- included, also when the state was pruned in between. (Times are seconds within int64, the first no
-- less than a week, the clock does not go back, the interval is at most a week, and no key stands
-- twice.)
pub due-again :
    (key : Bytes) (every now later : ℕ) (s : State)
    → IsSound s
    → every ≤ 604800
    → 604800 ≤ now
    → now ≤ later
    → later < two63
    → (due key (pos every) (pos now) s).1 ≡ true
    → let s' = (due key (pos every) (pos now) s).0 in
      ((due key (pos every) (pos later) s').1 ≡ not (ltb later (now + every)))
      × ((due key (pos every) (pos later) (pruned (pos later) s')).1
          ≡ not (ltb later (now + every)))
due-again key every now later s h short old order fits first =
    let (marked, keyed) = due_marks key every now s h first in
    let s' = (due key (pos every) (pos now) s).0 in
    (
      due_after key every now later s' short order (omega arith) marked,
      due-pruned key every now later s' short old order (omega arith) keyed marked,
    )
