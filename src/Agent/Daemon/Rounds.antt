-- ===== src/Agent/Daemon/Rounds.antt =====
-- What the log of the daemon shows of one feed, and which feed stands at which place.
use gnoracle.Base.{
  ℕ, zero, suc, ℤ, pos, List, [], ◌∷◌, ◌++◌, map, none, some, ◌≡◌, ◌≢◌, ◌⊎◌, inl, inr, arith, refl,
  ap,
}
use mathlib.Core.List.{append_assoc}
use gnoracle.Agent.Runner.Defs.{
  Settings, Runner, Replies, Reply, Effect, accepted, got, view_error, lost,
}
use gnoracle.Agent.Runner.Marks.{accepted-append}
use gnoracle.Gnochain.Views.Feeds.{FeedInfo}
use gnoracle.Agent.Daemon.{Log, get_elem?, set_runner, accepted_for}

pub accepted_for-append :
    (id : ℕ) (xs ys : Log) → accepted_for id (xs ++ ys) ≡ accepted_for id xs ++ accepted_for id ys
unfolding accepted_for
accepted_for-append id [] ys = refl
accepted_for-append id ((j, e) ∷ xs) ys = ground (
  arith,
  accepted_for-append id xs ys,
  append_assoc (accepted (e ∷ [])) (accepted_for id xs) (accepted_for id ys),
)

abbrev pub tagged : ℕ → List Effect → Log
tagged id log = map (λ e. (id, e)) log

pub accepted_for-own : (id : ℕ) (log : List Effect) → accepted_for id (tagged id log) ≡ accepted log
unfolding accepted_for accepted
accepted_for-own id [] = refl
accepted_for-own id (e ∷ log) =
    ground (arith, accepted_for-own id log, accepted-append (e ∷ []) log)

pub accepted_for-other :
    (id j : ℕ) (log : List Effect) → j ≢ id → accepted_for id (tagged j log) ≡ []
unfolding accepted_for accepted
accepted_for-other id j [] differ = refl
accepted_for-other id j (e ∷ log) differ = ground (arith, accepted_for-other id j log differ)

abbrev pub ids : List (Settings × Runner) → List ℕ
ids runners = map (λ x. x.0.feed_id) runners

pub ids-set_runner :
    (n : ℕ) (r : Runner) (runners : List (Settings × Runner))
    → ids (set_runner n r runners) ≡ ids runners
ids-set_runner n r [] = refl
ids-set_runner zero r ((s, _) ∷ xs) = refl
ids-set_runner (suc n) r (x ∷ xs) = ap (◌∷◌ x.0.feed_id) (ids-set_runner n r xs)

pub get_elem?-ids :
    (n : ℕ) (runners : List (Settings × Runner)) (s : Settings) (r : Runner)
    → get_elem? runners n ≡ some (s, r)
    → get_elem? (ids runners) n ≡ some s.feed_id
get_elem?-ids n [] s r e = cc
get_elem?-ids zero (x ∷ xs) s r e =
    ap (λ o. elim o [ none ↦ some x.0.feed_id | some y ↦ some y.0.feed_id ]) e
get_elem?-ids (suc n) (x ∷ xs) s r e = get_elem?-ids n xs s r e

-- A reading of the feed that fails, or finds the schedule with this start.
unfoldable pub Reads : ℤ → Replies → Type 0
Reads start replies =
    (replies.feed ≡ view_error)
    ⊎ (replies.feed ≡ lost)
    ⊎ ((f : FeedInfo) × (replies.feed ≡ got f) × (f.start_at ≡ start))

-- Every pass accounts for itself under the schedule it reads.
pub reading_start : (replies : Replies) → (start : ℤ) × Reads start replies
unfolding Reads
reading_start replies = elim (replies_cases replies.feed) [
  | inl e ↦ (pos 0, inl e)
  | inr (inl e) ↦ (pos 0, inr (inl e))
  | inr (inr (f, e)) ↦ (f.start_at, inr (inr (f, e, refl)))
]
  where
    replies_cases :
        (r : Reply FeedInfo) → (r ≡ view_error) ⊎ (r ≡ lost) ⊎ ((f : FeedInfo) × (r ≡ got f))
    replies_cases view_error = inl refl
    replies_cases lost = inr (inl refl)
    replies_cases (got f) = inr (inr (f, refl))
