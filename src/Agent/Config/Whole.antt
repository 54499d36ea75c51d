-- ===== src/Agent/Config/Whole.antt =====
-- agent/config.go, Validate: the whole of agent.toml, its defaults and its feeds.
use gnoracle.Base.{
  ℕ, ◌+◌, ◌==◌, ℤ, pos, ltb_ℤ, Bool, true, false, ◌&&◌, ◌||◌, not, List, [], ◌∷◌, Option, none,
  some, ◌≡◌, ◌≢◌, inl, inr, arith, All, ==_iff,
}
use gnoracle.Base.Result.{Result, ok, err, ◌>>=◌, ◌>>◌, ensure, Result-cases}
use gnoracle.Base.Text.{Bytes, codes, is_empty}
use gnoracle.Gnochain.Broadcast.{GasConfig, defaults}
use gnoracle.Agent.Aggregate.{Rat}
use gnoracle.Agent.Config.{
  FeedConfig, FeedParams, ConfigError, bad_duration, missing, no_feeds, no_id, listed_twice,
  in_feed, runtime,
}
use gnoracle.Agent.Config.Laws.{IsUsable, runtime-IsUsable}

pub record NotifyConfig : Type 0 where
  pub telegram_token : Bytes
  pub telegram_chat : ℤ

pub record Config : Type 0 where
  pub remote : Bytes
  pub chain_id : Bytes
  pub core : Bytes
  pub key_home : Bytes
  pub key : Bytes
  pub password_file : Bytes
  pub state : Bytes
  pub journal : Bytes
  pub poll : Bytes
  pub dev_tick : Bool
  pub gas : GasConfig
  pub notify : NotifyConfig
  pub feeds : List FeedConfig

unfoldable pub is_listed : ℕ → List ℕ → Bool
is_listed id [] = false
is_listed id (n ∷ seen) = n == id || is_listed id seen

module _ (parse_duration : Bytes → Option ℤ) (rat_of_text : Bytes → Option Rat)
    (is_set : Bytes → Bool) (has_mnemonic : Bool) where
  unfoldable pub in_place : ℕ → ℕ → Result ConfigError FeedParams → Result ConfigError FeedParams
  in_place i id (ok p) = ok p
  in_place i id (err e) = err (in_feed i id e)

  -- The feeds from place `i` on, behind those that were seen.
  unfoldable pub feeds_valid : ℕ → List ℕ → List FeedConfig → Result ConfigError (Unit {0})
  feeds_valid i seen [] = ok tt
  feeds_valid i seen (f ∷ fs) = do
    ensure (not (f.id == 0)) (no_id i)
    ensure (not (is_listed f.id seen)) (listed_twice i)
    p ← in_place i f.id (runtime parse_duration rat_of_text is_set f)
    feeds_valid (i + 1) (f.id ∷ seen) fs

  unfoldable pub is_positive_duration : Bytes → Bool
  is_positive_duration s = elim (parse_duration s) [ some d ↦ ltb_ℤ (pos 0) d | none ↦ false ]

  abbrev pub poll_of : Bytes → Bytes
  poll_of [] = codes "5s"
  poll_of (c ∷ s) = c ∷ s

  abbrev pub state_of : Bytes → Bytes
  state_of [] = codes "agent-state.json"
  state_of (c ∷ s) = c ∷ s

  unfoldable pub validate : Config → Result ConfigError Config
  validate c = do
    ensure (not (is_empty c.remote)) (missing (codes "remote"))
    ensure (not (is_empty c.chain_id)) (missing (codes "chain_id"))
    ensure (not (is_empty c.core)) (missing (codes "core"))
    ensure (not (is_empty c.key && not has_mnemonic)) (missing (codes "key"))
    ensure (is_positive_duration (poll_of c.poll)) (bad_duration (codes "poll"))
    ensure (elim c.feeds [ [] ↦ false | f ∷ fs ↦ true ]) no_feeds
    feeds_valid 0 [] c.feeds
    ok (record c { poll = poll_of c.poll; state = state_of c.state; gas = defaults c.gas })

  -- A feed with an id and usable settings.
  pub IsRunnable : FeedConfig → Type 0
  IsRunnable f =
      (f.id ≢ 0)
      × ((p : FeedParams) × (runtime parse_duration rat_of_text is_set f ≡ ok p) × IsUsable p)

  -- No id stands twice, nor among those that were seen.
  pub IsDistinct : List ℕ → List FeedConfig → Type 0
  IsDistinct seen [] = Unit
  IsDistinct seen (f ∷ fs) = (is_listed f.id seen ≡ false) × IsDistinct (f.id ∷ seen) fs

  feeds_valid_cons :
      (i : ℕ) (seen : List ℕ) (f : FeedConfig) (fs : List FeedConfig)
      → feeds_valid i seen (f ∷ fs) ≡ ok tt
      → (f.id ≢ 0)
        × (is_listed f.id seen ≡ false)
        × ((p : FeedParams) × (runtime parse_duration rat_of_text is_set f ≡ ok p))
        × (feeds_valid (i + 1) (f.id ∷ seen) fs ≡ ok tt)
  unfolding feeds_valid in_place
  feeds_valid_cons i seen f fs e =
      elim (Result-cases (runtime parse_duration rat_of_text is_set f)) [
        | inr (why, bad) ↦ absurd (ground (arith, bad, e))
        | inl (p, good) ↦ (
          ground (arith, e, ==_iff f.id 0),
          ground (arith, e),
          (p, good),
          ground (arith, good, e),
        )
      ]

  feeds_valid_sound :
      (i : ℕ) (seen : List ℕ) (fs : List FeedConfig)
      → feeds_valid i seen fs ≡ ok tt
      → All IsRunnable fs × IsDistinct seen fs
  unfolding IsRunnable IsDistinct
  feeds_valid_sound i seen [] e = (tt, tt)
  feeds_valid_sound i seen (f ∷ fs) e =
      let (id, fresh, (p, good), rest) = feeds_valid_cons i seen f fs e in
      let (all, distinct) = feeds_valid_sound (i + 1) (f.id ∷ seen) fs rest in
      let (usable, _) = runtime-IsUsable parse_duration rat_of_text is_set f good in
      (((id, (p, good, usable)), all), (fresh, distinct))

  -- A configuration that is accepted keeps its feeds: each has an id that is not zero and that no other
  -- feed has, and usable settings: no negative wait, a positive timeout, a sanity
  -- band that is not negative, a positive claim minimum and a positive batch.
  pub validate-IsRunnable :
      (c : Config) {v : Config}
      → validate c ≡ ok v
      → (v.feeds ≡ c.feeds) × All IsRunnable v.feeds × IsDistinct [] v.feeds
  unfolding validate
  validate-IsRunnable c {v} e =
      let kept : v.feeds ≡ c.feeds = ground (arith, e) in
      let valid : feeds_valid 0 [] c.feeds ≡ ok tt = ground (arith, e) in
      let (all, distinct) = feeds_valid_sound 0 [] c.feeds valid in
      (kept, rw kept all, rw kept distinct)
