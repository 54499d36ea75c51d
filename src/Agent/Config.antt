-- ===== src/Agent/Config.antt =====
-- agent/config.go: the tables of agent.toml, their defaults and what they are held to. Durations are
-- int64 nanoseconds; the parsers of durations, fractions and the environment are parameters.
pub mod EnvRefs
pub mod Laws
pub mod Whole
mod Tests
use gnoracle.Base.{
  ℕ, suc, ℤ, pos, negsuc, ltb_ℤ, leb_ℤ, eqb_ℤ, Bool, true, false, ◌&&◌, ◌||◌, not, List, [], ◌∷◌,
  Option, none, some, if◌then◌else◌, length, ◌*◌, ◌==◌, ◌+◌,
}
use gnoracle.Base.Result.{Result, ok, err, ◌>>=◌, ◌>>◌, ensure}
use gnoracle.Base.Text.{Bytes, is_empty, codes, bytes_eq}
use gnoracle.Agent.Aggregate.{Rat}
use EnvRefs.{env_refs}

pub record SourceConfig : Type 0 where
  pub adapter : Bytes
  pub timeout : Bytes
  pub urls : List Bytes
  pub path : Bytes
  pub headers : List (Bytes × Bytes)
  pub min_sources : ℤ
  pub scale : Bytes
  pub command : List Bytes
  pub file : Bytes
  pub pkg_path : Bytes
  pub pool : Bytes
  pub seconds_ago : ℕ
  pub decimals0 : ℤ
  pub decimals1 : ℤ
  pub invert : Bool
  pub expr : Bytes
  pub result_decimals : ℤ
  pub mapping : List (Bytes × Bytes)

pub record FeedConfig : Type 0 where
  pub id : ℕ
  pub jitter : Bytes
  pub sanity_bps : ℤ
  pub lower_bound : Bytes
  pub upper_bound : Bytes
  pub override : Bool
  pub skip_finalize : Bool
  pub catch_up_empty : Option Bool
  pub catch_up_batch : ℤ
  pub finalize_delay : Bytes
  pub claim_every : Bytes
  pub claim_min : ℤ
  pub source : SourceConfig

-- The settings with their texts parsed.
pub record FeedParams : Type 0 where
  pub jitter : ℤ
  pub finalize_delay : ℤ
  pub claim_every : ℤ
  pub claim_min : ℤ
  pub sanity_bps : ℤ
  pub lower_bound : Option Rat
  pub upper_bound : Option Rat
  pub catch_up_empty : Bool
  pub catch_up_batch : ℤ
  pub timeout : ℤ

pub data ConfigError : Type 0 where
  bad_duration bad_fraction : Bytes → ConfigError
  negative_duration : ConfigError
  missing : Bytes → ConfigError
  too_many_sources : ConfigError
  unset_variable : Bytes → Bytes → ConfigError
  unknown_adapter : Bytes → ConfigError
  no_feeds : ConfigError
  no_id listed_twice : ℕ → ConfigError
  in_feed : ℕ → ℕ → ConfigError → ConfigError

abbrev pub second : ℕ
second = 1000000000

module _ (parse_duration : Bytes → Option ℤ) where
  unfoldable pub duration_or : Bytes → ℤ → Bytes → Result ConfigError ℤ
  duration_or name default [] = ok default
  duration_or name default (c ∷ s) = elim (parse_duration (c ∷ s)) [
    | some d ↦ ok d
    | none ↦ err (bad_duration name)
  ]

module _ (rat_of_text : Bytes → Option Rat) where
  unfoldable pub parse_rat : Bytes → Bytes → Result ConfigError Rat
  parse_rat name s = elim (rat_of_text s) [ some r ↦ ok r | none ↦ err (bad_fraction name) ]

  unfoldable pub fraction_or_none : Bytes → Bytes → Result ConfigError (Option Rat)
  unfolding parse_rat
  fraction_or_none name [] = ok none
  fraction_or_none name (c ∷ s) = do r ← parse_rat name (c ∷ s); ok (some r)

module _ (is_set : Bytes → Bool) where
  refs_set : Bytes → List Bytes → Result ConfigError (Unit {0})
  refs_set key [] = ok tt
  refs_set key (name ∷ names) = do
    ensure (is_set name) (unset_variable key name)
    refs_set key names

  headers_set : List (Bytes × Bytes) → Result ConfigError (Unit {0})
  unfolding refs_set env_refs
  headers_set [] = ok tt
  headers_set ((k, v) ∷ headers) = do refs_set k (env_refs v); headers_set headers

module _ (rat_of_text : Bytes → Option Rat) (is_set : Bytes → Bool) where
  http_validate : SourceConfig → Result ConfigError (Unit {0})
  unfolding fraction_or_none headers_set
  http_validate s = do
    ensure (not (length s.urls == 0)) (missing (codes "source.urls"))
    ensure (not (ltb_ℤ (pos (length s.urls)) s.min_sources)) too_many_sources
    scale ← fraction_or_none rat_of_text (codes "source.scale") s.scale
    headers_set is_set s.headers

  unfoldable pub source_validate : SourceConfig → Result ConfigError (Unit {0})
  unfolding http_validate bytes_eq
  source_validate s =
      if bytes_eq s.adapter (codes "http")
      then http_validate s
      else if bytes_eq s.adapter (codes "exec")
      then ensure (not (length s.command == 0)) (missing (codes "source.command"))
      else if bytes_eq s.adapter (codes "file")
      then ensure (not (is_empty s.file)) (missing (codes "source.file"))
      else if bytes_eq s.adapter (codes "gnoswap")
      then ensure (not (is_empty s.pool)) (missing (codes "source.pool"))
      else if bytes_eq s.adapter (codes "qeval")
      then ensure (not (is_empty s.pkg_path || is_empty s.expr))
          (missing (codes "source.pkg_path and source.expr"))
      else if is_empty s.adapter
      then err (missing (codes "source.adapter"))
      else err (unknown_adapter s.adapter)

module _ (parse_duration : Bytes → Option ℤ) (rat_of_text : Bytes → Option Rat)
    (is_set : Bytes → Bool) where
  unfoldable pub runtime : FeedConfig → Result ConfigError FeedParams
  runtime f = do
    jitter ← duration_or parse_duration (codes "jitter") (pos (2 * second)) f.jitter
    finalize_delay ←
        duration_or parse_duration (codes "finalize_delay") (pos (5 * second)) f.finalize_delay
    claim_every ←
        duration_or parse_duration (codes "claim_every") (pos (604800 * second)) f.claim_every
    lower_bound ← fraction_or_none rat_of_text (codes "min") f.lower_bound
    upper_bound ← fraction_or_none rat_of_text (codes "max") f.upper_bound
    timeout ←
        duration_or parse_duration (codes "source.timeout") (pos (10 * second)) f.source.timeout
    ensure
        (not (
          ltb_ℤ jitter (pos 0)
          || (ltb_ℤ finalize_delay (pos 0)
              || (ltb_ℤ claim_every (pos 0) || leb_ℤ timeout (pos 0)))))
        negative_duration
    source_validate rat_of_text is_set f.source
    ok (record {
      jitter = jitter;
      finalize_delay = finalize_delay;
      claim_every = claim_every;
      claim_min = if ltb_ℤ (pos 0) f.claim_min then f.claim_min else pos 1000000;
      sanity_bps =
          if eqb_ℤ f.sanity_bps (pos 0)
          then pos 2000
          else if ltb_ℤ f.sanity_bps (pos 0)
          then pos 0
          else f.sanity_bps;
      lower_bound = lower_bound;
      upper_bound = upper_bound;
      catch_up_empty = elim f.catch_up_empty [ some b ↦ b | none ↦ true ];
      catch_up_batch = if ltb_ℤ (pos 0) f.catch_up_batch then f.catch_up_batch else pos 8;
      timeout = timeout;
    })
