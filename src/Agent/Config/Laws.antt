-- ===== src/Agent/Config/Laws.antt =====
-- What a feed's settings are held to once they are parsed.
use gnoracle.Base.{ℤ, pos, ◌≤ℤ◌, ◌<ℤ◌, Bool, Option, ◌≡◌, arith}
use gnoracle.Base.Result.{ok}
use gnoracle.Base.Text.{Bytes}
use gnoracle.Agent.Aggregate.{Rat}
use gnoracle.Agent.Config.{FeedConfig, FeedParams, runtime, source_validate}

-- The settings that the daemon's loop relies on.
pub record IsUsable (p : FeedParams) : Type 0 where
  pub jitter_nonneg : pos 0 ≤ℤ p.jitter
  pub finalize_delay_nonneg : pos 0 ≤ℤ p.finalize_delay
  pub claim_every_nonneg : pos 0 ≤ℤ p.claim_every
  pub timeout_positive : pos 0 <ℤ p.timeout
  pub sanity_bps_nonneg : pos 0 ≤ℤ p.sanity_bps
  pub claim_min_positive : pos 0 <ℤ p.claim_min
  pub batch_positive : pos 0 <ℤ p.catch_up_batch

module _ (parse_duration : Bytes → Option ℤ) (rat_of_text : Bytes → Option Rat)
    (is_set : Bytes → Bool) where
  -- Whatever the texts parse to, settings that are accepted have no negative wait, a positive
  -- timeout, a sanity band that is not negative, a positive claim minimum and a positive batch,
  -- and their source passed its own checks.
  pub runtime-IsUsable :
      (f : FeedConfig) {p : FeedParams}
      → runtime parse_duration rat_of_text is_set f ≡ ok p
      → IsUsable p × (source_validate rat_of_text is_set f.source ≡ ok tt)
  unfolding runtime
  runtime-IsUsable f {p} e = ground arith
