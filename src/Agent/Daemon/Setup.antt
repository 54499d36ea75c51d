-- ===== src/Agent/Daemon/Setup.antt =====
-- agent/agent.go, New: the runners of a configuration.
use gnoracle.Base.{ℤ, pos, List, [], ◌∷◌, Option, none, some, if◌then◌else◌, Bool}
use gnoracle.Base.Result.{Result, ok, err, ◌>>=◌, ◌>>◌}
use gnoracle.Base.Text.{Bytes, codes, bytes_eq}
use gnoracle.Agent.Aggregate.{Rat}
use gnoracle.Agent.Config.{FeedConfig, FeedParams, runtime, source_validate}
use gnoracle.Agent.Config.Whole.{Config}
use gnoracle.Agent.Adapters.{min_sources}
use gnoracle.Agent.Runner.Defs.{Settings}
use gnoracle.Agent.Daemon.{NewError, bad_params, bad_adapter}

module _ (parse_duration : Bytes → Option ℤ) (rat_of_text : Bytes → Option Rat)
    (is_set : Bytes → Bool) where
  duration_or_zero : Option ℤ → ℤ
  duration_or_zero none = pos 0
  duration_or_zero (some d) = d

  settings_of : Config → FeedConfig → FeedParams → Settings
  settings_of c fc params = record {
    feed_id = fc.id;
    params = params;
    skip_finalize = fc.skip_finalize;
    override = fc.override;
    mapping = fc.source.mapping;
    min_sources =
        if bytes_eq fc.source.adapter (codes "http") then min_sources fc.source else pos 1;
    from_file = bytes_eq fc.source.adapter (codes "file");
    dev_tick = c.dev_tick;
    poll = duration_or_zero (parse_duration c.poll);
  }

  adapter_of : FeedConfig → Result NewError (Unit {0})
  adapter_of fc = elim (source_validate rat_of_text is_set fc.source) [
    | ok _ ↦ ok tt
    | err e ↦ err (bad_adapter fc.id e)
  ]

  params_of : FeedConfig → Result NewError FeedParams
  params_of fc = elim (runtime parse_duration rat_of_text is_set fc) [
    | ok params ↦ ok params
    | err e ↦ err (bad_params e)
  ]

  -- The runners' settings, in the order of the configuration.
  pub runners_of : Config → List FeedConfig → Result NewError (List Settings)
  runners_of c [] = ok []
  runners_of c (fc ∷ fcs) = do
    params ← params_of fc
    adapter_of fc
    rest ← runners_of c fcs
    ok (settings_of c fc params ∷ rest)
