-- ===== src/Agent/Config/Tests.antt =====
-- The theorem on the whole configuration at a concrete input.
use gnoracle.Base.{ℤ, pos, Bool, false, none, some, Option, [], ◌∷◌, ◌≡◌, refl, All}
use gnoracle.Base.Result.{ok}
use gnoracle.Base.Text.{Bytes, codes}
use gnoracle.Gnochain.Broadcast.{defaults}
use gnoracle.Agent.Aggregate.{Rat}
use gnoracle.Agent.Config.{
  SourceConfig, FeedConfig, runtime, source_validate, duration_or, fraction_or_none,
}
use gnoracle.Agent.Config.Whole.{
  Config, validate, feeds_valid, in_place, is_positive_duration, is_listed, IsRunnable, IsDistinct,
  validate-IsRunnable,
}

abbrev file_source : SourceConfig
file_source = record {
  adapter = codes "file";
  timeout = [];
  urls = [];
  path = [];
  headers = [];
  min_sources = pos 0;
  scale = [];
  command = [];
  file = codes "value.txt";
  pkg_path = [];
  pool = [];
  seconds_ago = 0;
  decimals0 = pos 0;
  decimals1 = pos 0;
  invert = false;
  expr = [];
  result_decimals = pos 0;
  mapping = [];
}

abbrev file_feed : FeedConfig
file_feed = record {
  id = 7;
  jitter = [];
  sanity_bps = pos 0;
  lower_bound = [];
  upper_bound = [];
  override = false;
  skip_finalize = false;
  catch_up_empty = none;
  catch_up_batch = pos 0;
  finalize_delay = [];
  claim_every = [];
  claim_min = pos 0;
  source = file_source;
}

abbrev five_seconds : Bytes → Option ℤ
five_seconds _ = some (pos 5000000000)

abbrev no_fraction : Bytes → Option Rat
no_fraction _ = none

abbrev never_set : Bytes → Bool
never_set _ = false

abbrev config : Config
config = record {
  remote = codes "http://localhost:26657";
  chain_id = codes "dev";
  core = codes "gno.land/r/core";
  key_home = [];
  key = codes "agent";
  password_file = [];
  state = codes "state.json";
  journal = [];
  poll = codes "5s";
  dev_tick = false;
  gas = record { mode = []; wanted = pos 0; price = []; margin_bps = pos 0; max_deposit = [] };
  notify = record { telegram_token = []; telegram_chat = pos 0 };
  feeds = file_feed ∷ [];
}

abbrev filled : Config
filled = record config { gas = defaults config.gas }

config_ok : validate five_seconds no_fraction never_set false config ≡ ok filled
unfolding validate feeds_valid in_place is_positive_duration is_listed runtime duration_or
    fraction_or_none source_validate
config_ok = refl

validate-IsRunnable_example :
    (filled.feeds ≡ config.feeds)
    × All (IsRunnable five_seconds no_fraction never_set false) filled.feeds
    × IsDistinct five_seconds no_fraction never_set false [] filled.feeds
validate-IsRunnable_example =
    validate-IsRunnable five_seconds no_fraction never_set false config config_ok
