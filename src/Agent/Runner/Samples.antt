-- ===== src/Agent/Runner/Samples.antt =====
-- A feed, its settings and replies, for the tests of the agent.
use gnoracle.Base.{pos, true, false, none, some, Option, [], ◌∷◌}
use gnoracle.Base.Text.{Bytes, codes}
use gnoracle.Base.Result.{err}
use gnoracle.Gnochain.Views.Feeds.{FeedSpec, FeedInfo}
use gnoracle.Agent.Aggregate.{Sample}
use gnoracle.Agent.Store.{State}
use gnoracle.Agent.Runner.Defs.{Settings, Runner, Replies, got, lost}

abbrev pub spec : FeedSpec
spec = record {
  name = "price";
  description = "";
  kind = "recurring";
  value_type = "numeric";
  decimals = pos 2;
  options = [];
  interval = pos 60;
  submit_window = pos 30;
  resolve_at = pos 0;
  bounty = pos 0;
  sources = "";
  min_providers = pos 1;
  max_providers = pos 5;
  provider_min_stake = pos 0;
  tolerance_bps = pos 100;
  quarantine_bps = pos 500;
  dispute_window = pos 600;
  subscriber_price = pos 0;
  subscription_price = pos 0;
  sponsored = false;
  value_at_stake = pos 0;
  tags = [];
  hash = "";
}

abbrev pub price_info : FeedInfo
price_info = record {
  head = record { now = pos 1000; height = pos 9; live = "core" };
  id = 7;
  proposer = "";
  from_realm = false;
  status = "active";
  created_at = pos 50;
  start_at = pos 100;
  pool = pos 0;
  drip = pos 0;
  paid_until = pos 0;
  active_count = pos 1;
  slots = "g1agent" ∷ [];
  have_last = false;
  last_finalized = 0;
  oldest_round = 0;
  empty_streak = pos 0;
  have_value = false;
  last_round = 0;
  last_round_at = pos 0;
  last_final_at = pos 0;
  last_tier = "";
  value = none;
  served_tier = "";
  current_round = some 15;
  current_open_at = pos 1000;
  current_close_at = pos 1030;
  reopened = false;
  deprecated_at = pos 0;
  open_disputes = pos 0;
  rounds_final = pos 0;
  spec = spec;
}

abbrev pub settings : Settings
settings = record {
  feed_id = 7;
  params = record {
    jitter = pos 0;
    finalize_delay = pos 5000000000;
    claim_every = pos 0;
    claim_min = pos 1000000;
    sanity_bps = pos 2000;
    lower_bound = none;
    upper_bound = none;
    catch_up_empty = true;
    catch_up_batch = pos 8;
    timeout = pos 10000000000;
  };
  skip_finalize = false;
  override = false;
  mapping = [];
  min_sources = pos 1;
  from_file = false;
  dev_tick = false;
  poll = pos 5000000000;
}

abbrev pub sample : Sample
sample = record {
  source = codes "a";
  raw = codes "1.5";
  num = some (record { num = pos 3; den = 2 });
  value = codes "1.5";
  label = [];
  failure = [];
}

abbrev pub replies : Replies
replies = record {
  wall = pos 1000;
  feed = got price_info;
  idle_provider = lost;
  obliged_provider = lost;
  fresh_feed = got price_info;
  next_round = lost;
  catch_up = λ _. err (codes "out of gas");
  current_round = lost;
  samples = sample ∷ [];
  submit = err (codes "down");
  claim_provider = lost;
  claim = err [];
}

abbrev pub idle_runner : Runner
idle_runner = record {
  warned = [];
  refused = [];
  batch = pos 0;
  backoff = pos 0;
  obliged = none;
  slot = pos 0;
  last_self_send = pos 0;
}

abbrev pub no_state : State
no_state = record { chain = []; feeds = [] }

abbrev pub no_unquote : Bytes → Option Bytes
no_unquote _ = none
