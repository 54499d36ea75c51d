-- ===== src/Bot/Samples.antt =====
-- Concrete inputs of the bot for its tests.
use gnoracle.Base.{ℤ, pos, Bool, true, false, none, some, Option, [], ◌∷◌}
use gnoracle.Base.Result.{err}
use gnoracle.Base.Text.{Bytes, codes}
use gnoracle.Gnochain.Events.{Event}
use gnoracle.Gnochain.Views.Feeds.{Head, FeedSummary}
use gnoracle.Gnochain.Views.Votes.{BallotInfo}
use gnoracle.Bot.Chain.{Chain}
use gnoracle.Bot.Config.{Config, Params}
use gnoracle.Bot.State.{State}
use gnoracle.Bot.Crank.Finalize.{Bot}

abbrev pub no_unquote : Bytes → Option Bytes
no_unquote _ = none

abbrev pub core_head : Head
core_head = record { now = pos 1000; height = pos 9; live = "core" }

abbrev pub price_feed : FeedSummary
price_feed = record {
  id = 7;
  name = "price";
  kind = "recurring";
  value_type = "numeric";
  status = "active";
  start_at = pos 100;
  interval = pos 60;
  submit_window = pos 30;
  decimals = pos 2;
  active_count = pos 3;
  max_providers = pos 5;
  have_last = false;
  last_finalized = 0;
  open_disputes = pos 0;
}

abbrev pub frozen : Event
frozen = record {
  height = pos 6;
  tx_index = 0;
  index = 0;
  kind = codes "Frozen";
  pkg_path = codes "gno.land/r/core";
  attrs = [];
  order = [];
}

-- A chain at block 6 with one feed whose rounds wait, and one event in block 6.
abbrev pub small_chain : Chain
small_chain = record {
  clock = pos 800000;
  can_sign = true;
  latest_height = some (pos 6);
  context_ended = λ _. false;
  block_events = λ h. some (frozen ∷ []);
  all_feeds = some (price_feed ∷ []);
  core_now = some core_head;
  feed = λ _. none;
  round = λ _ _. none;
  all_disputes = none;
  dispute = λ _. none;
  ballot_of_dispute = λ _. none;
  kourt_record = λ _. none;
  dao_now = none;
  member = λ _. none;
  ballot = λ _. none;
  ballots = none;
  commit_of = λ _ _. none;
  reveal_of = λ _ _. none;
  proposal = λ _. none;
  call = λ _. err (codes "out of gas");
}

abbrev pub fresh : State
fresh = record {
  height = pos 5;
  sent = [];
  attempt = [];
  last_remind = pos 0;
  last_crank = pos 0;
  last_kourt = pos 0;
  last_settle = pos 0;
}

abbrev pub fresh_bot : Bot
fresh_bot = record { state = fresh; batches = [] }

abbrev pub small_config : Config
small_config = record {
  remote = codes "http://localhost:26657";
  chain_id = codes "dev";
  core = codes "gno.land/r/core";
  dao = codes "gno.land/r/dao";
  kourt = [];
  gnoweb = [];
  key_home = [];
  key = codes "bot";
  password_file = [];
  state = [];
  poll = [];
  start_height = pos 0;
  max_blocks = pos 0;
  gas = record { mode = []; wanted = pos 0; price = []; margin_bps = pos 0; max_deposit = [] };
  telegram = record { token = []; chat = pos 0; echo = true };
  members = [];
  remind = record { hours = []; every = [] };
  crank = record {
    finalize = true;
    resolve = false;
    kourt = false;
    settle = false;
    every = [];
    kourt_every = [];
    settle_every = [];
    finalize_grace = [];
    catch_up_empty = none;
    catch_up_batch = pos 0;
  };
  events = [];
  proxy_paths = [];
}

abbrev pub small_params : Params
small_params = record {
  poll = pos 10000000000;
  remind_every = pos 600000000000;
  crank_every = pos 60000000000;
  kourt_every = pos 3600000000000;
  settle_every = pos 86400000000000;
  finalize_grace = pos 120000000000;
  catch_up_empty = true;
  catch_up_batch = pos 8;
  events = codes "Frozen" ∷ [];
}

abbrev pub plain_time : ℤ → Bytes
plain_time _ = codes "soon"

abbrev pub plain_event : Event → Bytes
plain_event ev = ev.kind

abbrev pub small_ballot : BallotInfo
small_ballot = record {
  head = record {
    now = pos 1000;
    height = pos 9;
    address = "g1dao";
    epoch = pos 1;
    epoch_blocks = pos 100;
    live = "dao";
    total_staked = pos 5;
    member_count = pos 2;
    ballot_count = 1;
    proposal_count = 0;
  };
  seq = 3;
  dispute = 4;
  round = pos 1;
  major_requested = false;
  summary = "";
  sealed_epoch = pos 1;
  obligated = pos 2;
  phase = "commit";
  commit_ends = pos 5000;
  reveal_ends = pos 9000;
  uphold = pos 0;
  overturn = pos 0;
  overturn_minor = pos 0;
  void = pos 0;
  abstain = pos 0;
  revealed = pos 0;
  outcome = "";
  tier = "";
  resolved_at = pos 0;
  prev_seq = 0;
  final = false;
  exists = none;
}

abbrev pub one_hour : Bytes → Option ℤ
one_hour _ = some (pos 3600000000000)

abbrev pub any_address : Bytes → Bool
any_address _ = true
