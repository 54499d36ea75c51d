-- ===== src/Agent/Runner/Tests.antt =====
-- The theorems on a pass of the agent at concrete inputs.
use gnoracle.Base.{pos, true, false, none, [], ◌∷◌, ◌≡◌, ◌≢◌, ◌⊎◌, refl, arith}
use gnoracle.Base.Int64.{add64, div64, sub64}
use gnoracle.Base.Result.{ok}
use gnoracle.Gnochain.Schedule.{open_at, close_at}
use gnoracle.Agent.Scale.{round_half, pow10}
use gnoracle.Gnochain.Views.Feeds.{FeedInfo, RoundInfo, feed_schedule, has_submitted}
use gnoracle.Gnochain.Broadcast.{TxResult}
use gnoracle.Agent.Store.{blank}
use gnoracle.Agent.Runner.Defs.{Replies, submissions, accepted, got, unfinished}
use gnoracle.Agent.Runner.Crank.{crank}
use gnoracle.Agent.Runner.Crank.Laws.{Due, crank_bounded}
use gnoracle.Agent.Runner.Submit.{fetch, strays}
use gnoracle.Agent.Runner.Tick.{tick, serve, in_window}
use gnoracle.Agent.Runner.Tick.Live.{IsReady, serve-accepts}
use gnoracle.Agent.Runner.Tick.Laws.{Seated, SendsRightly, tick-SendsRightly}
use gnoracle.Agent.Runner.Samples.{price_info, settings, replies, idle_runner, no_state, no_unquote}

crank_bounded_example :
    let c =
      crank no_unquote settings replies price_info
        (feed_schedule price_info)
        15
        (pos 1000)
        (pos 0)
        idle_runner in
    (c.outcome ≢ unfinished)
    × ((c.log ≡ [])
        ⊎ Due no_unquote settings replies price_info
            (feed_schedule price_info)
            15
            (pos 1000)
            (pos 0)
            idle_runner)
crank_bounded_example =
    crank_bounded no_unquote settings replies price_info (feed_schedule price_info) 15 (pos 1000)
      (pos 0) idle_runner 8 (omega arith) refl

tick-SendsRightly_example :
    let sent = submissions (tick no_unquote settings "g1agent" replies idle_runner no_state).log in
    (sent ≡ [])
    ⊎ ((f : FeedInfo) × (replies.feed ≡ got f)
        × Seated no_unquote settings "g1agent" replies f
        × SendsRightly no_unquote settings "g1agent" replies f no_state sent)
tick-SendsRightly_example =
    tick-SendsRightly no_unquote settings "g1agent" replies idle_runner no_state

abbrev open_round : RoundInfo
open_round = record {
  head = record { now = pos 1000; height = pos 9; live = "core" };
  feed = 7;
  id = 15;
  status = "open";
  exists = false;
  opens_at = pos 1000;
  closes_at = pos 1030;
  is_open_now = true;
  is_closed_now = false;
  opened_at = pos 0;
  finalised_at = pos 0;
  tier = "";
  pool = pos 0;
  dispute_id = 0;
  overturned = false;
  submitted_mask = pos 0;
  submitted = [];
  value = none;
  values = [];
  started = none;
}

abbrev taken_as : TxResult
taken_as = record {
  hash = [];
  height = pos 10;
  gas_wanted = pos 0;
  gas_used = pos 0;
  fee_paid = [];
  raw = [];
  results = [];
}

-- The chain reads the round and takes a submission.
abbrev willing : Replies
willing = record {
  wall = pos 1000;
  feed = replies.feed;
  idle_provider = replies.idle_provider;
  obliged_provider = replies.obliged_provider;
  fresh_feed = replies.fresh_feed;
  next_round = replies.next_round;
  catch_up = replies.catch_up;
  current_round = got open_round;
  samples = replies.samples;
  submit = ok taken_as;
  claim_provider = replies.claim_provider;
  claim = replies.claim;
}

ready : IsReady no_unquote settings "g1agent" willing price_info 15 (pos 1000) (pos 0) blank
unfolding in_window has_submitted fetch strays add64 div64 sub64 open_at close_at round_half pow10
ready = record {
  rd = open_round;
  v = pos 150;
  res = taken_as;
  fresh = refl;
  opened = refl;
  read = refl;
  unset = refl;
  value = refl;
  near = refl;
  taken = refl;
}

serve-accepts_example :
    accepted
      (serve no_unquote settings "g1agent" willing price_info
        (feed_schedule price_info)
        15
        (pos 1000)
        (pos 0)
        blank
        idle_runner
        no_state).log
    ≡ 15 ∷ []
serve-accepts_example =
    serve-accepts no_unquote settings "g1agent" willing price_info 15 (pos 1000) (pos 0) blank
      idle_runner no_state ready
