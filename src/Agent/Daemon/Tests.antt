-- ===== src/Agent/Daemon/Tests.antt =====
-- The daemon over an accepted submission, a restart and another pass.
use gnoracle.Base.{ℕ, pos, true, false, none, some, List, [], ◌∷◌, inr, refl, Option}
use gnoracle.Base.Files.{absent, Saving}
use gnoracle.Base.Result.{ok}
use gnoracle.Base.Text.{codes}
use gnoracle.Gnochain.Broadcast.{TxResult}
use gnoracle.Gnochain.Views.Feeds.{RoundInfo, ProviderInfo}
use gnoracle.Agent.Store.{State, no_memory}
use gnoracle.Agent.Runner.Defs.{Replies, got, lost}
use gnoracle.Agent.Runner.Marks.{Reaches}
use gnoracle.Agent.Runner.Samples.{settings, replies, price_info, no_unquote}
use gnoracle.Agent.Daemon.{Agent, new_runner, Turn, passes, restarts, run, stopped, accepted_for}
use gnoracle.Agent.Daemon.Pass.{bound, IsAllowed}
use gnoracle.Agent.Daemon.Rounds.{Reads}
use gnoracle.Agent.Daemon.Laws.{no_round_twice}

abbrev unseen_round : RoundInfo
unseen_round = record {
  head = price_info.head;
  feed = 7;
  id = 15;
  status = "open";
  exists = true;
  opens_at = pos 1000;
  closes_at = pos 1030;
  is_open_now = true;
  is_closed_now = false;
  opened_at = pos 1000;
  finalised_at = pos 0;
  tier = "";
  pool = pos 0;
  dispute_id = 0;
  overturned = false;
  submitted_mask = pos 0;
  submitted = [];
  value = none;
  values = [];
  started = some true;
}

abbrev active_provider : ProviderInfo
active_provider = record {
  head = price_info.head;
  feed = 7;
  addr = "g1agent";
  stake = pos 1000;
  status = "active";
  slot = pos 0;
  memo = "";
  joined_at = pos 50;
  obliged_from = 0;
  consecutive_misses = pos 0;
  strikes = pos 0;
  jailings = pos 0;
  jailed_at = pos 0;
  last_submitted = 0;
  has_submitted = false;
  unbond_amount = pos 0;
  unbond_ready_at = pos 0;
  rewards = pos 0;
  total_earned = pos 0;
  total_slashed = pos 0;
}

abbrev committed_tx : TxResult
committed_tx = record {
  hash = codes "AB";
  height = pos 10;
  gas_wanted = pos 20000000;
  gas_used = pos 18500000;
  fee_paid = codes "20000ugnot";
  raw = [];
  results = [];
}

abbrev accepting : Replies
accepting = record replies {
  obliged_provider = got active_provider;
  current_round = got unseen_round;
  submit = ok committed_tx;
}

abbrev state_saved : Saving
state_saved = record { in_place = true; dir_made = true; written = true; renamed = true }

-- The agent is started, submits, is started again and passes once more.
abbrev two_lives : List Turn
two_lives =
    restarts true
    ∷ passes 0 accepting state_saved
    ∷ restarts true
    ∷ passes 0 accepting state_saved
    ∷ []

abbrev itself : State → Option State
itself s = some s

accepting-IsAllowed :
    IsAllowed
      (λ s. s)
      itself
      (codes "state.json")
      (codes "gno")
      (record settings { skip_finalize = true } ∷ [])
      no_unquote
      "g1agent"
      7
      (pos 100)
      (passes 0 accepting state_saved)
unfolding IsAllowed Reads
accepting-IsAllowed = (refl, refl, refl, inr (inr (inr (price_info, refl, refl))))

no_round_twice_example :
    let end =
      run
        (λ s. s)
        itself
        (codes "state.json")
        (codes "gno")
        (record settings { skip_finalize = true } ∷ [])
        no_unquote
        "g1agent"
        two_lives
        (stopped absent) in
    let kept =
      bound
        (λ s. s)
        itself
        (codes "state.json")
        (codes "gno")
        (record settings { skip_finalize = true } ∷ [])
        no_unquote
        "g1agent"
        7
        (pos 100) in
    Reaches (kept absent) (accepted_for 7 end.1) (kept end.0.file)
unfolding IsAllowed
no_round_twice_example =
    no_round_twice (λ s. s) itself (codes "state.json") (codes "gno")
      (record settings { skip_finalize = true } ∷ []) no_unquote "g1agent" 7 (pos 100)
      (λ s. (s, refl, refl, λ j. refl)) two_lives absent refl
      (tt, (accepting-IsAllowed, (tt, (accepting-IsAllowed, tt))))

-- The feed cannot be read.
abbrev lost_feed : ℕ → Replies × Saving
lost_feed n = (record replies { feed = lost }, state_saved)

abbrev lone_agent : Agent
lone_agent = record {
  store = no_memory;
  last_self_send = pos 0;
  runners = (settings, new_runner) ∷ [];
}
