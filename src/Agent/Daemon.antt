-- ===== src/Agent/Daemon.antt =====
-- agent/agent.go: the daemon around its feeds. The runners share the memory, its file and the time of
-- the last self-send. A pass over one feed is one step here: a runner changes only its own feed's
-- part of the memory, which the source guards by a lock for each change. The passes of `Run` come in
-- any order, with a process that ends and is started again between any two of them; `Once` makes one
-- pass for each feed. The saves of one pass find the same answers, and each change of the memory that
-- is saved at all is saved before the pass ends. Alerts and log lines are left out.
pub mod Setup
pub mod Once
pub mod Rounds
pub mod Pass
pub mod Laws
mod Tests
use gnoracle.Base.{
  ℕ, zero, suc, ◌==◌, ℤ, pos, Bool, true, false, List, [], ◌∷◌, ◌++◌, map, Option, none, some,
  if◌then◌else◌, String,
}
use gnoracle.Base.Files.{Found, LoadError, Saving}
use gnoracle.Base.Result.{Result, ok, err, ensure, ◌>>=◌, ◌>>◌}
use gnoracle.Base.Text.{Bytes, codes, bytes_eq}
use gnoracle.Agent.Aggregate.{Rat}
use gnoracle.Agent.Config.{FeedConfig, FeedParams, ConfigError, runtime, source_validate}
use gnoracle.Agent.Config.Whole.{Config}
use gnoracle.Agent.Adapters.{min_sources}
use gnoracle.Agent.Store.{State, load_state, save_state, for_chain}
use gnoracle.Agent.Runner.Defs.{
  Settings, Runner, Replies, Effect, Outcome, done, failed, unfinished, is_saved, accepted,
}
use gnoracle.Agent.Runner.Tick.{tick}

-- Why the daemon is not made.
pub data NewError : Type 0 where
  no_signing_key : NewError
  state_error : LoadError → NewError
  bad_params : ConfigError → NewError
  bad_adapter : ℕ → ConfigError → NewError

-- A runner as it starts.
abbrev pub new_runner : Runner
new_runner = record {
  warned = [];
  refused = [];
  batch = pos 0;
  backoff = pos 0;
  obliged = none;
  slot = pos 0;
  last_self_send = pos 0;
}

pub record Agent : Type 0 where
  pub store : State
  pub last_self_send : ℤ
  pub runners : List (Settings × Runner)

-- The agent, when it runs, and its state file.
pub record System (File : Type 0) : Type 0 where
  pub file : Found File
  pub agent : Option Agent

abbrev pub stopped : {File : Type 0} → Found File → System File
stopped file = record { file = file; agent = none }

-- What is done for which feed, in order.
abbrev pub Log : Type 0
Log = List (ℕ × Effect)

pub record Passed : Type 0 where
  pub agent : Agent
  pub log : Log
  pub saved : Bool
  pub outcome : Outcome

-- The pass of one runner with what the chain answers and what the file system answers to a save, or
-- the process ended and started again: with a key or not.
pub data Turn : Type 0 where
  passes : ℕ → Replies → Saving → Turn
  restarts : Bool → Turn

abbrev pub get_elem? : {A : Type 0} → List A → ℕ → Option A
get_elem? [] n = none
get_elem? (x ∷ xs) zero = some x
get_elem? (x ∷ xs) (suc n) = get_elem? xs n

abbrev pub set_runner : ℕ → Runner → List (Settings × Runner) → List (Settings × Runner)
set_runner n r [] = []
set_runner zero r ((s, _) ∷ xs) = (s, r) ∷ xs
set_runner (suc n) r (x ∷ xs) = x ∷ set_runner n r xs

module _ (unquote : Bytes → Option Bytes) (me : String) where
  -- A pass of the runner at a place; the place beyond the last runner has none.
  pub pass : ℕ → Replies → Agent → Passed
  pass n replies a = elim (get_elem? a.runners n) [
    | none ↦ record { agent = a; log = []; saved = false; outcome = done }
    | some (s, r) ↦
        let r' : Runner = record r { last_self_send = a.last_self_send } in
        let t = tick unquote s me replies r' a.store in
        record {
          agent = record {
            store = t.store;
            last_self_send = t.runner.last_self_send;
            runners = set_runner n t.runner a.runners;
          };
          log = map (λ e. (s.feed_id, e)) t.log;
          saved = is_saved t.log;
          outcome = t.outcome;
        }
  ]

module _ {File : Type 0} (encode : State → File) (decode : File → Option State) (path : Bytes)
    (chain_id : Bytes) (settings : List Settings) (unquote : Bytes → Option Bytes)
    (me : String) where
  -- A new agent, by its key, its state file and its feeds.
  pub new : Bool → Found File → Result NewError Agent
  new can_sign file = do
    ensure can_sign no_signing_key
    store ← (elim (load_state decode file) [ ok s ↦ ok s | err e ↦ err (state_error e) ])
    ok (record {
      store = (for_chain chain_id store).0;
      last_self_send = pos 0;
      runners = map (λ s. (s, new_runner)) settings;
    })

  -- A pass and what it leaves in the state file.
  pub pass_saved : ℕ → Replies → Saving → Agent → Found File → Passed × Found File
  pass_saved n replies fs a file =
      let p = pass unquote me n replies a in
      let written = (save_state encode path fs p.agent.store file).0 in
      (p, if p.saved then written else file)

  unfoldable pub turn : Turn → System File → System File × Log
  turn (restarts can_sign) sys = elim (new can_sign sys.file) [
    | ok a ↦ (record { file = sys.file; agent = some a }, [])
    | err _ ↦ (stopped sys.file, [])
  ]
  turn (passes n replies fs) sys = elim sys.agent [
    | none ↦ (sys, [])
    | some a ↦
        let (p, file) = pass_saved n replies fs a sys.file in
        (record { file = file; agent = some p.agent }, p.log)
  ]

  unfoldable pub run : List Turn → System File → System File × Log
  run [] sys = (sys, [])
  run (t ∷ turns) sys =
      let (sys', log) = turn t sys in let (end, rest) = run turns sys' in (end, log ++ rest)

-- The rounds of one feed's accepted submissions.
unfoldable pub accepted_for : ℕ → Log → List ℕ
accepted_for id [] = []
accepted_for id ((j, e) ∷ log) =
    let rest = accepted_for id log in if j == id then accepted (e ∷ []) ++ rest else rest
