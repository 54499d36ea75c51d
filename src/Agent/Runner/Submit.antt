-- ===== src/Agent/Runner/Submit.antt =====
-- agent/agent.go, submit: fetching, checking and sending a round's value.
pub mod Laws
pub mod Memory
pub mod Live
use gnoracle.Base.{
  ℕ, leb, ℤ, pos, ltb_ℤ, Bool, true, false, ◌&&◌, ◌||◌, not, List, [], ◌∷◌, ◌++◌, map, Option, none,
  some, if◌then◌else◌,
}
use gnoracle.Base.Result.{ok, err}
use gnoracle.Base.Text.{Bytes, codes, contains}
use gnoracle.Gnochain.Broadcast.{TxResult}
use gnoracle.Gnochain.Views.Feeds.{FeedInfo, is_numeric}
use gnoracle.Agent.Aggregate.{
  Rat, rat_lt, aggregate, AggregateError, number, option_label, rejected, Aggregated,
}
use gnoracle.Agent.Scale.{scale_to_int, within_bps}
use gnoracle.Agent.Options.{option_index}
use gnoracle.Agent.Store.{FeedState, State, update}
use gnoracle.Agent.Runner.Defs.{
  Settings, Runner, Replies, Outcome, done, failed, Effect, submit_call, save, refusal_alert,
  journal, fetch_error, fetched, refusal, overridden, submit_error, submitted, Refusal,
  out_of_bounds, no_option, deviates, warn_once, is_refused,
}

pub record Submitted : Type 0 where
  pub runner : Runner
  pub store : State
  pub log : List Effect
  pub outcome : Outcome

-- The latest public value, unless the agent's own is of a later round.
unfoldable pub sanity_ref : FeedState → FeedInfo → Option ℤ
sanity_ref st f =
    let own = if st.has_value then some st.last_value else none in
    elim f.value [
      | some v ↦ if not st.has_value || leb st.value_round f.last_round then some v else own
      | none ↦ own
    ]

pub below : Rat → Option Rat → Bool
unfolding rat_lt
below v none = false
below v (some bound) = rat_lt v bound

pub above : Rat → Option Rat → Bool
unfolding rat_lt
above v none = false
above v (some bound) = rat_lt bound v

-- What a fetch comes to: a value to submit, a refusal, no aggregate, or a value out of int64.
pub data Fetched : Type 0 where
  value_of : ℤ → Fetched
  refused_as : Refusal → Fetched
  no_value : AggregateError → Fetched
  unfit : Fetched

module _ (s : Settings) (replies : Replies) (f : FeedInfo) (round : ℕ) where
  number_value : Rat → Fetched
  unfolding below above scale_to_int
  number_value r =
      if below r s.params.lower_bound || above r s.params.upper_bound
      then refused_as (out_of_bounds r)
      else elim (scale_to_int (some r) f.spec.decimals) [ some v ↦ value_of v | none ↦ unfit ]

  label_value : Bytes → Fetched
  unfolding option_index
  label_value l = elim (option_index (map codes f.spec.options) l s.mapping) [
    | some v ↦ value_of v
    | none ↦ refused_as (no_option l)
  ]

  fetched_from : Aggregated → Fetched
  unfolding number_value label_value
  fetched_from (number r) = number_value r
  fetched_from (option_label l) = label_value l
  fetched_from (rejected e) = no_value e

  unfoldable pub fetch : Fetched
  unfolding aggregate fetched_from is_numeric
  fetch = fetched_from (aggregate replies.samples (is_numeric f.spec) s.min_sources)

  -- The reference that a value strays too far from, if any.
  unfoldable pub strays : FeedState → ℤ → Option ℤ
  unfolding sanity_ref within_bps is_numeric
  strays st value =
      if is_numeric f.spec && ltb_ℤ (pos 0) s.params.sanity_bps
      then elim (sanity_ref st f) [
        | some ref ↦ if within_bps value ref s.params.sanity_bps then none else some ref
        | none ↦ none
      ]
      else none

  refuse : Refusal → Runner → State → List Effect → Submitted
  unfolding is_refused
  refuse why r store log =
      let noted = journal (refusal round why replies.samples) ∷ [] in
      if is_refused round r.refused
      then record { runner = r; store = store; log = log ++ noted; outcome = failed }
      else record {
        runner = record r { refused = round ∷ r.refused };
        store = store;
        log = log ++ (noted ++ refusal_alert round why ∷ []);
        outcome = failed;
      }

  remember : ℤ → TxResult → FeedState → FeedState
  remember value res fs = record fs {
    has_round = true;
    last_round = round;
    has_value = true;
    last_value = value;
    value_round = round;
    last_tx_hash = res.hash;
  }

  not_obliged : Bytes → Bool
  unfolding contains
  not_obliged e = contains e (codes "obligations start at round")

  send : ℤ → ℤ → Runner → State → List Effect → Submitted
  unfolding remember not_obliged update
  send value headroom r store log =
      let log' = log ++ submit_call round value headroom ∷ [] in
      elim replies.submit [
        | ok res ↦ record {
          runner = r;
          store = update s.feed_id (remember value res) store;
          log = log' ++ save ∷ journal (submitted round value res) ∷ [];
          outcome = done;
        }
        | err e ↦ record {
          runner = if not_obliged e then record r { obliged = none } else r;
          store = store;
          log = log' ++ journal (submit_error round value e) ∷ [];
          outcome = failed;
        }
      ]

  checked : ℤ → FeedState → ℤ → Runner → State → Submitted
  unfolding strays refuse send
  checked value st headroom r store =
      let log = journal (fetched round value replies.samples) ∷ [] in
      elim (strays st value) [
        | none ↦ send value headroom r store log
        | some ref ↦
            if s.override
            then send value headroom r store (log ++ journal (overridden round value ref) ∷ [])
            else refuse (deviates value ref) r store log
      ]

  unfoldable pub submit : FeedState → ℤ → Runner → State → Submitted
  unfolding fetch refuse checked warn_once
  submit st headroom r store = elim fetch [
    | value_of value ↦ checked value st headroom r store
    | refused_as why ↦ refuse why r store []
    | unfit ↦ record { runner = r; store = store; log = []; outcome = failed }
    | no_value e ↦
        let log = journal (fetch_error round e replies.samples) ∷ [] in
        if s.from_file
        then record {
          runner = warn_once (codes "answer") replies.wall r;
          store = store;
          log = log;
          outcome = done;
        }
        else record { runner = r; store = store; log = log; outcome = failed }
  ]
