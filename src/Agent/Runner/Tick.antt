-- ===== src/Agent/Runner/Tick.antt =====
-- agent/agent.go, tick: submit if a round is open and ours is missing, crank closed rounds, claim.
pub mod Open
pub mod Laws
pub mod Remember
pub mod Memory
pub mod Live
use gnoracle.Base.{
  ℕ, ltb, leb, ℤ, pos, ltb_ℤ, leb_ℤ, eqb_ℤ, Bool, true, false, ◌&&◌, ◌||◌, not, List, [], ◌∷◌, ◌++◌,
  String, Option, none, some, if◌then◌else◌, str_eq, length,
}
use gnoracle.Base.Int64.{add64, sub64, mul64}
use gnoracle.Base.Result.{ok, err}
use gnoracle.Base.Text.{Bytes, codes}
use gnoracle.Base.Text.Decimal.{format_uint}
use gnoracle.Gnochain.Schedule.{Schedule, current, open_at, close_at}
use gnoracle.Gnochain.Results.{int64_result}
use gnoracle.Gnochain.Views.Feeds.{FeedInfo, RoundInfo, feed_schedule, slot_of, has_submitted}
use gnoracle.Agent.Config.{second}
use gnoracle.Agent.Store.{FeedState, State, update, snapshot}
use gnoracle.Agent.Runner.Defs.{
  Settings, Runner, Replies, got, view_error, lost, Outcome, done, failed, Effect, claim_call,
  self_send, save, jailed_alert, journal, claim_error, claimed, seconds, warn_once, is_warned,
  unset_warned,
}
use gnoracle.Agent.Runner.Crank.{crank, get_or_zero}
use gnoracle.Agent.Runner.Submit.{submit}

pub record Ticked : Type 0 where
  pub runner : Runner
  pub store : State
  pub log : List Effect
  pub outcome : Outcome

abbrev quiet : Outcome → Runner → State → Ticked
quiet o r store = record { runner = r; store = store; log = []; outcome = o }

-- What was done before and what comes after it.
abbrev pub after : List Effect → Ticked → Ticked
after log t = record t { log = log ++ t.log }

-- The remembered rounds belong to another schedule: forget them, and keep the claim and the hash.
unfoldable pub on_schedule : ℤ → FeedState → FeedState
on_schedule start fs = if eqb_ℤ fs.start_at start then fs else record fs {
  start_at = start;
  has_round = false;
  last_round = 0;
  has_value = false;
  last_value = pos 0;
  value_round = 0;
}

submit_finalise_headroom : ℤ
submit_finalise_headroom = pos 14000000

module _ (unquote : Bytes → Option Bytes) (s : Settings) (me : String) (replies : Replies) where
  -- A self-send moves a development chain's clock, at most once in a poll interval.
  dev_tick : ℤ → Runner → Runner × List Effect
  dev_tick chain_now r =
      if not s.dev_tick || ltb_ℤ (sub64 replies.wall chain_now) (pos 5)
      then (r, [])
      else if ltb_ℤ (mul64 (sub64 replies.wall r.last_self_send) (pos second)) s.poll
      then (r, [])
      else (record r { last_self_send = replies.wall }, self_send ∷ [])

  -- The pass of a provider that holds no slot.
  unseated : Runner → State → Ticked
  unseated r store = elim replies.idle_provider [
    | view_error ↦ quiet done (warn_once (codes "register") replies.wall r) store
    | lost ↦ quiet failed r store
    | got p ↦
        if str_eq p.status "jailed"
        then record {
          runner = warn_once (codes "jailed") replies.wall r;
          store = store;
          log = if is_warned (codes "jailed") r then [] else jailed_alert ∷ [];
          outcome = done;
        }
        else quiet done (warn_once (codes "slot") replies.wall r) store
  ]

  -- Step 3: the rewards, on the cadence.
  claim_rewards : ℤ → FeedState → Runner → State → Ticked
  claim_rewards now st r store =
      let claimed_at = update s.feed_id (λ fs. record fs { last_claim_at = now }) store in
      if not (ltb_ℤ (pos 0) s.params.claim_every)
        || ltb_ℤ (sub64 now st.last_claim_at) (seconds s.params.claim_every)
      then quiet done r store
      else elim replies.claim_provider [
        | view_error ↦ quiet done r store
        | lost ↦ quiet done r store
        | got p ↦
            if ltb_ℤ p.rewards s.params.claim_min
            then record { runner = r; store = claimed_at; log = save ∷ []; outcome = done }
            else elim replies.claim [
              | err e ↦ record {
                runner = r;
                store = store;
                log = claim_call ∷ journal (claim_error e) ∷ [];
                outcome = done;
              }
              | ok res ↦ record {
                runner = r;
                store = claimed_at;
                log =
                    claim_call
                    ∷ journal (claimed (get_or_zero (int64_result unquote res.raw)) res)
                    ∷ save
                    ∷ [];
                outcome = done;
              }
            ]
      ]

  -- A submission assembled in the last seconds lands after the close.
  margin : ℤ
  margin = add64 (seconds s.params.timeout) (pos 2)

  -- Headroom only when exactly one other provider is still to submit.
  pub headroom : FeedInfo → RoundInfo → ℤ
  headroom f rd =
      let others = sub64 (sub64 f.active_count (pos 1)) (pos (length rd.submitted)) in
      if eqb_ℤ others (pos 1) then submit_finalise_headroom else pos 0

  -- The open round is read: never submit blind, and never twice.
  pub submit_read : FeedInfo → ℕ → ℤ → FeedState → Runner → State → Ticked
  submit_read f cur slot st r store = elim replies.current_round [
    | view_error ↦ quiet done r store
    | lost ↦ quiet done r store
    | got rd ↦
        if has_submitted rd slot
        then record {
          runner = r;
          store = update s.feed_id (λ fs. record fs { has_round = true; last_round = cur }) store;
          log = save ∷ [];
          outcome = done;
        }
        else (let sub = submit s replies f cur st (headroom f rd) r store in
            record { runner = sub.runner; store = sub.store; log = sub.log; outcome = done })
  ]

  unfoldable pub in_window : Schedule → ℕ → ℤ → Bool
  unfolding margin
  in_window sched cur now =
      leb_ℤ (add64 (open_at sched cur) (seconds s.params.jitter)) now
      && ltb_ℤ now (sub64 (close_at sched cur) margin)

  too_late : Schedule → ℕ → ℤ → Bool
  too_late sched cur now =
      leb_ℤ (sub64 (close_at sched cur) margin) now && ltb_ℤ now (close_at sched cur)

  -- Step 2: the open round.
  pub submit_open : FeedInfo → Schedule → ℕ → ℤ → ℤ → FeedState → Runner → State → Ticked
  submit_open f sched cur now slot st r store =
      if st.has_round && leb cur st.last_round
      then quiet done r store
      else if in_window sched cur now
      then submit_read f cur slot st r store
      else if too_late sched cur now
      then quiet done (warn_once (codes "late-" ++ format_uint cur) replies.wall r) store
      else quiet done r store

  -- Step 1, for rounds that closed; its errors are only logged.
  pub crank_closed : FeedInfo → Schedule → ℕ → ℤ → ℤ → Runner → Runner × List Effect
  crank_closed f sched cur now slot r =
      let c = crank unquote s replies f sched cur now slot r in
      if s.skip_finalize then (r, []) else (c.runner, c.log)

  -- The three steps, once the provider is obliged.
  pub serve : FeedInfo → Schedule → ℕ → ℤ → ℤ → FeedState → Runner → State → Ticked
  serve f sched cur now slot st r store =
      let (r1, log1) = crank_closed f sched cur now slot r in
      let sub = submit_open f sched cur now slot st r1 store in
      after (log1 ++ sub.log) (claim_rewards now st sub.runner sub.store)

  -- The first obliged round, read again when it is not known or was read for another slot.
  obligation : ℤ → Runner → Option (ℕ × Runner)
  obligation slot r =
      let read : Option (ℕ × Runner) = elim replies.obliged_provider [
        | got p ↦ some (p.obliged_from, record r { obliged = some p.obliged_from; slot = slot })
        | view_error ↦ none
        | lost ↦ none
      ] in
      elim r.obliged [
        | none ↦ read
        | some from ↦ if eqb_ℤ r.slot slot then some (from, r) else read
      ]

  on_round : FeedInfo → ℕ → ℤ → ℤ → Runner → State → Ticked
  on_round f cur now slot r store = elim (obligation slot r) [
    | none ↦ quiet failed r store
    | some (from, r') ↦
        let sched = feed_schedule f in
        let store' = update s.feed_id (on_schedule f.start_at) store in
        let st = snapshot s.feed_id store' in
        if ltb cur from
        then (let (r1, log1) =
              crank_closed f sched cur now slot (warn_once (codes "obliged") replies.wall r') in
            record { runner = r1; store = store'; log = log1; outcome = done })
        else serve f sched cur now slot st r' store'
  ]

  seated : FeedInfo → ℤ → ℤ → Runner → State → Ticked
  seated f now slot r store =
      let r' = record r { warned = unset_warned (codes "jailed") r.warned } in
      elim (current (feed_schedule f) now) [
        | none ↦ quiet done (warn_once (codes "start") replies.wall r') store
        | some cur ↦ on_round f cur now slot r' store
      ]

  serving : FeedInfo → Runner → State → Ticked
  serving f r store =
      let slot = slot_of f me in
      if not (str_eq f.status "active" || str_eq f.status "unfunded")
      then quiet done (warn_once (codes "status") replies.wall r) store
      else if ltb_ℤ slot (pos 0)
      then unseated r store
      else seated f f.head.now slot r store

  pub tick : Runner → State → Ticked
  tick r store = elim replies.feed [
    | view_error ↦ quiet failed r store
    | lost ↦ quiet failed r store
    | got f ↦ let (r', log) = dev_tick f.head.now r in after log (serving f r' store)
  ]
