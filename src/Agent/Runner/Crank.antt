-- ===== src/Agent/Runner/Crank.antt =====
-- agent/agent.go, crank: finalising closed rounds, with a batch that adapts to the gas.
pub mod Laws
use gnoracle.Base.{
  ℕ, zero, suc, ltb, ◌==◌, ℤ, pos, ltb_ℤ, leb_ℤ, Bool, true, false, ◌&&◌, ◌||◌, not, List, [], ◌∷◌,
  Option, none, some, if◌then◌else◌, str_eq,
}
use gnoracle.Base.Int64.{add64, mul64, div64}
use gnoracle.Base.Result.{ok, err}
use gnoracle.Base.Text.{Bytes, codes, contains}
use gnoracle.Gnochain.Schedule.{Schedule, is_one_off, next, close_at}
use gnoracle.Gnochain.Results.{int64_result}
use gnoracle.Gnochain.Views.Feeds.{FeedInfo}
use gnoracle.Agent.Runner.Defs.{
  Settings, Runner, Replies, CallReply, got, view_error, lost, Outcome, done, failed, unfinished,
  Effect, catch_up_call, journal, catch_up_error, finalized, seconds,
}

pub record Cranked : Type 0 where
  pub runner : Runner
  pub log : List Effect
  pub outcome : Outcome

abbrev idle : Outcome → Runner → Cranked
idle o r = record { runner = r; log = []; outcome = o }

abbrev pub get_or_zero : Option ℤ → ℤ
get_or_zero none = pos 0
get_or_zero (some n) = n

abbrev cons_effect : Effect → Cranked → Cranked
cons_effect e c = record c { log = e ∷ c.log }

out_of_gas : Bytes → Bool
unfolding contains
out_of_gas e = contains e (codes "out of gas")

module _ (unquote : Bytes → Option Bytes) (s : Settings) (replies : Replies) where
  -- The batch after a call that finalised `n` rounds.
  grown : ℤ → ℤ → ℤ
  unfolding mul64
  grown n batch =
      if leb_ℤ batch n && ltb_ℤ batch s.params.catch_up_batch then mul64 batch (pos 2) else batch

  -- What follows a call: `rest` is the loop with half the batch.
  answered : ℕ → ℤ → Runner → Cranked → CallReply → Cranked
  unfolding grown out_of_gas int64_result add64
  answered round batch r rest (ok res) =
      let n = get_or_zero (int64_result unquote res.raw) in
      record {
        runner = record r { batch = grown n batch };
        log = journal (finalized round n res) ∷ [];
        outcome = done;
      }
  answered round batch r rest (err e) =
      if out_of_gas e && ltb_ℤ (pos 1) batch then rest else record {
        runner = record r { batch = batch; backoff = add64 replies.wall (pos 30) };
        log = journal (catch_up_error round e) ∷ [];
        outcome = failed;
      }

  -- The loop: one unit of fuel for each call.
  catch_up_from : ℕ → ℕ → ℤ → Runner → Cranked
  unfolding answered div64
  catch_up_from zero round batch r = idle unfinished (record r { batch = batch })
  catch_up_from (suc fuel) round batch r =
      let rest = catch_up_from fuel round (div64 batch (pos 2)) r in
      cons_effect (catch_up_call batch) (answered round batch r rest (replies.catch_up batch))

  -- Another agent finalised in the meantime. A failed reading changes nothing.
  pub overtaken : Schedule → ℕ → Bool
  unfolding next
  overtaken sched round = elim replies.fresh_feed [
    | got fresh ↦ not (next sched fresh.last_finalized fresh.have_last == round)
    | view_error ↦ false
    | lost ↦ false
  ]

  -- Whether the round is worth a call: `none` is an error of the reading.
  worth : ℕ → ℕ → Option Bool
  worth round cur =
      let empty_too = s.params.catch_up_empty in
      if not (round == cur || not empty_too) then some true else elim replies.next_round [
        | got rd ↦ if not rd.exists then some empty_too else some (str_eq rd.status "open")
        | view_error ↦ none
        | lost ↦ none
      ]

  -- Sixty-four halvings bring any int64 batch to one.
  catch_up : ℕ → Runner → Cranked
  unfolding catch_up_from
  catch_up round r =
      catch_up_from 64 round (if leb_ℤ r.batch (pos 0) then s.params.catch_up_batch else r.batch) r

  crank_round : Schedule → ℕ → ℕ → Runner → Cranked
  unfolding overtaken worth catch_up
  crank_round sched round cur r =
      if overtaken sched round then idle done r else elim (worth round cur) [
        | none ↦ idle failed r
        | some true ↦ catch_up round r
        | some false ↦ idle done r
      ]

  -- The moment from which a closed round is cranked by this agent.
  pub crank_at : Schedule → ℕ → ℤ → ℤ
  unfolding add64 mul64 div64 close_at
  crank_at sched round slot =
      add64 (close_at sched round) (add64 (seconds s.params.finalize_delay) (mul64 slot (pos 2)))

  -- The early returns: backing off, nothing left of a one-off, or not yet this agent's turn.
  waits : Schedule → ℕ → ℕ → ℤ → ℤ → Runner → Bool
  unfolding is_one_off
  waits sched round cur now at r =
      ltb_ℤ replies.wall r.backoff
      || is_one_off sched && not (round == 0)
      || ltb cur round
      || ltb_ℤ now at

  unfoldable pub crank : FeedInfo → Schedule → ℕ → ℤ → ℤ → Runner → Cranked
  unfolding crank_round waits crank_at next
  crank f sched cur now slot r =
      let round = next sched f.last_finalized f.have_last in
      let at = crank_at sched round slot in
      if waits sched round cur now at r then idle done r else crank_round sched round cur r
