-- ===== src/Bot/Crank/Finalize.antt =====
-- bot/cranker.go, crankFinalize: finalising closed rounds, with a batch for each feed that adapts to
-- the gas.
pub mod Laws
pub mod Follows
pub mod Live
use gnoracle.Base.{
  ℕ, zero, suc, ltb, ◌==◌, ℤ, pos, ltb_ℤ, leb_ℤ, Bool, true, false, ◌&&◌, ◌||◌, not, List, [], ◌∷◌,
  ◌++◌, Option, none, some, if◌then◌else◌, str_eq,
}
use gnoracle.Base.Int64.{add64, mul64, div64}
use gnoracle.Base.Result.{Result, ok, err}
use gnoracle.Base.Text.{Bytes, codes, contains}
use gnoracle.Base.Text.Decimal.{format_uint}
use gnoracle.Gnochain.Broadcast.{TxResult}
use gnoracle.Gnochain.Results.{int64_result}
use gnoracle.Gnochain.Schedule.{Schedule, is_one_off, current, close_at, next}
use gnoracle.Gnochain.Views.Feeds.{FeedSummary, summary_schedule}
use gnoracle.Agent.Config.{second}
use gnoracle.Bot.Chain.{Chain, Effect, sent, Call, catch_up}
use gnoracle.Bot.Config.{Params}
use gnoracle.Bot.State.{State, due}

-- The fields of `Bot` that change.
pub record Bot : Type 0 where
  pub state : State
  pub batches : List (ℕ × ℤ)

pub record Cranked : Type 0 where
  pub bot : Bot
  pub log : List Effect

-- A run of the call loop: the batch it ends with, its calls, and whether it ended by itself.
pub record Tried : Type 0 where
  pub batch : ℤ
  pub log : List Effect
  pub ended : Bool

batch_of : ℕ → List (ℕ × ℤ) → ℤ
batch_of feed [] = pos 0
batch_of feed ((f, batch) ∷ batches) = if f == feed then batch else batch_of feed batches

set_batch : ℕ → ℤ → List (ℕ × ℤ) → List (ℕ × ℤ)
set_batch feed batch [] = (feed, batch) ∷ []
set_batch feed batch ((f, b) ∷ batches) =
    let rest = set_batch feed batch batches in
    if f == feed then (f, batch) ∷ batches else (f, b) ∷ rest

module _ (unquote : Bytes → Option Bytes) (p : Params) (chain : Chain) where
  -- What follows a call; `rest` is the loop with half the batch.
  answered : ℤ → Tried → Result Bytes TxResult → Tried
  answered batch rest (ok res) =
      let n : ℤ = elim (int64_result unquote res.raw) [ some k ↦ k | none ↦ pos 0 ] in
      record {
        batch =
            if leb_ℤ batch n && ltb_ℤ batch p.catch_up_batch then mul64 batch (pos 2) else batch;
        log = [];
        ended = true;
      }
  answered batch rest (err e) =
      if contains e (codes "out of gas") && ltb_ℤ (pos 1) batch
      then rest
      else record { batch = batch; log = []; ended = true }

  -- The loop: one unit of fuel for each call.
  pub try_from : ℕ → ℕ → ℤ → Tried
  try_from zero feed batch = record { batch = batch; log = []; ended = false }
  try_from (suc fuel) feed batch =
      let rest = try_from fuel feed (div64 batch (pos 2)) in
      let t = answered batch rest (chain.call (catch_up feed batch)) in
      record t { log = sent (catch_up feed batch) ∷ t.log }

  -- The round that waits for finalisation behind the grace, if any.
  pub ripe : ℤ → FeedSummary → Option ℕ
  ripe now f =
      let sched = summary_schedule f in
      let round = next sched f.last_finalized f.have_last in
      let grace = div64 p.finalize_grace (pos second) in
      if not (str_eq f.status "active" || str_eq f.status "unfunded")
      then none
      else if is_one_off sched && not (round == 0)
      then none
      else elim (current sched now) [
        | none ↦ none
        | some cur ↦
            if ltb cur round || ltb_ℤ now (add64 (close_at sched round) grace)
            then none
            else some round
      ]

  -- Whether the round is worth a call: empty rounds are written off, or the round exists.
  unfoldable pub worth : ℕ → ℕ → Bool
  worth feed round =
      p.catch_up_empty || elim (chain.round feed round) [ some rd ↦ rd.exists | none ↦ false ]

  -- Sixty-four halvings bring any int64 batch to one.
  pub try : ℕ → Bot → Cranked
  try feed b =
      let batch = batch_of feed b.batches in
      let t = try_from 64 feed (if leb_ℤ batch (pos 0) then p.catch_up_batch else batch) in
      record { bot = record b { batches = set_batch feed t.batch b.batches }; log = t.log }

  abbrev pub finalize_key : ℕ → Bytes
  finalize_key feed = codes "finalize:" ++ format_uint feed

  pub finalize_feed : ℤ → FeedSummary → Bot → Cranked
  finalize_feed now f b = elim (ripe now f) [
    | none ↦ record { bot = b; log = [] }
    | some round ↦
        let (state, is_due) =
          due (finalize_key f.id) (div64 p.crank_every (pos second)) chain.clock b.state in
        let b' = record b { state = state } in
        if not is_due
        then record { bot = b'; log = [] }
        else if worth f.id round
        then try f.id b'
        else record { bot = b'; log = [] }
  ]

  pub finalize_feeds : ℤ → List FeedSummary → Bot → Cranked
  finalize_feeds now [] b = record { bot = b; log = [] }
  finalize_feeds now (f ∷ fs) b =
      let c = finalize_feed now f b in
      let c' = finalize_feeds now fs c.bot in record c' { log = c.log ++ c'.log }

  -- An error of either reading ends the crank.
  unfoldable pub crank_finalize : Bot → Cranked
  unfolding finalize_feeds
  crank_finalize b = elim chain.all_feeds [
    | none ↦ record { bot = b; log = [] }
    | some feeds ↦ elim chain.core_now [
      | none ↦ record { bot = b; log = [] }
      | some head ↦ finalize_feeds head.now feeds b
    ]
  ]
