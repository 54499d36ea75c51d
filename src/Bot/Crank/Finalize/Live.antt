-- ===== src/Bot/Crank/Finalize/Live.antt =====
-- bot/cranker.go, crankFinalize: when a feed gets a call.
use gnoracle.Base.{
  ℕ, suc, ◌≤◌, ltb, ◌==◌, ℤ, pos, ltb_ℤ, leb_ℤ, if◌then◌else◌, ◌≤ℤ◌, Bool, true, false, ◌&&◌, ◌||◌,
  not, List, ◌∷◌, Option, some, ◌≡◌, ◌⊎◌, arith, refl, sym,
}
use gnoracle.Base.Int64.{add64, div64}
use gnoracle.Base.Text.{Bytes}
use gnoracle.Gnochain.Schedule.{is_one_off, close_at, next}
use gnoracle.Gnochain.Views.Feeds.{FeedSummary, summary_schedule}
use gnoracle.Agent.Config.{second}
use gnoracle.Bot.Chain.{Chain, Call, calls, catch_up}
use gnoracle.Bot.Config.{Params}
use gnoracle.Bot.State.{due}
use gnoracle.Bot.Crank.Finalize.{Bot, batch_of, try_from, try, ripe, finalize_key, finalize_feed}
use gnoracle.Bot.Crank.Finalize.Laws.{MayFinalize}

module _ (unquote : Bytes → Option Bytes) (p : Params) (chain : Chain) where
  on_time :
      (cur round : ℕ) (now close : ℤ)
      → round ≤ cur
      → close ≤ℤ now
      → (ltb cur round || ltb_ℤ now close) ≡ false
  on_time cur round now close started closed = ground arith

  still_open :
      (single : Bool) (round : ℕ)
      → (single ≡ false) ⊎ (round ≡ 0)
      → (single && not (round == 0)) ≡ false
  still_open single round h = ground arith

  ripe-MayFinalize :
      (now : ℤ) (f : FeedSummary) (round : ℕ)
      → MayFinalize unquote p chain now f round
      → ripe unquote p chain now f ≡ some round
  unfolding ripe
  ripe-MayFinalize now f round may =
      let sched = summary_schedule f in
      let nxt = next sched f.last_finalized f.have_last in
      let grace = div64 p.finalize_grace (pos second) in
      let (cur, at, started) = may.started in
      let late = on_time cur round now (add64 (close_at sched round) grace) started may.closed in
      let left = still_open (is_one_off sched) round may.one_off_once in
      let same : nxt ≡ round = sym may.is_next in ground (arith, may.serves, same, at, late, left)

  try_from-first :
      (fuel feed : ℕ) (batch : ℤ)
      → (rest : List Call) × (calls (try_from unquote p chain (suc fuel) feed batch).log
          ≡ catch_up feed batch ∷ rest)
  unfolding try_from calls
  try_from-first fuel feed batch = (_, refl)

  try-first :
      (feed : ℕ) (b : Bot)
      → (batch : ℤ) × (rest : List Call) × (calls (try unquote p chain feed b).log
          ≡ catch_up feed batch ∷ rest)
  unfolding try
  try-first feed b =
      let batch = batch_of feed b.batches in
      let start = if leb_ℤ batch (pos 0) then p.catch_up_batch else batch in
      let (rest, e) = try_from-first 63 feed start in (start, rest, e)

  -- A feed whose round may be finalised and that was not attempted within the interval gets a CatchUp.
  pub finalize_feed_sends :
      (now : ℤ) (f : FeedSummary) (round : ℕ) (b : Bot)
      → MayFinalize unquote p chain now f round
      → (due
          (finalize_key unquote p chain f.id)
          (div64 p.crank_every (pos second))
          chain.clock
          b.state).1
        ≡ true
      → (batch : ℤ) × (rest : List Call) × (calls (finalize_feed unquote p chain now f b).log
          ≡ catch_up f.id batch ∷ rest)
  unfolding finalize_feed
  finalize_feed_sends now f round b may turn =
      let ready = ripe-MayFinalize now f round may in
      rw (finalize_feed, ready, turn, may.worthy) (try-first f.id _)
