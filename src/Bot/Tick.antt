-- ===== src/Bot/Tick.antt =====
-- bot/bot.go, Tick: one pass that scans, reminds, cranks and saves. The clock is read once for a pass.
pub mod Follows
pub mod Laws
use gnoracle.Base.{ℕ, ℤ, pos, leb_ℤ, Bool, true, false, List, [], ◌∷◌, ◌++◌, Option, if◌then◌else◌}
use gnoracle.Base.Int64.{sub64, div64}
use gnoracle.Base.Text.{Bytes}
use gnoracle.Gnochain.Events.{Event}
use gnoracle.Agent.Config.{second}
use gnoracle.Bot.Chain.{Chain, Effect}
use gnoracle.Bot.Config.{Config, Params}
use gnoracle.Bot.State.{State, pruned}
use gnoracle.Bot.Scan.{scan}
use gnoracle.Bot.Remind.{remind}
use gnoracle.Bot.Crank.{crank}
use gnoracle.Bot.Crank.Finalize.{Bot, Cranked}

module _ (unquote : Bytes → Option Bytes) (format_time : ℤ → Bytes) (format : Event → Bytes)
    (cfg : Config) (p : Params) (chain : Chain) where
  abbrev over : ℤ → ℤ → Bool
  over last every = leb_ℤ (div64 every (pos second)) (sub64 chain.clock last)

  scan_step : Bot → Cranked
  scan_step b =
      let r = scan cfg p chain format b.state in
      record { bot = record b { state = r.state }; log = r.log }

  -- The time of a pass over the reminders is kept whether it succeeds or not.
  remind_step : Bot → Cranked
  remind_step b =
      let r = remind format_time cfg chain (record b.state { last_remind = chain.clock }) in
      if over b.state.last_remind p.remind_every
      then record { bot = record b { state = r.state }; log = r.log }
      else record { bot = b; log = [] }

  crank_step : Bot → Cranked
  crank_step b =
      if over b.state.last_crank p.crank_every
      then crank unquote cfg p chain
          (record b { state = record b.state { last_crank = chain.clock } })
      else record { bot = b; log = [] }

  pub tick : Bot → Cranked
  tick b =
      let c1 = scan_step b in
      let c2 = remind_step c1.bot in
      let c3 = crank_step c2.bot in
      record {
        bot = record c3.bot { state = pruned chain.clock c3.bot.state };
        log = (c1.log ++ c2.log) ++ c3.log;
      }
