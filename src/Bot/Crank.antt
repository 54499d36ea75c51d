-- ===== src/Bot/Crank.antt =====
-- bot/cranker.go: the permissionless calls that the protocol needs someone to make.
pub mod Finalize
pub mod Mirror
pub mod Laws
pub mod Follows
use gnoracle.Base.{
  ℕ, ℤ, pos, ltb_ℤ, leb_ℤ, eqb_ℤ, Bool, true, false, ◌&&◌, ◌||◌, not, List, [], ◌∷◌, ◌++◌, Option,
  none, some, if◌then◌else◌, str_eq,
}
use gnoracle.Base.Int64.{sub64, div64}
use gnoracle.Base.Text.{Bytes, codes}
use gnoracle.Agent.Config.{second}
use gnoracle.Bot.Chain.{Chain, Effect}
use gnoracle.Bot.Config.{Config, Params}
use gnoracle.Bot.State.{State}
use Finalize.{Bot, Cranked, crank_finalize}
use Mirror.{crank_resolve, crank_kourt, crank_settle}

abbrev seconds : ℤ → ℤ
seconds d = div64 d (pos second)

abbrev then_also : Cranked → (Bot → Cranked) → Cranked
then_also c next = let c' = next c.bot in record c' { log = c.log ++ c'.log }

module _ (unquote : Bytes → Option Bytes) (cfg : Config) (p : Params) (chain : Chain) where
  abbrev nothing : Bot → Cranked
  nothing b = record { bot = b; log = [] }

  -- Whether a cadence is due at the clock.
  passed : ℤ → ℤ → Bool
  unfolding sub64 div64
  passed last every = leb_ℤ (seconds every) (sub64 chain.clock last)

  mirror_step : Bot → Cranked
  mirror_step b =
      if cfg.crank.kourt && passed b.state.last_kourt p.kourt_every
      then crank_kourt cfg chain (record b { state = record b.state { last_kourt = chain.clock } })
      else nothing b

  settle_step : Bot → Cranked
  settle_step b =
      if cfg.crank.settle && passed b.state.last_settle p.settle_every
      then crank_settle cfg chain
          (record b { state = record b.state { last_settle = chain.clock } })
      else nothing b

  finalize_step : Bot → Cranked
  finalize_step b = if cfg.crank.finalize then crank_finalize unquote p chain b else nothing b

  resolve_step : Bot → Cranked
  resolve_step b = if cfg.crank.resolve then crank_resolve p chain b else nothing b

  -- The enabled cranks in order; an error of one does not stop the next.
  crank_all : Bot → Cranked
  crank_all b =
      then_also (then_also (then_also (finalize_step b) resolve_step) mirror_step) settle_step

  pub crank : Bot → Cranked
  crank b = if not chain.can_sign then nothing b else crank_all b
