-- ===== src/Bot/Crank/Follows.antt =====
-- crank of bot/cranker.go: what a crank pass makes of the memory.
use gnoracle.Base.{◌≡◌, ◌⊎◌, ℤ, Bool, true, false, ◌&&◌, [], Option, arith, refl, if◌then◌else◌}
use gnoracle.Base.Text.{Bytes}
use gnoracle.Bot.Chain.{Chain}
use gnoracle.Bot.Config.{Config, Params}
use gnoracle.Bot.State.{State}
use gnoracle.Bot.State.Laws.{Follows, either-Follows, moved-Follows}
use gnoracle.Bot.Crank.{
  passed, mirror_step, settle_step, resolve_step, finalize_step, crank_all, crank,
}
use gnoracle.Bot.Crank.Finalize.{Bot, Cranked}
use gnoracle.Bot.Crank.Finalize.Follows.{crank_finalize-Follows}
use gnoracle.Bot.Crank.Mirror.Follows.{
  crank_resolve-Follows, crank_kourt-Follows, crank_settle-Follows,
}

-- A step that runs behind a gate.
pub gated-Follows :
    {from : State} {now : ℤ} (gate : Bool) (c : Cranked) (b : Bot)
    → Follows from now b.state
    → Follows from now c.bot.state
    → Follows from now (if gate then c else record { bot = b; log = [] }).bot.state
gated-Follows true c b h h' = h'
gated-Follows false c b h h' = h

module _ (unquote : Bytes → Option Bytes) (cfg : Config) (p : Params) (chain : Chain) where
  crank_cases :
      (b : Bot)
      → let s' = (crank unquote cfg p chain b).bot.state in
        (s' ≡ b.state) ⊎ (s' ≡ (crank_all unquote cfg p chain b).bot.state)
  unfolding crank
  crank_cases b = ground arith

module _ {from : State} (unquote : Bytes → Option Bytes) (cfg : Config) (p : Params)
    (chain : Chain) where
  finalize_step-Follows :
      (b : Bot)
      → Follows from chain.clock b.state
      → Follows from chain.clock (finalize_step unquote cfg p chain b).bot.state
  unfolding finalize_step
  finalize_step-Follows b h =
      gated-Follows cfg.crank.finalize _ b h (crank_finalize-Follows unquote p chain b h)

  resolve_step-Follows :
      (b : Bot)
      → Follows from chain.clock b.state
      → Follows from chain.clock (resolve_step unquote cfg p chain b).bot.state
  unfolding resolve_step
  resolve_step-Follows b h =
      gated-Follows cfg.crank.resolve _ b h (crank_resolve-Follows p chain b h)

  mirror_step-Follows :
      (b : Bot)
      → Follows from chain.clock b.state
      → Follows from chain.clock (mirror_step unquote cfg p chain b).bot.state
  unfolding mirror_step
  mirror_step-Follows b h =
      gated-Follows (cfg.crank.kourt && passed unquote cfg p chain b.state.last_kourt p.kourt_every)
        _ b h (crank_kourt-Follows cfg chain _ (moved-Follows b.state _ refl refl h))

  settle_step-Follows :
      (b : Bot)
      → Follows from chain.clock b.state
      → Follows from chain.clock (settle_step unquote cfg p chain b).bot.state
  unfolding settle_step
  settle_step-Follows b h =
      gated-Follows
        (cfg.crank.settle && passed unquote cfg p chain b.state.last_settle p.settle_every) _ b h
        (crank_settle-Follows cfg chain _ (moved-Follows b.state _ refl refl h))

  crank_all-Follows :
      (b : Bot)
      → Follows from chain.clock b.state
      → Follows from chain.clock (crank_all unquote cfg p chain b).bot.state
  unfolding crank_all
  crank_all-Follows b h =
      let h1 = finalize_step-Follows b h in
      let h2 = resolve_step-Follows _ h1 in
      let h3 = mirror_step-Follows _ h2 in settle_step-Follows _ h3

  pub crank-Follows :
      (b : Bot)
      → Follows from chain.clock b.state
      → Follows from chain.clock (crank unquote cfg p chain b).bot.state
  crank-Follows b h =
      either-Follows _ b.state _ (crank_cases unquote cfg p chain b) h (crank_all-Follows b h)
