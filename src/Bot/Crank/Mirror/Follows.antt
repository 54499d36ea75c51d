-- ===== src/Bot/Crank/Mirror/Follows.antt =====
-- crankResolve, crankKourt and crankSettle of bot/cranker.go: what they make of the memory.
use gnoracle.Base.{◌≡◌, ◌⊎◌, pos, List, [], ◌∷◌, ◌++◌, arith, inl, inr, Option-cases}
use gnoracle.Base.Int64.{div64}
use gnoracle.Base.Text.{codes}
use gnoracle.Base.Text.Decimal.{format_uint}
use gnoracle.Gnochain.Views.Votes.{DisputeInfo}
use gnoracle.Agent.Config.{second}
use gnoracle.Bot.Chain.{Chain}
use gnoracle.Bot.Config.{Config, Params}
use gnoracle.Bot.State.{State, due}
use gnoracle.Bot.State.Laws.{Follows, either-Follows, due-Follows}
use gnoracle.Bot.Crank.Finalize.{Bot}
use gnoracle.Bot.Crank.Mirror.{
  resolve_one, resolve_all, crank_resolve, kourt_one, kourt_all, crank_kourt, crank_settle,
  resolve_key,
}

module _ (p : Params) (chain : Chain) where
  resolve_one_cases :
      (d : DisputeInfo) (b : Bot)
      → let s' = (resolve_one p chain d b).bot.state in
        (s' ≡ b.state)
        ⊎ (s'
            ≡ (due
                (resolve_key p chain d)
                (div64 p.crank_every (pos second))
                chain.clock
                b.state).0)
  unfolding resolve_one
  resolve_one_cases d b = ground arith

module _ (cfg : Config) (chain : Chain) where
  kourt_one_cases :
      (d : DisputeInfo) (b : Bot)
      → let s' = (kourt_one cfg chain d b).bot.state in
        (s' ≡ b.state)
        ⊎ (s'
            ≡ (due
                (codes "kourt-contested:" ++ format_uint d.id)
                (pos 86400)
                chain.clock
                b.state).0)
  unfolding kourt_one
  kourt_one_cases d b = ground arith

module _ {from : State} (p : Params) (chain : Chain) where
  resolve_one-Follows :
      (d : DisputeInfo) (b : Bot)
      → Follows from chain.clock b.state
      → Follows from chain.clock (resolve_one p chain d b).bot.state
  resolve_one-Follows d b h =
      either-Follows _ b.state _ (resolve_one_cases p chain d b) h
        (due-Follows (resolve_key p chain d) (div64 p.crank_every (pos second)) b.state h)

  resolve_all-Follows :
      (ds : List DisputeInfo) (b : Bot)
      → Follows from chain.clock b.state
      → Follows from chain.clock (resolve_all p chain ds b).bot.state
  unfolding resolve_all
  resolve_all-Follows [] b h = h
  resolve_all-Follows (d ∷ ds) b h = resolve_all-Follows ds _ (resolve_one-Follows d b h)

  pub crank_resolve-Follows :
      (b : Bot)
      → Follows from chain.clock b.state
      → Follows from chain.clock (crank_resolve p chain b).bot.state
  unfolding crank_resolve
  crank_resolve-Follows b h = elim (Option-cases chain.all_disputes) [
    | inl unread ↦ rw (crank_resolve, unread) h
    | inr (ds, e) ↦ rw (crank_resolve, e) (resolve_all-Follows ds b h)
  ]

module _ {from : State} (cfg : Config) (chain : Chain) where
  kourt_one-Follows :
      (d : DisputeInfo) (b : Bot)
      → Follows from chain.clock b.state
      → Follows from chain.clock (kourt_one cfg chain d b).bot.state
  kourt_one-Follows d b h =
      either-Follows _ b.state _ (kourt_one_cases cfg chain d b) h
        (due-Follows (codes "kourt-contested:" ++ format_uint d.id) (pos 86400) b.state h)

  kourt_all-Follows :
      (ds : List DisputeInfo) (b : Bot)
      → Follows from chain.clock b.state
      → Follows from chain.clock (kourt_all cfg chain ds b).bot.state
  unfolding kourt_all
  kourt_all-Follows [] b h = h
  kourt_all-Follows (d ∷ ds) b h = kourt_all-Follows ds _ (kourt_one-Follows d b h)

  pub crank_kourt-Follows :
      (b : Bot)
      → Follows from chain.clock b.state
      → Follows from chain.clock (crank_kourt cfg chain b).bot.state
  unfolding crank_kourt
  crank_kourt-Follows b h = elim (Option-cases chain.all_disputes) [
    | inl unread ↦ rw (crank_kourt, unread) h
    | inr (ds, e) ↦ rw (crank_kourt, e) (kourt_all-Follows ds b h)
  ]

  pub crank_settle-Follows :
      (b : Bot)
      → Follows from chain.clock b.state
      → Follows from chain.clock (crank_settle cfg chain b).bot.state
  unfolding crank_settle
  crank_settle-Follows b h = elim (Option-cases chain.dao_now) [
    | inl unread ↦ rw (crank_settle, unread) h
    | inr (head, e) ↦ rw (crank_settle, e) h
  ]
