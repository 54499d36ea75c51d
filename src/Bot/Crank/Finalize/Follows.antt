-- ===== src/Bot/Crank/Finalize/Follows.antt =====
-- crankFinalize of bot/cranker.go: what it makes of the memory.
use gnoracle.Base.{◌≡◌, ◌⊎◌, ℤ, pos, List, [], ◌∷◌, Option, arith, inl, inr, Option-cases}
use gnoracle.Base.Int64.{div64}
use gnoracle.Base.Text.{Bytes}
use gnoracle.Gnochain.Views.Feeds.{FeedSummary}
use gnoracle.Agent.Config.{second}
use gnoracle.Bot.Chain.{Chain}
use gnoracle.Bot.Config.{Params}
use gnoracle.Bot.State.{State, due}
use gnoracle.Bot.State.Laws.{Follows, either-Follows, due-Follows}
use gnoracle.Bot.Crank.Finalize.{
  Bot, try, finalize_key, finalize_feed, finalize_feeds, crank_finalize,
}

module _ (unquote : Bytes → Option Bytes) (p : Params) (chain : Chain) where
  finalize_feed_cases :
      (now : ℤ) (f : FeedSummary) (b : Bot)
      → let s' = (finalize_feed unquote p chain now f b).bot.state in
        (s' ≡ b.state)
        ⊎ (s'
            ≡ (due
                (finalize_key unquote p chain f.id)
                (div64 p.crank_every (pos second))
                chain.clock
                b.state).0)
  unfolding finalize_feed try
  finalize_feed_cases now f b = ground arith

module _ {from : State} (unquote : Bytes → Option Bytes) (p : Params) (chain : Chain) where
  finalize_feed-Follows :
      (now : ℤ) (f : FeedSummary) (b : Bot)
      → Follows from chain.clock b.state
      → Follows from chain.clock (finalize_feed unquote p chain now f b).bot.state
  finalize_feed-Follows now f b h =
      either-Follows _ b.state _ (finalize_feed_cases unquote p chain now f b) h (
        due-Follows (finalize_key unquote p chain f.id) (div64 p.crank_every (pos second)) b.state
          h)

  finalize_feeds-Follows :
      (now : ℤ) (fs : List FeedSummary) (b : Bot)
      → Follows from chain.clock b.state
      → Follows from chain.clock (finalize_feeds unquote p chain now fs b).bot.state
  unfolding finalize_feeds
  finalize_feeds-Follows now [] b h = h
  finalize_feeds-Follows now (f ∷ fs) b h =
      finalize_feeds-Follows now fs _ (finalize_feed-Follows now f b h)

  pub crank_finalize-Follows :
      (b : Bot)
      → Follows from chain.clock b.state
      → Follows from chain.clock (crank_finalize unquote p chain b).bot.state
  unfolding crank_finalize
  crank_finalize-Follows b h = elim (Option-cases chain.all_feeds) [
    | inl unlisted ↦ rw (crank_finalize, unlisted) h
    | inr (fs, e) ↦ elim (Option-cases chain.core_now) [
      | inl unknown ↦ rw (crank_finalize, e, unknown) h
      | inr (head, e') ↦ rw (crank_finalize, e, e') (finalize_feeds-Follows head.now fs b h)
    ]
  ]
