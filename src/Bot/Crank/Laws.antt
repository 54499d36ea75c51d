-- ===== src/Bot/Crank/Laws.antt =====
-- bot/cranker.go, crank: the reasons of its transactions.
use gnoracle.Base.{
  Bool, true, false, ◌&&◌, List, [], Option, some, ◌≡◌, ◌⊎◌, inl, inr, refl, arith, All, All-++,
  All-imp, if◌then◌else◌, Bool-cases, Option-cases,
}
use gnoracle.Base.Text.{Bytes}
use gnoracle.Gnochain.Views.Feeds.{Head, FeedSummary}
use gnoracle.Gnochain.Views.Votes.{DisputeInfo, DaoHead}
use gnoracle.Bot.Chain.{calls-++, Chain, Call, calls}
use gnoracle.Bot.Config.{Config, Params}
use gnoracle.Bot.Crank.{
  passed, mirror_step, settle_step, resolve_step, finalize_step, crank_all, crank, then_also,
}
use gnoracle.Bot.Crank.Finalize.{Bot, Cranked, crank_finalize}
use gnoracle.Bot.Crank.Finalize.Laws.{Rightful, crank_finalize-calls}
use gnoracle.Bot.Crank.Mirror.{
  crank_resolve, crank_kourt, crank_settle, resolve_all, kourt_all, settle_all,
}
use gnoracle.Bot.Crank.Mirror.Laws.{
  Resolves, resolve_all-calls, Mirrors, kourt_all-calls, Settles, settle_all-calls,
}

module _ (unquote : Bytes → Option Bytes) (cfg : Config) (p : Params) (chain : Chain) where
  -- Why the bot sends a transaction: a feed to finalise, a dispute to move on, a mirror to advance, or
  -- a member to settle, each of a list that was read, and each where its crank is enabled.
  pub data Reason (c : Call) : Type 0 where
    finalizes :
        (fs : List FeedSummary) (head : Head)
        → cfg.crank.finalize ≡ true
        → chain.all_feeds ≡ some fs
        → chain.core_now ≡ some head
        → Rightful unquote p chain head.now fs c
        → Reason c
    resolves :
        (ds : List DisputeInfo)
        → cfg.crank.resolve ≡ true
        → chain.all_disputes ≡ some ds
        → Resolves p chain ds c
        → Reason c
    mirrors :
        (ds : List DisputeInfo)
        → cfg.crank.kourt ≡ true
        → chain.all_disputes ≡ some ds
        → Mirrors cfg chain ds c
        → Reason c
    settles :
        (head : DaoHead)
        → cfg.crank.settle ≡ true
        → chain.dao_now ≡ some head
        → Settles cfg chain head.ballot_count cfg.members c
        → Reason c

  no_calls : All Reason (calls [])
  unfolding calls
  no_calls = tt

  finalize-Reason :
      (b : Bot)
      → cfg.crank.finalize ≡ true
      → All Reason (calls (crank_finalize unquote p chain b).log)
  finalize-Reason b enabled = elim (crank_finalize-calls unquote p chain b) [
    | inl quiet ↦ rw quiet tt
    | inr (fs, head, e, e', h) ↦ All-imp _ _ _ (λ c r. finalizes fs head enabled e e' r) h
  ]

  resolve-Reason :
      (b : Bot) → cfg.crank.resolve ≡ true → All Reason (calls (crank_resolve p chain b).log)
  unfolding crank_resolve
  resolve-Reason b enabled = elim (Option-cases chain.all_disputes) [
    | inl unread ↦
        let quiet : (crank_resolve p chain b).log ≡ [] = ground (arith, unread) in rw quiet no_calls
    | inr (ds, e) ↦
        let all : crank_resolve p chain b ≡ resolve_all p chain ds b = ground (arith, e) in
        rw all (All-imp _ _ _ (λ c r. resolves ds enabled e r) (resolve_all-calls p chain ds b))
  ]

  mirror-Reason :
      (b : Bot) → cfg.crank.kourt ≡ true → All Reason (calls (crank_kourt cfg chain b).log)
  unfolding crank_kourt
  mirror-Reason b enabled = elim (Option-cases chain.all_disputes) [
    | inl unread ↦
        let quiet : (crank_kourt cfg chain b).log ≡ [] = ground (arith, unread) in rw quiet no_calls
    | inr (ds, e) ↦
        let all : crank_kourt cfg chain b ≡ kourt_all cfg chain ds b = ground (arith, e) in
        rw all (All-imp _ _ _ (λ c r. mirrors ds enabled e r) (kourt_all-calls cfg chain ds b))
  ]

  settle-Reason :
      (b : Bot) → cfg.crank.settle ≡ true → All Reason (calls (crank_settle cfg chain b).log)
  unfolding crank_settle
  settle-Reason b enabled = elim (Option-cases chain.dao_now) [
    | inl unread ↦
        let quiet : (crank_settle cfg chain b).log ≡ [] = ground (arith, unread) in
        rw quiet no_calls
    | inr (head, e) ↦
        let all : (crank_settle cfg chain b).log
            ≡ settle_all cfg chain head.ballot_count cfg.members =
          ground (arith, e) in
        rw all (
          All-imp _ _ _ (λ c r. settles head enabled e r)
            (settle_all-calls cfg chain head.ballot_count cfg.members))
  ]

  -- A step behind what was done so far.
  also-Reason :
      (c : Cranked) (next : Bot → Cranked)
      → All Reason (calls c.log)
      → ((b : Bot) → All Reason (calls (next b).log))
      → All Reason (calls (then_also c next).log)
  also-Reason c next h k = rw calls-++ (All-++ Reason (calls c.log) _ h (k c.bot))

  -- A crank behind its gate.
  gated :
      (gate : Bool) (c : Cranked) (b : Bot)
      → (gate ≡ true → All Reason (calls c.log))
      → All Reason (calls (if gate then c else record { bot = b; log = [] }).log)
  unfolding calls
  gated true c b h = h refl
  gated false c b h = tt

  both_gates : (x y : Bool) → x && y ≡ true → x ≡ true
  both_gates x y h = ground arith

  finalize_step-Reason : (b : Bot) → All Reason (calls (finalize_step unquote cfg p chain b).log)
  unfolding finalize_step
  finalize_step-Reason b = gated cfg.crank.finalize _ b (λ e. finalize-Reason b e)

  resolve_step-Reason : (b : Bot) → All Reason (calls (resolve_step unquote cfg p chain b).log)
  unfolding resolve_step
  resolve_step-Reason b = gated cfg.crank.resolve _ b (λ e. resolve-Reason b e)

  mirror_step-Reason : (b : Bot) → All Reason (calls (mirror_step unquote cfg p chain b).log)
  unfolding mirror_step
  mirror_step-Reason b =
      gated (cfg.crank.kourt && passed unquote cfg p chain b.state.last_kourt p.kourt_every) _ b
        (λ e. mirror-Reason _ (both_gates _ _ e))

  settle_step-Reason : (b : Bot) → All Reason (calls (settle_step unquote cfg p chain b).log)
  unfolding settle_step
  settle_step-Reason b =
      gated (cfg.crank.settle && passed unquote cfg p chain b.state.last_settle p.settle_every) _ b
        (λ e. settle-Reason _ (both_gates _ _ e))

  crank_all-Reason : (b : Bot) → All Reason (calls (crank_all unquote cfg p chain b).log)
  unfolding crank_all
  crank_all-Reason b =
      let finalize = finalize_step unquote cfg p chain in
      let resolve = resolve_step unquote cfg p chain in
      let mirror = mirror_step unquote cfg p chain in
      let settle = settle_step unquote cfg p chain in
      let c1 = then_also (finalize b) resolve in
      let c2 = then_also c1 mirror in
      let h1 = also-Reason (finalize b) resolve (finalize_step-Reason b) resolve_step-Reason in
      let h2 = also-Reason c1 mirror h1 mirror_step-Reason in
      also-Reason c2 settle h2 settle_step-Reason

  -- Every transaction of a crank pass has its reason, and a client that cannot sign sends none.
  pub crank-Reason :
      (b : Bot)
      → ((chain.can_sign ≡ true) ⊎ (calls (crank unquote cfg p chain b).log ≡ []))
        × All Reason (calls (crank unquote cfg p chain b).log)
  unfolding crank calls
  crank-Reason b = elim (Bool-cases chain.can_sign) [
    | inl signs ↦
        let all : crank unquote cfg p chain b ≡ crank_all unquote cfg p chain b =
          ground (arith, signs) in
        (inl signs, rw all (crank_all-Reason b))
    | inr mute ↦
        let quiet : (crank unquote cfg p chain b).log ≡ [] = ground (arith, mute) in
        (inr (rw quiet refl), rw quiet no_calls)
  ]
