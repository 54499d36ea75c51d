-- ===== src/Agent/Runner/Tick/Live.antt =====
-- The branch of tick of agent/agent.go on which a round is submitted.
use gnoracle.Base.{
  ℕ, leb, ℤ, true, false, ◌&&◌, [], ◌∷◌, ◌++◌, Option, none, ◌≡◌, refl, arith, String, ap, ◌∙◌,
}
use gnoracle.Base.Result.{ok}
use gnoracle.Base.Text.{Bytes}
use gnoracle.Gnochain.Broadcast.{TxResult}
use gnoracle.Gnochain.Views.Feeds.{FeedInfo, RoundInfo, feed_schedule, has_submitted}
use gnoracle.Agent.Store.{FeedState, State}
use gnoracle.Agent.Runner.Defs.{Settings, Runner, Replies, got, accepted}
use gnoracle.Agent.Runner.Marks.{accepted-append}
use gnoracle.Agent.Runner.Submit.{submit, fetch, strays, value_of}
use gnoracle.Agent.Runner.Submit.Live.{submit-accepts}
use gnoracle.Agent.Runner.Tick.Remember.{crank_closed-accepts}
use gnoracle.Agent.Runner.Tick.{
  submit_read, in_window, headroom, submit_open, crank_closed, claim_rewards, serve,
}

module _ (unquote : Bytes → Option Bytes) (s : Settings) (me : String) (replies : Replies) where
  claim_rewards-accepts :
      (now : ℤ) (st : FeedState) (r : Runner) (store : State)
      → accepted (claim_rewards unquote s me replies now st r store).log ≡ []
  unfolding claim_rewards accepted
  claim_rewards-accepts now st r store = ground arith

  -- What is asked of the round and its value.
  pub record IsReady (f : FeedInfo) (cur : ℕ) (now slot : ℤ) (st : FeedState) : Type 0 where
    pub rd : RoundInfo
    pub v : ℤ
    pub res : TxResult
    pub fresh : (st.has_round && leb cur st.last_round) ≡ false
    pub opened : in_window unquote s me replies (feed_schedule f) cur now ≡ true
    pub read : replies.current_round ≡ got rd
    pub unset : has_submitted rd slot ≡ false
    pub value : fetch s replies f cur ≡ value_of v
    pub near : strays s replies f cur st v ≡ none
    pub taken : replies.submit ≡ ok res

  submit_read-log :
      (f : FeedInfo) (cur : ℕ) (slot : ℤ) (st : FeedState) (r : Runner) (store : State)
      (rd : RoundInfo)
      → replies.current_round ≡ got rd
      → has_submitted rd slot ≡ false
      → (submit_read unquote s me replies f cur slot st r store).log
        ≡ (submit s replies f cur st (headroom unquote s me replies f rd) r store).log
  unfolding submit_read
  submit_read-log f cur slot st r store rd read unset = ground (arith, read, unset)

  read_log :
      (f : FeedInfo) (cur : ℕ) (now slot : ℤ) (st : FeedState) (r : Runner) (store : State)
      (h : IsReady f cur now slot st)
      → (submit_open unquote s me replies f (feed_schedule f) cur now slot st r store).log
        ≡ (submit s replies f cur st (headroom unquote s me replies f h.rd) r store).log
  unfolding submit_open
  read_log f cur now slot st r store h =
      rw (h.fresh, h.opened) (submit_read-log f cur slot st r store h.rd h.read h.unset)

  submit_open-accepts :
      (f : FeedInfo) (cur : ℕ) (now slot : ℤ) (st : FeedState) (r : Runner) (store : State)
      → IsReady f cur now slot st
      → accepted (submit_open unquote s me replies f (feed_schedule f) cur now slot st r store).log
        ≡ cur ∷ []
  submit_open-accepts f cur now slot st r store h =
      let sub = submit s replies f cur st (headroom unquote s me replies f h.rd) r store in
      let same : (submit_open unquote s me replies f (feed_schedule f) cur now slot st r store).log
          ≡ sub.log =
        read_log f cur now slot st r store h in
      ap accepted same
      ∙ submit-accepts s replies f cur h.v st (headroom unquote s me replies f h.rd) r store h.res
          h.value h.near h.taken

  -- A pass over an obliged provider, in the window of a round that the memory has open, has the
  -- chain accept that round once and no other, when the round is read without the bit of the slot,
  -- the sources agree on a value, the value is within the band around the last one, and the chain
  -- takes the submission.
  pub serve-accepts :
      (f : FeedInfo) (cur : ℕ) (now slot : ℤ) (st : FeedState) (r : Runner) (store : State)
      → IsReady f cur now slot st
      → accepted (serve unquote s me replies f (feed_schedule f) cur now slot st r store).log
        ≡ cur ∷ []
  unfolding serve
  serve-accepts f cur now slot st r store h =
      let (r1, log1) = crank_closed unquote s me replies f (feed_schedule f) cur now slot r in
      let sub = submit_open unquote s me replies f (feed_schedule f) cur now slot st r1 store in
      let end = claim_rewards unquote s me replies now st sub.runner sub.store in
      accepted-append (log1 ++ sub.log) end.log
      ∙ rw
          (
            accepted-append log1 sub.log,
            crank_closed-accepts unquote s me replies f.start_at f cur now slot r,
            submit_open-accepts f cur now slot st r1 store h,
            claim_rewards-accepts now st sub.runner sub.store,
          )
          refl
