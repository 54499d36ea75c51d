-- ===== src/Agent/Runner/Submit/Live.antt =====
-- The branch of submit of agent/agent.go on which the chain takes a value.
use gnoracle.Base.{ℕ, ℤ, List, [], ◌∷◌, ◌++◌, none, ◌≡◌, refl}
use gnoracle.Base.Result.{ok}
use gnoracle.Gnochain.Broadcast.{TxResult}
use gnoracle.Gnochain.Views.Feeds.{FeedInfo}
use gnoracle.Agent.Store.{FeedState, State}
use gnoracle.Agent.Runner.Defs.{
  Settings, Runner, Replies, Effect, accepted, journal, fetched, submit_call,
}
use gnoracle.Agent.Runner.Marks.{accepted-append}
use gnoracle.Agent.Runner.Submit.{submit, fetch, checked, send, strays, value_of}

module _ (s : Settings) (replies : Replies) (f : FeedInfo) (round : ℕ) where
  send-accepts :
      (v headroom : ℤ) (r : Runner) (store : State) (log : List Effect) (res : TxResult)
      → accepted log ≡ []
      → replies.submit ≡ ok res
      → accepted (send s replies f round v headroom r store log).log ≡ round ∷ []
  unfolding send accepted
  send-accepts v headroom r store log res h e =
      let sent = log ++ submit_call round v headroom ∷ [] in
      rw (e, accepted-append sent _, accepted-append log _, h) refl

  -- A value that the sources agree on, within the band, and that the chain takes, is accepted.
  pub submit-accepts :
      (v : ℤ) (st : FeedState) (headroom : ℤ) (r : Runner) (store : State) (res : TxResult)
      → fetch s replies f round ≡ value_of v
      → strays s replies f round st v ≡ none
      → replies.submit ≡ ok res
      → accepted (submit s replies f round st headroom r store).log ≡ round ∷ []
  unfolding submit checked accepted
  submit-accepts v st headroom r store res value near e =
      rw (submit, value, checked, near)
        (send-accepts v headroom r store (journal (fetched round v replies.samples) ∷ []) res refl
          e)
