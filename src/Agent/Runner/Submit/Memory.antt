-- ===== src/Agent/Runner/Submit/Memory.antt =====
-- agent/agent.go, submit: what it does to the memory.
use gnoracle.Base.{
  ℕ, leb, ℤ, false, ◌&&◌, List, [], ◌∷◌, ◌++◌, ◌≡◌, inl, inr, arith, refl, Bool-cases, Option-cases,
  subst, sym,
}
use gnoracle.Base.Result.{Result-cases}
use gnoracle.Gnochain.Broadcast.{TxResult}
use gnoracle.Gnochain.Views.Feeds.{FeedInfo}
use gnoracle.Agent.Store.{FeedState, State, snapshot}
use gnoracle.Agent.Runner.Defs.{
  Settings, Runner, Replies, Effect, accepted, is_saved, journal, fetched, overridden, deviates,
  Refusal, refusal, refusal_alert, is_refused, submit_call, save, submitted, submit_error,
}
use gnoracle.Agent.Runner.Marks.{
  mark, Reaches, accepted-append, is_saved-append, Accounts, Accounts-same, Accounts-update,
}
use gnoracle.Agent.Runner.Submit.{
  submit, fetch, checked, send, refuse, strays, remember, value_of, Fetched, refused_as, no_value,
  unfit,
}

module _ (s : Settings) (replies : Replies) (f : FeedInfo) (round : ℕ) (start : ℤ) where
  -- A memory of this schedule that does not hold the round.
  unfoldable pub IsFresh : FeedState → Type 0
  IsFresh fs = (fs.start_at ≡ start) × ((fs.has_round && leb round fs.last_round) ≡ false)

  mark-remember :
      (v : ℤ) (res : TxResult) (fs : FeedState)
      → IsFresh fs
      → Reaches (mark start fs) (round ∷ []) (mark start (remember s replies f round v res fs))
  unfolding IsFresh Reaches remember
  mark-remember v res fs (same, fresh) = ground (arith, same, fresh)

  refuse-Accounts :
      (why : Refusal) (r : Runner) (store : State) (log : List Effect)
      → accepted log ≡ []
      → let t = refuse s replies f round why r store log in
        Accounts s.feed_id start store t.store t.log
  unfolding refuse accepted
  refuse-Accounts why r store log h =
      let noted = journal (refusal round why replies.samples) ∷ [] in
      elim (Bool-cases (is_refused round r.refused)) [
        | inl again ↦ rw again (
            Accounts-same s.feed_id start store (log ++ noted)
              (rw (accepted-append log noted, h) refl))
        | inr first ↦ rw first (
            Accounts-same s.feed_id start store (log ++ (noted ++ refusal_alert round why ∷ []))
              (rw (accepted-append log (noted ++ refusal_alert round why ∷ []), h) refl))
      ]

  send-Accounts :
      (v headroom : ℤ) (r : Runner) (store : State) (log : List Effect)
      → accepted log ≡ []
      → IsFresh (snapshot s.feed_id store)
      → let t = send s replies f round v headroom r store log in
        Accounts s.feed_id start store t.store t.log
  unfolding send accepted is_saved
  send-Accounts v headroom r store log h fresh =
      let sent = log ++ submit_call round v headroom ∷ [] in
      let quiet : accepted sent ≡ [] = rw (accepted-append log _, h) refl in
      elim (Result-cases replies.submit) [
        | inl (res, e) ↦
            let noted = save ∷ journal (submitted round v res) ∷ [] in
            let all : accepted (sent ++ noted) ≡ round ∷ [] =
              rw (accepted-append sent noted, quiet) refl in
            rw e (
              Accounts-update s.feed_id start store (remember s replies f round v res)
                (sent ++ noted) (inl (ground (arith, is_saved-append sent noted)))
                (subst
                  (λ cs.
                    Reaches (mark start (snapshot s.feed_id store)) cs
                      (mark start (remember s replies f round v res (snapshot s.feed_id store))))
                  (sym all) (mark-remember v res (snapshot s.feed_id store) fresh)))
        | inr (er, e) ↦
            let noted = journal (submit_error round v er) ∷ [] in
            rw e (
              Accounts-same s.feed_id start store (sent ++ noted)
                (rw (accepted-append sent noted, quiet) refl))
      ]

  checked-Accounts :
      (v : ℤ) (st : FeedState) (headroom : ℤ) (r : Runner) (store : State)
      → IsFresh (snapshot s.feed_id store)
      → let t = checked s replies f round v st headroom r store in
        Accounts s.feed_id start store t.store t.log
  unfolding checked accepted
  checked-Accounts v st headroom r store fresh =
      let log = journal (fetched round v replies.samples) ∷ [] in
      elim (Option-cases (strays s replies f round st v)) [
        | inl near ↦ rw (checked, near) (send-Accounts v headroom r store log refl fresh)
        | inr (ref, far) ↦ elim (Bool-cases s.override) [
          | inl over ↦
              rw (checked, far, over)
                (send-Accounts v headroom r store (log ++ journal (overridden round v ref) ∷ [])
                  refl fresh)
          | inr kept ↦ rw (checked, far, kept) (refuse-Accounts (deviates v ref) r store log refl)
        ]
      ]

  fetched-Accounts :
      (o : Fetched)
      → fetch s replies f round ≡ o
      → (st : FeedState) (headroom : ℤ) (r : Runner) (store : State)
      → IsFresh (snapshot s.feed_id store)
      → let t = submit s replies f round st headroom r store in
        Accounts s.feed_id start store t.store t.log
  unfolding submit accepted
  fetched-Accounts (value_of v) e st headroom r store fresh =
      rw (submit, e) (checked-Accounts v st headroom r store fresh)
  fetched-Accounts (refused_as why) e st headroom r store fresh =
      rw (submit, e) (refuse-Accounts why r store [] refl)
  fetched-Accounts unfit e st headroom r store fresh =
      rw (submit, e) (Accounts-same s.feed_id start store [] refl)
  fetched-Accounts (no_value er) e st headroom r store fresh =
      rw (submit, e)
        (elim (Bool-cases s.from_file) [
          | inl file ↦ rw file (Accounts-same s.feed_id start store _ refl)
          | inr other ↦ rw other (Accounts-same s.feed_id start store _ refl)
        ])

  -- Whatever the chain answers, an accepted submission is remembered at once, and nothing else
  -- changes the memory.
  pub submit-Accounts :
      (st : FeedState) (headroom : ℤ) (r : Runner) (store : State)
      → IsFresh (snapshot s.feed_id store)
      → let t = submit s replies f round st headroom r store in
        Accounts s.feed_id start store t.store t.log
  submit-Accounts = fetched-Accounts _ refl
