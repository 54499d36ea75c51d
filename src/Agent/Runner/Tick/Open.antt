-- ===== src/Agent/Runner/Tick/Open.antt =====
-- What serving an obliged round submits.
use gnoracle.Base.{
  ℕ, ℤ, true, false, List, [], ◌∷◌, ◌++◌, Option, none, String, leb, ◌&&◌, ◌≡◌, ◌⊎◌, inl, inr,
  arith, refl, ap, ◌∙◌, Bool-cases,
}
use gnoracle.Base.Text.{Bytes}
use gnoracle.Gnochain.Schedule.{Schedule}
use gnoracle.Gnochain.Views.Feeds.{FeedInfo, RoundInfo, feed_schedule, has_submitted}
use gnoracle.Agent.Store.{FeedState, State}
use gnoracle.Agent.Runner.Defs.{
  Settings, Runner, Replies, Reply, got, view_error, lost, Effect, submissions,
}
use gnoracle.Agent.Runner.Crank.Laws.{crank-IsQuiet}
use gnoracle.Agent.Runner.Submit.Laws.{submissions-append, Agreed, Sends, submit_sound}
use gnoracle.Agent.Runner.Submit.{strays}
use gnoracle.Agent.Runner.Tick.{
  Ticked, submit_read, submit_open, claim_rewards, crank_closed, serve, in_window, headroom,
  too_late,
}

++-[] : {A : Type 0} (xs : List A) → xs ++ [] ≡ xs
++-[] [] = refl
++-[] (x ∷ xs) = ap (◌∷◌ x) (++-[] xs)

module _ (unquote : Bytes → Option Bytes) (s : Settings) (me : String) (replies : Replies) where
  -- One submission for the round, in its window, by the round's reading without this slot's bit, of
  -- the agreed value, and for a round that the memory does not hold.
  pub Sent : FeedInfo → ℕ → ℤ → ℤ → FeedState → List (ℕ × ℤ × ℤ) → Type 0
  Sent f cur now slot st sent =
      (rd : RoundInfo) × (v : ℤ) × (sent ≡ (cur, v, headroom unquote s me replies f rd) ∷ [])
      × (replies.current_round ≡ got rd)
      × (has_submitted rd slot ≡ false)
      × (in_window unquote s me replies (feed_schedule f) cur now ≡ true)
      × ((st.has_round && leb cur st.last_round) ≡ false)
      × Agreed s replies f cur v
      × ((strays s replies f cur st v ≡ none) ⊎ (s.override ≡ true))

  pub Reply-cases :
      {A : Type 0} (r : Reply A) → ((a : A) × (r ≡ got a)) ⊎ ((r ≡ view_error) ⊎ (r ≡ lost))
  Reply-cases (got a) = inl (a, refl)
  Reply-cases view_error = inr (inl refl)
  Reply-cases lost = inr (inr refl)

  submit_read-Sent :
      (f : FeedInfo) (cur : ℕ) (now slot : ℤ) (st : FeedState) (r : Runner) (store : State)
      → in_window unquote s me replies (feed_schedule f) cur now ≡ true
      → (st.has_round && leb cur st.last_round) ≡ false
      → let log = (submit_read unquote s me replies f cur slot st r store).log in
        (submissions log ≡ []) ⊎ Sent f cur now slot st (submissions log)
  unfolding submissions Sent Sends submit_read headroom
  submit_read-Sent f cur now slot st r store opened fresh =
      elim (Reply-cases replies.current_round) [
        | inr (inl e) ↦ inl (rw (submit_read, e) refl)
        | inr (inr e) ↦ inl (rw (submit_read, e) refl)
        | inl (rd, e) ↦ elim (Bool-cases (has_submitted rd slot)) [
          | inl set ↦ inl (rw (submit_read, e, set) refl)
          | inr unset ↦
              elim (submit_sound s replies f cur st (headroom unquote s me replies f rd) r store) [
                | inl nothing ↦ inl (rw (submit_read, e, unset) nothing)
                | inr (v, sent, agreed, near) ↦
                    inr (
                      rd,
                      v,
                      rw (submit_read, e, unset) sent,
                      e,
                      unset,
                      opened,
                      fresh,
                      agreed,
                      near,
                    )
              ]
        ]
      ]

  submit_open-Sent :
      (f : FeedInfo) (cur : ℕ) (now slot : ℤ) (st : FeedState) (r : Runner) (store : State)
      → let log =
          (submit_open unquote s me replies f (feed_schedule f) cur now slot st r store).log in
        (submissions log ≡ []) ⊎ Sent f cur now slot st (submissions log)
  unfolding submit_open submissions
  submit_open-Sent f cur now slot st r store =
      elim (Bool-cases (st.has_round && leb cur st.last_round)) [
        | inl before ↦ inl (rw before refl)
        | inr fresh ↦ elim (Bool-cases (in_window unquote s me replies (feed_schedule f) cur now)) [
          | inl opened ↦
              rw (fresh, opened) (submit_read-Sent f cur now slot st r store opened fresh)
          | inr shut ↦ elim (Bool-cases (too_late unquote s me replies (feed_schedule f) cur now)) [
            | inl missed ↦ inl (rw (fresh, shut, missed) refl)
            | inr other ↦ inl (rw (fresh, shut, other) refl)
          ]
        ]
      ]

  claim_rewards-submits :
      (now : ℤ) (st : FeedState) (r : Runner) (store : State)
      → submissions (claim_rewards unquote s me replies now st r store).log ≡ []
  unfolding claim_rewards submissions
  claim_rewards-submits now st r store = ground arith

  pub crank_closed-submits :
      (f : FeedInfo) (sched : Schedule) (cur : ℕ) (now slot : ℤ) (r : Runner)
      → submissions (crank_closed unquote s me replies f sched cur now slot r).1 ≡ []
  unfolding crank_closed submissions
  crank_closed-submits f sched cur now slot r =
      ground (arith, (crank-IsQuiet unquote s replies f sched cur now slot r).0)

  around :
      (before log behind : List Effect)
      → submissions before ≡ []
      → submissions behind ≡ []
      → submissions ((before ++ log) ++ behind) ≡ submissions log
  around before log behind quiet quiet' =
      rw (submissions-append (before ++ log) behind, submissions-append before log, quiet, quiet')
        (++-[] (submissions log))

  -- A pass that submits nothing, or what it may.
  unfoldable pub Rightly : FeedInfo → ℕ → ℤ → ℤ → FeedState → List (ℕ × ℤ × ℤ) → Type 0
  Rightly f cur now slot st sent = (sent ≡ []) ⊎ Sent f cur now slot st sent

  open_log : FeedInfo → ℕ → ℤ → ℤ → FeedState → Runner → State → Ticked
  open_log f cur now slot st r store =
      let closed = crank_closed unquote s me replies f (feed_schedule f) cur now slot r in
      submit_open unquote s me replies f (feed_schedule f) cur now slot st closed.0 store

  serve-log :
      (f : FeedInfo) (cur : ℕ) (now slot : ℤ) (st : FeedState) (r : Runner) (store : State)
      → let closed = crank_closed unquote s me replies f (feed_schedule f) cur now slot r in
        let sub = open_log f cur now slot st r store in
        (serve unquote s me replies f (feed_schedule f) cur now slot st r store).log
        ≡ (closed.1 ++ sub.log)
          ++ (claim_rewards unquote s me replies now st sub.runner sub.store).log
  unfolding serve open_log
  serve-log f cur now slot st r store = refl

  pub serve-Rightly :
      (f : FeedInfo) (cur : ℕ) (now slot : ℤ) (st : FeedState) (r : Runner) (store : State)
      → Rightly f cur now slot st
          (submissions (serve unquote s me replies f (feed_schedule f) cur now slot st r store).log)
  unfolding Rightly open_log
  serve-Rightly f cur now slot st r store =
      let closed = crank_closed unquote s me replies f (feed_schedule f) cur now slot r in
      let sub = open_log f cur now slot st r store in
      let claimed = claim_rewards unquote s me replies now st sub.runner sub.store in
      let same : submissions
            (serve unquote s me replies f (feed_schedule f) cur now slot st r store).log
          ≡ submissions sub.log =
        ap submissions (serve-log f cur now slot st r store)
        ∙ around closed.1 sub.log claimed.log
            (crank_closed-submits f (feed_schedule f) cur now slot r)
            (claim_rewards-submits now st sub.runner sub.store) in
      rw same (submit_open-Sent f cur now slot st closed.0 store)
