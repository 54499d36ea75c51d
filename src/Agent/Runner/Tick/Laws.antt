-- ===== src/Agent/Runner/Tick/Laws.antt =====
-- When a pass submits, and that it submits at most once.
use gnoracle.Base.{
  ℕ, ℤ, pos, true, false, List, [], ◌++◌, Option, String, ltb, ltb_ℤ, ◌||◌, some, ◌≡◌, ◌⊎◌, inl,
  inr, arith, refl, ap, ◌∙◌, subst, sym, Bool-cases, Option-cases, str_eq,
}
use gnoracle.Base.Text.{Bytes, codes}
use gnoracle.Gnochain.Schedule.{current}
use gnoracle.Gnochain.Views.Feeds.{FeedInfo, feed_schedule, slot_of}
use gnoracle.Agent.Store.{FeedState, State, update, snapshot}
use gnoracle.Agent.Runner.Defs.{
  unset_warned, Settings, Runner, Replies, got, submissions, warn_once,
}
use gnoracle.Agent.Runner.Submit.Laws.{submissions-append}
use gnoracle.Agent.Runner.Tick.Open.{
  Sent, Rightly, Reply-cases, crank_closed-submits, serve-Rightly,
}
use gnoracle.Agent.Runner.Tick.{
  crank_closed, serve, on_round, seated, unseated, serving, tick, dev_tick, on_schedule, obligation,
}

module _ (unquote : Bytes → Option Bytes) (s : Settings) (me : String) (replies : Replies) where
  -- The memory that the round is served with.
  memory : FeedInfo → State → FeedState
  memory f store = snapshot s.feed_id (update s.feed_id (on_schedule f.start_at) store)

  on_round-log :
      (f : FeedInfo) (cur : ℕ) (now slot : ℤ) (r : Runner) (store : State)
      → ((on_round unquote s me replies f cur now slot r store).log ≡ [])
        ⊎ ((r' : Runner) × (((on_round unquote s me replies f cur now slot r store).log
                ≡ (crank_closed unquote s me replies f (feed_schedule f) cur now slot r').1)
              ⊎ ((store' : State) × ((on_round unquote s me replies f cur now slot r store).log
                    ≡ (serve unquote s me replies f
                        (feed_schedule f)
                        cur
                        now
                        slot
                        (memory f store)
                        r'
                        store').log))))
  unfolding on_round memory
  on_round-log f cur now slot r store =
      elim (Option-cases (obligation unquote s me replies slot r)) [
        | inl unknown ↦ inl (rw (on_round, unknown) refl)
        | inr ((from, r'), known) ↦ elim (Bool-cases (ltb cur from)) [
          | inl early ↦
              inr (
                warn_once (codes "obliged") replies.wall r',
                inl (rw (on_round, known, early) refl),
              )
          | inr obliged ↦ inr (
            r',
            inr (
              update s.feed_id (on_schedule f.start_at) store,
              rw (on_round, known, obliged) refl,
            ),
          )
        ]
      ]

  on_round-Rightly :
      (f : FeedInfo) (cur : ℕ) (now slot : ℤ) (r : Runner) (store : State)
      → Rightly unquote s me replies f cur now slot
          (memory f store)
          (submissions (on_round unquote s me replies f cur now slot r store).log)
  unfolding Rightly submissions
  on_round-Rightly f cur now slot r store = elim (on_round-log f cur now slot r store) [
    | inl quiet ↦ inl (ap submissions quiet)
    | inr (r', inl closed) ↦ inl (
        ap submissions closed
        ∙ crank_closed-submits unquote s me replies f (feed_schedule f) cur now slot r')
    | inr (r', inr (store', served)) ↦
        subst
          (λ log. Rightly unquote s me replies f cur now slot (memory f store) (submissions log))
          (sym served)
          (serve-Rightly unquote s me replies f cur now slot (memory f store) r' store')
  ]

  -- What a pass over a feed may send: nothing, or one submission for the current round.
  pub SendsRightly : FeedInfo → State → List (ℕ × ℤ × ℤ) → Type 0
  SendsRightly f store sent =
      (sent ≡ [])
      ⊎ ((cur : ℕ) × (current (feed_schedule f) f.head.now ≡ some cur)
          × Sent unquote s me replies f cur f.head.now (slot_of f me) (memory f store) sent)

  seated-log :
      (f : FeedInfo) (r : Runner) (store : State)
      → ((seated unquote s me replies f f.head.now (slot_of f me) r store).log ≡ [])
        ⊎ ((cur : ℕ) × (r' : Runner) × (current (feed_schedule f) f.head.now ≡ some cur)
            × ((seated unquote s me replies f f.head.now (slot_of f me) r store).log
                ≡ (on_round unquote s me replies f cur f.head.now (slot_of f me) r' store).log))
  unfolding seated
  seated-log f r store = elim (Option-cases (current (feed_schedule f) f.head.now)) [
    | inl early ↦ inl (rw (seated, early) refl)
    | inr (cur, e) ↦
        inr (
          cur,
          record r { warned = unset_warned (codes "jailed") r.warned },
          e,
          rw (seated, e) refl,
        )
  ]

  seated-SendsRightly :
      (f : FeedInfo) (r : Runner) (store : State)
      → SendsRightly f store
          (submissions (seated unquote s me replies f f.head.now (slot_of f me) r store).log)
  unfolding SendsRightly Rightly submissions
  seated-SendsRightly f r store = elim (seated-log f r store) [
    | inl quiet ↦ inl (ap submissions quiet)
    | inr (cur, r', e, same) ↦ elim (on_round-Rightly f cur f.head.now (slot_of f me) r' store) [
      | inl nothing ↦ inl (ap submissions same ∙ nothing)
      | inr sent ↦ inr (
        cur,
        e,
        subst
            (λ log.
              Sent unquote s me replies f cur f.head.now (slot_of f me) (memory f store)
                (submissions log))
            (sym same) sent,
      )
    ]
  ]

  -- The pass of a feed that serves and a provider that holds a slot.
  pub Seated : FeedInfo → Type 0
  Seated f =
      ((str_eq f.status "active" || str_eq f.status "unfunded") ≡ true)
      × (ltb_ℤ (slot_of f me) (pos 0) ≡ false)

  unseated-submits :
      (r : Runner) (store : State) → submissions (unseated unquote s me replies r store).log ≡ []
  unfolding unseated submissions
  unseated-submits r store = ground arith

  serving-SendsRightly :
      (f : FeedInfo) (r : Runner) (store : State)
      → (submissions (serving unquote s me replies f r store).log ≡ [])
        ⊎ (Seated f
            × SendsRightly f store (submissions (serving unquote s me replies f r store).log))
  unfolding serving submissions Seated
  serving-SendsRightly f r store =
      elim (Bool-cases (str_eq f.status "active" || str_eq f.status "unfunded")) [
        | inr idle ↦
            let quiet : (serving unquote s me replies f r store).log ≡ [] = ground (arith, idle) in
            inl (ap submissions quiet)
        | inl serves ↦ elim (Bool-cases (ltb_ℤ (slot_of f me) (pos 0))) [
          | inl out ↦
              let same : serving unquote s me replies f r store
                  ≡ unseated unquote s me replies r store =
                ground (arith, serves, out) in
              inl (ap (λ t. submissions t.log) same ∙ unseated-submits r store)
          | inr seat ↦
              let same : serving unquote s me replies f r store
                  ≡ seated unquote s me replies f f.head.now (slot_of f me) r store =
                ground (arith, serves, seat) in
              inr (
                (serves, seat),
                subst (λ t. SendsRightly f store (submissions t.log)) (sym same)
                    (seated-SendsRightly f r store),
              )
        ]
      ]

  dev_tick-submits :
      (now : ℤ) (r : Runner) → submissions (dev_tick unquote s me replies now r).1 ≡ []
  unfolding dev_tick submissions
  dev_tick-submits now r = ground arith

  tick-log :
      (r : Runner) (store : State)
      → ((tick unquote s me replies r store).log ≡ [])
        ⊎ ((f : FeedInfo) × (r' : Runner) × (replies.feed ≡ got f)
            × ((tick unquote s me replies r store).log
                ≡ (dev_tick unquote s me replies f.head.now r).1
                  ++ (serving unquote s me replies f r' store).log))
  unfolding tick
  tick-log r store = elim (Reply-cases unquote s me replies replies.feed) [
    | inr (inl e) ↦ inl (rw (tick, e) refl)
    | inr (inr e) ↦ inl (rw (tick, e) refl)
    | inl (f, e) ↦ inr (f, (dev_tick unquote s me replies f.head.now r).0, e, ground (arith, e))
  ]

  -- A pass submits nothing, or exactly once: for a feed that serves and a slot that is held, for the
  -- current round, in its window and by a reading of the round in which the slot's bit is not set, a
  -- value that the samples agree on, when the memory of this schedule does not hold the round, and
  -- beyond the sanity band only under the override.
  pub tick-SendsRightly :
      (r : Runner) (store : State)
      → let sent = submissions (tick unquote s me replies r store).log in
        (sent ≡ [])
        ⊎ ((f : FeedInfo) × (replies.feed ≡ got f) × Seated f × SendsRightly f store sent)
  unfolding submissions
  tick-SendsRightly r store = elim (tick-log r store) [
    | inl quiet ↦ inl (ap submissions quiet)
    | inr (f, r', e, same) ↦
        let dev = (dev_tick unquote s me replies f.head.now r).1 in
        let rest = (serving unquote s me replies f r' store).log in
        let sent : submissions (tick unquote s me replies r store).log ≡ submissions rest =
          ap submissions same
          ∙ (submissions-append dev rest
              ∙ ap (λ l. l ++ submissions rest) (dev_tick-submits f.head.now r)) in
        elim (serving-SendsRightly f r' store) [
          | inl nothing ↦ inl (sent ∙ nothing)
          | inr (seat, rightly) ↦ inr (f, e, seat, subst (SendsRightly f store) (sym sent) rightly)
        ]
  ]
