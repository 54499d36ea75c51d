-- ===== src/Agent/Runner/Tick/Memory.antt =====
-- What a pass does to the memory, on every branch.
use gnoracle.Base.{
  ℕ, ltb, ltb_ℤ, ℤ, pos, ◌||◌, not, [], Option, ◌≡◌, ◌⊎◌, inl, inr, arith, refl, sym, subst,
  Bool-cases, Option-cases, String, str_eq,
}
use gnoracle.Base.Text.{Bytes, codes}
use gnoracle.Gnochain.Schedule.{current}
use gnoracle.Gnochain.Views.Feeds.{FeedInfo, feed_schedule, slot_of}
use gnoracle.Agent.Store.{FeedState, State, snapshot, update}
use gnoracle.Agent.Store.Laws.{snapshot-update}
use gnoracle.Agent.Runner.Defs.{
  Settings, Runner, Replies, got, view_error, lost, accepted, unset_warned, warn_once,
}
use gnoracle.Agent.Runner.Marks.{
  mark, Reaches, Accounts, Accounts-same, Accounts-update, Accounts-append,
}
use gnoracle.Agent.Runner.Tick.Remember.{Kept, crank_closed-accepts, serve-Kept}
use gnoracle.Agent.Runner.Tick.{
  after, on_schedule, dev_tick, unseated, obligation, on_round, seated, serving, tick,
}

module _ (unquote : Bytes → Option Bytes) (s : Settings) (me : String) (replies : Replies)
    (start : ℤ) where
  mark_of_schedule :
      (fs : FeedState)
      → Reaches (mark start fs) [] (mark start (on_schedule start fs))
        × ((on_schedule start fs).start_at ≡ start)
        × (mark start fs ≡ mark start (on_schedule start fs))
  unfolding Reaches on_schedule
  mark_of_schedule fs = ground arith

  rescheduled :
      (f : FeedInfo) (store : State)
      → f.start_at ≡ start
      → (snapshot s.feed_id (update s.feed_id (on_schedule f.start_at) store)).start_at ≡ start
  rescheduled f store begun =
      let held : snapshot s.feed_id (update s.feed_id (on_schedule f.start_at) store)
          ≡ on_schedule f.start_at (snapshot s.feed_id store) =
        ground (arith, snapshot-update s.feed_id s.feed_id (on_schedule f.start_at) store) in
      subst (λ fs. fs.start_at ≡ start) (sym held)
        (subst (λ t. (on_schedule t (snapshot s.feed_id store)).start_at ≡ start) (sym begun)
          (mark_of_schedule (snapshot s.feed_id store)).1)

  on_round-Kept :
      (f : FeedInfo) (cur : ℕ) (now slot : ℤ) (r : Runner) (store : State)
      → f.start_at ≡ start
      → Kept unquote s me replies start store (on_round unquote s me replies f cur now slot r store)
  unfolding on_round Kept accepted
  on_round-Kept f cur now slot r store begun =
      let fs = snapshot s.feed_id store in
      let store' = update s.feed_id (on_schedule f.start_at) store in
      let marked : Accounts s.feed_id start store store' [] =
        Accounts-update s.feed_id start store (on_schedule f.start_at) []
          (inr (
            subst (λ t. mark start fs ≡ mark start (on_schedule t fs)) (sym begun)
              (mark_of_schedule fs).2))
          (subst (λ t. Reaches (mark start fs) [] (mark start (on_schedule t fs))) (sym begun)
            (mark_of_schedule fs).0) in
      let scheduled : (snapshot s.feed_id store').start_at ≡ start = rescheduled f store begun in
      elim (Option-cases (obligation unquote s me replies slot r)) [
        | inl unknown ↦ rw (on_round, unknown) (Accounts-same s.feed_id start store [] refl)
        | inr ((from, r'), known) ↦ elim (Bool-cases (ltb cur from)) [
          | inl early ↦
              let r1 = warn_once (codes "obliged") replies.wall r' in
              rw (on_round, known, early)
                (Accounts-append s.feed_id start store store' store' [] _ marked (
                  Accounts-same s.feed_id start store' _
                    (crank_closed-accepts unquote s me replies start f cur now slot r1)))
          | inr obliged ↦
              rw (on_round, known, obliged)
                (Accounts-append s.feed_id start store store' _ [] _ marked
                  (serve-Kept unquote s me replies start f cur now slot r' store' scheduled))
        ]
      ]

  seated-Kept :
      (f : FeedInfo) (now slot : ℤ) (r : Runner) (store : State)
      → f.start_at ≡ start
      → Kept unquote s me replies start store (seated unquote s me replies f now slot r store)
  unfolding seated Kept accepted
  seated-Kept f now slot r store begun = elim (Option-cases (current (feed_schedule f) now)) [
    | inl early ↦ rw (seated, early) (Accounts-same s.feed_id start store [] refl)
    | inr (cur, e) ↦
        rw (seated, e)
          (on_round-Kept f cur now slot
            (record r { warned = unset_warned (codes "jailed") r.warned }) store begun)
  ]

  unseated-keeps :
      (r : Runner) (store : State)
      → let t = unseated unquote s me replies r store in (t.store ≡ store) × (accepted t.log ≡ [])
  unfolding unseated accepted
  unseated-keeps r store = ground arith

  unseated-Kept :
      (r : Runner) (store : State)
      → Kept unquote s me replies start store (unseated unquote s me replies r store)
  unfolding Kept
  unseated-Kept r store =
      let (stored, quiet) = unseated-keeps r store in
      subst
        (λ store'.
          Accounts s.feed_id start store store' (unseated unquote s me replies r store).log)
        (sym stored) (Accounts-same s.feed_id start store _ quiet)

  serving-Kept :
      (f : FeedInfo) (r : Runner) (store : State)
      → f.start_at ≡ start
      → Kept unquote s me replies start store (serving unquote s me replies f r store)
  unfolding serving Kept accepted
  serving-Kept f r store begun =
      elim (Bool-cases (not (str_eq f.status "active" || str_eq f.status "unfunded"))) [
        | inl idle ↦ rw idle (Accounts-same s.feed_id start store [] refl)
        | inr serves ↦ elim (Bool-cases (ltb_ℤ (slot_of f me) (pos 0))) [
          | inl out ↦ rw (serves, out) (unseated-Kept r store)
          | inr seat ↦ rw (serves, seat) (seated-Kept f f.head.now (slot_of f me) r store begun)
        ]
      ]

  dev_tick-accepts : (now : ℤ) (r : Runner) → accepted (dev_tick unquote s me replies now r).1 ≡ []
  unfolding dev_tick accepted
  dev_tick-accepts now r = ground arith

  -- A pass changes the memory of no other feed. Where the feed it reads has the schedule's start, it
  -- accepts no round that the memory held before, and holds each round that is accepted after it.
  pub tick-Accounts :
      (r : Runner) (store : State)
      → (replies.feed ≡ view_error)
        ⊎ (replies.feed ≡ lost)
        ⊎ ((f : FeedInfo) × (replies.feed ≡ got f) × (f.start_at ≡ start))
      → let t = tick unquote s me replies r store in Accounts s.feed_id start store t.store t.log
  unfolding tick Kept accepted
  tick-Accounts r store reads = elim reads [
    | inl e ↦ rw (tick, e) (Accounts-same s.feed_id start store [] refl)
    | inr (inl e) ↦ rw (tick, e) (Accounts-same s.feed_id start store [] refl)
    | inr (inr (f, e, begun)) ↦
        let (r', log) = dev_tick unquote s me replies f.head.now r in
        let t = serving unquote s me replies f r' store in
        let same : tick unquote s me replies r store ≡ after log t = ground (arith, e) in
        subst (Kept unquote s me replies start store) (sym same) (
          Accounts-append s.feed_id start store store t.store log t.log
            (Accounts-same s.feed_id start store log (dev_tick-accepts f.head.now r))
            (serving-Kept f r' store begun))
  ]
