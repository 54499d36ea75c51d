-- ===== src/Agent/Runner/Tick/Remember.antt =====
-- What the steps of a pass do to the memory, on every branch.
use gnoracle.Base.{
  ℕ, leb, ltb_ℤ, ℤ, pos, true, ◌&&◌, ◌||◌, not, List, [], ◌∷◌, ◌++◌, Option, ◌≡◌, inl, inr, arith,
  refl, sym, subst, Bool-cases, String,
}
use gnoracle.Base.Int64.{sub64}
use gnoracle.Base.Result.{Result-cases}
use gnoracle.Base.Text.{Bytes}
use gnoracle.Gnochain.Views.Feeds.{FeedInfo, feed_schedule, has_submitted}
use gnoracle.Agent.Store.{FeedState, State, snapshot, update}
use gnoracle.Agent.Runner.Defs.{
  Settings, Runner, Replies, Effect, accepted, is_saved, seconds, save, done,
}
use gnoracle.Agent.Runner.Marks.{
  mark, Reaches, Accounts, Accounts-same, Accounts-update, Accounts-append,
}
use gnoracle.Agent.Runner.Crank.Laws.{crank-IsQuiet}
use gnoracle.Agent.Runner.Submit.{submit}
use gnoracle.Agent.Runner.Submit.Memory.{IsFresh, submit-Accounts}
use gnoracle.Agent.Runner.Tick.Open.{Reply-cases}
use gnoracle.Agent.Runner.Tick.{
  Ticked, claim_rewards, submit_read, in_window, too_late, headroom, submit_open, crank_closed,
  serve,
}

module _ (unquote : Bytes → Option Bytes) (s : Settings) (me : String) (replies : Replies)
    (start : ℤ) where
  -- A pass that accounts for what it does to the memory.
  unfoldable pub Kept : State → Ticked → Type 0
  Kept store t = Accounts s.feed_id start store t.store t.log

  pub crank_closed-accepts :
      (f : FeedInfo) (cur : ℕ) (now slot : ℤ) (r : Runner)
      → accepted (crank_closed unquote s me replies f (feed_schedule f) cur now slot r).1 ≡ []
  unfolding crank_closed accepted
  crank_closed-accepts f cur now slot r =
      ground (arith, (crank-IsQuiet unquote s replies f (feed_schedule f) cur now slot r).1)

  mark_of_claim :
      (now : ℤ) (fs : FeedState)
      → Reaches (mark start fs) [] (mark start (record fs { last_claim_at = now }))
  unfolding Reaches
  mark_of_claim now fs = omega arith

  mark_of_seen :
      (f : FeedInfo) (cur : ℕ) (fs : FeedState)
      → IsFresh s replies f cur start fs
      → Reaches (mark start fs) [] (mark start (record fs { has_round = true; last_round = cur }))
  unfolding Reaches IsFresh
  mark_of_seen f cur fs (same, fresh) = ground (arith, same, fresh)

  claim_rewards-Kept :
      (now : ℤ) (st : FeedState) (r : Runner) (store : State)
      → Kept store (claim_rewards unquote s me replies now st r store)
  unfolding claim_rewards Kept accepted
  claim_rewards-Kept now st r store =
      let claimed_at : FeedState → FeedState = λ fs. record fs { last_claim_at = now } in
      let noted : (log : List Effect)
          → accepted log ≡ []
          → Accounts s.feed_id start store (update s.feed_id claimed_at store) log =
        λ log quiet. Accounts-update s.feed_id start store claimed_at log (inr refl) (
          subst
            (λ cs.
              Reaches (mark start (snapshot s.feed_id store)) cs
                (mark start (claimed_at (snapshot s.feed_id store))))
            (sym quiet) (mark_of_claim now (snapshot s.feed_id store))) in
      let same : (log : List Effect)
          → accepted log ≡ []
          → Accounts s.feed_id start store store log =
        Accounts-same s.feed_id start store in
      elim (Bool-cases (
        not (ltb_ℤ (pos 0) s.params.claim_every)
        || ltb_ℤ (sub64 now st.last_claim_at) (seconds s.params.claim_every))) [
          | inl early ↦ rw early (same [] refl)
          | inr due ↦ elim (Reply-cases unquote s me replies replies.claim_provider) [
            | inr (inl e) ↦ rw (due, e) (same [] refl)
            | inr (inr e) ↦ rw (due, e) (same [] refl)
            | inl (p, e) ↦ elim (Bool-cases (ltb_ℤ p.rewards s.params.claim_min)) [
              | inl few ↦ rw (due, e, few) (noted _ refl)
              | inr enough ↦ elim (Result-cases replies.claim) [
                | inl (res, answer) ↦ rw (due, e, enough, answer) (noted _ refl)
                | inr (er, answer) ↦ rw (due, e, enough, answer) (same _ refl)
              ]
            ]
          ]
        ]

  submit_read-Kept :
      (f : FeedInfo) (cur : ℕ) (slot : ℤ) (st : FeedState) (r : Runner) (store : State)
      → IsFresh s replies f cur start (snapshot s.feed_id store)
      → Kept store (submit_read unquote s me replies f cur slot st r store)
  unfolding Kept accepted is_saved submit_read
  submit_read-Kept f cur slot st r store fresh =
      elim (Reply-cases unquote s me replies replies.current_round) [
        | inr (inl e) ↦ rw (submit_read, e) (Accounts-same s.feed_id start store [] refl)
        | inr (inr e) ↦ rw (submit_read, e) (Accounts-same s.feed_id start store [] refl)
        | inl (rd, e) ↦ elim (Bool-cases (has_submitted rd slot)) [
          | inl set ↦
              let seen : FeedState → FeedState =
                λ fs. record fs { has_round = true; last_round = cur } in
              let same : submit_read unquote s me replies f cur slot st r store ≡ record {
                runner = r;
                store = update s.feed_id seen store;
                log = save ∷ [];
                outcome = done;
              } =
                rw (submit_read, e, set) refl in
              subst (Kept store) (sym same) (
                Accounts-update s.feed_id start store seen (save ∷ []) (inl refl)
                  (mark_of_seen f cur (snapshot s.feed_id store) fresh))
          | inr unset ↦
              let sub = submit s replies f cur st (headroom unquote s me replies f rd) r store in
              let same : (submit_read unquote s me replies f cur slot st r store) ≡ record {
                runner = sub.runner;
                store = sub.store;
                log = sub.log;
                outcome = done;
              } =
                ground (arith, e, unset) in
              subst (Kept store) (sym same) (
                submit-Accounts s replies f cur start st (headroom unquote s me replies f rd) r
                  store fresh)
        ]
      ]

  submit_open-Kept :
      (f : FeedInfo) (cur : ℕ) (now slot : ℤ) (r : Runner) (store : State)
      → (snapshot s.feed_id store).start_at ≡ start
      → Kept store (
          submit_open unquote s me replies f
            (feed_schedule f)
            cur
            now
            slot
            (snapshot s.feed_id store)
            r
            store)
  unfolding submit_open Kept accepted IsFresh
  submit_open-Kept f cur now slot r store begun =
      let st = snapshot s.feed_id store in
      let same : (log : List Effect)
          → accepted log ≡ []
          → Accounts s.feed_id start store store log =
        Accounts-same s.feed_id start store in
      elim (Bool-cases (st.has_round && leb cur st.last_round)) [
        | inl before ↦ rw before (same [] refl)
        | inr fresh ↦ elim (Bool-cases (in_window unquote s me replies (feed_schedule f) cur now)) [
          | inl opened ↦ rw (fresh, opened) (submit_read-Kept f cur slot st r store (begun, fresh))
          | inr shut ↦ elim (Bool-cases (too_late unquote s me replies (feed_schedule f) cur now)) [
            | inl missed ↦ rw (fresh, shut, missed) (same [] refl)
            | inr other ↦ rw (fresh, shut, other) (same [] refl)
          ]
        ]
      ]

  -- Cranking before, a step that accounts for itself, and another behind it.
  between :
      (store mid store' : State) (before log behind : List Effect)
      → accepted before ≡ []
      → Accounts s.feed_id start store mid log
      → Accounts s.feed_id start mid store' behind
      → Accounts s.feed_id start store store' ((before ++ log) ++ behind)
  between store mid store' before log behind quiet first next =
      Accounts-append s.feed_id start store mid store' (before ++ log) behind
        (Accounts-append s.feed_id start store store mid before log
          (Accounts-same s.feed_id start store before quiet) first)
        next

  pub serve-Kept :
      (f : FeedInfo) (cur : ℕ) (now slot : ℤ) (r : Runner) (store : State)
      → (snapshot s.feed_id store).start_at ≡ start
      → Kept store (
          serve unquote s me replies f
            (feed_schedule f)
            cur
            now
            slot
            (snapshot s.feed_id store)
            r
            store)
  unfolding serve Kept
  serve-Kept f cur now slot r store begun =
      let st = snapshot s.feed_id store in
      let closed = crank_closed unquote s me replies f (feed_schedule f) cur now slot r in
      let sub =
        submit_open unquote s me replies f (feed_schedule f) cur now slot st closed.0 store in
      let end = claim_rewards unquote s me replies now st sub.runner sub.store in
      between store sub.store end.store closed.1 sub.log end.log
        (crank_closed-accepts f cur now slot r)
        (submit_open-Kept f cur now slot closed.0 store begun)
        (claim_rewards-Kept now st sub.runner sub.store)
