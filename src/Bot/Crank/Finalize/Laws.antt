-- ===== src/Bot/Crank/Finalize/Laws.antt =====
-- What crankFinalize calls, and that its loop ends.
use gnoracle.Base.{
  ℕ, zero, suc, ◌*◌, ◌/◌, ◌^◌, ◌≤◌, ◌<◌, ltb, ltb→ge, ◌==◌, ==_iff, ℤ, pos, ◌≤ℤ◌, ltb_ℤ, true,
  false, ◌&&◌, ◌||◌, not, List, [], ◌∷◌, Option, none, some, ◌≡◌, ◌⊎◌, inl, inr, refl, arith, All,
  All-++, All-imp, In, Bool-cases, Option-cases, str_eq, subst, sym, or-false, ltb_ℤ→ge,
}
use gnoracle.Base.Int64.{two63, add64, div64, div64_pos}
use gnoracle.Base.Result.{Result, ok, err}
use gnoracle.Base.Text.{Bytes, codes, contains}
use gnoracle.Gnochain.Broadcast.{TxResult}
use gnoracle.Gnochain.Schedule.{is_one_off, current, close_at, next}
use gnoracle.Gnochain.Views.Feeds.{Head, FeedSummary, summary_schedule}
use gnoracle.Agent.Config.{second}
use gnoracle.Bot.Chain.{calls-++, Chain, Call, catch_up, calls}
use gnoracle.Bot.Config.{Params}
use gnoracle.Bot.State.{due}
use gnoracle.Bot.Crank.Finalize.{
  Bot, Tried, answered, try_from, ripe, worth, try, finalize_feed, finalize_feeds, crank_finalize,
  finalize_key,
}

module _ (unquote : Bytes → Option Bytes) (p : Params) (chain : Chain) where
  answered-ended :
      (b : ℕ) (rest : Tried) (reply : Result Bytes TxResult)
      → (b ≤ 1) ⊎ (rest.ended ≡ true)
      → (answered unquote p chain (pos b) rest reply).ended ≡ true
  unfolding answered
  answered-ended b rest (ok res) h = refl
  answered-ended b rest (err e) h = ground arith

  -- The call loop ends by itself: sixty-four halvings are enough for every int64 batch.
  pub try_from-ended :
      (fuel feed b : ℕ)
      → b < 2 ^ suc fuel
      → b < two63
      → (try_from unquote p chain (suc fuel) feed (pos b)).ended ≡ true
  unfolding try_from
  try_from-ended zero feed b small fits = answered-ended b _ _ (inl (omega arith))
  try_from-ended (suc fuel) feed b small fits =
      let halves : 2 ^ suc (suc fuel) ≡ 2 * 2 ^ suc fuel = omega arith in
      answered-ended b (try_from unquote p chain (suc fuel) feed (div64 (pos b) (pos 2))) _ (
        inr (
          rw (div64_pos b 2 (omega arith))
            (try_from-ended fuel feed (b / 2) (omega arith) (omega arith))))

  -- A CatchUp of the feed.
  IsCatchUp : ℕ → Call → Type 0
  IsCatchUp feed c = (batch : ℤ) × (c ≡ catch_up feed batch)

  answered-calls :
      (feed : ℕ) (batch : ℤ) (rest : Tried) (reply : Result Bytes TxResult)
      → All (IsCatchUp feed) (calls rest.log)
      → All (IsCatchUp feed) (calls (answered unquote p chain batch rest reply).log)
  unfolding answered calls
  answered-calls feed batch rest (ok res) h = tt
  answered-calls feed batch rest (err e) h =
      elim (Bool-cases (contains e (codes "out of gas") && ltb_ℤ (pos 1) batch)) [
        | inl again ↦ rw again h
        | inr last ↦ rw last tt
      ]

  try_from-calls :
      (fuel feed : ℕ) (batch : ℤ)
      → All (IsCatchUp feed) (calls (try_from unquote p chain fuel feed batch).log)
  unfolding try_from calls IsCatchUp
  try_from-calls zero feed batch = tt
  try_from-calls (suc fuel) feed batch =
      let rest = try_from unquote p chain fuel feed (div64 batch (pos 2)) in
      (
        (batch, refl),
        answered-calls feed batch rest (chain.call (catch_up feed batch))
            (try_from-calls fuel feed (div64 batch (pos 2))),
      )

  -- A feed's round may be finalised by the bot: the feed serves, the round is the next one and no later
  -- than the current one, it closed at least the grace ago, a one-off is finalised once, and an
  -- empty round is written off only when that is configured.
  pub record MayFinalize (now : ℤ) (f : FeedSummary) (round : ℕ) : Type 0 where
    pub serves : (str_eq f.status "active" || str_eq f.status "unfunded") ≡ true
    pub is_next : round ≡ next (summary_schedule f) f.last_finalized f.have_last
    pub one_off_once : (is_one_off (summary_schedule f) ≡ false) ⊎ (round ≡ 0)
    pub started : (cur : ℕ) × (current (summary_schedule f) now ≡ some cur) × (round ≤ cur)
    pub closed :
        add64 (close_at (summary_schedule f) round) (div64 p.finalize_grace (pos second)) ≤ℤ now
    pub worthy : worth unquote p chain f.id round ≡ true

  MayFinalize-of :
      (now : ℤ) (f : FeedSummary) (round nxt cur : ℕ)
      → nxt ≡ next (summary_schedule f) f.last_finalized f.have_last
      → nxt ≡ round
      → (str_eq f.status "active" || str_eq f.status "unfunded") ≡ true
      → (is_one_off (summary_schedule f) && not (nxt == 0)) ≡ false
      → current (summary_schedule f) now ≡ some cur
      → (ltb cur nxt
          || ltb_ℤ now
              (add64 (close_at (summary_schedule f) nxt) (div64 p.finalize_grace (pos second))))
        ≡ false
      → worth unquote p chain f.id round ≡ true
      → MayFinalize now f round
  MayFinalize-of now f round nxt cur nxt_is same serves left at due worthy =
      let (late, past) =
        or-false (ltb cur nxt)
          (ltb_ℤ now
            (add64 (close_at (summary_schedule f) nxt) (div64 p.finalize_grace (pos second))))
          due in
      subst (MayFinalize now f) same (record {
        serves = serves;
        is_next = nxt_is;
        one_off_once = elim (Bool-cases (is_one_off (summary_schedule f))) [
          | inr more ↦ inl more
          | inl single ↦ inr ((==_iff nxt 0).0 (ground (arith, single, left)))
        ];
        started = (cur, at, ltb→ge cur nxt late);
        closed = ltb_ℤ→ge now _ past;
        worthy = subst (λ r. worth unquote p chain f.id r ≡ true) (sym same) worthy;
      })

  ripe_lem :
      (now : ℤ) (f : FeedSummary) (round : ℕ)
      → ripe unquote p chain now f ≡ some round
      → worth unquote p chain f.id round ≡ true
      → MayFinalize now f round
  unfolding ripe
  ripe_lem now f round e worthy =
      let sched = summary_schedule f in
      let nxt = next sched f.last_finalized f.have_last in
      let grace = div64 p.finalize_grace (pos second) in
      elim (Bool-cases (str_eq f.status "active" || str_eq f.status "unfunded")) [
        | inr idle ↦ absurd (ground (arith, idle, e))
        | inl serves ↦ elim (Bool-cases (is_one_off sched && not (nxt == 0))) [
          | inl gone ↦ absurd (ground (arith, serves, gone, e))
          | inr left ↦ elim (Option-cases (current sched now)) [
            | inl early ↦ absurd (ground (arith, serves, left, early, e))
            | inr (cur, at) ↦
                elim (Bool-cases (ltb cur nxt || ltb_ℤ now (add64 (close_at sched nxt) grace))) [
                  | inl waits ↦ absurd (ground (arith, serves, left, at, waits, e))
                  | inr due ↦
                      let same : nxt ≡ round = ground (arith, serves, left, at, due, e) in
                      MayFinalize-of now f round nxt cur refl same serves left at due worthy
                ]
          ]
        ]
      ]

  -- A CatchUp of a feed that has a round to finalise.
  pub CatchesUp : ℤ → FeedSummary → Call → Type 0
  CatchesUp now f c =
      (round : ℕ) × (batch : ℤ) × (c ≡ catch_up f.id batch) × MayFinalize now f round

  -- A CatchUp of a listed feed that has a round to finalise.
  pub Rightful : ℤ → List FeedSummary → Call → Type 0
  Rightful now fs c = (f : FeedSummary) × In f fs × CatchesUp now f c

  try-calls :
      (now : ℤ) (f : FeedSummary) (round : ℕ) (b : Bot)
      → MayFinalize now f round
      → All (CatchesUp now f) (calls (try unquote p chain f.id b).log)
  unfolding try CatchesUp IsCatchUp
  try-calls now f round b may =
      All-imp (IsCatchUp f.id) (CatchesUp now f) _ (λ c (batch, e). (round, batch, e, may))
        (try_from-calls 64 f.id _)

  finalize_feed-calls :
      (now : ℤ) (f : FeedSummary) (b : Bot)
      → All (CatchesUp now f) (calls (finalize_feed unquote p chain now f b).log)
  unfolding finalize_feed calls
  finalize_feed-calls now f b = elim (Option-cases (ripe unquote p chain now f)) [
    | inl nothing ↦ rw (finalize_feed, nothing) tt
    | inr (round, e) ↦
        let d =
          due (finalize_key unquote p chain f.id) (div64 p.crank_every (pos second)) chain.clock
            b.state in
        elim (Bool-cases d.1) [
          | inr early ↦ rw (finalize_feed, e, early) tt
          | inl on_time ↦ elim (Bool-cases (worth unquote p chain f.id round)) [
            | inr empty ↦ rw (finalize_feed, e, on_time, empty) tt
            | inl worthy ↦
                rw (finalize_feed, e, on_time, worthy)
                  (try-calls now f round (record b { state = d.0 }) (ripe_lem now f round e worthy))
          ]
        ]
  ]

  finalize_feeds-calls :
      (now : ℤ) (fs : List FeedSummary) (b : Bot)
      → All (Rightful now fs) (calls (finalize_feeds unquote p chain now fs b).log)
  unfolding finalize_feeds Rightful calls
  finalize_feeds-calls now [] b = tt
  finalize_feeds-calls now (f ∷ fs) b =
      let c = finalize_feed unquote p chain now f b in
      let c' = finalize_feeds unquote p chain now fs c.bot in
      rw (calls-++ c.log c'.log) (
        All-++ (Rightful now (f ∷ fs)) (calls c.log) (calls c'.log)
          (All-imp (CatchesUp now f) (Rightful now (f ∷ fs)) (calls c.log) (λ k h. (f, inl refl, h))
            (finalize_feed-calls now f b))
          (All-imp (Rightful now fs) (Rightful now (f ∷ fs)) (calls c'.log)
            (λ k (g, member, h). (g, inr member, h)) (finalize_feeds-calls now fs c.bot)))

  crank_finalize-none :
      (b : Bot)
      → (chain.all_feeds ≡ none) ⊎ (chain.core_now ≡ none)
      → calls (crank_finalize unquote p chain b).log ≡ []
  unfolding crank_finalize calls
  crank_finalize-none b h = ground arith

  crank_finalize-some :
      (b : Bot) (fs : List FeedSummary) (head : Head)
      → chain.all_feeds ≡ some fs
      → chain.core_now ≡ some head
      → crank_finalize unquote p chain b ≡ finalize_feeds unquote p chain head.now fs b
  unfolding crank_finalize
  crank_finalize-some b fs head e e' = ground (arith, e, e')

  -- Every transaction of crankFinalize is a CatchUp of a listed feed with a round to finalise at the
  -- core realm's time; there is none where the list or the time cannot be read.
  pub crank_finalize-calls :
      (b : Bot)
      → (calls (crank_finalize unquote p chain b).log ≡ [])
        ⊎ ((fs : List FeedSummary) × (head : Head) × (chain.all_feeds ≡ some fs)
            × (chain.core_now ≡ some head)
            × All (Rightful head.now fs) (calls (crank_finalize unquote p chain b).log))
  crank_finalize-calls b = elim (Option-cases chain.all_feeds) [
    | inl unlisted ↦ inl (crank_finalize-none b (inl unlisted))
    | inr (fs, e) ↦ elim (Option-cases chain.core_now) [
      | inl unknown ↦ inl (crank_finalize-none b (inr unknown))
      | inr (head, e') ↦ inr (
        fs,
        head,
        e,
        e',
        rw (crank_finalize-some b fs head e e') (finalize_feeds-calls head.now fs b),
      )
    ]
  ]
