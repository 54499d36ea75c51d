-- ===== src/Agent/Runner/Crank/Laws.antt =====
-- What the crank calls, and when.
use gnoracle.Base.{
  or-false, ltb_ℤ→ge, ℕ, zero, suc, ◌<◌, ◌≤◌, ◌*◌, ◌/◌, ◌^◌, ℤ, pos, ◌≤ℤ◌, false, ◌&&◌, ◌||◌, not,
  ◌==◌, [], Option, ◌≡◌, ◌≢◌, ◌⊎◌, inl, inr, arith, refl, Bool-cases, ltb, ltb→ge, ltb_ℤ, leb_ℤ,
  if◌then◌else◌,
}
use gnoracle.Base.Int64.{two63, div64, div64_pos}
use gnoracle.Base.Result.{ok, err}
use gnoracle.Base.Text.{Bytes}
use gnoracle.Gnochain.Schedule.{Schedule, next, is_one_off}
use gnoracle.Gnochain.Views.Feeds.{FeedInfo}
use gnoracle.Agent.Runner.Defs.{
  Settings, Runner, Replies, CallReply, unfinished, IsQuiet, submissions, accepted,
}
use gnoracle.Agent.Runner.Crank.{
  crank, crank_at, catch_up_from, catch_up, crank_round, overtaken, Cranked, answered, waits,
}

pow_suc : (k : ℕ) → 2 ^ suc (suc k) ≡ 2 * 2 ^ suc k
pow_suc k = omega arith

module _ (unquote : Bytes → Option Bytes) (s : Settings) (replies : Replies) where
  answered-finishes :
      (round b : ℕ) (r : Runner) (rest : Cranked) (reply : CallReply)
      → (b ≤ 1) ⊎ (rest.outcome ≢ unfinished)
      → (answered unquote s replies round (pos b) r rest reply).outcome ≢ unfinished
  unfolding answered
  answered-finishes round b r rest (ok res) h = λ e. cc
  answered-finishes round b r rest (err er) h = ground arith

  catch_up_from-finishes :
      (fuel round b : ℕ) (r : Runner)
      → b < 2 ^ suc fuel
      → b < two63
      → (catch_up_from unquote s replies (suc fuel) round (pos b) r).outcome ≢ unfinished
  unfolding catch_up_from
  catch_up_from-finishes zero round b r small fits =
      answered-finishes round b r _ (replies.catch_up (pos b)) (inl (omega arith))
  catch_up_from-finishes (suc fuel) round b r small fits =
      answered-finishes round b r _ (replies.catch_up (pos b)) (
        inr (
          rw (div64_pos b 2 (omega arith)) (
            catch_up_from-finishes fuel round (b / 2) r (omega (arith, pow_suc fuel))
              (omega arith))))

  answered-IsQuiet :
      (round : ℕ) (batch : ℤ) (r : Runner) (rest : Cranked) (reply : CallReply)
      → IsQuiet rest.log
      → IsQuiet (answered unquote s replies round batch r rest reply).log
  unfolding answered submissions accepted
  answered-IsQuiet round batch r rest (ok res) h = (refl, refl)
  answered-IsQuiet round batch r rest (err er) h = ground arith

  catch_up_from-IsQuiet :
      (fuel round : ℕ) (batch : ℤ) (r : Runner)
      → IsQuiet (catch_up_from unquote s replies fuel round batch r).log
  unfolding catch_up_from submissions accepted
  catch_up_from-IsQuiet zero round batch r = (refl, refl)
  catch_up_from-IsQuiet (suc fuel) round batch r =
      answered-IsQuiet round batch r _ (replies.catch_up batch)
        (catch_up_from-IsQuiet fuel round (div64 batch (pos 2)) r)

  catch_up-IsQuiet : (round : ℕ) (r : Runner) → IsQuiet (catch_up unquote s replies round r).log
  unfolding catch_up
  catch_up-IsQuiet round r = catch_up_from-IsQuiet 64 round _ r

  crank_round-IsQuiet :
      (sched : Schedule) (round cur : ℕ) (r : Runner)
      → IsQuiet (crank_round unquote s replies sched round cur r).log
  unfolding crank_round submissions accepted
  crank_round-IsQuiet sched round cur r = ground (arith, catch_up-IsQuiet round r)

  pub crank-IsQuiet :
      (f : FeedInfo) (sched : Schedule) (cur : ℕ) (now slot : ℤ) (r : Runner)
      → IsQuiet (crank unquote s replies f sched cur now slot r).log
  unfolding crank submissions accepted
  crank-IsQuiet f sched cur now slot r =
      let round = next sched f.last_finalized f.have_last in
      elim (Bool-cases (
        waits unquote s replies sched round cur now (crank_at unquote s replies sched round slot)
          r)) [
            | inl waiting ↦ rw (crank, waiting) (refl, refl)
            | inr due ↦ rw (crank, due) (crank_round-IsQuiet sched round cur r)
          ]

  catch_up-finishes :
      (round batch : ℕ) (r : Runner)
      → batch < two63
      → (if leb_ℤ r.batch (pos 0) then s.params.catch_up_batch else r.batch) ≡ pos batch
      → (catch_up unquote s replies round r).outcome ≢ unfinished
  unfolding catch_up
  catch_up-finishes round batch r fits e =
      rw e (catch_up_from-finishes 63 round batch r (omega arith) fits)

  crank_round-finishes :
      (sched : Schedule) (round cur batch : ℕ) (r : Runner)
      → batch < two63
      → (if leb_ℤ r.batch (pos 0) then s.params.catch_up_batch else r.batch) ≡ pos batch
      → (crank_round unquote s replies sched round cur r).outcome ≢ unfinished
  unfolding crank_round
  crank_round-finishes sched round cur batch r fits e =
      ground (arith, catch_up-finishes round batch r fits e)

  crank_round-log :
      (sched : Schedule) (round cur : ℕ) (r : Runner)
      → ((crank_round unquote s replies sched round cur r).log ≡ [])
        ⊎ (overtaken unquote s replies sched round ≡ false)
  unfolding crank_round
  crank_round-log sched round cur r = ground arith

  -- A closed round is due: outside the back-off, no later than the current one, past its close and
  -- this agent's delay, and not finalised by another agent.
  pub Due : FeedInfo → Schedule → ℕ → ℤ → ℤ → Runner → Type 0
  Due f sched cur now slot r =
      let round = next sched f.last_finalized f.have_last in
      (r.backoff ≤ℤ replies.wall)
      × (round ≤ cur)
      × (crank_at unquote s replies sched round slot ≤ℤ now)
      × (overtaken unquote s replies sched round ≡ false)

  waits-false :
      (sched : Schedule) (round cur : ℕ) (now at : ℤ) (r : Runner)
      → waits unquote s replies sched round cur now at r ≡ false
      → (r.backoff ≤ℤ replies.wall) × (round ≤ cur) × (at ≤ℤ now)
  unfolding waits
  waits-false sched round cur now at r due =
      let back = ltb_ℤ replies.wall r.backoff in
      let over = is_one_off sched && not (round == 0) in
      let (rest, past) = or-false (back || over || ltb cur round) (ltb_ℤ now at) due in
      let (rest', late) = or-false (back || over) (ltb cur round) rest in
      let (waited, more) = or-false back over rest' in
      (ltb_ℤ→ge replies.wall r.backoff waited, ltb→ge cur round late, ltb_ℤ→ge now at past)

  -- The crank never runs out of its sixty-four halvings, and it calls the chain only outside the
  -- back-off, for a round no later than the current one whose close and finalising delay are past,
  -- and not when another agent got there first.
  pub crank_bounded :
      (f : FeedInfo) (sched : Schedule) (cur : ℕ) (now slot : ℤ) (r : Runner) (batch : ℕ)
      → batch < two63
      → (if leb_ℤ r.batch (pos 0) then s.params.catch_up_batch else r.batch) ≡ pos batch
      → let c = crank unquote s replies f sched cur now slot r in
        (c.outcome ≢ unfinished) × ((c.log ≡ []) ⊎ Due f sched cur now slot r)
  unfolding crank Due
  crank_bounded f sched cur now slot r batch fits e =
      let round = next sched f.last_finalized f.have_last in
      elim (Bool-cases (
        waits unquote s replies sched round cur now (crank_at unquote s replies sched round slot)
          r)) [
            | inl waiting ↦ rw (crank, waiting) (λ h. cc, inl refl)
            | inr due ↦
                rw (crank, due)
                  (
                    crank_round-finishes sched round cur batch r fits e,
                    elim (crank_round-log sched round cur r) [
                      | inl nothing ↦ inl nothing
                      | inr alone ↦
                          let at = crank_at unquote s replies sched round slot in
                          let (waited, late, past) = waits-false sched round cur now at r due in
                          inr (waited, late, past, alone)
                    ],
                  )
          ]
