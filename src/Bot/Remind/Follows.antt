-- ===== src/Bot/Remind/Follows.antt =====
-- bot/reminders.go: what the reminders make of the memory.
use gnoracle.Base.{ℤ, List, [], ◌∷◌, arith, inl, inr, Option-cases}
use gnoracle.Base.Text.{Bytes}
use gnoracle.Gnochain.Views.Votes.{BallotInfo}
use gnoracle.Bot.Chain.{Chain}
use gnoracle.Bot.Config.{Config}
use gnoracle.Bot.State.{State}
use gnoracle.Bot.State.Laws.{Follows, once-Follows}
use gnoracle.Bot.Remind.{
  Verb, commit, reveal, live_deadline, announce_reveal, reveal_key, reminder_key, remind_hours,
  remind_ballot, remind_ballots, remind,
}

module _ {from : State} (format_time : ℤ → Bytes) (cfg : Config) (chain : Chain) where
  remind_hours-Follows :
      (bl : BallotInfo) (verb : Verb) (deadline now : ℤ) (hs : List ℤ) (s : State)
      → Follows from chain.clock s
      → Follows from chain.clock
          (remind_hours format_time cfg chain bl verb deadline now hs s).state
  unfolding remind_hours
  remind_hours-Follows bl verb deadline now [] s h = h
  remind_hours-Follows bl verb deadline now (t ∷ hs) s h = ground (
    arith,
    once-Follows (reminder_key bl.seq verb t) s h,
    remind_hours-Follows bl verb deadline now hs s h,
  )

  announce_reveal-Follows :
      (bl : BallotInfo) (verb : Verb) (now : ℤ) (s : State)
      → Follows from chain.clock s
      → Follows from chain.clock (announce_reveal format_time cfg chain bl verb now s).state
  unfolding announce_reveal
  announce_reveal-Follows bl commit now s h = h
  announce_reveal-Follows bl reveal now s h = once-Follows (reveal_key bl.seq) s h

  remind_ballot-Follows :
      (now : ℤ) (bl : BallotInfo) (s : State)
      → Follows from chain.clock s
      → Follows from chain.clock (remind_ballot format_time cfg chain now bl s).state
  unfolding remind_ballot
  remind_ballot-Follows now bl s h = elim (Option-cases (live_deadline bl now)) [
    | inl idle ↦ rw (remind_ballot, idle) h
    | inr ((verb, deadline), e) ↦
        rw (remind_ballot, e)
          (remind_hours-Follows bl verb deadline now cfg.remind.hours _
            (announce_reveal-Follows bl verb now s h))
  ]

  remind_ballots-Follows :
      (now : ℤ) (bls : List BallotInfo) (s : State)
      → Follows from chain.clock s
      → Follows from chain.clock (remind_ballots format_time cfg chain now bls s).state
  unfolding remind_ballots
  remind_ballots-Follows now [] s h = h
  remind_ballots-Follows now (bl ∷ bls) s h =
      remind_ballots-Follows now bls _ (remind_ballot-Follows now bl s h)

  pub remind-Follows :
      (s : State)
      → Follows from chain.clock s
      → Follows from chain.clock (remind format_time cfg chain s).state
  unfolding remind
  remind-Follows s h = elim (Option-cases chain.ballots) [
    | inl unread ↦ rw (remind, unread) h
    | inr (list, e) ↦ rw (remind, e) (remind_ballots-Follows list.head.now list.ballots s h)
  ]
