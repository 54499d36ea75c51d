-- ===== src/Bot/Remind/Quiet.antt =====
-- bot/reminders.go: the transactions of the reminders.
use gnoracle.Base.{ℤ, List, [], ◌∷◌, ◌≡◌, arith, refl, inl, inr, Option-cases}
use gnoracle.Base.Text.{Bytes}
use gnoracle.Gnochain.Views.Votes.{BallotInfo}
use gnoracle.Bot.Chain.{Chain, calls, calls-++}
use gnoracle.Bot.Config.{Config, MemberConfig}
use gnoracle.Bot.State.{State}
use gnoracle.Bot.Remind.{
  Verb, commit, reveal, live_deadline, nudges, reminder, announce_reveal, remind_hours,
  remind_ballot, remind_ballots, remind,
}

module _ (format_time : ℤ → Bytes) (cfg : Config) (chain : Chain) where
  nudges_quiet :
      (text : Bytes) (ms : List MemberConfig) → calls (nudges format_time cfg chain text ms) ≡ []
  unfolding nudges calls
  nudges_quiet text [] = refl
  nudges_quiet text (m ∷ ms) = ground (arith, nudges_quiet text ms)

  reminder_quiet :
      (bl : BallotInfo) (verb : Verb) (deadline now : ℤ)
      → calls (reminder format_time cfg chain bl verb deadline now) ≡ []
  unfolding reminder calls
  reminder_quiet bl verb deadline now = nudges_quiet _ _

  remind_hours_quiet :
      (bl : BallotInfo) (verb : Verb) (deadline now : ℤ) (hs : List ℤ) (s : State)
      → calls (remind_hours format_time cfg chain bl verb deadline now hs s).log ≡ []
  unfolding remind_hours calls
  remind_hours_quiet bl verb deadline now [] s = refl
  remind_hours_quiet bl verb deadline now (t ∷ hs) s =
      ground
        (arith, reminder_quiet bl verb deadline now, remind_hours_quiet bl verb deadline now hs s)

  announce_reveal_quiet :
      (bl : BallotInfo) (verb : Verb) (now : ℤ) (s : State)
      → calls (announce_reveal format_time cfg chain bl verb now s).log ≡ []
  unfolding announce_reveal calls
  announce_reveal_quiet bl commit now s = refl
  announce_reveal_quiet bl reveal now s = ground arith

  remind_ballot_quiet :
      (now : ℤ) (bl : BallotInfo) (s : State)
      → calls (remind_ballot format_time cfg chain now bl s).log ≡ []
  unfolding remind_ballot calls
  remind_ballot_quiet now bl s = elim (Option-cases (live_deadline bl now)) [
    | inl idle ↦ rw (remind_ballot, idle) refl
    | inr ((verb, deadline), e) ↦
        rw (remind_ballot, e, calls-++, announce_reveal_quiet bl verb now s)
          (remind_hours_quiet bl verb deadline now cfg.remind.hours _)
  ]

  remind_ballots_quiet :
      (now : ℤ) (bls : List BallotInfo) (s : State)
      → calls (remind_ballots format_time cfg chain now bls s).log ≡ []
  unfolding remind_ballots calls
  remind_ballots_quiet now [] s = refl
  remind_ballots_quiet now (bl ∷ bls) s =
      rw (calls-++, remind_ballot_quiet now bl s) (remind_ballots_quiet now bls _)

  pub remind_quiet : (s : State) → calls (remind format_time cfg chain s).log ≡ []
  unfolding remind calls
  remind_quiet s = elim (Option-cases chain.ballots) [
    | inl unread ↦ rw (remind, unread) refl
    | inr (list, e) ↦ rw (remind, e) (remind_ballots_quiet list.head.now list.ballots s)
  ]
