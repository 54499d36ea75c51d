-- ===== src/Bot/Remind.antt =====
-- bot/reminders.go: deadline reminders for running ballots.
pub mod Laws
pub mod Quiet
pub mod Follows
use gnoracle.Base.{
  ℕ, ℤ, pos, ltb_ℤ, leb_ℤ, Bool, true, false, ◌&&◌, ◌||◌, not, List, [], ◌∷◌, ◌++◌, map, Option,
  none, some, if◌then◌else◌, str_eq, eqb_ℤ,
}
use gnoracle.Base.Int64.{sub64, mul64}
use gnoracle.Base.Text.{Bytes, codes}
use gnoracle.Base.Text.Decimal.{format_uint, format_int}
use gnoracle.Gnochain.Views.Votes.{BallotInfo, live_phase}
use gnoracle.Bot.Chain.{Chain, Effect, post, dm}
use gnoracle.Bot.Config.{Config, MemberConfig}
use gnoracle.Bot.State.{State, once}
use gnoracle.Bot.Text.{when, display_name}

-- What a member owes a ballot.
pub data Verb : Type 0 where
  commit reveal : Verb

abbrev pub verb_text : Verb → Bytes
verb_text commit = codes "commit"
verb_text reveal = codes "reveal"

abbrev pub done_text : Verb → Bytes
done_text commit = codes "committed"
done_text reveal = codes "revealed"

-- `strings.Join` with a comma and a space.
joined : List Bytes → Bytes
joined [] = []
joined (s ∷ []) = s
joined (s ∷ t ∷ ss) = s ++ (codes ", " ++ joined (t ∷ ss))

-- The phase's verb and deadline.
pub live_deadline : BallotInfo → ℤ → Option (Verb × ℤ)
live_deadline bl now =
    let phase = live_phase bl now in
    if str_eq phase "commit"
    then some (commit, bl.commit_ends)
    else if str_eq phase "reveal"
    then some (reveal, bl.reveal_ends)
    else none

pub reminder_key : ℕ → Verb → ℤ → Bytes
reminder_key seq verb h =
    codes "remind:" ++ (format_uint seq ++ (b':' ∷ (verb_text verb ++ b':' ∷ format_int h)))

pub reveal_key : ℕ → Bytes
reveal_key seq = codes "open:" ++ (format_uint seq ++ codes ":reveal")

pub record Reminded : Type 0 where
  pub state : State
  pub log : List Effect

module _ (format_time : ℤ → Bytes) (cfg : Config) (chain : Chain) where
  committed : Bool → ℕ → Bytes → Bool
  committed unread seq addr = elim (chain.commit_of seq addr) [
    | some v ↦ v.committed
    | none ↦ unread
  ]

  -- Whether a member's action is done; without a commit there is nothing to reveal.
  pub vote_done : Verb → ℕ → Bytes → Bool
  vote_done commit seq addr = committed false seq addr
  vote_done reveal seq addr =
      elim (chain.reveal_of seq addr) [ some v ↦ v.revealed | none ↦ false ]
      || not (committed true seq addr)

  missing_of : List MemberConfig → ℕ → Verb → List MemberConfig
  missing_of [] seq verb = []
  missing_of (m ∷ ms) seq verb =
      let rest = missing_of ms seq verb in if vote_done verb seq m.addr then rest else m ∷ rest

  -- `missing`: the opted-in members who still owe the action.
  pub missing : ℕ → Verb → List MemberConfig
  missing seq verb = missing_of cfg.members seq verb

  still_to : Verb → List MemberConfig → Bytes
  still_to verb [] = []
  still_to verb (m ∷ ms) =
      codes " Still to "
      ++ (verb_text verb ++ (codes ": " ++ (joined (map display_name (m ∷ ms)) ++ codes ".")))

  reminder_text : BallotInfo → Verb → ℤ → ℤ → List MemberConfig → Bytes
  reminder_text bl verb deadline now ms =
      codes "Reminder: dispute "
      ++ (format_uint bl.dispute
          ++ (b' '
              ∷ (verb_text verb
                  ++ (codes " phase ends "
                      ++ (when format_time deadline now
                          ++ (codes "."
                              ++ (still_to verb ms
                                  ++ codes " Absence costs stake (UMA-style penalties).")))))))

  nudge_text : BallotInfo → Verb → ℤ → ℤ → Bytes
  nudge_text bl verb deadline now =
      codes "You have not "
      ++ (done_text verb
          ++ (codes " on dispute "
              ++ (format_uint bl.dispute
                  ++ (codes " yet. The "
                      ++ (verb_text verb
                          ++ (codes " phase ends "
                              ++ (when format_time deadline now
                                  ++ (codes ". Run `gnoracle "
                                      ++ (verb_text verb
                                          ++ (b' '
                                              ∷ (format_uint bl.dispute ++ codes " ...`.")))))))))))

  -- A direct message, to members with a chat.
  nudges : Bytes → List MemberConfig → List Effect
  nudges text [] = []
  nudges text (m ∷ ms) =
      let rest = nudges text ms in if eqb_ℤ m.chat (pos 0) then rest else dm m.chat text ∷ rest

  -- The reminder of one threshold and the direct messages with it.
  pub reminder : BallotInfo → Verb → ℤ → ℤ → List Effect
  reminder bl verb deadline now =
      let owing = missing bl.seq verb in
      post (reminder_text bl verb deadline now owing)
      ∷ nudges (nudge_text bl verb deadline now) owing

  -- The deadline is ahead, and no more than `h` hours away.
  unfoldable pub within : ℤ → ℤ → ℤ → Bool
  within deadline now h =
      let left = sub64 deadline now in ltb_ℤ (pos 0) left && leb_ℤ left (mul64 h (pos 3600))

  -- The thresholds in the order of the configuration; the first new one in reach ends the pass.
  pub remind_hours : BallotInfo → Verb → ℤ → ℤ → List ℤ → State → Reminded
  remind_hours bl verb deadline now [] s = record { state = s; log = [] }
  remind_hours bl verb deadline now (h ∷ hs) s =
      let (s', fresh) = once (reminder_key bl.seq verb h) chain.clock s in
      let rest = remind_hours bl verb deadline now hs s in
      if not (within deadline now h)
      then rest
      else if not fresh
      then rest
      else record { state = s'; log = reminder bl verb deadline now }

  reveal_open_text : BallotInfo → ℤ → Bytes
  reveal_open_text bl now =
      codes "Dispute "
      ++ (format_uint bl.dispute
          ++ (codes ": reveal phase is open until "
              ++ (when format_time bl.reveal_ends now
                  ++ (codes ". Members who committed must now run `gnoracle reveal "
                      ++ (format_uint bl.dispute ++ codes "`.")))))

  -- The opening of the reveal phase, announced once.
  announce_reveal : BallotInfo → Verb → ℤ → State → Reminded
  announce_reveal bl commit now s = record { state = s; log = [] }
  announce_reveal bl reveal now s =
      let (s', fresh) = once (reveal_key bl.seq) chain.clock s in
      record { state = s'; log = if fresh then post (reveal_open_text bl now) ∷ [] else [] }

  pub remind_ballot : ℤ → BallotInfo → State → Reminded
  remind_ballot now bl s = elim (live_deadline bl now) [
    | none ↦ record { state = s; log = [] }
    | some (verb, deadline) ↦
        let r = announce_reveal bl verb now s in
        let r' = remind_hours bl verb deadline now cfg.remind.hours r.state in
        record r' { log = r.log ++ r'.log }
  ]

  pub remind_ballots : ℤ → List BallotInfo → State → Reminded
  remind_ballots now [] s = record { state = s; log = [] }
  remind_ballots now (bl ∷ bls) s =
      let r = remind_ballot now bl s in
      let r' = remind_ballots now bls r.state in record r' { log = r.log ++ r'.log }

  pub remind : State → Reminded
  remind s = elim chain.ballots [
    | none ↦ record { state = s; log = [] }
    | some list ↦ remind_ballots list.head.now list.ballots s
  ]
