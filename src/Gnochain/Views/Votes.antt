-- ===== src/Gnochain/Views/Votes.antt =====
-- internal/gnochain/views.go: disputes, ballots, members and the court record.
use gnoracle.Base.{
  ℕ, ℤ, pos, Bool, ◌||◌, not, Option, List, String, if◌then◌else◌, str_eq, ltb_ℤ, leb_ℤ,
}
use gnoracle.Base.Int64.{add64}
use gnoracle.Gnochain.Views.Feeds.{Head}

pub record DisputeInfo : Type 0 where
  pub head : Head
  pub id : ℕ
  pub feed : ℕ
  pub round : ℕ
  pub disputer : String
  pub bond : ℤ
  pub proposed_value : ℤ
  pub tier_asked : String
  pub evidence : String
  pub evidence_hash : String
  pub opened_at : ℤ
  pub status : String
  pub ballot_round : ℤ
  pub outcome : String
  pub first_outcome : String
  pub tier_decided : String
  pub decided_at : ℤ
  pub resolved_at : ℤ
  pub appellant : String
  pub appeal_bond : ℤ
  pub appeal_at : ℤ
  pub slashed : ℤ
  pub appeal_window_ends : ℤ

pub record DisputeList : Type 0 where
  pub head : Head
  pub total : ℕ
  pub disputes : List DisputeInfo

pub record DaoHead : Type 0 where
  pub now : ℤ
  pub height : ℤ
  pub address : String
  pub epoch : ℤ
  pub epoch_blocks : ℤ
  pub live : String
  pub total_staked : ℤ
  pub member_count : ℤ
  pub proposal_count : ℕ
  pub ballot_count : ℕ

pub record BallotInfo : Type 0 where
  pub head : DaoHead
  pub seq : ℕ
  pub dispute : ℕ
  pub round : ℤ
  pub major_requested : Bool
  pub summary : String
  pub sealed_epoch : ℤ
  pub obligated : ℤ
  pub phase : String
  pub commit_ends : ℤ
  pub reveal_ends : ℤ
  pub uphold : ℤ
  pub overturn : ℤ
  pub overturn_minor : ℤ
  pub void : ℤ
  pub abstain : ℤ
  pub revealed : ℤ
  pub outcome : String
  pub tier : String
  pub resolved_at : ℤ
  pub prev_seq : ℕ
  pub final : Bool
  pub exists : Option Bool

unfoldable pub live_phase : BallotInfo → ℤ → String
live_phase b now =
    if ltb_ℤ (pos 0) b.resolved_at || str_eq b.phase "resolved"
    then "resolved"
    else if ltb_ℤ now b.commit_ends
    then "commit"
    else if ltb_ℤ now b.reveal_ends
    then "reveal"
    else "finished"

pub record BallotList : Type 0 where
  pub head : DaoHead
  pub total : ℕ
  pub ballots : List BallotInfo

pub record MemberInfo : Type 0 where
  pub head : DaoHead
  pub addr : String
  pub exists : Bool
  pub staked : ℤ
  pub power : ℤ
  pub unbond_amount : ℤ
  pub unbond_ready_at : ℤ
  pub cursor : ℕ
  pub pending_ugnot : ℤ
  pub pending_pyth : ℤ
  pub fees_owed : ℤ
  pub penalty_in_window : ℤ
  pub total_penalised : ℤ
  pub total_rewarded : ℤ

pub record VoteStatus : Type 0 where
  pub head : DaoHead
  pub seq : ℕ
  pub voter : String
  pub committed : Bool
  pub commitment : String
  pub revealed : Bool
  pub choice : String

pub record KourtRecord : Type 0 where
  pub now : ℤ
  pub dispute : ℕ
  pub exists : Bool
  pub binding : String
  pub state : String
  pub claim : ℕ
  pub title : String
  pub opened_at : ℤ
  pub staked_at : ℤ
  pub answered_at : ℤ
  pub settled_at : ℤ
  pub verdict : ℤ
  pub route : String
  pub steps : ℤ

unfoldable pub terminal : KourtRecord → Bool
terminal r =
    str_eq r.state "settled"
    || (str_eq r.state "confirmed" || (str_eq r.state "dissent" || str_eq r.state "abandoned"))

unfoldable pub due : KourtRecord → ℤ → Bool
unfolding terminal add64
due r now =
    if str_eq r.state "staked"
    then leb_ℤ (add64 r.opened_at (pos 10800)) now
    else if str_eq r.state "answered"
    then leb_ℤ (add64 r.answered_at (pos 259200)) now
    else not (terminal r)

pub record SubscriptionInfo : Type 0 where
  pub now : ℤ
  pub feed : ℕ
  pub realm : String
  pub exists : Bool
  pub since : ℤ
  pub paid_until : ℤ
  pub paid : ℤ
  pub periods : ℤ
  pub active : Bool

pub record SubscribersInfo : Type 0 where
  pub now : ℤ
  pub feed : ℕ
  pub subscriber_price : ℤ
  pub sponsored : Bool
  pub recurring : Bool
  pub offset : ℤ
  pub count : ℤ
  pub more : Bool
  pub subscribers : List SubscriptionInfo

pub record ProposalInfo : Type 0 where
  pub head : DaoHead
  pub id : ℕ
  pub kind : String
  pub payload : String
  pub title : String
  pub proposer : String
  pub created_at : ℤ
  pub voting_ends : ℤ
  pub executable : ℤ
  pub expires : ℤ
  pub status : String
  pub yes : ℤ
  pub no : ℤ
  pub abstain : ℤ
  pub voters : ℤ
