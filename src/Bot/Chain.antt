-- ===== src/Bot/Chain.antt =====
-- bot/bot.go: what the bot asks the chain and what it does. A pass sees one answer to each question,
-- so the chain is a record of answers; `none` is an error. Log lines are left out.
use gnoracle.Base.{◌++◌, ◌≡◌, refl, arith, ℕ, ℤ, Bool, List, [], ◌∷◌, Option}
use gnoracle.Base.Result.{Result}
use gnoracle.Base.Text.{Bytes}
use gnoracle.Gnochain.Broadcast.{TxResult}
use gnoracle.Gnochain.Events.{Event}
use gnoracle.Gnochain.Views.Feeds.{Head, FeedInfo, FeedSummary, RoundInfo}
use gnoracle.Gnochain.Views.Votes.{
  DisputeInfo, DaoHead, BallotInfo, BallotList, MemberInfo, VoteStatus, KourtRecord, ProposalInfo,
}

-- A transaction of the bot's own.
pub data Call : Type 0 where
  catch_up : ℕ → ℤ → Call
  resolve_dispute crank_mirror : ℕ → Call
  settle_member : Bytes → Call

pub record Chain : Type 0 where
  pub clock : ℤ
  pub can_sign : Bool
  pub latest_height : Option ℤ
  pub context_ended : ℤ → Bool
  pub block_events : ℤ → Option (List Event)
  pub all_feeds : Option (List FeedSummary)
  pub core_now : Option Head
  pub feed : ℕ → Option FeedInfo
  pub round : ℕ → ℕ → Option RoundInfo
  pub all_disputes : Option (List DisputeInfo)
  pub dispute : ℕ → Option DisputeInfo
  pub ballot_of_dispute : ℕ → Option (Option BallotInfo)
  pub kourt_record : ℕ → Option KourtRecord
  pub dao_now : Option DaoHead
  pub member : Bytes → Option MemberInfo
  pub ballot : ℕ → Option BallotInfo
  pub ballots : Option BallotList
  pub commit_of : ℕ → Bytes → Option VoteStatus
  pub reveal_of : ℕ → Bytes → Option VoteStatus
  pub proposal : ℕ → Option ProposalInfo
  pub call : Call → Result Bytes TxResult

-- What a pass does outside the process, in order.
pub data Effect : Type 0 where
  sent : Call → Effect
  post : Bytes → Effect
  dm : ℤ → Bytes → Effect

-- The transactions among the effects.
unfoldable pub calls : List Effect → List Call
calls [] = []
calls (sent c ∷ log) = c ∷ calls log
calls (_ ∷ log) = calls log

pub calls-++ : (xs ys : List Effect) → calls (xs ++ ys) ≡ calls xs ++ calls ys
unfolding calls
calls-++ [] ys = refl
calls-++ (x ∷ xs) ys = ground (arith, calls-++ xs ys)

-- The channel posts among the effects.
unfoldable pub posts : List Effect → List Bytes
posts [] = []
posts (post text ∷ log) = text ∷ posts log
posts (_ ∷ log) = posts log
