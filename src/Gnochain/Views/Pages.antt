-- ===== src/Gnochain/Views/Pages.antt =====
-- internal/gnochain/views.go: the readers that page through a list. A reply is a function of the
-- offset asked for: a run asks for each offset once, so this stands for any sequence of replies.
-- A loop takes fuel, one unit for each page.
pub mod Complete
use gnoracle.Base.{
  ℕ, zero, suc, ◌+◌, ℤ, pos, Bool, false, ◌||◌, not, Option, none, some, List, [], ◌∷◌, ◌++◌, ltb,
  leb, ◌==◌, if◌then◌else◌, length,
}
use gnoracle.Gnochain.Views.Feeds.{FeedSummary, FeedList}
use gnoracle.Gnochain.Views.Votes.{
  DisputeInfo, DisputeList, SubscriptionInfo, SubscribersInfo, BallotInfo,
}

-- How a paging loop ends; `unfinished` is a loop whose fuel ran out.
pub data Paged (A : Type 0) : Type 0 where
  listed : A → Paged A
  failed : Paged A
  unfinished : Paged A

module _ (feeds : ℕ → Option FeedList) where
  feeds_from : ℕ → ℕ → List FeedSummary → Paged (List FeedSummary)
  feeds_from zero offset out = unfinished
  feeds_from (suc fuel) offset out = elim (feeds offset) [
    | none ↦ failed
    | some l ↦
        let out' = out ++ l.feeds in
        let rest = feeds_from fuel (offset + 100) out' in
        if ltb (length l.feeds) 100 || leb l.total (length out') then listed out' else rest
  ]

  unfoldable pub all_feeds : ℕ → Paged (List FeedSummary)
  unfolding feeds_from
  all_feeds fuel = feeds_from fuel 0 []

module _ (disputes : ℕ → Option DisputeList) where
  disputes_from : ℕ → ℕ → List DisputeInfo → Paged (List DisputeInfo)
  disputes_from zero from out = unfinished
  disputes_from (suc fuel) from out = elim (disputes from) [
    | none ↦ failed
    | some l ↦
        let out' = out ++ l.disputes in
        let rest = disputes_from fuel (from + 100) out' in
        if ltb (length l.disputes) 100 || ltb l.total (from + 100) then listed out' else rest
  ]

  unfoldable pub all_disputes : ℕ → Paged (List DisputeInfo)
  unfolding disputes_from
  all_disputes fuel = disputes_from fuel 1 []

-- The first page, or the pages so far with the new page's subscribers behind them.
merge_page : Option SubscribersInfo → SubscribersInfo → SubscribersInfo
merge_page none s = s
merge_page (some all) s = record all { subscribers = all.subscribers ++ s.subscribers }

module _ (page : ℕ → Option SubscribersInfo) where
  subscribers_from : ℕ → ℕ → Option SubscribersInfo → Paged SubscribersInfo
  unfolding merge_page
  subscribers_from zero offset all = unfinished
  subscribers_from (suc fuel) offset all = elim (page offset) [
    | none ↦ failed
    | some s ↦
        let all' = merge_page all s in
        let rest = subscribers_from fuel (offset + 100) (some all') in
        if not s.more || (length s.subscribers == 0)
        then listed
            (record all' { more = false; offset = pos 0; count = pos (length all'.subscribers) })
        else rest
  ]

  unfoldable pub subscribers : ℕ → Paged SubscribersInfo
  unfolding subscribers_from
  subscribers fuel = subscribers_from fuel 0 none

-- The dispute's ballot from the reply, `none` inside where the view says that there is none.
unfoldable pub ballot_of_dispute : Option BallotInfo → Option (Option BallotInfo)
ballot_of_dispute none = none
ballot_of_dispute (some b) = elim b.exists [
  | some seen ↦ if seen then some (some b) else some none
  | none ↦ some (some b)
]
