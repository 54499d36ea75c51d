-- ===== src/Gnochain/Views/Pages/Complete.antt =====
-- internal/gnochain/views.go: the paging readers over a fixed list, served by the hundred.
use gnoracle.Base.{
  ℕ, zero, suc, ◌+◌, ◌*◌, ◌-◌, ◌<◌, ◌≤◌, Option, some, List, ◌++◌, ◌≡◌, arith, length, take, drop,
  take_all, take_add, length-take, length-drop,
}
use Prim.Native.Nat.{min}
use gnoracle.Gnochain.Views.Feeds.{FeedSummary, FeedList}
use gnoracle.Gnochain.Views.Votes.{DisputeInfo, DisputeList}
use gnoracle.Gnochain.Views.Pages.{listed, feeds_from, all_feeds, disputes_from, all_disputes}

-- The realm answers every offset with the hundred feeds behind it, and with the number of all.
pub record ServesFeeds (feeds : ℕ → Option FeedList) (xs : List FeedSummary) : Type 0 where
  pub page : (k : ℕ) → FeedList
  pub answers : (k : ℕ) → feeds k ≡ some (page k)
  pub holds : (k : ℕ) → (page k).feeds ≡ take 100 (drop k xs)
  pub counts : (k : ℕ) → (page k).total ≡ length xs

-- Behind `k` elements a page of a hundred either ends the list or leaves at least as many again.
module _ {A : Type 0} (k : ℕ) (xs : List A) (inside : k ≤ length xs) where
  length_page : length (take 100 (drop k xs)) ≡ min 100 (length xs - k)
  length_page = rw (length-take, length-drop)

  page_ends : length xs ≤ k + 100 → take k xs ++ take 100 (drop k xs) ≡ xs
  page_ends h = rw take_add (take_all (k + 100) xs h)

  length_pages : length (take k xs ++ take 100 (drop k xs)) ≡ min (k + 100) (length xs)
  length_pages = rw (take_add, length-take)

module _ (feeds : ℕ → Option FeedList) (xs : List FeedSummary) (h : ServesFeeds feeds xs) where
  feeds_from-take :
      (fuel k : ℕ)
      → k ≤ length xs
      → length xs < k + 100 * fuel
      → feeds_from feeds fuel k (take k xs) ≡ listed xs
  unfolding feeds_from
  feeds_from-take zero k inside enough = absurd (omega arith)
  feeds_from-take (suc fuel) k inside enough = ground (
    arith,
    h.answers k,
    h.holds k,
    h.counts k,
    length_page k xs inside,
    length_pages k xs inside,
    page_ends k xs inside,
    take_add k 100 xs,
    feeds_from-take fuel (k + 100),
  )

  -- When the realm serves a fixed list of feeds by the hundred, the reader returns exactly that
  -- list, in order and without a gap, given fuel for one page more than the list fills.
  pub all_feeds_complete : (fuel : ℕ) → length xs < 100 * fuel → all_feeds feeds fuel ≡ listed xs
  unfolding all_feeds take
  all_feeds_complete fuel enough = feeds_from-take fuel 0 (omega arith) (omega arith)

-- The realm answers from every dispute number on, and with the number of all; numbers begin at 1.
pub record ServesDisputes (disputes : ℕ → Option DisputeList) (xs : List DisputeInfo) : Type 0 where
  pub page : (k : ℕ) → DisputeList
  pub answers : (k : ℕ) → disputes (suc k) ≡ some (page k)
  pub holds : (k : ℕ) → (page k).disputes ≡ take 100 (drop k xs)
  pub counts : (k : ℕ) → (page k).total ≡ length xs

module _ (disputes : ℕ → Option DisputeList) (xs : List DisputeInfo)
    (h : ServesDisputes disputes xs) where
  disputes_from-take :
      (fuel k : ℕ)
      → k ≤ length xs
      → length xs < k + 100 * fuel
      → disputes_from disputes fuel (suc k) (take k xs) ≡ listed xs
  unfolding disputes_from
  disputes_from-take zero k inside enough = absurd (omega arith)
  disputes_from-take (suc fuel) k inside enough =
      let e : suc k + 100 ≡ suc (k + 100) = omega arith in
      ground (
        arith,
        h.answers k,
        h.holds k,
        h.counts k,
        length_page k xs inside,
        page_ends k xs inside,
        take_add k 100 xs,
        e,
        disputes_from-take fuel (k + 100),
      )

  -- When the realm serves a fixed list of disputes from every number on, the reader returns
  -- exactly that list, given fuel for one page more than the list fills.
  all_disputes_complete :
      (fuel : ℕ) → length xs < 100 * fuel → all_disputes disputes fuel ≡ listed xs
  unfolding all_disputes take
  all_disputes_complete fuel enough = disputes_from-take fuel 0 (omega arith) (omega arith)
