-- ===== src/Agent/Store/Laws.antt =====
-- agent/state.go: the memory of a feed, and what is reset for another chain.
use gnoracle.Base.{
  ℕ, ◌==◌, true, false, List, [], ◌∷◌, Option, none, some, ◌≡◌, ◌≢◌, ◌⊎◌, arith, if◌then◌else◌,
}
use gnoracle.Base.Text.{Bytes}
use gnoracle.Base.Text.Search.{bytes_eq_iff}
use gnoracle.Agent.Store.{FeedState, blank, State, find, alter, update, snapshot, for_chain}

abbrev or_blank : Option FeedState → FeedState
or_blank o = elim o [ some fs ↦ fs | none ↦ blank ]

find-alter :
    (i j : ℕ) (fn : FeedState → FeedState) (feeds : List (ℕ × FeedState))
    → or_blank (find j (alter i fn feeds))
      ≡ (if i == j then fn (or_blank (find i feeds)) else or_blank (find j feeds))
unfolding find alter
find-alter i j fn [] = ground arith
find-alter i j fn ((k, fs) ∷ feeds) = ground (arith, find-alter i j fn feeds)

-- An update of one feed is what a snapshot of that feed shows next, and no snapshot of another
-- feed changes.
pub snapshot-update :
    (i j : ℕ) (fn : FeedState → FeedState) (s : State)
    → snapshot j (update i fn s) ≡ (if i == j then fn (snapshot i s) else snapshot j s)
unfolding snapshot update
snapshot-update i j fn s = find-alter i j fn s.feeds

-- The state belongs to the chain it is asked for. Where it belonged to another one it is reset and
-- every feed is forgotten; where it belonged to none or to the same one, every feed is kept.
pub for_chain_lem :
    (chain_id : Bytes) (s : State) (j : ℕ)
    → let (s', reset) = for_chain chain_id s in
      (s'.chain ≡ chain_id)
      × (((s.chain ≢ []) × (s.chain ≢ chain_id) × (reset ≡ true) × (snapshot j s' ≡ blank))
          ⊎ (((s.chain ≡ []) ⊎ (s.chain ≡ chain_id))
              × (reset ≡ false)
              × (snapshot j s' ≡ snapshot j s)))
unfolding for_chain snapshot find
for_chain_lem chain_id s j = ground (arith, bytes_eq_iff s.chain chain_id)
