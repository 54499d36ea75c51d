-- ===== src/Agent/Store.antt =====
-- agent/state.go: what the agent remembers about each feed. The map is keyed by the feed's number,
-- whose decimal print is the key in the source. The JSON of a state is a parameter; a map that is
-- missing in it is read as an empty one.
pub mod Laws
use gnoracle.Base.{
  ℕ, ◌==◌, ℤ, pos, Bool, true, false, ◌&&◌, not, List, [], ◌∷◌, Option, none, some, if◌then◌else◌,
}
use gnoracle.Base.Files.{Found, LoadError, Saving, load, save_over}
use gnoracle.Base.Result.{Result}
use gnoracle.Base.Text.{Bytes, bytes_eq, is_empty}

pub record FeedState : Type 0 where
  pub start_at : ℤ
  pub has_round : Bool
  pub last_round : ℕ
  pub has_value : Bool
  pub last_value : ℤ
  pub value_round : ℕ
  pub last_claim_at : ℤ
  pub last_tx_hash : Bytes

abbrev pub blank : FeedState
blank = record {
  start_at = pos 0;
  has_round = false;
  last_round = 0;
  has_value = false;
  last_value = pos 0;
  value_round = 0;
  last_claim_at = pos 0;
  last_tx_hash = [];
}

pub record State : Type 0 where
  pub chain : Bytes
  pub feeds : List (ℕ × FeedState)

find : ℕ → List (ℕ × FeedState) → Option FeedState
find id [] = none
find id ((j, fs) ∷ feeds) = if j == id then some fs else find id feeds

-- The entry of a feed changed, a blank one where there is none.
alter : ℕ → (FeedState → FeedState) → List (ℕ × FeedState) → List (ℕ × FeedState)
alter id fn [] = (id, fn blank) ∷ []
alter id fn ((j, fs) ∷ feeds) = if j == id then (j, fn fs) ∷ feeds else (j, fs) ∷ alter id fn feeds

unfoldable pub update : ℕ → (FeedState → FeedState) → State → State
unfolding alter
update id fn s = record s { feeds = alter id fn s.feeds }

unfoldable pub snapshot : ℕ → State → FeedState
unfolding find
snapshot id s = elim (find id s.feeds) [ some fs ↦ fs | none ↦ blank ]

-- The state of a feed, made where there is none, and the state that now holds it.
unfoldable pub feed : ℕ → State → FeedState × State
unfolding update snapshot
feed id s = (snapshot id s, update id (λ fs. fs) s)

unfoldable pub for_chain : Bytes → State → State × Bool
unfolding bytes_eq
for_chain chain_id s =
    if not (is_empty s.chain) && not (bytes_eq s.chain chain_id)
    then (record { chain = chain_id; feeds = [] }, true)
    else (record s { chain = chain_id }, false)

abbrev pub no_memory : State
no_memory = record { chain = []; feeds = [] }

module _ {File : Type 0} where
  unfoldable pub load_state : (File → Option State) → Found File → Result LoadError State
  unfolding load
  load_state = load no_memory

  unfoldable pub save_state :
      (State → File) → Bytes → Saving → State → Found File → Found File × Bool
  unfolding save_over
  save_state = save_over
