-- ===== src/Cli/Votes.antt =====
-- cmd/gnoracle/main.go, commit and reveal: voting on a dispute with the salt kept in a file. The files of
-- the votes directory are a map from their names to their records; a file that does not decode
-- is taken as missing. What a run is told is a record of answers. Upper-casing is a parameter.
pub mod Laws
pub mod Reveal
pub mod Kept
use gnoracle.Base.{
  ℕ, ℤ, Bool, true, false, ◌&&◌, not, List, [], ◌∷◌, ◌++◌, Option, none, some, if◌then◌else◌,
  str_eq,
}
use gnoracle.Base.Dict.{get, put, remove}
use gnoracle.Base.Text.{Bytes, codes, bytes_eq, is_empty}
use gnoracle.Base.Text.Decimal.{format_uint, format_int, parse_uint}
use gnoracle.Gnochain.Commitment.{valid_choice, commitment}
use gnoracle.Gnochain.Views.Votes.{BallotInfo, live_phase}

-- The salt file written by commit and read by reveal.
pub record VoteRecord : Type 0 where
  pub chain : Bytes
  pub dispute : ℕ
  pub round : ℤ
  pub seq : ℕ
  pub voter : Bytes
  pub choice : Bytes
  pub salt : Bytes
  pub commitment : Bytes
  pub at : Bytes
  pub revealed : Bytes

abbrev pub Files : Type 0
Files = List (Bytes × VoteRecord)

-- A transaction that is sent, whether it is accepted or not.
pub data Call : Type 0 where
  commit_vote : ℕ → Bytes → Call
  reveal_vote : ℕ → Bytes → Bytes → Call

-- The answers of one run: the client with the signer's address, the realm, the random source, the
-- file system and the clock.
pub record World : Type 0 where
  pub connects : Bool
  pub voter : Bytes
  pub ballot : ℕ → Option (Option BallotInfo)
  pub has_dir : Bool
  pub new_salt : Option Bytes
  pub writes : Bool
  pub renames : Bool
  pub accepts : Call → Bool
  pub clock : Bytes

pub record Ran : Type 0 where
  pub files : Files
  pub calls : List Call
  pub succeeded : Bool

abbrev pub stopped : Files → Ran
stopped files = record { files = files; calls = []; succeeded = false }

-- The dispute's ballot, of a client that connects.
unfoldable pub ballot_for : World → ℕ → Option BallotInfo
ballot_for w dispute =
    if not w.connects
    then none
    else elim (w.ballot dispute) [ some (some bl) ↦ some bl | some none ↦ none | none ↦ none ]

-- The record that is used again: one with a salt, for the same choice.
unfoldable pub reusable : Option VoteRecord → Bytes → Option VoteRecord
unfolding bytes_eq
reusable none choice = none
reusable (some rec) choice =
    if not (is_empty rec.salt) && bytes_eq rec.choice choice then some rec else none

module _ (sum256 : Bytes → Bytes) (upper : Bytes → Bytes) (chain : Bytes) where
  unfoldable pub path_of : ℕ → ℤ → Bytes
  unfolding format_uint format_int
  path_of dispute round =
      chain ++ b'-' ∷ (format_uint dispute ++ b'-' ∷ (format_int round ++ codes ".json"))

  abbrev pub pending_of : Bytes → Bytes
  pending_of path = path ++ codes ".pending"

  unfoldable pub new_record : World → ℕ → Bytes → BallotInfo → Bytes → VoteRecord
  unfolding commitment
  new_record w dispute choice bl salt = record {
    chain = chain;
    dispute = dispute;
    round = bl.round;
    seq = bl.seq;
    voter = w.voter;
    choice = choice;
    salt = salt;
    commitment = commitment sum256 dispute bl.round choice salt w.voter;
    at = w.clock;
    revealed = [];
  }

  -- The new record stands beside the old one until the transaction committed.
  unfoldable pub commit_fresh : World → Files → ℕ → Bytes → VoteRecord → Ran
  unfolding put remove
  commit_fresh w files dispute path rec =
      let call = commit_vote dispute rec.commitment in
      let beside = put (pending_of path) rec files in
      let cleared = remove (pending_of path) beside in
      if not w.writes
      then stopped files
      else if not (w.accepts call)
      then record { files = cleared; calls = call ∷ []; succeeded = false }
      else if not w.renames
      then record { files = beside; calls = call ∷ []; succeeded = false }
      else record { files = put path rec cleared; calls = call ∷ []; succeeded = true }

  unfoldable pub commit_again : World → Files → ℕ → VoteRecord → Ran
  commit_again w files dispute rec =
      let call = commit_vote dispute rec.commitment in
      record { files = files; calls = call ∷ []; succeeded = w.accepts call }

  -- `commit` from the votes directory on.
  unfoldable pub commit_on : World → Files → ℕ → Bytes → BallotInfo → Ran
  unfolding path_of get reusable commit_again commit_fresh new_record
  commit_on w files dispute choice bl =
      let path = path_of dispute bl.round in
      if not w.has_dir then stopped files else elim (reusable (get path files) choice) [
        | some rec ↦ commit_again w files dispute rec
        | none ↦ elim w.new_salt [
          | none ↦ stopped files
          | some salt ↦ commit_fresh w files dispute path (new_record w dispute choice bl salt)
        ]
      ]

  unfoldable pub commit_choice : World → Files → ℕ → Bytes → Ran
  unfolding ballot_for live_phase commit_on
  commit_choice w files dispute choice = elim (ballot_for w dispute) [
    | none ↦ stopped files
    | some bl ↦
        if not (str_eq (live_phase bl bl.head.now) "commit")
        then stopped files
        else commit_on w files dispute choice bl
  ]

  unfoldable pub commit : World → Files → List Bytes → Ran
  unfolding parse_uint valid_choice commit_choice
  commit w files [] = stopped files
  commit w files (d ∷ []) = stopped files
  commit w files (d ∷ c ∷ rest) = elim (parse_uint d) [
    | none ↦ stopped files
    | some dispute ↦
        if not (valid_choice (upper c))
        then stopped files
        else commit_choice w files dispute (upper c)
  ]

  -- `reveal` from the saved record on.
  unfoldable pub reveal_saved : World → Files → ℕ → BallotInfo → VoteRecord → Ran
  unfolding bytes_eq live_phase path_of put
  reveal_saved w files dispute bl rec =
      let call = reveal_vote dispute rec.choice rec.salt in
      let marked = put (path_of dispute bl.round) (record rec { revealed = w.clock }) files in
      if not (bytes_eq rec.voter w.voter)
      then stopped files
      else if not (str_eq (live_phase bl bl.head.now) "reveal")
      then stopped files
      else if not (w.accepts call)
      then record { files = files; calls = call ∷ []; succeeded = false }
      else record {
        files = if w.writes then marked else files;
        calls = call ∷ [];
        succeeded = true;
      }

  unfoldable pub reveal_on : World → Files → ℕ → BallotInfo → Ran
  unfolding get path_of reveal_saved
  reveal_on w files dispute bl =
      if not w.has_dir then stopped files else elim (get (path_of dispute bl.round) files) [
        | none ↦ stopped files
        | some rec ↦ reveal_saved w files dispute bl rec
      ]

  unfoldable pub reveal : World → Files → List Bytes → Ran
  unfolding parse_uint ballot_for reveal_on
  reveal w files [] = stopped files
  reveal w files (d ∷ rest) = elim (parse_uint d) [
    | none ↦ stopped files
    | some dispute ↦ elim (ballot_for w dispute) [
      | none ↦ stopped files
      | some bl ↦ reveal_on w files dispute bl
    ]
  ]
