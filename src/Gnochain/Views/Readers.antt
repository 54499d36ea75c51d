-- ===== src/Gnochain/Views/Readers.antt =====
-- internal/gnochain/views.go: reading one machine view of a realm. What `Render` returns and the
-- decoders of JSON are parameters.
pub mod Paths
use gnoracle.Base.{
  ℕ, ℤ, Bool, true, false, List, [], ◌∷◌, ◌++◌, Option, none, some, if◌then◌else◌, ◌==◌,
}
use gnoracle.Base.Text.{Bytes, codes, is_empty}
use gnoracle.Base.Text.Decimal.{format_uint, format_int}

-- A reading: the view, the realm's own error with its path and message, or any other error.
pub data Reading (A : Type 0) : Type 0 where
  viewed : A → Reading A
  view_failed : Bytes → Bytes → Reading A
  not_rendered not_json not_decoded : Reading A

abbrev pub is_view_error : {A : Type 0} → Reading A → Bool
is_view_error (view_failed _ _) = true
is_view_error _ = false

trim_slash : Bytes → Bytes
trim_slash [] = []
trim_slash (c ∷ s) = if c == b'/' then s else c ∷ s

pub feed_path : ℕ → Bytes
feed_path id = codes "feed/" ++ format_uint id

pub feeds_path : ℤ → ℤ → Bytes
feeds_path offset count = codes "feeds/" ++ format_int offset ++ codes "/" ++ format_int count

pub round_path : ℕ → ℕ → Bytes
round_path feed round =
    codes "feed/" ++ (format_uint feed ++ (codes "/round/" ++ format_uint round))

pub current_round_path : ℕ → Bytes
current_round_path feed = codes "feed/" ++ format_uint feed ++ codes "/round/current"

pub provider_path : ℕ → Bytes → Bytes
provider_path feed addr = codes "feed/" ++ format_uint feed ++ codes "/provider/" ++ addr

pub providers_path : ℕ → Bytes
providers_path feed = codes "feed/" ++ format_uint feed ++ codes "/providers"

pub dispute_path : ℕ → Bytes
dispute_path id = codes "dispute/" ++ format_uint id

pub disputes_path : ℕ → ℤ → Bytes
disputes_path from count = codes "disputes/" ++ format_uint from ++ codes "/" ++ format_int count

pub ballot_path : ℕ → Bytes
ballot_path seq = codes "ballot/" ++ format_uint seq

pub dispute_ballot_path : ℕ → Bytes
dispute_ballot_path dispute = codes "ballot/dispute/" ++ format_uint dispute

pub ballots_path : ℕ → ℤ → Bytes
ballots_path from count = codes "ballots/" ++ format_uint from ++ codes "/" ++ format_int count

pub member_path : Bytes → Bytes
member_path addr = codes "member/" ++ addr

pub commit_path : ℕ → Bytes → Bytes
commit_path seq addr = codes "commit/" ++ format_uint seq ++ codes "/" ++ addr

pub reveal_path : ℕ → Bytes → Bytes
reveal_path seq addr = codes "reveal/" ++ format_uint seq ++ codes "/" ++ addr

pub proposal_path : ℕ → Bytes
proposal_path id = codes "proposal/" ++ format_uint id

pub subscription_path : ℕ → Bytes → Bytes
subscription_path feed realm = codes "feed/" ++ format_uint feed ++ codes "/subscription/" ++ realm

pub kourt_path : ℕ → Bytes
kourt_path dispute = codes "record/" ++ format_uint dispute

module _ (render : Bytes → Bytes → Option Bytes) (probe : Bytes → Option Bytes) {A : Type 0}
    (decode : Bytes → Option A) where
  decoded : Option A → Reading A
  decoded none = not_decoded
  decoded (some a) = viewed a

  -- The view under a path: an answer with an error in it is the realm's.
  pub json_view : Bytes → Bytes → Reading A
  json_view pkg path = elim (render pkg (codes "json/" ++ trim_slash path)) [
    | none ↦ not_rendered
    | some out ↦ elim (probe out) [
      | none ↦ not_json
      | some msg ↦ if is_empty msg then decoded (decode out) else view_failed path msg
    ]
  ]

  pub read_round : Bytes → ℕ → ℕ → Reading A
  read_round core feed round = json_view core (round_path feed round)

  pub read_provider : Bytes → ℕ → Bytes → Reading A
  read_provider core feed addr = json_view core (provider_path feed addr)

  pub read_feed : Bytes → ℕ → Reading A
  read_feed core id = json_view core (feed_path id)
