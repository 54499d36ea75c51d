-- ===== src/Cli/Run/Reads.antt =====
-- cmd/gnoracle/main.go, run: the commands that only read. A command with too few arguments fails
-- before anything else.
pub mod Laws
use gnoracle.Base.{
  ℕ, ltb, leb, ◌-◌, ℤ, pos, negsuc, sub_ℕ, Bool, true, false, not, List, [], ◌∷◌, ◌++◌, Option,
  none, some, ◌==◌, if◌then◌else◌,
}
use gnoracle.Base.Result.{Result, ok, err}
use gnoracle.Base.Text.{Bytes, codes, bytes_eq}
use gnoracle.Base.Text.Decimal.{format_int, format_uint, uint_or_zero, int_or_zero}
use gnoracle.Gnochain.Commitment.{commitment}
use gnoracle.Gnochain.Views.Feeds.{Head}
use gnoracle.Gnochain.Views.Votes.{DaoHead}
use gnoracle.Cli.Run.{Flags, World, Done, failed, prints, and_then, view, connects}

pub data ReadCommand : Type 0 where
  status feeds feed round rounds provider providers dispute disputes ballot member proposal params
        health kourt subscribers subscription commitment_of :
      ReadCommand

-- Every further argument behind a slash.
slashed : List Bytes → Bytes
slashed [] = []
slashed (x ∷ xs) = codes "/" ++ x ++ slashed xs

first_or : Bytes → List Bytes → Bytes
first_or default [] = default
first_or default (x ∷ xs) = x

module _ (indent : Bytes → Option Bytes) (sum256 : Bytes → Bytes) (c : Flags) (w : World) where
  core_line : Result Bytes Head → Bytes
  core_line (err e) = codes "core  " ++ c.core ++ codes ": " ++ e
  core_line (ok h) =
      codes "core  "
      ++ c.core
      ++ codes " now "
      ++ format_int h.now
      ++ codes " live "
      ++ codes h.live

  dao_line : Result Bytes DaoHead → Bytes
  dao_line (err e) = codes "dao   " ++ c.dao ++ codes ": " ++ e
  dao_line (ok d) =
      codes "dao   "
      ++ c.dao
      ++ codes " address "
      ++ codes d.address
      ++ codes " epoch "
      ++ format_int d.epoch
      ++ codes " staked "
      ++ format_int d.total_staked
      ++ codes " members "
      ++ format_int d.member_count
      ++ codes " proposals "
      ++ format_uint d.proposal_count
      ++ codes " ballots "
      ++ format_uint d.ballot_count
      ++ codes " live "
      ++ codes d.live

  kourt_lines : Option Bytes → List Bytes
  kourt_lines none = []
  kourt_lines (some out) = (codes "kourt " ++ c.kourt ++ codes " " ++ out) ∷ []

  status_lines : Bytes × ℤ × Bytes → List Bytes
  status_lines (network, height, time) =
      (codes "chain " ++ network ++ codes " height " ++ format_int height ++ codes " time " ++ time)
      ∷ core_line w.core_now
      ∷ dao_line w.dao_now
      ∷ kourt_lines (w.renders c.kourt (codes "json/now"))

  -- The node must answer; a realm that does not is told of, or passed over.
  status_done : Done
  status_done =
      if not (connects indent c w false)
      then failed
      else elim w.node_status [ none ↦ failed | some st ↦ prints (status_lines st) ]

  pub read : ReadCommand → List Bytes → Done
  read status a = status_done
  read feeds a = view indent c w c.core (codes "feeds")
  read feed (id ∷ a) = view indent c w c.core (codes "feed/" ++ id)
  read round (id ∷ n ∷ a) = view indent c w c.core (codes "feed/" ++ id ++ codes "/round/" ++ n)
  read rounds (id ∷ a) =
      view indent c w c.core (codes "feed/" ++ id ++ codes "/rounds/" ++ first_or (codes "20") a)
  read provider (id ∷ addr ∷ a) =
      view indent c w c.core (codes "feed/" ++ id ++ codes "/provider/" ++ addr)
  read providers (id ∷ a) = view indent c w c.core (codes "feed/" ++ id ++ codes "/providers")
  read dispute (id ∷ a) = view indent c w c.core (codes "dispute/" ++ id)
  read disputes a = view indent c w c.core (codes "disputes")
  read ballot (id ∷ a) = view indent c w c.dao (codes "ballot/dispute/" ++ id)
  read member (addr ∷ a) = view indent c w c.dao (codes "member/" ++ addr)
  read proposal (id ∷ a) = view indent c w c.dao (codes "proposal/" ++ id)
  read params [] = view indent c w c.core (codes "params")
  read params (which ∷ a) =
      view indent c w (if bytes_eq which (codes "dao") then c.dao else c.core) (codes "params")
  read health a =
      and_then (view indent c w c.core (codes "health")) (view indent c w c.dao (codes "health"))
  read kourt (id ∷ a) = view indent c w c.kourt (codes "record/" ++ id)
  read subscribers (id ∷ a) =
      view indent c w c.core (codes "feed/" ++ id ++ codes "/subscribers" ++ slashed a)
  read subscription (id ∷ realm ∷ a) =
      view indent c w c.core (codes "feed/" ++ id ++ codes "/subscription/" ++ realm)
  read commitment_of (d ∷ r ∷ choice ∷ salt ∷ voter ∷ a) =
      prints (commitment sum256 (uint_or_zero d) (int_or_zero r) choice salt voter ∷ [])
  read _ _ = failed
