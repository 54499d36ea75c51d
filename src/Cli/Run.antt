-- ===== src/Cli/Run.antt =====
-- cmd/gnoracle/main.go, run: a command of the line and what it does. What the realms, the keybase and
-- the file system answer is a record; the transactions that are sent and the texts that are printed
-- stand in their order. Readings of realms leave no mark. An error's text is left out.
pub mod Reads
pub mod Signs
pub mod Table
pub mod Laws
mod Tests
use gnoracle.Base.{
  ℕ, ltb, ℤ, Bool, true, false, ◌&&◌, ◌||◌, not, List, [], ◌∷◌, ◌++◌, map, Option, none, some,
  if◌then◌else◌, length,
}
use gnoracle.Base.Result.{Result}
use gnoracle.Base.Text.{Bytes, codes}
use gnoracle.Base.Text.Decimal.{format_int}
use gnoracle.Gnochain.Broadcast.{TxResult}
use gnoracle.Gnochain.Views.Feeds.{FeedInfo, Head}
use gnoracle.Gnochain.Views.Votes.{DaoHead}
use gnoracle.Cli.Args.{short_pkg}
use gnoracle.Cli.Votes.{Call, Files}
use gnoracle.Cli.Votes

-- The flags that a command reads, with the realms' paths filled in.
pub record Flags : Type 0 where
  pub core : Bytes
  pub dao : Bytes
  pub kourt : Bytes
  pub token : Bytes
  pub send : Bytes
  pub raw : Bool
  pub has_key : Bool

pub record Tx : Type 0 where
  pub pkg : Bytes
  pub func : Bytes
  pub args : List Bytes
  pub coins : Bytes

pub data Action : Type 0 where
  sent : Tx → Action
  voted : Call → Action
  printed : Bytes → Action

-- The answers: whether a client is made, with or without a key; a realm's text; what became of a
-- transaction; the node's status; typed readings; a file; and those of voting.
pub record World : Type 0 where
  pub makes_client : Bool → Bool
  pub me : Bytes
  pub renders : Bytes → Bytes → Option Bytes
  pub answers : Tx → Option TxResult
  pub node_status : Option (Bytes × ℤ × Bytes)
  pub core_now : Result Bytes Head
  pub dao_now : Result Bytes DaoHead
  pub feed : ℕ → Option FeedInfo
  pub file : Bytes → Option Bytes
  pub votes : Votes.World
  pub files : Files

pub record Done : Type 0 where
  pub log : List Action
  pub succeeded : Bool

abbrev pub failed : Done
failed = record { log = []; succeeded = false }

abbrev pub prints : List Bytes → Done
prints lines = record { log = map (λ line. printed line) lines; succeeded = true }

-- One step and, where it succeeded, the next: `if err := ...; err != nil { return err }`.
abbrev pub and_then : Done → Done → Done
and_then first next =
    if first.succeeded
    then record { log = first.log ++ next.log; succeeded = next.succeeded }
    else first

-- The transactions of a log, in order.
unfoldable pub transactions : List Action → List Tx
transactions [] = []
transactions (sent t ∷ log) = t ∷ transactions log
transactions (voted _ ∷ log) = transactions log
transactions (printed _ ∷ log) = transactions log

module _ (indent : Bytes → Option Bytes) (c : Flags) (w : World) where
  -- A client is made; one that signs needs a key or the environment's mnemonic.
  pub connects : Bool → Bool
  connects sign = (not sign || c.has_key) && w.makes_client sign

  -- A realm's view, printed as it is or indented.
  pub view : Bytes → Bytes → Done
  view pkg path =
      if not (connects false) then failed else elim (w.renders pkg (codes "json/" ++ path)) [
        | none ↦ failed
        | some out ↦
            if c.raw
            then prints (out ∷ [])
            else elim (indent out) [ none ↦ prints (out ∷ []) | some text ↦ prints (text ∷ []) ]
      ]

  ok_line : Tx → TxResult → Bytes
  ok_line t res =
      codes "ok: "
      ++ short_pkg t.pkg
      ++ codes "."
      ++ t.func
      ++ codes " at height "
      ++ format_int res.height
      ++ codes ", tx "
      ++ res.hash
      ++ codes ", gas "
      ++ format_int res.gas_used
      ++ codes ", fee "
      ++ res.fee_paid

  -- The arrow in UTF-8 stands before each result.
  result_lines : List Bytes → List Action
  result_lines results =
      map (λ r. printed (codes "  " ++ 0xe2 ∷ 0x86 ∷ 0x92 ∷ (codes " " ++ r))) results

  -- A transaction with the coins given.
  pub tx_with : Bytes → Bytes → Bytes → List Bytes → Done
  tx_with coins pkg func args =
      let t : Tx = record { pkg = pkg; func = func; args = args; coins = coins } in
      if not (connects true) then failed else elim (w.answers t) [
        | none ↦ record { log = sent t ∷ []; succeeded = false }
        | some res ↦ record {
          log = sent t ∷ printed (ok_line t res) ∷ result_lines res.results;
          succeeded = true;
        }
      ]

  -- A transaction with the coins of the flag.
  pub tx : Bytes → Bytes → List Bytes → Done
  tx = tx_with c.send
