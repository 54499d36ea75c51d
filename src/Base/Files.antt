-- ===== src/Base/Files.antt =====
-- What the state files of agent/state.go and bot/state.go share: reading one that may be missing, and
-- writing one by a temporary file and a rename, so that a write that fails leaves it as it was. The
-- print of a state (encoding/json) and the file system's answers are parameters.
use gnoracle.Base.Tests.{if◌then◌else◌}
use gnoracle.Base.Result.{Result, ok, err}
use gnoracle.Base.Text.{Bytes, is_empty}
use mathlib.Core.Bool.{Bool, true, false, ◌&&◌, not}
use mathlib.Core.Option.{Option, none, some}

-- What `os.ReadFile` finds.
pub data Found (File : Type 0) : Type 0 where
  absent unreadable : Found File
  holds : File → Found File

pub data LoadError : Type 0 where
  not_read not_decoded : LoadError

-- The file system's answers to a save: making the directory, writing the temporary file, renaming it.
pub record Saving : Type 0 where
  pub in_place : Bool
  pub dir_made : Bool
  pub written : Bool
  pub renamed : Bool

module _ {File S : Type 0} where
  unfoldable pub load : S → (File → Option S) → Found File → Result LoadError S
  load empty decode absent = ok empty
  load empty decode unreadable = err not_read
  load empty decode (holds b) = elim (decode b) [ some s ↦ ok s | none ↦ err not_decoded ]

  -- The file behind a save, and whether there was no error. An empty path is never written.
  unfoldable pub save_over : (S → File) → Bytes → Saving → S → Found File → Found File × Bool
  save_over encode path fs s file =
      if is_empty path
      then (file, true)
      else if not fs.dir_made && not fs.in_place
      then (file, false)
      else if not fs.written
      then (file, false)
      else if not fs.renamed
      then (file, false)
      else (holds (encode s), true)
