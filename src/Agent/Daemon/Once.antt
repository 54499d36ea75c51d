-- ===== src/Agent/Daemon/Once.antt =====
-- agent/agent.go, Once: one pass for each feed.
use gnoracle.Base.{ℕ, zero, suc, List, [], ◌++◌, Option, none, some, if◌then◌else◌, String, length}
use gnoracle.Base.Files.{Found, Saving}
use gnoracle.Base.Text.{Bytes}
use gnoracle.Agent.Store.{State, save_state}
use gnoracle.Agent.Runner.Defs.{Settings, Replies, done, failed, unfinished}
use gnoracle.Agent.Daemon.{Agent, Log, pass_saved}

pub data OnceError : Type 0 where
  pass_failed : ℕ → OnceError
  not_saved : OnceError

pub record Ended (File : Type 0) : Type 0 where
  pub file : Found File
  pub agent : Agent
  pub log : Log
  pub first_error : Option OnceError

module _ {File : Type 0} (encode : State → File) (decode : File → Option State) (path : Bytes)
    (chain_id : Bytes) (settings : List Settings) (unquote : Bytes → Option Bytes) (me : String)
    (answers : ℕ → Replies × Saving) where
  -- The passes from a place on, so many, and the first that failed.
  pub once_from : ℕ → ℕ → Agent → Found File → Ended File
  once_from n zero a file = record { file = file; agent = a; log = []; first_error = none }
  once_from n (suc count) a file =
      let (replies, fs) = answers n in
      let (p, file') =
        pass_saved encode decode path chain_id settings unquote me n replies fs a file in
      let end = once_from (suc n) count p.agent file' in
      record end {
        log = p.log ++ end.log;
        first_error = elim p.outcome [
          | done ↦ end.first_error
          | failed ↦ some (pass_failed n)
          | unfinished ↦ some (pass_failed n)
        ];
      }

  -- One pass for each feed, whatever the others come to, and a save; the first error is returned.
  pub once : Saving → Agent → Found File → Ended File
  once fs a file =
      let end = once_from 0 (length a.runners) a file in
      let (file', saved) = save_state encode path fs end.agent.store end.file in
      record end {
        file = file';
        first_error = elim end.first_error [
          | some e ↦ some e
          | none ↦ if saved then none else some not_saved
        ];
      }
