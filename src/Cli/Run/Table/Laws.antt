-- ===== src/Cli/Run/Table/Laws.antt =====
-- What any run of the command line sends.
use gnoracle.Base.{Bool, List, Option, none, some, inl, refl}
use gnoracle.Base.Text.{Bytes}
use gnoracle.Agent.Aggregate.{Rat}
use gnoracle.Cli.Run.{Flags, World, Tx, transactions}
use gnoracle.Cli.Run.Laws.{Orderly}
use gnoracle.Cli.Run.Reads.Laws.{read-silent}
use gnoracle.Cli.Run.Signs.Orders.{Paid, sign-Orderly}
use gnoracle.Cli.Run.Table.{Command, reads, signs, help, command_of, run, execute_command}

module _ (rat_of_text : Bytes → Option Rat) (lower upper : Bytes → Bytes)
    (valid_json : Bytes → Bool) (sum256 : Bytes → Bytes) (chain : Bytes)
    (indent : Bytes → Option Bytes) (usage : Bytes) (c : Flags) (w : World) where
  -- The coins that a command's transactions carry; a command that reads has no transaction.
  unfoldable pub Carries : Option Command → List Bytes → Tx → Type 0
  Carries (some (signs s)) a t =
      Paid rat_of_text lower upper valid_json sum256 chain indent c w s a t
  Carries _ a t = ⊥

  execute_command-Orderly :
      (o : Option Command) (a : List Bytes)
      → Orderly indent c w
          (Carries o a)
          (execute_command rat_of_text lower upper valid_json sum256 chain indent usage c w o a)
  unfolding execute_command Orderly Carries transactions
  execute_command-Orderly none a = inl refl
  execute_command-Orderly (some (reads r)) a = inl (read-silent indent sum256 c w r a)
  execute_command-Orderly (some (signs s)) a =
      sign-Orderly rat_of_text lower upper valid_json sum256 chain indent c w s a
  execute_command-Orderly (some help) a = inl refl

  -- A run of the command line sends no transaction; or one, and the run succeeds exactly when it is
  -- accepted; or two, the second behind an accepted first, and the run succeeds exactly when the
  -- second is accepted. They are sent with a key, and with the coins of the command's amount as it is
  -- read, or those of the flag where the command has none. A command that reads, or is not known,
  -- sends none. Votes are told apart from these.
  pub run-Orderly :
      (cmd : Bytes) (a : List Bytes)
      → Orderly indent c w
          (Carries (command_of cmd) a)
          (run rat_of_text lower upper valid_json sum256 chain indent usage c w cmd a)
  unfolding run
  run-Orderly cmd a = execute_command-Orderly (command_of cmd) a
