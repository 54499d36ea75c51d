-- ===== src/Cli/Run/Table.antt =====
-- cmd/gnoracle/main.go, run and main: the names of the commands, and how a run ends. The usage text
-- and the parsing of flags are left to the parameters.
pub mod Laws
use gnoracle.Base.{ℕ, Bool, true, false, List, [], ◌∷◌, ◌++◌, Option, none, some, if◌then◌else◌}
use gnoracle.Base.Dict.{get}
use gnoracle.Base.Text.{Bytes, codes, is_empty}
use gnoracle.Agent.Aggregate.{Rat}
use gnoracle.Cli.Run.{Flags, World, Done, failed, prints}
use gnoracle.Cli.Run.Reads.{
  ReadCommand, status, feeds, feed, round, rounds, provider, providers, dispute, disputes, ballot,
  member, proposal, params, health, kourt, subscribers, subscription, commitment_of, read,
}
use gnoracle.Cli.Run.Signs.{
  SignCommand, register, topup, unbond, withdraw, unjail, claim, submit, finalize, deposit,
  subscribe, propose_feed, sponsor, dispute_open, appeal, resolve, stake, unstake, dao_withdraw,
  dao_claim, settle, commit_choice, reveal_choice, vote, execute, propose, call, kourt_crank, sign,
}

pub data Command : Type 0 where
  reads : ReadCommand → Command
  signs : SignCommand → Command
  help : Command

command_table : List (Bytes × Command)
command_table =
    (codes "status", reads status)
    ∷ (codes "feeds", reads feeds)
    ∷ (codes "feed", reads feed)
    ∷ (codes "round", reads round)
    ∷ (codes "rounds", reads rounds)
    ∷ (codes "provider", reads provider)
    ∷ (codes "providers", reads providers)
    ∷ (codes "dispute", reads dispute)
    ∷ (codes "disputes", reads disputes)
    ∷ (codes "ballot", reads ballot)
    ∷ (codes "member", reads member)
    ∷ (codes "proposal", reads proposal)
    ∷ (codes "params", reads params)
    ∷ (codes "health", reads health)
    ∷ (codes "kourt", reads kourt)
    ∷ (codes "subscribers", reads subscribers)
    ∷ (codes "subscription", reads subscription)
    ∷ (codes "commitment", reads commitment_of)
    ∷ (codes "register", signs register)
    ∷ (codes "topup", signs topup)
    ∷ (codes "unbond", signs unbond)
    ∷ (codes "withdraw", signs withdraw)
    ∷ (codes "unjail", signs unjail)
    ∷ (codes "claim", signs claim)
    ∷ (codes "submit", signs submit)
    ∷ (codes "finalize", signs finalize)
    ∷ (codes "deposit", signs deposit)
    ∷ (codes "subscribe", signs subscribe)
    ∷ (codes "propose-feed", signs propose_feed)
    ∷ (codes "sponsor", signs sponsor)
    ∷ (codes "dispute-open", signs dispute_open)
    ∷ (codes "appeal", signs appeal)
    ∷ (codes "resolve", signs resolve)
    ∷ (codes "stake", signs stake)
    ∷ (codes "unstake", signs unstake)
    ∷ (codes "dao-withdraw", signs dao_withdraw)
    ∷ (codes "dao-claim", signs dao_claim)
    ∷ (codes "settle", signs settle)
    ∷ (codes "commit", signs commit_choice)
    ∷ (codes "reveal", signs reveal_choice)
    ∷ (codes "vote", signs vote)
    ∷ (codes "execute", signs execute)
    ∷ (codes "propose", signs propose)
    ∷ (codes "call", signs call)
    ∷ (codes "kourt-crank", signs kourt_crank)
    ∷ (codes "help", help)
    ∷ (codes "-h", help)
    ∷ (codes "--help", help)
    ∷ []

pub command_of : Bytes → Option Command
command_of cmd = get cmd command_table

module _ (rat_of_text : Bytes → Option Rat) (lower upper : Bytes → Bytes)
    (valid_json : Bytes → Bool) (sum256 : Bytes → Bytes) (chain : Bytes)
    (indent : Bytes → Option Bytes) (usage : Bytes) (c : Flags) (w : World) where
  pub execute_command : Option Command → List Bytes → Done
  execute_command none a = failed
  execute_command (some (reads r)) a = read indent sum256 c w r a
  execute_command (some (signs s)) a =
      sign rat_of_text lower upper valid_json sum256 chain indent c w s a
  execute_command (some help) a = prints (usage ∷ [])

  pub run : Bytes → List Bytes → Done
  run cmd a = execute_command (command_of cmd) a

  -- What is done for the arguments behind the flags, and the exit code.
  pub main_run : List Bytes → Done × ℕ
  main_run [] = (failed, 2)
  main_run (cmd ∷ a) = let d = run cmd a in (d, if d.succeeded then 0 else 1)

-- A realm's path: the flag's, or by the namespace.
pub realm_path : Bytes → Bytes → Bytes → Bytes
realm_path flag ns name =
    if is_empty flag then codes "gno.land/r/" ++ ns ++ codes "/gnoracle/" ++ name else flag
