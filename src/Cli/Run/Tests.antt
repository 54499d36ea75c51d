-- ===== src/Cli/Run/Tests.antt =====
-- Runs of the command line at concrete answers.
use gnoracle.Base.{pos, true, false, [], ◌∷◌, Option, none, some}
use gnoracle.Base.Result.{err}
use gnoracle.Base.Text.{Bytes, codes}
use gnoracle.Agent.Aggregate.{Rat}
use gnoracle.Cli.Votes
use gnoracle.Cli.Run.{Flags, World}
use gnoracle.Cli.Run.Laws.{Orderly}
use gnoracle.Cli.Run.Table.{command_of, run}
use gnoracle.Cli.Run.Table.Laws.{Carries, run-Orderly}

abbrev flags : Flags
flags = record {
  core = codes "core";
  dao = codes "dao";
  kourt = codes "kourt";
  token = codes "token";
  send = [];
  raw = true;
  has_key = true;
}

abbrev voting_world : Votes.World
voting_world = record {
  connects = true;
  voter = codes "g1me";
  ballot = λ d. none;
  has_dir = true;
  new_salt = none;
  writes = true;
  renames = true;
  accepts = λ call. false;
  clock = [];
}

abbrev accepting_world : World
accepting_world = record {
  makes_client = λ sign. true;
  me = codes "g1me";
  renders = λ pkg path. none;
  answers = λ t. some (record {
    hash = codes "AB";
    height = pos 9;
    gas_wanted = pos 10;
    gas_used = pos 8;
    fee_paid = codes "1ugnot";
    raw = [];
    results = [];
  });
  node_status = none;
  core_now = err [];
  dao_now = err [];
  feed = λ id. none;
  file = λ path. none;
  votes = voting_world;
  files = [];
}

abbrev no_rat : Bytes → Option Rat
no_rat s = none

abbrev as_it_is : Bytes → Bytes
as_it_is s = s

run-Orderly_example :
    Orderly
      (λ s. none)
      flags
      accepting_world
      (Carries no_rat as_it_is as_it_is
        (λ s. true)
        as_it_is
        (codes "gno")
        (λ s. none)
        []
        flags
        accepting_world
        (command_of (codes "topup"))
        (codes "7" ∷ codes "500ugnot" ∷ []))
      (run no_rat as_it_is as_it_is
        (λ s. true)
        as_it_is
        (codes "gno")
        (λ s. none)
        []
        flags
        accepting_world
        (codes "topup")
        (codes "7" ∷ codes "500ugnot" ∷ []))
run-Orderly_example =
    run-Orderly no_rat as_it_is as_it_is (λ s. true) as_it_is (codes "gno") (λ s. none) [] flags
      accepting_world (codes "topup") (codes "7" ∷ codes "500ugnot" ∷ [])
