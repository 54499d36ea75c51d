-- ===== src/Cli/Tests.antt =====
-- The theorems on voting at concrete inputs.
use gnoracle.Base.{
  pos, Bool, true, false, [], ◌∷◌, none, some, if◌then◌else◌, str_eq, ◌≡◌, ◌≢◌, refl,
}
use gnoracle.Base.Dict.{get}
use gnoracle.Base.Text.{Bytes, codes, bytes_eq}
use gnoracle.Gnochain.Commitment.{choice_uphold}
use gnoracle.Gnochain.Views.Votes.{BallotInfo, live_phase}
use gnoracle.Cli.Votes.{
  VoteRecord, Files, commit_vote, reveal_vote, World, path_of, reusable, commit_fresh, commit_on,
  reveal_on,
}
use gnoracle.Cli.Votes.Laws.{Fits, Committed}
use gnoracle.Cli.Votes.Kept.{Keeps, commit_on-Keeps}
use gnoracle.Cli.Votes.Reveal.{commit_on-reveal_on, commit_on_of_other}

abbrev ballot : BallotInfo
ballot = record {
  head = record {
    now = pos 1000;
    height = pos 9;
    address = "g1dao";
    epoch = pos 1;
    epoch_blocks = pos 100;
    live = "dao";
    total_staked = pos 5;
    member_count = pos 2;
    ballot_count = 1;
    proposal_count = 0;
  };
  seq = 3;
  dispute = 4;
  round = pos 1;
  major_requested = false;
  summary = "";
  sealed_epoch = pos 1;
  obligated = pos 2;
  phase = "commit";
  commit_ends = pos 500;
  reveal_ends = pos 9000;
  uphold = pos 0;
  overturn = pos 0;
  overturn_minor = pos 0;
  void = pos 0;
  abstain = pos 0;
  revealed = pos 0;
  outcome = "";
  tier = "";
  resolved_at = pos 0;
  prev_seq = 0;
  final = false;
  exists = none;
}

abbrev world_of : Bool → World
world_of accepted = record {
  connects = true;
  voter = codes "g1us";
  ballot = λ _. some (some ballot);
  has_dir = true;
  new_salt = some (codes "00ff");
  writes = true;
  renames = true;
  accepts = λ _. accepted;
  clock = codes "now";
}

abbrev dev : Bytes
dev = codes "dev"

abbrev plain : Bytes → Bytes
plain s = s

abbrev theirs : VoteRecord
theirs = record {
  chain = dev;
  dispute = 4;
  round = pos 1;
  seq = 3;
  voter = codes "g1them";
  choice = choice_uphold;
  salt = codes "0a";
  commitment = codes "c0ffee";
  at = codes "then";
  revealed = [];
}

abbrev their_files : Files
their_files = (path_of plain plain dev 4 (pos 1), theirs) ∷ []

succeeds : (commit_on plain plain dev (world_of true) [] 4 choice_uphold ballot).succeeded ≡ true
unfolding commit_on reusable commit_fresh get
succeeds = refl

nothing_saved : Fits plain plain dev 4 (pos 1) (get (path_of plain plain dev 4 (pos 1)) [])
unfolding get
nothing_saved = tt

reveals : str_eq (live_phase ballot ballot.head.now) "reveal" ≡ true
unfolding live_phase
reveals = refl

commit_on-reveal_on_example :
    let r = commit_on plain plain dev (world_of true) [] 4 choice_uphold ballot in
    (rec : VoteRecord) × Committed plain plain dev 4 choice_uphold (pos 1) r rec
    × ((reveal_on plain plain dev (world_of true) r.files 4 ballot).calls ≡ (
        if bytes_eq rec.voter (codes "g1us")
        then reveal_vote 4 choice_uphold rec.salt ∷ []
        else []))
commit_on-reveal_on_example =
    commit_on-reveal_on plain plain dev (world_of true) (world_of true) [] 4 choice_uphold ballot
      ballot nothing_saved succeeds refl refl reveals

they_saved : get (path_of plain plain dev 4 (pos 1)) their_files ≡ some theirs
unfolding get path_of
they_saved = refl

not_us : codes "g1them" ≢ codes "g1us"
not_us e = cc

commit_on_of_other_example :
    let r = commit_on plain plain dev (world_of true) their_files 4 choice_uphold ballot in
    (r.calls ≡ commit_vote 4 (codes "c0ffee") ∷ [])
    × (r.files ≡ their_files)
    × ((reveal_on plain plain dev (world_of true) r.files 4 ballot).calls ≡ [])
commit_on_of_other_example =
    commit_on_of_other plain plain dev (world_of true) (world_of true) their_files 4 choice_uphold
      ballot ballot theirs they_saved refl refl refl not_us refl refl

refused :
    (commit_on plain plain dev (world_of false) their_files 4 (codes "VOID") ballot).succeeded
    ≡ false
unfolding commit_on reusable commit_fresh get path_of bytes_eq
refused = refl

commit_on-Keeps_example :
    Keeps plain plain dev
      (world_of false)
      their_files
      4
      (path_of plain plain dev 4 (pos 1))
      (commit_on plain plain dev (world_of false) their_files 4 (codes "VOID") ballot)
commit_on-Keeps_example =
    commit_on-Keeps plain plain dev (world_of false) their_files 4 (codes "VOID") ballot
