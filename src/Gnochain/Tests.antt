-- ===== src/Gnochain/Tests.antt =====
-- The theorems on the realm's client at concrete inputs.
use gnoracle.Base.{
  ℕ, ℤ, ◌+◌, ◌*◌, ◌/◌, ◌<◌, pos, ◌≤ℤ◌, ◌<ℤ◌, true, false, none, some, Option, ◌≡◌, ◌⊎◌, refl, arith,
  length, List, [], ◌∷◌, All, take, drop, ◌≢◌,
}
use gnoracle.Base.Result.{ok}
use gnoracle.Base.Text.Hex.{IsByte}
use gnoracle.Gnochain.Commitment.{choice_uphold, valid_choice, commitment}
use gnoracle.Gnochain.Commitment.Laws.{Vote, IsVote, message_of, commitment_of, commitment_binding}
use gnoracle.Gnochain.Events.{Event, RawEvent, DeliverTx, block_events}
use gnoracle.Gnochain.Events.Laws.{InOrder, block_events-InOrder}
use gnoracle.Gnochain.Views.Feeds.{FeedSummary, FeedList}
use gnoracle.Gnochain.Views.Pages.{all_feeds, listed}
use gnoracle.Gnochain.Views.Pages.Complete.{ServesFeeds, all_feeds_complete}
use gnoracle.Base.Text.{Bytes, codes, bytes_eq}
use gnoracle.Base.Text.Decimal.{format_int}
use gnoracle.Gnochain.Schedule.{Schedule, current, open_at, is_open}
use gnoracle.Gnochain.Schedule.Laws.{IsRecurring, current_brackets, is_open-current}
use gnoracle.Gnochain.Results.{decode_results, int64_result, is_text_type}
use gnoracle.Gnochain.Results.Laws.{int64_result_line, typed_line}
use gnoracle.Gnochain.Broadcast.{
  GasConfig, estimated_gas, TxResult, Committed, passed, Node, fee, broadcast, ask_gas, committed,
}
use gnoracle.Gnochain.Broadcast.Laws.{estimated_gas_covers, broadcast_sound}

-- A feed that opens every minute from second 100 on, for half a minute.
abbrev minutely : Schedule
minutely = record { start_at = pos 100; interval = pos 60; submit_window = pos 30 }

minutely-IsRecurring : IsRecurring minutely 100 60 30
minutely-IsRecurring = record {
  starts = refl;
  repeats = refl;
  accepts = refl;
  positive = omega arith;
}

current_brackets_example :
    ((current minutely (pos 250) ≡ none) × (250 < 100))
    ⊎ ((r : ℕ) × (current minutely (pos 250) ≡ some r)
        × (open_at minutely r ≤ℤ pos 250)
        × (pos 250 <ℤ open_at minutely (r + 1)))
current_brackets_example = current_brackets minutely 250 minutely-IsRecurring (omega arith)

is_open_at_230 : is_open minutely 2 (pos 230) ≡ true
unfolding is_open
is_open_at_230 = refl

is_open-current_example : current minutely (pos 230) ≡ some 2
is_open-current_example =
    is_open-current minutely 2 230 minutely-IsRecurring (omega arith) (omega arith) (omega arith)
      (omega arith) is_open_at_230

abbrev no_unquote : Bytes → Option Bytes
no_unquote _ = none

int64_result_line_example :
    int64_result no_unquote (typed_line (format_int (pos 42)) (codes "int64")) ≡ some (pos 42)
int64_result_line_example = int64_result_line no_unquote (pos 42) (omega arith)

bool_plain : is_text_type (codes "bool") ≡ false
unfolding is_text_type
bool_plain = refl

abbrev gas : GasConfig
gas = record {
  mode = codes "auto";
  wanted = pos 50000000;
  price = codes "0.001ugnot";
  margin_bps = pos 2000;
  max_deposit = codes "";
}

estimated_gas_covers_example :
    let asked = estimated_gas gas (pos 1000000) (pos 0) in
    (asked ≤ℤ pos 50000000)
    × ((asked ≡ pos 50000000) ⊎ (asked ≡ pos (1000000 + 0 + (1000000 + 0) * 2000 / 10000)))
estimated_gas_covers_example = estimated_gas_covers gas 1000000 0 2000 refl (omega arith)

abbrev summary : FeedSummary
summary = record {
  id = 7;
  name = "price";
  kind = "recurring";
  value_type = "numeric";
  status = "active";
  start_at = pos 100;
  interval = pos 60;
  submit_window = pos 30;
  decimals = pos 2;
  active_count = pos 3;
  max_providers = pos 5;
  have_last = false;
  last_finalized = 0;
  open_disputes = pos 0;
}

abbrev one_feed : List FeedSummary
one_feed = summary ∷ []

abbrev feed_page : ℕ → FeedList
feed_page k = record {
  head = record { now = pos 1000; height = pos 9; live = "core" };
  total = length one_feed;
  feeds = take 100 (drop k one_feed);
}

abbrev serve_feeds : ℕ → Option FeedList
serve_feeds k = some (feed_page k)

serves_one_feed : ServesFeeds serve_feeds one_feed
serves_one_feed = record {
  page = feed_page;
  answers = λ k. refl;
  holds = λ k. refl;
  counts = λ k. refl;
}

all_feeds_complete_example : all_feeds serve_feeds 1 ≡ listed one_feed
all_feeds_complete_example = all_feeds_complete serve_feeds one_feed serves_one_feed 1 (omega arith)

abbrev raw_event : RawEvent
raw_event = record {
  tag = codes "/tm.Event";
  kind = codes "Frozen";
  pkg_path = codes "gno.land/r/core";
  attrs = [];
}

abbrev two_txs : List DeliverTx
two_txs =
    record { error = codes "failed"; events = some raw_event ∷ [] }
    ∷ record { error = []; events = none ∷ some raw_event ∷ [] }
    ∷ []

abbrev read_events : List Event
read_events =
    record {
      height = pos 6;
      tx_index = 1;
      index = 1;
      kind = codes "Frozen";
      pkg_path = codes "gno.land/r/core";
      attrs = [];
      order = [];
    }
    ∷ []

two_txs_read : block_events (pos 6) none (some two_txs) ≡ some read_events
unfolding block_events
two_txs_read = refl

block_events-InOrder_example : InOrder read_events × All (λ e. e.height ≡ pos 6) read_events
block_events-InOrder_example = block_events-InOrder (pos 6) none two_txs two_txs_read

abbrev plain_price : ℤ → ℤ
plain_price gas = gas

abbrev delivered : Committed
delivered = record {
  hash = codes "ab";
  height = pos 10;
  check = passed;
  deliver = passed;
  gas_wanted = pos 50000000;
  gas_used = pos 40000000;
  raw = [];
}

abbrev node : Node
node = record {
  context_ended = false;
  account = some (1, 2);
  builds = λ _ _. true;
  simulation = some (pos 1000);
  fee_parses = λ _. true;
  signs = λ _ _. true;
  commit = λ _ _. ok delivered;
}

abbrev ugnot : Bytes
ugnot = codes "ugnot"

abbrev sent_result : TxResult
sent_result = record {
  hash = codes "ab";
  height = pos 10;
  gas_wanted = pos 50000000;
  gas_used = pos 40000000;
  fee_paid = fee plain_price ugnot (pos 50000000);
  raw = [];
  results = decode_results no_unquote [];
}

sends : broadcast no_unquote plain_price ugnot gas (pos 0) node ≡ ok sent_result
unfolding broadcast ask_gas committed bytes_eq
sends = refl

broadcast_sound_example :
    (asked : ℤ) × (asked ≤ℤ pos 50000000)
    × (sent_result.fee_paid ≡ fee plain_price ugnot asked)
    × (node.context_ended ≡ false)
    × (node.account ≢ none)
    × (node.signs asked (fee plain_price ugnot asked) ≡ true)
    × ((res : Committed) × (node.commit asked (fee plain_price ugnot asked) ≡ ok res)
        × (res.check ≡ passed)
        × (res.deliver ≡ passed)
        × (sent_result.hash ≡ res.hash))
broadcast_sound_example = broadcast_sound no_unquote plain_price ugnot gas (pos 0) node sends

-- A hash function with collisions.
abbrev one_digest : Bytes → Bytes
one_digest m = b'0' ∷ []

one_digest-IsByte : (m : Bytes) → All IsByte (one_digest m)
one_digest-IsByte m = (omega arith, tt)

abbrev vote_of : Bytes → Vote
vote_of voter = record {
  dispute = 4;
  round = pos 1;
  choice = choice_uphold;
  salt = codes "0f";
  voter = voter;
}

vote_of-IsVote : (voter : Bytes) → IsVote (vote_of voter)
unfolding valid_choice
vote_of-IsVote voter = record {
  dispute_fits = omega arith;
  round_fits = omega arith;
  choice_valid = refl;
  salt_plain = (omega arith, (omega arith, tt));
}

abbrev ours : Vote
ours = vote_of (codes "g1ours")

abbrev theirs : Vote
theirs = vote_of (codes "g1theirs")

same_commitment :
    commitment_of one_digest one_digest-IsByte ours
    ≡ commitment_of one_digest one_digest-IsByte theirs
unfolding commitment
same_commitment = refl

commitment_binding_example :
    (ours ≡ theirs)
    ⊎ ((message_of ours ≢ message_of theirs)
        × (one_digest (message_of ours) ≡ one_digest (message_of theirs)))
commitment_binding_example =
    commitment_binding one_digest one_digest-IsByte ours theirs (vote_of-IsVote (codes "g1ours"))
      (vote_of-IsVote (codes "g1theirs")) same_commitment
