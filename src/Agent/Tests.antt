-- ===== src/Agent/Tests.antt =====
-- The theorems on the agent at concrete inputs.
use gnoracle.Base.{
  ℕ, ◌+◌, ◌-◌, ◌*◌, ◌<◌, ◌≤◌, pos, negsuc, abs, ◌≤ℤ◌, ◌<ℤ◌, ◌++◌, inl, true, false, some, none, not,
  All, ◌/◌, List, [], ◌∷◌, ◌≡◌, ◌≢◌, ◌⊎◌, refl, arith, length,
}
use gnoracle.Base.Sorting.{count, sort_by}
use gnoracle.Base.Int64.{two63, IsInt64}
use gnoracle.Base.Text.{ellipsis, Bytes, codes, bytes_eq}
use gnoracle.Agent.Aggregate.{
  Rat, Sample, aggregate, number, rejected, too_few, numbers, required, aggregate_numbers,
  aggregate_labels, rat_lt, option_label, labels, count_labels, count_label, pick, lower_median,
}
use gnoracle.Agent.Aggregate.Median.{aggregate_median, aggregate_numeric_total}
use gnoracle.Agent.Aggregate.Plurality.{aggregate_plurality}
use gnoracle.Base.Text.Decimal.{format_uint}
use gnoracle.Agent.Options.{scan_int, option_index, mapped, lookup, find_option, equal_fold}
use gnoracle.Agent.Options.Laws.{IsFirst, option_index_front, option_index_sound}
use gnoracle.Agent.Scale.{scale_to_int, format_scaled, pow10, round_half}
use gnoracle.Agent.Scale.Laws.{
  Shows, format_scaled-Shows, scale_to_int_nearest, format_scaled_least,
}
use gnoracle.Agent.Adapters.Redact.{redact_url, redact_url_lem}
use gnoracle.Agent.Config.EnvRefs.{is_name_char, env_refs, env_refs_adjacent}
use gnoracle.Agent.Store.{FeedState, State, blank, snapshot, for_chain}
use gnoracle.Agent.Store.Laws.{for_chain_lem}

abbrev answer : Rat → Sample
answer r = record {
  source = codes "a";
  raw = codes "";
  num = some r;
  value = codes "";
  label = codes "";
  failure = [];
}

abbrev half : Rat
half = record { num = pos 5; den = 2 }

abbrev answers : List Sample
answers = answer half ∷ answer half ∷ []

aggregate_numeric_total_example :
    ((r : Rat) × (aggregate answers true (pos 2) ≡ number r)
      × (required (pos 2) ≤ℤ pos (length (numbers answers))))
    ⊎ ((aggregate answers true (pos 2)
          ≡ rejected (too_few (length (numbers answers)) (length answers) (required (pos 2))))
        × (pos (length (numbers answers)) <ℤ required (pos 2)))
aggregate_numeric_total_example = aggregate_numeric_total answers (pos 2)

answers_half : aggregate answers true (pos 2) ≡ number half
unfolding aggregate aggregate_numbers numbers lower_median sort_by rat_lt
answers_half = refl

aggregate_median_example :
    let vals = numbers answers in
    (count (λ y. rat_lt y half) vals ≤ (length vals - 1) / 2)
    × ((length vals - 1) / 2 < count (λ y. not (rat_lt half y)) vals)
    × ((P : Rat → Type 0) → All P vals → P half)
    × (required (pos 2) ≤ℤ pos (length vals))
unfolding numbers
aggregate_median_example =
    aggregate_median answers (pos 2) (omega arith, (omega arith, tt)) answers_half

abbrev said : Bytes → Sample
said l = record {
  source = codes "a";
  raw = l;
  num = none;
  value = codes "";
  label = l;
  failure = [];
}

abbrev said_yes : List Sample
said_yes = said (codes "yes") ∷ said (codes "no") ∷ said (codes "yes") ∷ []

yes_wins : aggregate said_yes false (pos 2) ≡ option_label (codes "yes")
unfolding aggregate aggregate_labels labels count_labels pick count_label
yes_wins = refl

aggregate_plurality_example :
    count (bytes_eq (codes "no")) (labels said_yes)
    < count (bytes_eq (codes "yes")) (labels said_yes)
aggregate_plurality_example = aggregate_plurality said_yes (pos 2) yes_wins (codes "no") (λ e. cc)

half_scaled : scale_to_int (some half) (pos 0) ≡ some (pos 3)
unfolding scale_to_int round_half pow10
half_scaled = refl

scale_to_int_nearest_example :
    let n = abs half.num * pow10 (pos 0) in
    (2 * (abs (pos 3) * 2) ≤ 2 * n + 2)
    × (2 * n < 2 * (abs (pos 3) * 2) + 2)
    × ((half.num <ℤ pos 0) ⊎ (pos 0 ≤ℤ pos 3))
    × ((pos 0 ≤ℤ half.num) ⊎ (pos 3 ≤ℤ pos 0))
    × IsInt64 (pos 3)
scale_to_int_nearest_example = scale_to_int_nearest half (pos 0) (omega arith) half_scaled

format_scaled_least_example :
    (s : Bytes) × (format_scaled (negsuc (two63 - 1)) (pos 2) ≡ b'-' ∷ b'-' ∷ s)
format_scaled_least_example = format_scaled_least 2 (omega arith)

env_refs_adjacent_example : env_refs (codes "$AB$CD") ≡ codes "AB" ∷ []
unfolding is_name_char
env_refs_adjacent_example =
    env_refs_adjacent b'A' (b'B' ∷ []) b'C' (b'D' ∷ []) (refl, (refl, tt)) (refl, (refl, tt))

abbrev two_feeds : State
two_feeds = record { chain = codes "dev"; feeds = (1, blank) ∷ (2, blank) ∷ [] }

abbrev claim_at_9 : FeedState → FeedState
claim_at_9 fs = record fs { last_claim_at = pos 9 }

for_chain_lem_example :
    let (s', reset) = for_chain (codes "main") two_feeds in
    (s'.chain ≡ codes "main")
    × (((two_feeds.chain ≢ [])
          × (two_feeds.chain ≢ codes "main")
          × (reset ≡ true)
          × (snapshot 1 s' ≡ blank))
        ⊎ (((two_feeds.chain ≡ []) ⊎ (two_feeds.chain ≡ codes "main"))
            × (reset ≡ false)
            × (snapshot 1 s' ≡ snapshot 1 two_feeds)))
for_chain_lem_example = for_chain_lem (codes "main") two_feeds 1

abbrev yes_no : List Bytes
yes_no = codes "yes" ∷ codes "no" ∷ []

front_unmapped : mapped (codes "1-2") [] ≡ codes "1-2"
unfolding mapped lookup
front_unmapped = refl

front_no_option : find_option (codes "1-2") yes_no 0 ≡ none
unfolding find_option equal_fold
front_no_option = refl

one_printed : format_uint 1 ≡ codes "1"
unfolding format_uint
one_printed = refl

option_index_front_example : option_index yes_no (format_uint 1 ++ codes "-2") [] ≡ some (pos 1)
option_index_front_example =
    option_index_front yes_no [] 1 b'-' (codes "2") (omega arith) (omega arith) (inl (omega arith))
      (rw one_printed front_unmapped) (rw one_printed front_no_option)

format_scaled-Shows_example :
    ((pos 0 ≤ℤ negsuc 4) × Shows 2 (abs (negsuc 4)) (format_scaled (negsuc 4) (pos 2)))
    ⊎ ((negsuc 4 <ℤ pos 0)
        × ((s : Bytes) × (format_scaled (negsuc 4) (pos 2) ≡ b'-' ∷ s)
            × Shows 2 (abs (negsuc 4)) s))
format_scaled-Shows_example =
    format_scaled-Shows (negsuc 4) 2 (omega arith) (omega arith) (omega arith)

yes_is_first : option_index yes_no (codes "YES") [] ≡ some (pos 0)
unfolding option_index mapped lookup find_option equal_fold
yes_is_first = refl

option_index_sound_example :
    (i : ℕ) × (pos 0 ≡ pos i)
    × (i < length yes_no)
    × (IsFirst (mapped (codes "YES") []) yes_no i
        ⊎ (All (λ o. equal_fold o (mapped (codes "YES") []) ≡ false) yes_no
            × (scan_int (mapped (codes "YES") []) ≡ some (pos 0))))
option_index_sound_example = option_index_sound yes_no (codes "YES") [] yes_is_first

redact_url_lem_example :
    redact_url
      ((codes "s" ++ (codes "://" ++ (codes "me" ++ b'@' ∷ codes "h"))) ++ b'?' ∷ codes "key=1")
    ≡ codes "s" ++ (codes "://" ++ (ellipsis ++ b'@' ∷ (codes "h" ++ b'?' ∷ ellipsis)))
redact_url_lem_example =
    redact_url_lem (codes "s") (codes "me") (codes "h") (codes "key=1") (ground arith)
      (ground arith) (ground arith)
