-- ===== src/Gnochain/Views/Feeds.antt =====
-- internal/gnochain/views.go: feeds, rounds and providers as the core realm shows them.
use gnoracle.Base.{
  ℕ, ℤ, pos, negsuc, Bool, false, ◌&&◌, not, Option, List, [], ◌∷◌, ◌+◌, ◌/◌, ◌%◌, ◌^◌, String,
  if◌then◌else◌, str_eq, ◌==◌,
}
use gnoracle.Base.Int64.{to_uint64}
use gnoracle.Gnochain.Schedule.{Schedule}

pub record Head : Type 0 where
  pub now : ℤ
  pub height : ℤ
  pub live : String

pub record FeedSpec : Type 0 where
  pub name : String
  pub description : String
  pub kind : String
  pub value_type : String
  pub decimals : ℤ
  pub options : List String
  pub interval : ℤ
  pub submit_window : ℤ
  pub resolve_at : ℤ
  pub bounty : ℤ
  pub sources : String
  pub min_providers : ℤ
  pub max_providers : ℤ
  pub provider_min_stake : ℤ
  pub tolerance_bps : ℤ
  pub quarantine_bps : ℤ
  pub dispute_window : ℤ
  pub subscriber_price : ℤ
  pub subscription_price : ℤ
  pub sponsored : Bool
  pub value_at_stake : ℤ
  pub tags : List String
  pub hash : String

unfoldable pub is_numeric : FeedSpec → Bool
is_numeric s = str_eq s.value_type "numeric"

pub record FeedInfo : Type 0 where
  pub head : Head
  pub id : ℕ
  pub proposer : String
  pub from_realm : Bool
  pub status : String
  pub created_at : ℤ
  pub start_at : ℤ
  pub pool : ℤ
  pub drip : ℤ
  pub paid_until : ℤ
  pub active_count : ℤ
  pub slots : List String
  pub have_last : Bool
  pub last_finalized : ℕ
  pub oldest_round : ℕ
  pub empty_streak : ℤ
  pub have_value : Bool
  pub last_round : ℕ
  pub last_round_at : ℤ
  pub last_final_at : ℤ
  pub last_tier : String
  pub value : Option ℤ
  pub served_tier : String
  pub current_round : Option ℕ
  pub current_open_at : ℤ
  pub current_close_at : ℤ
  pub reopened : Bool
  pub deprecated_at : ℤ
  pub open_disputes : ℤ
  pub rounds_final : ℤ
  pub spec : FeedSpec

abbrev pub feed_schedule : FeedInfo → Schedule
feed_schedule f = record {
  start_at = f.start_at;
  interval = f.spec.interval;
  submit_window = f.spec.submit_window;
}

-- The loop over the slots, from index `i` on; -1 when none holds the address.
slot_from : String → List String → ℕ → ℤ
slot_from addr [] i = negsuc 0
slot_from addr (s ∷ slots) i =
    let rest = slot_from addr slots (i + 1) in
    if not (str_eq s "") && str_eq s addr then pos i else rest

unfoldable pub slot_of : FeedInfo → String → ℤ
unfolding slot_from
slot_of f addr = slot_from addr f.slots 0

pub record FeedSummary : Type 0 where
  pub id : ℕ
  pub name : String
  pub kind : String
  pub value_type : String
  pub status : String
  pub start_at : ℤ
  pub interval : ℤ
  pub submit_window : ℤ
  pub decimals : ℤ
  pub active_count : ℤ
  pub max_providers : ℤ
  pub have_last : Bool
  pub last_finalized : ℕ
  pub open_disputes : ℤ

abbrev pub summary_schedule : FeedSummary → Schedule
summary_schedule f = record {
  start_at = f.start_at;
  interval = f.interval;
  submit_window = f.submit_window;
}

pub record FeedList : Type 0 where
  pub head : Head
  pub total : ℕ
  pub feeds : List FeedSummary

pub record RoundSubmission : Type 0 where
  pub slot : ℤ
  pub addr : String
  pub value : ℤ
  pub eligible : Bool

pub record RoundInfo : Type 0 where
  pub head : Head
  pub feed : ℕ
  pub id : ℕ
  pub status : String
  pub exists : Bool
  pub opens_at : ℤ
  pub closes_at : ℤ
  pub is_open_now : Bool
  pub is_closed_now : Bool
  pub opened_at : ℤ
  pub finalised_at : ℤ
  pub tier : String
  pub pool : ℤ
  pub dispute_id : ℕ
  pub overturned : Bool
  pub submitted_mask : ℤ
  pub submitted : List RoundSubmission
  pub value : Option ℤ
  pub values : List RoundSubmission
  pub started : Option Bool

-- The bit of the mask; a shift by 64 or more leaves no bit.
unfoldable pub has_submitted : RoundInfo → ℤ → Bool
has_submitted r (negsuc _) = false
has_submitted r (pos slot) = not ((to_uint64 r.submitted_mask / 2 ^ slot) % 2 == 0)

pub record ProviderInfo : Type 0 where
  pub head : Head
  pub feed : ℕ
  pub addr : String
  pub stake : ℤ
  pub status : String
  pub slot : ℤ
  pub memo : String
  pub joined_at : ℤ
  pub obliged_from : ℕ
  pub consecutive_misses : ℤ
  pub strikes : ℤ
  pub jailings : ℤ
  pub jailed_at : ℤ
  pub last_submitted : ℕ
  pub has_submitted : Bool
  pub unbond_amount : ℤ
  pub unbond_ready_at : ℤ
  pub rewards : ℤ
  pub total_earned : ℤ
  pub total_slashed : ℤ

pub record ProviderList : Type 0 where
  pub head : Head
  pub feed : ℕ
  pub providers : List ProviderInfo

pub record CoreHealth : Type 0 where
  pub head : Head
  pub health : String
  pub balance : ℤ
  pub held : ℤ
