-- ===== src/Agent/Runner/Defs.antt =====
-- agent/agent.go: a feed runner's settings and state, what it asks the chain and what it does. A
-- pass asks each question once, so the replies are a record with a field for each place that asks.
-- The wall clock is read once for a pass. Log lines are left out.
use gnoracle.Base.{
  ℕ, ℤ, pos, ltb_ℤ, Bool, true, false, List, [], ◌∷◌, Option, none, some, if◌then◌else◌, ◌==◌, ◌||◌,
  ◌≡◌,
}
use gnoracle.Base.Int64.{sub64, div64}
use gnoracle.Base.Result.{Result}
use gnoracle.Base.Text.{Bytes, bytes_eq}
use gnoracle.Gnochain.Broadcast.{TxResult}
use gnoracle.Gnochain.Views.Feeds.{FeedInfo, RoundInfo, ProviderInfo}
use gnoracle.Agent.Aggregate.{Rat, Sample, AggregateError}
use gnoracle.Agent.Config.{FeedParams, second}

-- The parts of the configuration that a pass reads; `min_sources` is the adapter's, 1 for any but
-- http, and `from_file` tells the file adapter.
pub record Settings : Type 0 where
  pub feed_id : ℕ
  pub params : FeedParams
  pub skip_finalize : Bool
  pub override : Bool
  pub mapping : List (Bytes × Bytes)
  pub min_sources : ℤ
  pub from_file : Bool
  pub dev_tick : Bool
  pub poll : ℤ

-- The fields of `feedRunner` that change, and the time of the last self-send. Times are seconds.
pub record Runner : Type 0 where
  pub warned : List (Bytes × ℤ)
  pub refused : List ℕ
  pub batch : ℤ
  pub backoff : ℤ
  pub obliged : Option ℕ
  pub slot : ℤ
  pub last_self_send : ℤ

-- Why a value is not submitted: outside the bounds, no option, or too far from the reference.
pub data Refusal : Type 0 where
  out_of_bounds : Rat → Refusal
  no_option : Bytes → Refusal
  deviates : ℤ → ℤ → Refusal

-- A journal entry, by its kind and text: its round and what it records.
pub data Entry : Type 0 where
  fetch_error : ℕ → AggregateError → List Sample → Entry
  fetched : ℕ → ℤ → List Sample → Entry
  refusal : ℕ → Refusal → List Sample → Entry
  overridden : ℕ → ℤ → ℤ → Entry
  submit_error : ℕ → ℤ → Bytes → Entry
  submitted : ℕ → ℤ → TxResult → Entry
  catch_up_error : ℕ → Bytes → Entry
  finalized : ℕ → ℤ → TxResult → Entry
  claim_error : Bytes → Entry
  claimed : ℤ → TxResult → Entry

-- What a pass does outside the process, in order.
pub data Effect : Type 0 where
  submit_call : ℕ → ℤ → ℤ → Effect
  catch_up_call : ℤ → Effect
  claim_call self_send save jailed_alert : Effect
  refusal_alert : ℕ → Refusal → Effect
  journal : Entry → Effect

-- How a step ends: with nil, with an error, or (a loop) with its fuel used up.
pub data Outcome : Type 0 where
  done failed unfinished : Outcome

-- A reader's answer: the view, the realm's own error, or any other error.
pub data Reply (A : Type 0) : Type 0 where
  got : A → Reply A
  view_error lost : Reply A

abbrev pub CallReply : Type 0
CallReply = Result Bytes TxResult

pub record Replies : Type 0 where
  pub wall : ℤ
  pub feed : Reply FeedInfo
  pub idle_provider : Reply ProviderInfo
  pub obliged_provider : Reply ProviderInfo
  pub fresh_feed : Reply FeedInfo
  pub next_round : Reply RoundInfo
  pub catch_up : ℤ → CallReply
  pub current_round : Reply RoundInfo
  pub samples : List Sample
  pub submit : CallReply
  pub claim_provider : Reply ProviderInfo
  pub claim : CallReply

-- Whole seconds of a duration.
abbrev pub seconds : ℤ → ℤ
seconds d = div64 d (pos second)

when_warned : Bytes → List (Bytes × ℤ) → Option ℤ
unfolding bytes_eq
when_warned key [] = none
when_warned key ((k, t) ∷ warned) = if bytes_eq k key then some t else when_warned key warned

set_warned : Bytes → ℤ → List (Bytes × ℤ) → List (Bytes × ℤ)
unfolding bytes_eq
set_warned key t [] = (key, t) ∷ []
set_warned key t ((k, t') ∷ warned) =
    if bytes_eq k key then (k, t) ∷ warned else (k, t') ∷ set_warned key t warned

unfoldable pub unset_warned : Bytes → List (Bytes × ℤ) → List (Bytes × ℤ)
unfolding bytes_eq
unset_warned key [] = []
unset_warned key ((k, t) ∷ warned) =
    let rest = unset_warned key warned in if bytes_eq k key then rest else (k, t) ∷ rest

unfoldable pub is_warned : Bytes → Runner → Bool
unfolding when_warned
is_warned key r = elim (when_warned key r.warned) [ some _ ↦ true | none ↦ false ]

-- A condition is noted at most once in ten minutes.
unfoldable pub warn_once : Bytes → ℤ → Runner → Runner
unfolding when_warned set_warned
warn_once key wall r =
    let noted = record r { warned = set_warned key wall r.warned } in
    elim (when_warned key r.warned) [
      | some t ↦ if ltb_ℤ (sub64 wall t) (pos 600) then r else noted
      | none ↦ noted
    ]

unfoldable pub is_refused : ℕ → List ℕ → Bool
is_refused round [] = false
is_refused round (x ∷ xs) = x == round || is_refused round xs

-- The submissions among the effects: round, value and headroom.
unfoldable pub submissions : List Effect → List (ℕ × ℤ × ℤ)
submissions [] = []
submissions (submit_call round value headroom ∷ log) = (round, value, headroom) ∷ submissions log
submissions (_ ∷ log) = submissions log

-- The batches of the catch-up calls among the effects.
unfoldable pub batches : List Effect → List ℤ
batches [] = []
batches (catch_up_call batch ∷ log) = batch ∷ batches log
batches (_ ∷ log) = batches log

-- The rounds of the submissions that the chain accepted, as the journal has them.
unfoldable pub accepted : List Effect → List ℕ
accepted [] = []
accepted (journal (submitted round value res) ∷ log) = round ∷ accepted log
accepted (_ ∷ log) = accepted log

-- No submission is made, and none is accepted.
abbrev pub IsQuiet : List Effect → Type 0
IsQuiet log = (submissions log ≡ []) × (accepted log ≡ [])

-- Whether the state was written to its file.
unfoldable pub is_saved : List Effect → Bool
is_saved [] = false
is_saved (save ∷ log) = true
is_saved (_ ∷ log) = is_saved log
