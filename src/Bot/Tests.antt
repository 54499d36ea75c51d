-- ===== src/Bot/Tests.antt =====
-- The theorems on the bot at concrete inputs.
use gnoracle.Base.{
  ℕ, inl, inr, some, ◌-◌, ◌+◌, ◌≤◌, ◌<◌, suc, ℤ, pos, true, false, none, List, [], ◌∷◌, ◌≡◌, ◌≢◌,
  ◌⊎◌, refl, arith, not, All, ltb,
}
use gnoracle.Base.Dict.{get}
use gnoracle.Base.Int64.{IsInt64, sub64, mul64, div64}
use gnoracle.Base.Result.{ok}
use gnoracle.Base.Text.{codes}
use gnoracle.Agent.Config.{second}
use gnoracle.Gnochain.Schedule.{is_one_off, current, close_at, next, open_at}
use gnoracle.Bot.Chain.{Call, calls, catch_up}
use gnoracle.Bot.Config.{Params, validate, with_defaults, params}
use gnoracle.Bot.Config.Laws.{IsRunnable, validate_sound}
use gnoracle.Bot.State.{due, pruned}
use gnoracle.Bot.State.Laws.{IsSound, due-again}
use gnoracle.Bot.Scan.{announce, scan_blocks, finished, cancelled, unread}
use gnoracle.Bot.Scan.Laws.{announce_again, scan_blocks_stops}
use gnoracle.Bot.Crank.Finalize.{Bot, try_from, finalize_feed, finalize_key, worth}
use gnoracle.Bot.Crank.Finalize.Live.{finalize_feed_sends}
use gnoracle.Bot.Crank.Finalize.Laws.{try_from-ended, MayFinalize}
use gnoracle.Bot.Crank.Laws.{Reason}
use gnoracle.Bot.Remind.{commit, within, reminder, reminder_key, remind_hours}
use gnoracle.Bot.Remind.Laws.{IsPassed, remind_hours_first}
use gnoracle.Bot.Tick.{tick}
use gnoracle.Bot.Tick.Laws.{tick-Reason}
use gnoracle.Bot.Tick.Follows.{unless_before, tick-Remembers}
use gnoracle.Bot.Samples.{
  no_unquote, price_feed, frozen, small_chain, fresh, fresh_bot, small_config, small_params,
  plain_time, plain_event, small_ballot, one_hour, any_address,
}

fresh-IsSound : IsSound fresh
fresh-IsSound = record { sent_keyed = tt; attempt_keyed = tt }

-- A mark that is more than a week old, and one that is not.
abbrev marked_bot : Bot
marked_bot = record fresh_bot {
  state = record fresh { sent = (codes "a", pos 1000) ∷ (codes "b", pos 700000) ∷ [] };
}

marked-IsSound : IsSound marked_bot.state
unfolding get
marked-IsSound = record { sent_keyed = (refl, (refl, tt)); attempt_keyed = tt }

tick-Remembers_example :
    let s = marked_bot.state in
    let s' =
      (tick no_unquote plain_time plain_event small_config small_params small_chain
        marked_bot).bot.state in
    ((get (codes "a") s'.sent ≡ unless_before (800000 - 604800) (get (codes "a") s.sent))
      ⊎ ((get (codes "a") s.sent ≡ none) × (get (codes "a") s'.sent ≡ some (pos 800000))))
    × ((get (codes "a") s'.attempt ≡ unless_before (800000 - 604800) (get (codes "a") s.attempt))
        ⊎ (get (codes "a") s'.attempt ≡ some (pos 800000)))
tick-Remembers_example =
    tick-Remembers no_unquote plain_time plain_event small_config small_params small_chain
      marked_bot (codes "a") 800000 marked-IsSound refl (omega arith) (omega arith)

tick-Reason_example :
    let log =
      (tick no_unquote plain_time plain_event small_config small_params small_chain
        fresh_bot).log in
    ((small_chain.can_sign ≡ true) ⊎ (calls log ≡ []))
    × All (Reason no_unquote small_config small_params small_chain) (calls log)
tick-Reason_example =
    tick-Reason no_unquote plain_time plain_event small_config small_params small_chain fresh_bot

a_is_due : (due (codes "a") (pos 60) (pos 700000) fresh).1 ≡ true
unfolding due get
a_is_due = refl

due-again_example :
    let s' = (due (codes "a") (pos 60) (pos 700000) fresh).0 in
    ((due (codes "a") (pos 60) (pos 700059) s').1 ≡ not (ltb 700059 (700000 + 60)))
    × ((due (codes "a") (pos 60) (pos 700059) (pruned (pos 700059) s')).1
        ≡ not (ltb 700059 (700000 + 60)))
due-again_example =
    due-again (codes "a") 60 700000 700059 fresh fresh-IsSound (omega arith) (omega arith)
      (omega arith) (omega arith) a_is_due

announce_again_example :
    let s' = (announce small_config small_params small_chain plain_event (frozen ∷ []) fresh).0 in
    announce small_config small_params small_chain plain_event (frozen ∷ []) s' ≡ (s', [])
announce_again_example =
    announce_again small_config small_params small_chain plain_event (frozen ∷ []) fresh

scan_blocks_stops_example :
    let r = scan_blocks small_config small_params small_chain plain_event 1 fresh in
    (k : ℕ) × (r.state.height ≡ pos k)
    × (5 ≤ k)
    × (k ≤ 5 + 1)
    × (((r.ending ≡ finished) × (k ≡ 5 + 1))
        ⊎ (((r.ending ≡ cancelled) × (k < 5 + 1) × (small_chain.context_ended (pos (k + 1)) ≡ true))
            ⊎ ((r.ending ≡ unread (pos (k + 1)))
                × (k < 5 + 1)
                × (small_chain.block_events (pos (k + 1)) ≡ none))))
scan_blocks_stops_example =
    scan_blocks_stops small_config small_params small_chain plain_event 1 5 fresh refl (omega arith)

one_block_finishes :
    (scan_blocks small_config small_params small_chain plain_event 1 fresh).ending ≡ finished
unfolding scan_blocks
one_block_finishes = refl

try_from-ended_example :
    (try_from no_unquote small_params small_chain (suc 63) 7 (pos 1000)).ended ≡ true
try_from-ended_example =
    try_from-ended no_unquote small_params small_chain 63 7 1000 (omega arith) (omega arith)

a_day_reaches : within plain_time small_config small_chain (pos 5000) (pos 1000) (pos 24) ≡ true
unfolding within sub64 mul64
a_day_reaches = refl

nothing_sent : get (reminder_key 3 commit (pos 24)) fresh.sent ≡ none
unfolding get
nothing_sent = refl

-- The deadline is more than an hour away.
one_hour-IsPassed :
    IsPassed plain_time small_config small_chain small_ballot commit
      (pos 5000)
      (pos 1000)
      fresh
      (pos 1)
unfolding within sub64 mul64
one_hour-IsPassed = inl refl

remind_hours_first_example :
    let r =
      remind_hours plain_time small_config small_chain small_ballot commit
        (pos 5000)
        (pos 1000)
        (pos 1 ∷ pos 24 ∷ pos 2 ∷ [])
        fresh in
    (r.log ≡ reminder plain_time small_config small_chain small_ballot commit (pos 5000) (pos 1000))
    × (get (reminder_key 3 commit (pos 24)) r.state.sent ≡ some (pos 800000))
    × ((k : ℤ)
        → IsInt64 k
        → pos 24 ≢ k
        → get (reminder_key 3 commit k) r.state.sent ≡ get (reminder_key 3 commit k) fresh.sent)
remind_hours_first_example =
    remind_hours_first plain_time small_config small_chain small_ballot commit (pos 5000) (pos 1000)
      (pos 1 ∷ []) (pos 24) (pos 2 ∷ []) fresh (omega arith) (one_hour-IsPassed, tt) a_day_reaches
      nothing_sent

small_config_ok : validate one_hour any_address false small_config ≡ ok (with_defaults small_config)
unfolding validate
small_config_ok = refl

validate_sound_example :
    (p : Params) × (with_defaults small_config ≡ with_defaults small_config)
    × (params one_hour (with_defaults small_config) ≡ ok p)
    × IsRunnable p
    × (((with_defaults small_config).core ≢ []) × ((with_defaults small_config).dao ≢ []))
    × (validate one_hour any_address false (with_defaults small_config)
        ≡ ok (with_defaults small_config))
validate_sound_example = validate_sound one_hour any_address false small_config small_config_ok

core_open : MayFinalize no_unquote small_params small_chain (pos 1000) price_feed 0
unfolding is_one_off current close_at next worth open_at
core_open = record {
  serves = refl;
  is_next = refl;
  one_off_once = inr refl;
  started = (15, refl, omega arith);
  closed = omega arith;
  worthy = refl;
}

never_tried :
    (due
      (finalize_key no_unquote small_params small_chain 7)
      (div64 small_params.crank_every (pos second))
      (pos 800000)
      fresh).1
    ≡ true
unfolding due get
never_tried = refl

finalize_feed_sends_example :
    (batch : ℤ) × (rest : List Call) × (calls
        (finalize_feed no_unquote small_params small_chain (pos 1000) price_feed fresh_bot).log
      ≡ catch_up 7 batch ∷ rest)
finalize_feed_sends_example =
    finalize_feed_sends no_unquote small_params small_chain (pos 1000) price_feed 0 fresh_bot
      core_open never_tried
