-- ===== src/Bot/Tick/Follows.antt =====
-- Tick of bot/bot.go: what a pass makes of the memory, over all its steps.
use gnoracle.Base.{
  ℤ, ltb_ℤ, ℕ, pos, ◌-◌, ◌≤◌, ◌<◌, not, none, some, ◌≡◌, ◌⊎◌, arith, subst, if◌then◌else◌, Option,
  refl,
}
use gnoracle.Base.Text.{Bytes}
use gnoracle.Gnochain.Events.{Event}
use gnoracle.Bot.Chain.{Chain}
use gnoracle.Bot.Config.{Config, Params}
use gnoracle.Base.Dict.{get}
use gnoracle.Base.Dict.Laws.{get-keep}
use gnoracle.Base.Int64.{sub64, two63}
use gnoracle.Bot.State.{State, pruned, week}
use gnoracle.Bot.State.Laws.{Follows, moved-Follows, a_week_ago, Follows-refl, IsSound}
use gnoracle.Bot.Scan.Follows.{scan-Follows}
use gnoracle.Bot.Remind.Follows.{remind-Follows}
use gnoracle.Bot.Crank.Finalize.{Bot}
use gnoracle.Bot.Crank.Follows.{gated-Follows, crank-Follows}
use gnoracle.Bot.Tick.{scan_step, remind_step, crank_step, tick, over}

-- A mark, unless it is made before a moment.
abbrev pub unless_before : ℕ → Option ℤ → Option ℤ
unless_before n mark = elim mark [ none ↦ none | some t ↦ if ltb_ℤ t (pos n) then none else some t ]

get-pruned :
    (n : ℕ) (s : State) (key : Bytes)
    → IsSound s
    → 604800 ≤ n
    → n < two63
    → (get key (pruned (pos n) s).sent ≡ unless_before (n - 604800) (get key s.sent))
      × (get key (pruned (pos n) s).attempt ≡ unless_before (n - 604800) (get key s.attempt))
unfolding pruned
get-pruned n s key h old fits =
    let recent = λ (t : ℤ). not (ltb_ℤ t (sub64 (pos n) week)) in
    let ago = a_week_ago n old fits in
    (
      ground (arith, ago, get-keep recent key s.sent h.sent_keyed),
      ground (arith, ago, get-keep recent key s.attempt h.attempt_keyed),
    )

sent_after :
    (n : ℕ) (old mid : Option ℤ)
    → (mid ≡ old) ⊎ ((old ≡ none) × (mid ≡ some (pos n)))
    → (unless_before (n - 604800) mid ≡ unless_before (n - 604800) old)
      ⊎ ((old ≡ none) × (unless_before (n - 604800) mid ≡ some (pos n)))
sent_after n old mid h = ground arith

attempt_after :
    (n : ℕ) (old mid : Option ℤ)
    → (mid ≡ old) ⊎ (mid ≡ some (pos n))
    → (unless_before (n - 604800) mid ≡ unless_before (n - 604800) old)
      ⊎ (unless_before (n - 604800) mid ≡ some (pos n))
attempt_after n old mid h = ground arith

-- What a save leaves behind a pass.
saved :
    (from s : State) (key : Bytes) (now : ℤ) (n : ℕ)
    → Follows from now s
    → now ≡ pos n
    → 604800 ≤ n
    → n < two63
    → ((get key (pruned now s).sent ≡ unless_before (n - 604800) (get key from.sent))
        ⊎ ((get key from.sent ≡ none) × (get key (pruned now s).sent ≡ some (pos n))))
      × ((get key (pruned now s).attempt ≡ unless_before (n - 604800) (get key from.attempt))
          ⊎ (get key (pruned now s).attempt ≡ some (pos n)))
saved from s key now n f clock old fits =
    let f' : Follows from (pos n) s = subst (λ now. Follows from now s) clock f in
    let (sent, attempt) = get-pruned n s key f'.sound old fits in
    rw clock (
      rw sent (sent_after n _ _ (f'.sent_kept key)),
      rw attempt (attempt_after n _ _ (f'.attempt_kept key)),
    )

module _ {from : State} (unquote : Bytes → Option Bytes) (format_time : ℤ → Bytes)
    (format : Event → Bytes) (cfg : Config) (p : Params) (chain : Chain) where
  remind_step-Follows :
      (b : Bot)
      → Follows from chain.clock b.state
      → Follows from chain.clock (remind_step unquote format_time format cfg p chain b).bot.state
  unfolding remind_step
  remind_step-Follows b h =
      gated-Follows (over unquote format_time format cfg p chain b.state.last_remind p.remind_every)
        _ b h (remind-Follows format_time cfg chain _ (moved-Follows b.state _ refl refl h))

  crank_step-Follows :
      (b : Bot)
      → Follows from chain.clock b.state
      → Follows from chain.clock (crank_step unquote format_time format cfg p chain b).bot.state
  unfolding crank_step
  crank_step-Follows b h =
      gated-Follows (over unquote format_time format cfg p chain b.state.last_crank p.crank_every) _
        b h (crank-Follows unquote cfg p chain _ (moved-Follows b.state _ refl refl h))

  -- What a pass has done to the memory before it saves.
  unsaved-Follows :
      (b : Bot)
      → Follows from chain.clock b.state
      → Follows from chain.clock
          (crank_step unquote format_time format cfg p chain
            (remind_step unquote format_time format cfg p chain
              (scan_step unquote format_time format cfg p chain b).bot).bot).bot.state
  unfolding scan_step
  unsaved-Follows b h = crank_step-Follows _ (
      remind_step-Follows (scan_step unquote format_time format cfg p chain b).bot
        (scan-Follows cfg p chain format b.state h))

module _ (unquote : Bytes → Option Bytes) (format_time : ℤ → Bytes) (format : Event → Bytes)
    (cfg : Config) (p : Params) (chain : Chain) where
  -- A pass of the bot, through its scan, its reminders, its cranks and its save, keeps every mark of
  -- what was sent with its time unless it is more than a week old, and then forgets it; a mark that
  -- it adds is of its own time. A mark of an attempt is kept or forgotten in that way, or it is made
  -- anew with the time of the pass. (No key stands twice in either map, and the clock is an int64 that
  -- is no less than a week.)
  pub tick-Remembers :
      (b : Bot) (key : Bytes) (n : ℕ)
      → IsSound b.state
      → chain.clock ≡ pos n
      → 604800 ≤ n
      → n < two63
      → let s = b.state in
        let s' = (tick unquote format_time format cfg p chain b).bot.state in
        ((get key s'.sent ≡ unless_before (n - 604800) (get key s.sent))
          ⊎ ((get key s.sent ≡ none) × (get key s'.sent ≡ some (pos n))))
        × ((get key s'.attempt ≡ unless_before (n - 604800) (get key s.attempt))
            ⊎ (get key s'.attempt ≡ some (pos n)))
  unfolding tick
  tick-Remembers b key n h clock old fits =
      saved b.state _ key chain.clock n
        (unsaved-Follows unquote format_time format cfg p chain b
          (Follows-refl b.state chain.clock h))
        clock old fits
