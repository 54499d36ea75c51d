-- ===== src/Bot/Tick/Laws.antt =====
-- bot/bot.go, Tick: the reasons of the transactions of a pass.
use gnoracle.Base.{ℤ, true, [], Option, ◌≡◌, ◌⊎◌, inl, inr, All, refl, arith, Bool-cases}
use gnoracle.Base.Text.{Bytes}
use gnoracle.Gnochain.Events.{Event}
use gnoracle.Bot.Chain.{Chain, calls, calls-++}
use gnoracle.Bot.Config.{Config, Params}
use gnoracle.Bot.Scan.Quiet.{scan_quiet}
use gnoracle.Bot.Remind.Quiet.{remind_quiet}
use gnoracle.Bot.Crank.{crank}
use gnoracle.Bot.Crank.Finalize.{Bot}
use gnoracle.Bot.Crank.Laws.{Reason, crank-Reason}
use gnoracle.Bot.Tick.{scan_step, remind_step, crank_step, tick, over}

module _ (unquote : Bytes → Option Bytes) (format_time : ℤ → Bytes) (format : Event → Bytes)
    (cfg : Config) (p : Params) (chain : Chain) where
  remind_step_quiet :
      (b : Bot) → calls (remind_step unquote format_time format cfg p chain b).log ≡ []
  unfolding remind_step calls
  remind_step_quiet b =
      ground
        (arith, remind_quiet format_time cfg chain (record b.state { last_remind = chain.clock }))

  -- The crank's turn is that of its pass, or nothing.
  crank_step-cases :
      (b : Bot)
      → (calls (crank_step unquote format_time format cfg p chain b).log ≡ [])
        ⊎ ((b' : Bot) × (crank_step unquote format_time format cfg p chain b
              ≡ crank unquote cfg p chain b'))
  unfolding crank_step calls
  crank_step-cases b =
      elim (Bool-cases
        (over unquote format_time format cfg p chain b.state.last_crank p.crank_every)) [
          | inl time ↦ inr (
            record b { state = record b.state { last_crank = chain.clock } },
            ground (arith, time),
          )
          | inr early ↦ inl (ground (arith, early))
        ]

  tick-calls :
      (b : Bot)
      → (calls (tick unquote format_time format cfg p chain b).log ≡ [])
        ⊎ ((b' : Bot) × (calls (tick unquote format_time format cfg p chain b).log
              ≡ calls (crank unquote cfg p chain b').log))
  unfolding tick scan_step
  tick-calls b =
      let b1 = (scan_step unquote format_time format cfg p chain b).bot in
      let b2 = (remind_step unquote format_time format cfg p chain b1).bot in
      rw (calls-++, calls-++, scan_quiet cfg p chain format b.state, remind_step_quiet b1)
        (elim (crank_step-cases b2) [ inl quiet ↦ inl quiet | inr (b', e) ↦ inr (b', rw e refl) ])

  -- Every transaction of a pass is one that its cranks have a reason for: the scan and the reminders
  -- send none, and without a key the bot sends none at all.
  pub tick-Reason :
      (b : Bot)
      → ((chain.can_sign ≡ true) ⊎ (calls (tick unquote format_time format cfg p chain b).log ≡ []))
        × All
            (Reason unquote cfg p chain)
            (calls (tick unquote format_time format cfg p chain b).log)
  tick-Reason b = elim (tick-calls b) [
    | inl quiet ↦ (inr quiet, rw quiet tt)
    | inr (b', e) ↦ rw e (crank-Reason unquote cfg p chain b')
  ]
