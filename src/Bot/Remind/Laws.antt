-- ===== src/Bot/Remind/Laws.antt =====
-- bot/reminders.go: which thresholds of a deadline are announced.
use gnoracle.Base.{
  ℕ, ℤ, true, false, List, [], ◌∷◌, ◌++◌, All, none, some, ◌≡◌, ◌≢◌, ◌⊎◌, inl, inr, refl, arith, In,
  ++-cancel, Bool-cases, Option-cases,
}
use gnoracle.Base.Dict.{get}
use gnoracle.Base.Dict.Laws.{get-put}
use gnoracle.Base.Text.{Bytes, bytes_eq, codes}
use gnoracle.Base.Text.Search.{bytes_eq_iff}
use gnoracle.Base.Int64.{IsInt64}
use gnoracle.Base.Text.Decimal.{format_int, format_uint, parse_int-format_int}
use gnoracle.Gnochain.Views.Votes.{BallotInfo}
use gnoracle.Bot.Chain.{Chain}
use gnoracle.Bot.Config.{Config}
use gnoracle.Bot.State.{State, once}
use gnoracle.Bot.State.Laws.{once-fresh, once-stale}
use gnoracle.Bot.Remind.{Verb, verb_text, reminder_key, reminder, within, remind_hours}

reminder_key-injective :
    (seq : ℕ) (verb : Verb) (h k : ℤ)
    → IsInt64 h
    → IsInt64 k
    → reminder_key seq verb h ≡ reminder_key seq verb k
    → h ≡ k
unfolding reminder_key
reminder_key-injective seq verb h k small small' e =
    let same : format_int h ≡ format_int k = ++-cancel (b':' ∷ []) (
      ++-cancel (verb_text verb)
        (++-cancel (b':' ∷ []) (++-cancel (format_uint seq) (++-cancel (codes "remind:") e)))) in
    ground (arith, parse_int-format_int h small, parse_int-format_int k small', same)

module _ (format_time : ℤ → Bytes) (cfg : Config) (chain : Chain) where
  -- A pass over the thresholds sends nothing and changes nothing, or sends the reminder of one threshold
  -- of the configuration that is in reach and was never sent, and remembers that one alone.
  remind_hours-once :
      (bl : BallotInfo) (verb : Verb) (deadline now : ℤ) (hs : List ℤ) (s : State)
      → let r = remind_hours format_time cfg chain bl verb deadline now hs s in
        ((r.state ≡ s) × (r.log ≡ []))
        ⊎ ((h : ℤ) × In h hs
            × (within format_time cfg chain deadline now h ≡ true)
            × (get (reminder_key bl.seq verb h) s.sent ≡ none)
            × (r.state ≡ (once (reminder_key bl.seq verb h) chain.clock s).0)
            × (r.log ≡ reminder format_time cfg chain bl verb deadline now))
  unfolding remind_hours
  remind_hours-once bl verb deadline now [] s = inl (refl, refl)
  remind_hours-once bl verb deadline now (h ∷ hs) s =
      let ih = remind_hours-once bl verb deadline now hs s in
      let key = reminder_key bl.seq verb h in
      elim (Bool-cases (within format_time cfg chain deadline now h)) [
        | inr out ↦ rw out (elim ih [
          | inl quiet ↦ inl quiet
          | inr (g, member, rest, new, kept, said) ↦ inr (g, inr member, rest, new, kept, said)
        ])
        | inl reach ↦ elim (Option-cases (get key s.sent)) [
          | inl new ↦
              let fresh = once-fresh key chain.clock s new in
              inr (h, inl refl, reach, new, rw (reach, fresh) refl, rw (reach, fresh) refl)
          | inr (t, old) ↦
              rw (reach, once-stale key chain.clock s old)
                (elim ih [
                  | inl quiet ↦ inl quiet
                  | inr (g, member, rest, new, kept, said) ↦
                      inr (g, inr member, rest, new, kept, said)
                ])
        ]
      ]

  -- A threshold that a pass goes over: it is out of reach, or was sent before.
  abbrev pub IsPassed : BallotInfo → Verb → ℤ → ℤ → State → ℤ → Type 0
  IsPassed bl verb deadline now s g =
      (within format_time cfg chain deadline now g ≡ false)
      ⊎ ((t : ℤ) × (get (reminder_key bl.seq verb g) s.sent ≡ some t))

  remind_hours_passed :
      (bl : BallotInfo) (verb : Verb) (deadline now : ℤ) (passed hs : List ℤ) (s : State)
      → All (IsPassed bl verb deadline now s) passed
      → remind_hours format_time cfg chain bl verb deadline now (passed ++ hs) s
        ≡ remind_hours format_time cfg chain bl verb deadline now hs s
  unfolding remind_hours
  remind_hours_passed bl verb deadline now [] hs s h = refl
  remind_hours_passed bl verb deadline now (g ∷ passed) hs s (inl out, rest) =
      rw out (remind_hours_passed bl verb deadline now passed hs s rest)
  remind_hours_passed bl verb deadline now (g ∷ passed) hs s (inr (t, old), rest) =
      let stale = once-stale (reminder_key bl.seq verb g) chain.clock s old in
      ground (arith, stale, remind_hours_passed bl verb deadline now passed hs s rest)

  reminder_key-apart :
      (seq : ℕ) (verb : Verb) (h k : ℤ)
      → IsInt64 h
      → IsInt64 k
      → h ≢ k
      → bytes_eq (reminder_key seq verb h) (reminder_key seq verb k) ≡ false
  reminder_key-apart seq verb h k small small' differ =
      let key = reminder_key seq verb h in
      let other = reminder_key seq verb k in
      elim (Bool-cases (bytes_eq key other)) [
        | inl same ↦ absurd (
            differ
              (reminder_key-injective seq verb h k small small' ((bytes_eq_iff key other).0 same)))
        | inr apart ↦ apart
      ]

  -- The first threshold of the configuration that is in reach and was never sent, wherever it stands,
  -- is the one announced: its reminder is all that is sent, its own mark is set to the time of the
  -- pass, and the mark of every other threshold stays as it was, so a tighter one in reach stays
  -- new. (The thresholds are int64.)
  pub remind_hours_first :
      (bl : BallotInfo) (verb : Verb) (deadline now : ℤ) (passed : List ℤ) (h : ℤ) (hs : List ℤ)
      (s : State)
      → IsInt64 h
      → All (IsPassed bl verb deadline now s) passed
      → within format_time cfg chain deadline now h ≡ true
      → get (reminder_key bl.seq verb h) s.sent ≡ none
      → let r = remind_hours format_time cfg chain bl verb deadline now (passed ++ h ∷ hs) s in
        (r.log ≡ reminder format_time cfg chain bl verb deadline now)
        × (get (reminder_key bl.seq verb h) r.state.sent ≡ some chain.clock)
        × ((k : ℤ)
            → IsInt64 k
            → h ≢ k
            → get (reminder_key bl.seq verb k) r.state.sent
              ≡ get (reminder_key bl.seq verb k) s.sent)
  unfolding remind_hours once
  remind_hours_first bl verb deadline now passed h hs s small before reach fresh =
      let key = reminder_key bl.seq verb h in
      rw (remind_hours_passed bl verb deadline now passed (h ∷ hs) s before) (
        ground (arith, reach, fresh),
        ground (arith, reach, fresh, get-put key key chain.clock s.sent, bytes_eq_iff key key),
        λ k small' differ. ground (
          arith,
          reach,
          fresh,
          get-put (reminder_key bl.seq verb k) key chain.clock s.sent,
          reminder_key-apart bl.seq verb h k small small' differ,
        ),
      )
