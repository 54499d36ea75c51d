-- ===== src/Bot/Scan/Follows.antt =====
-- bot/watcher.go: what a scan makes of the memory.
use gnoracle.Base.{
  ◌≡◌, ◌⊎◌, ℕ, zero, suc, ℤ, pos, List, [], ◌∷◌, arith, refl, inl, inr, Bool-cases, Option-cases,
}
use gnoracle.Base.Int64.{add64}
use gnoracle.Base.Text.{Bytes}
use gnoracle.Gnochain.Events.{Event}
use gnoracle.Bot.Chain.{Chain}
use gnoracle.Bot.Config.{Config, Params}
use gnoracle.Bot.State.{State, once}
use gnoracle.Bot.State.Laws.{Follows, either-Follows, once-Follows, moved-Follows}
use gnoracle.Bot.Scan.{announce_one, announce, scan_blocks, cursor, scan, span, event_key}

module _ (c : Config) (p : Params) (chain : Chain) (format : Event → Bytes) where
  announce_one_cases :
      (ev : Event) (s : State)
      → let s' = (announce_one c p chain format ev s).0 in
        (s' ≡ s) ⊎ (s' ≡ (once (event_key ev) chain.clock s).0)
  unfolding announce_one
  announce_one_cases ev s = ground arith

module _ {from : State} (c : Config) (p : Params) (chain : Chain) (format : Event → Bytes) where
  announce_one-Follows :
      (ev : Event) (s : State)
      → Follows from chain.clock s
      → Follows from chain.clock (announce_one c p chain format ev s).0
  announce_one-Follows ev s h =
      either-Follows _ s _ (announce_one_cases c p chain format ev s) h
        (once-Follows (event_key ev) s h)

  announce-Follows :
      (evs : List Event) (s : State)
      → Follows from chain.clock s
      → Follows from chain.clock (announce c p chain format evs s).0
  unfolding announce
  announce-Follows [] s h = h
  announce-Follows (ev ∷ evs) s h = announce-Follows evs _ (announce_one-Follows ev s h)

  scan_blocks-Follows :
      (n : ℕ) (s : State)
      → Follows from chain.clock s
      → Follows from chain.clock (scan_blocks c p chain format n s).state
  unfolding scan_blocks
  scan_blocks-Follows zero s h = h
  scan_blocks-Follows (suc n) s h =
      elim (Bool-cases (chain.context_ended (add64 s.height (pos 1)))) [
        | inl ended ↦ rw (scan_blocks, ended) h
        | inr live ↦ elim (Option-cases (chain.block_events (add64 s.height (pos 1)))) [
          | inl lost ↦ rw (scan_blocks, live, lost) h
          | inr (evs, read) ↦
              rw (scan_blocks, live, read)
                (scan_blocks-Follows n _ (moved-Follows _ _ refl refl (announce-Follows evs s h)))
        ]
      ]

  cursor-Follows :
      (head : ℤ) (s : State)
      → Follows from chain.clock s
      → Follows from chain.clock (cursor c p chain format head s)
  unfolding cursor
  cursor-Follows head s h = moved-Follows s _ (ground arith) (ground arith) h

  pub scan-Follows :
      (s : State)
      → Follows from chain.clock s
      → Follows from chain.clock (scan c p chain format s).state
  unfolding scan
  scan-Follows s h = elim (Option-cases chain.latest_height) [
    | inl unknown ↦ rw (scan, unknown) h
    | inr (head, e) ↦
        rw (scan, e)
          (scan_blocks-Follows (span c p chain format head (cursor c p chain format head s)) _
            (cursor-Follows head s h))
  ]
