-- ===== src/Bot/Scan/Quiet.antt =====
-- bot/watcher.go: the transactions of a scan.
use gnoracle.Base.{
  ℕ, zero, suc, pos, List, [], ◌∷◌, ◌≡◌, arith, refl, inl, inr, Bool-cases, Option-cases,
}
use gnoracle.Base.Int64.{add64}
use gnoracle.Base.Text.{Bytes}
use gnoracle.Gnochain.Events.{Event}
use gnoracle.Bot.Chain.{Chain, calls, calls-++}
use gnoracle.Bot.Config.{Config, Params}
use gnoracle.Bot.State.{State}
use gnoracle.Bot.Scan.{announce_one, announce, scan_blocks, scan}

module _ (c : Config) (p : Params) (chain : Chain) (format : Event → Bytes) where
  announce_one_quiet : (ev : Event) (s : State) → calls (announce_one c p chain format ev s).1 ≡ []
  unfolding announce_one calls
  announce_one_quiet ev s = ground arith

  announce_quiet : (evs : List Event) (s : State) → calls (announce c p chain format evs s).1 ≡ []
  unfolding announce calls
  announce_quiet [] s = refl
  announce_quiet (ev ∷ evs) s = rw (calls-++, announce_one_quiet ev s) (announce_quiet evs _)

  scan_blocks_quiet : (n : ℕ) (s : State) → calls (scan_blocks c p chain format n s).log ≡ []
  unfolding scan_blocks calls
  scan_blocks_quiet zero s = refl
  scan_blocks_quiet (suc n) s = elim (Bool-cases (chain.context_ended (add64 s.height (pos 1)))) [
    | inl ended ↦ rw (scan_blocks, ended) refl
    | inr live ↦ elim (Option-cases (chain.block_events (add64 s.height (pos 1)))) [
      | inl lost ↦ rw (scan_blocks, live, lost) refl
      | inr (evs, read) ↦
          rw (scan_blocks, live, read, calls-++, announce_quiet evs s) (scan_blocks_quiet n _)
    ]
  ]

  pub scan_quiet : (s : State) → calls (scan c p chain format s).log ≡ []
  unfolding scan calls
  scan_quiet s = elim (Option-cases chain.latest_height) [
    | inl unknown ↦ rw (scan, unknown) refl
    | inr (head, e) ↦ rw (scan, e) (scan_blocks_quiet _ _)
  ]
