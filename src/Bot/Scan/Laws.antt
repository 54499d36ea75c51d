-- ===== src/Bot/Scan/Laws.antt =====
-- bot/watcher.go: what a scan announces, and where it stops.
use gnoracle.Base.{
  ℕ, zero, suc, ◌+◌, ◌≤◌, ◌<◌, ℤ, pos, true, false, List, [], ◌∷◌, ◌++◌, none, some, ◌≡◌, ◌⊎◌, inl,
  inr, arith, refl, subst, ◌∙◌, Bool-cases, Option-cases, All,
}
use mathlib.Core.List.{append_assoc}
use gnoracle.Base.Dict.{get}
use gnoracle.Base.Dict.Laws.{get-put}
use gnoracle.Base.Int64.{two63, add64, add64_pos}
use gnoracle.Base.Text.{Bytes, bytes_eq}
use gnoracle.Base.Text.Search.{bytes_eq_iff}
use gnoracle.Gnochain.Events.{Event}
use gnoracle.Bot.Chain.{Chain}
use gnoracle.Bot.Config.{Config, Params}
use gnoracle.Bot.State.{State, once}
use gnoracle.Bot.Scan.{
  finished, cancelled, unread, has, event_key, announce_one, announce, scan_blocks,
}

-- A key was marked.
abbrev IsSent : Bytes → State → Type 0
IsSent key s = (t : ℤ) × (get key s.sent ≡ some t)

once-IsSent : (key : Bytes) (now : ℤ) (s : State) → IsSent key (once key now s).0
unfolding once
once-IsSent key now s = elim (Option-cases (get key s.sent)) [
  | inl fresh ↦ (now, ground (arith, fresh, get-put key key now s.sent, bytes_eq_iff key key))
  | inr (t, e) ↦ (t, ground (arith, e))
]

once-keeps :
    (key other : Bytes) (now : ℤ) (s : State) → IsSent other s → IsSent other (once key now s).0
unfolding once
once-keeps key other now s (t, e) = elim (Bool-cases (bytes_eq key other)) [
  | inl same ↦
      subst (λ k. IsSent k (once key now s).0) ((bytes_eq_iff key other).0 same)
        (once-IsSent key now s)
  | inr differ ↦ (t, ground (arith, e, get-put other key now s.sent, differ))
]

once-sent : (key : Bytes) (now : ℤ) (s : State) → IsSent key s → once key now s ≡ (s, false)
unfolding once
once-sent key now s (t, e) = ground (arith, e)

module _ (c : Config) (p : Params) (chain : Chain) (format : Event → Bytes) where
  -- The event is of another kind, or its key is marked.
  Done : State → Event → Type 0
  Done s ev = (has p.events ev.kind ≡ false) ⊎ IsSent (event_key ev) s

  announce_one-Done : (ev : Event) (s : State) → Done (announce_one c p chain format ev s).0 ev
  unfolding Done announce_one get
  announce_one-Done ev s = elim (Bool-cases (has p.events ev.kind)) [
    | inr other ↦ inl other
    | inl picked ↦ inr (rw (announce_one, picked) (once-IsSent (event_key ev) chain.clock s))
  ]

  announce_one-keeps :
      (ev ev' : Event) (s : State) → Done s ev' → Done (announce_one c p chain format ev s).0 ev'
  unfolding Done announce_one get
  announce_one-keeps ev ev' s (inl other) = inl other
  announce_one-keeps ev ev' s (inr sent) = elim (Bool-cases (has p.events ev.kind)) [
    | inr other ↦ inr (rw (announce_one, other) sent)
    | inl picked ↦
        inr
          (rw (announce_one, picked) (once-keeps (event_key ev) (event_key ev') chain.clock s sent))
  ]

  announce_one-silent :
      (ev : Event) (s : State) → Done s ev → announce_one c p chain format ev s ≡ (s, [])
  unfolding Done announce_one
  announce_one-silent ev s (inl other) = rw (announce_one, other) refl
  announce_one-silent ev s (inr sent) = elim (Bool-cases (has p.events ev.kind)) [
    | inr other ↦ rw (announce_one, other) refl
    | inl picked ↦ rw (announce_one, picked, once-sent (event_key ev) chain.clock s sent) refl
  ]

  announce-keeps :
      (evs : List Event) (s : State) (ev : Event)
      → Done s ev
      → Done (announce c p chain format evs s).0 ev
  unfolding announce
  announce-keeps [] s ev h = h
  announce-keeps (e ∷ evs) s ev h = announce-keeps evs _ ev (announce_one-keeps e ev s h)

  announce-Done :
      (evs : List Event) (s : State) → All (Done (announce c p chain format evs s).0) evs
  unfolding announce
  announce-Done [] s = tt
  announce-Done (ev ∷ evs) s = (
    announce-keeps evs _ ev (announce_one-Done ev s),
    announce-Done evs (announce_one c p chain format ev s).0,
  )

  announce_silent :
      (evs : List Event) (s : State) → All (Done s) evs → announce c p chain format evs s ≡ (s, [])
  unfolding announce
  announce_silent [] s h = refl
  announce_silent (ev ∷ evs) s (h, hs) =
      rw (announce_one-silent ev s h) (rw (announce_silent evs s hs) refl)

  -- The events of a block are announced once: reading the block again posts nothing and changes nothing.
  pub announce_again :
      (evs : List Event) (s : State)
      → let s' = (announce c p chain format evs s).0 in announce c p chain format evs s' ≡ (s', [])
  announce_again evs s = announce_silent evs _ (announce-Done evs s)

  announce_one-height :
      (ev : Event) (s : State) → (announce_one c p chain format ev s).0.height ≡ s.height
  unfolding announce_one once
  announce_one-height ev s = ground arith

  announce-height :
      (evs : List Event) (s : State) → (announce c p chain format evs s).0.height ≡ s.height
  unfolding announce
  announce-height [] s = refl
  announce-height (ev ∷ evs) s = announce-height evs _ ∙ announce_one-height ev s

  -- The state behind a block that was read.
  after_block : List Event → State → State
  after_block evs s = record (announce c p chain format evs s).0 { height = add64 s.height (pos 1) }

  after_block-height :
      (evs : List Event) (s : State) → (after_block evs s).height ≡ add64 s.height (pos 1)
  unfolding after_block
  after_block-height evs s = refl

  scan_blocks-suc :
      (n : ℕ) (s : State) {evs : List Event}
      → chain.context_ended (add64 s.height (pos 1)) ≡ false
      → chain.block_events (add64 s.height (pos 1)) ≡ some evs
      → let rest = scan_blocks c p chain format n (after_block evs s) in
        scan_blocks c p chain format (suc n) s
        ≡ record rest { log = (announce c p chain format evs s).1 ++ rest.log }
  unfolding scan_blocks after_block
  scan_blocks-suc n s {evs} live answer = rw live (rw answer refl)

  -- Where a scan of `n` blocks from a cursor stops: behind all of them, or before the block at which
  -- the context ended or that could not be read, which is the next one to be read.
  pub scan_blocks_stops :
      (n h : ℕ) (s : State)
      → s.height ≡ pos h
      → h + n < two63
      → let r = scan_blocks c p chain format n s in
        (k : ℕ) × (r.state.height ≡ pos k)
        × (h ≤ k)
        × (k ≤ h + n)
        × (((r.ending ≡ finished) × (k ≡ h + n))
            ⊎ (((r.ending ≡ cancelled) × (k < h + n) × (chain.context_ended (pos (k + 1)) ≡ true))
                ⊎ ((r.ending ≡ unread (pos (k + 1)))
                    × (k < h + n)
                    × (chain.block_events (pos (k + 1)) ≡ none))))
  unfolding scan_blocks
  scan_blocks_stops zero h s at fits = (h, at, omega arith, omega arith, inl (refl, omega arith))
  scan_blocks_stops (suc n) h s at fits =
      let next : add64 s.height (pos 1) ≡ pos (h + 1) =
        ground (arith, at, add64_pos h 1 (omega arith)) in
      elim (Bool-cases (chain.context_ended (pos (h + 1)))) [
        | inl ended ↦ (
          h,
          ground (arith, at, next, ended),
          omega arith,
          omega arith,
          inr (inl (ground (arith, next, ended), omega arith, ended)),
        )
        | inr live ↦ elim (Option-cases (chain.block_events (pos (h + 1)))) [
          | inl lost ↦ (
            h,
            ground (arith, at, next, live, lost),
            omega arith,
            omega arith,
            inr (inr (ground (arith, next, live, lost), omega arith, lost)),
          )
          | inr (evs, answer) ↦
              let s' = after_block evs s in
              let (k, stop, lo, hi, why) =
                scan_blocks_stops n (h + 1) s' (after_block-height evs s ∙ next) (omega arith) in
              let step = scan_blocks-suc n s (rw next live) (rw next answer) in
              (
                k,
                rw step stop,
                omega arith,
                omega arith,
                rw step (elim why [
                  | inl (end, all) ↦ inl (end, omega arith)
                  | inr (inl (end, short, ended)) ↦ inr (inl (end, omega arith, ended))
                  | inr (inr (end, short, lost)) ↦ inr (inr (end, omega arith, lost))
                ]),
              )
        ]
      ]

  scan_blocks-zero :
      (s : State)
      → scan_blocks c p chain format zero s ≡ record { state = s; log = []; ending = finished }
  unfolding scan_blocks
  scan_blocks-zero s = refl

  -- A scan that ends at its last block read its first one.
  finished-first :
      (n : ℕ) (s : State)
      → (scan_blocks c p chain format (suc n) s).ending ≡ finished
      → (chain.context_ended (add64 s.height (pos 1)) ≡ false)
        × ((evs : List Event) × (chain.block_events (add64 s.height (pos 1)) ≡ some evs))
  unfolding scan_blocks
  finished-first n s e =
      let h = add64 s.height (pos 1) in
      elim (Bool-cases (chain.context_ended h)) [
        | inl ended ↦ absurd (ground (arith, ended, e))
        | inr live ↦ elim (Option-cases (chain.block_events h)) [
          | inl lost ↦ absurd (ground (arith, live, lost, e))
          | inr read ↦ (live, read)
        ]
      ]

  -- A scan of `n` and then `m` blocks is a scan of `n + m`, in what it posts and what it remembers,
  -- when the first ends at its last block.
  scan_blocks_resumed :
      (n m : ℕ) (s : State)
      → (scan_blocks c p chain format n s).ending ≡ finished
      → let r = scan_blocks c p chain format n s in
        let r' = scan_blocks c p chain format m r.state in
        scan_blocks c p chain format (n + m) s ≡ record r' { log = r.log ++ r'.log }
  scan_blocks_resumed zero m s e =
      let none_first : 0 + m ≡ m = omega arith in rw (none_first, scan_blocks-zero s) refl
  scan_blocks_resumed (suc n) m s e =
      let (live, (evs, answer)) = finished-first n s e in
      let step = scan_blocks-suc n s live answer in
      let step' = scan_blocks-suc (n + m) s live answer in
      let sum : suc n + m ≡ suc (n + m) = omega arith in
      let ih = scan_blocks_resumed n m (after_block evs s) (rw step at e) in
      rw (sum, step', step, ih, append_assoc) refl
