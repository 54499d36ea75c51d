-- ===== src/Gnochain/Events/Laws.antt =====
-- internal/gnochain/rpc.go: the order of the events of a block.
use gnoracle.Base.{
  ℕ, suc, ◌≤◌, ◌<◌, ℤ, Bool, List, [], ◌∷◌, ◌++◌, Option, none, some, ◌≡◌, ◌⊎◌, inl, inr, arith,
  All, subst, refl, Bool-cases,
}
use gnoracle.Base.Text.{Bytes}
use gnoracle.Gnochain.Events.{
  Event, RawEvent, DeliverTx, with_attr, wanted, made, tx_events, events_from, block_events,
  failed_tx,
}

-- One place of a block comes before another.
abbrev pub Before : Event → Event → Type 0
Before e f = (e.tx_index < f.tx_index) ⊎ ((e.tx_index ≡ f.tx_index) × (e.index < f.index))

-- Every event comes before all that follow it.
abbrev pub InOrder : List Event → Type 0
InOrder [] = Unit
InOrder (e ∷ es) = All (Before e) es × InOrder es

with_attr-place :
    (attrs : List (Bytes × Bytes)) (e : Event)
    → ((with_attr e attrs).tx_index ≡ e.tx_index)
      × ((with_attr e attrs).index ≡ e.index)
      × ((with_attr e attrs).height ≡ e.height)
unfolding with_attr
with_attr-place [] e = (refl, refl, refl)
with_attr-place ((k, v) ∷ attrs) e = with_attr-place attrs _

All-map : {P Q : Event → Type 0} (es : List Event) → ((e : Event) → P e → Q e) → All P es → All Q es
All-map [] f h = tt
All-map (e ∷ es) f (p, h) = (f e p, All-map es f h)

All-append : (P : Event → Type 0) (es fs : List Event) → All P es → All P fs → All P (es ++ fs)
All-append P [] fs h k = k
All-append P (e ∷ es) fs (p, h) k = (p, All-append P es fs h k)

InOrder-append :
    (i : ℕ) (es fs : List Event)
    → InOrder es
    → InOrder fs
    → All (λ e. e.tx_index ≡ i) es
    → All (λ e. i < e.tx_index) fs
    → InOrder (es ++ fs)
InOrder-append i [] fs h k here later = k
InOrder-append i (e ∷ es) fs (first, h) k (at, here) later = (
  All-append _ es fs first (All-map fs (λ f after. inl (rw at after)) later),
  InOrder-append i es fs h k here later,
)

module _ (height : ℤ) (pkgs : Option (Bytes → Bool)) where
  -- The event is of this block, of transaction `i`, with an ordinal from `n` on.
  abbrev At : ℕ → ℕ → Event → Type 0
  At i n e = (e.tx_index ≡ i) × (n ≤ e.index) × (e.height ≡ height)

  made-place :
      (i n : ℕ) (ev : RawEvent)
      → let e = made height pkgs i n ev in (e.tx_index ≡ i) × (e.index ≡ n) × (e.height ≡ height)
  unfolding made
  made-place i n ev = with_attr-place ev.attrs _

  tx_events-placed :
      (i n : ℕ) (raws : List (Option RawEvent))
      → InOrder (tx_events height pkgs i n raws) × All (At i n) (tx_events height pkgs i n raws)
  unfolding tx_events
  tx_events-placed i n [] = (tt, tt)
  tx_events-placed i n (none ∷ raws) =
      let (ordered, placed) = tx_events-placed i (suc n) raws in
      (ordered, All-map _ (λ e at. (at.0, omega (arith, at.1), at.2)) placed)
  tx_events-placed i n (some ev ∷ raws) =
      let (ordered, placed) = tx_events-placed i (suc n) raws in
      elim (Bool-cases (wanted height pkgs ev)) [
        | inr other ↦
            rw other (ordered, All-map _ (λ e at. (at.0, omega (arith, at.1), at.2)) placed)
        | inl kept ↦
            let (tx, ordinal, block) = made-place i n ev in
            rw kept (
              (
                All-map _ (λ e at. inr (rw (tx, at.0) refl, omega (arith, ordinal, at.1))) placed,
                ordered,
              ),
              (
                (tx, omega (arith, ordinal), block),
                All-map _ (λ e at. (at.0, omega (arith, at.1), at.2)) placed,
              ),
            )
      ]

  -- The event is of this block, of transaction `i` or a later one.
  abbrev Since : ℕ → Event → Type 0
  Since i e = (i ≤ e.tx_index) × (e.height ≡ height)

  events_from-placed :
      (i : ℕ) (txs : List DeliverTx)
      → InOrder (events_from height pkgs i txs) × All (Since i) (events_from height pkgs i txs)
  unfolding events_from
  events_from-placed i [] = (tt, tt)
  events_from-placed i (tx ∷ txs) =
      let (ordered, placed) = events_from-placed (suc i) txs in
      elim (Bool-cases (failed_tx tx)) [
        | inl bad ↦ rw bad (ordered, All-map _ (λ e at. (omega (arith, at.0), at.1)) placed)
        | inr fine ↦
            let (ordered', placed') = tx_events-placed i 0 tx.events in
            rw fine (
              InOrder-append i _ _ ordered' ordered (All-map _ (λ e at. at.0) placed')
                  (All-map _ (λ e at. at.0) placed),
              All-append _ _ _ (All-map _ (λ e at. (omega (arith, at.0), at.2)) placed')
                  (All-map _ (λ e at. (omega (arith, at.0), at.1)) placed),
            )
      ]

  -- The events of a block are all of its height, and each stands before the next by its transaction and
  -- ordinal: no place occurs twice.
  pub block_events-InOrder :
      (txs : List DeliverTx) {es : List Event}
      → block_events height pkgs (some txs) ≡ some es
      → InOrder es × All (λ e. e.height ≡ height) es
  unfolding block_events
  block_events-InOrder txs {es} e =
      let (ordered, placed) = events_from-placed 0 txs in
      let same : events_from height pkgs 0 txs ≡ es = ground arith in
      subst (λ l. InOrder l × All (λ e. e.height ≡ height) l) same
        (ordered, All-map _ (λ e at. at.1) placed)
