-- ===== src/Gnochain/Events.antt =====
-- internal/gnochain/rpc.go: the realm events of a block. The node's answer is taken as decoded JSON;
-- an event whose JSON does not decode is `none`.
pub mod Laws
use gnoracle.Base.{
  ℕ, suc, ℤ, Bool, true, false, ◌&&◌, ◌||◌, not, List, [], ◌∷◌, ◌++◌, Option, none, some,
  if◌then◌else◌,
}
use gnoracle.Base.Dict.{get, put}
use gnoracle.Base.Text.{Bytes, codes, bytes_eq, is_empty}

pub record Event : Type 0 where
  pub height : ℤ
  pub tx_index : ℕ
  pub index : ℕ
  pub kind : Bytes
  pub pkg_path : Bytes
  pub attrs : List (Bytes × Bytes)
  pub order : List Bytes

abbrev or_empty : Option Bytes → Bytes
or_empty o = elim o [ some v ↦ v | none ↦ [] ]

-- `Attr`: an attribute or the empty text.
unfoldable pub attr : Event → Bytes → Bytes
unfolding get
attr e k = or_empty (get k e.attrs)

pairs : Event → List Bytes → Bytes
unfolding attr
pairs e [] = []
pairs e (k ∷ ks) = codes " " ++ (k ++ (codes "=" ++ (attr e k ++ pairs e ks)))

-- `String`.
unfoldable pub event_string : Event → Bytes
unfolding pairs
event_string e = e.kind ++ pairs e e.order

-- An emitted event as the node encodes it; `tag` is its "@type".
pub record RawEvent : Type 0 where
  pub tag : Bytes
  pub kind : Bytes
  pub pkg_path : Bytes
  pub attrs : List (Bytes × Bytes)

-- A delivered transaction: the JSON of its error, and its events.
pub record DeliverTx : Type 0 where
  pub error : Bytes
  pub events : List (Option RawEvent)

with_attr : Event → List (Bytes × Bytes) → Event
unfolding put
with_attr e [] = e
with_attr e ((k, v) ∷ attrs) =
    with_attr (record e { attrs = put k v e.attrs; order = e.order ++ k ∷ [] }) attrs

unfoldable pub failed_tx : DeliverTx → Bool
unfolding bytes_eq
failed_tx tx = not (is_empty tx.error) && not (bytes_eq tx.error (codes "null"))

module _ (height : ℤ) (pkgs : Option (Bytes → Bool)) where
  unfoldable pub wanted : RawEvent → Bool
  unfolding bytes_eq
  wanted ev =
      bytes_eq ev.tag (codes "/tm.Event") && elim pkgs [ none ↦ true | some has ↦ has ev.pkg_path ]

  made : ℕ → ℕ → RawEvent → Event
  unfolding with_attr
  made i n ev =
      with_attr
        (record {
          height = height;
          tx_index = i;
          index = n;
          kind = ev.kind;
          pkg_path = ev.pkg_path;
          attrs = [];
          order = [];
        })
        ev.attrs

  -- The events of transaction `i` from its ordinal `n` on.
  tx_events : ℕ → ℕ → List (Option RawEvent) → List Event
  unfolding wanted made
  tx_events i n [] = []
  tx_events i n (none ∷ raws) = tx_events i (suc n) raws
  tx_events i n (some ev ∷ raws) =
      let rest = tx_events i (suc n) raws in if wanted ev then made i n ev ∷ rest else rest

  events_from : ℕ → List DeliverTx → List Event
  unfolding failed_tx tx_events
  events_from i [] = []
  events_from i (tx ∷ txs) =
      let rest = events_from (suc i) txs in
      if failed_tx tx then rest else tx_events i 0 tx.events ++ rest

  -- The node's answer, or its error.
  unfoldable pub block_events : Option (List DeliverTx) → Option (List Event)
  unfolding events_from
  block_events none = none
  block_events (some txs) = some (events_from 0 txs)
