-- ===== src/Bot/Scan.antt =====
-- bot/watcher.go, scan: announcing the events of the blocks since the last pass. The text of an event
-- is a parameter of the scan, for which Bot/Format stands.
pub mod Laws
pub mod Quiet
pub mod Follows
use gnoracle.Base.{
  ℕ, zero, suc, ℤ, pos, pos_part, ltb_ℤ, leb_ℤ, eqb_ℤ, Bool, true, false, ◌&&◌, ◌||◌, not, List, [],
  ◌∷◌, ◌++◌, Option, none, some, if◌then◌else◌,
}
use gnoracle.Base.Int64.{add64, sub64}
use gnoracle.Base.Text.{Bytes, codes, bytes_eq}
use gnoracle.Base.Text.Decimal.{format_uint, format_int}
use gnoracle.Gnochain.Events.{Event}
use gnoracle.Bot.Chain.{Chain, Effect, post}
use gnoracle.Bot.Config.{Config, Params}
use gnoracle.Bot.State.{State, once}

-- How a scan ends: at its last block, at the context's end, or at a block it could not read.
pub data Ending : Type 0 where
  finished cancelled no_head : Ending
  unread : ℤ → Ending

pub record Scanned : Type 0 where
  pub state : State
  pub log : List Effect
  pub ending : Ending

pub has : List Bytes → Bytes → Bool
unfolding bytes_eq
has [] kind = false
has (e ∷ es) kind = bytes_eq e kind || has es kind

unfoldable pub event_key : Event → Bytes
unfolding format_uint format_int
event_key ev =
    codes "ev:"
    ++ (format_int ev.height
        ++ (b':'
            ∷ (format_uint ev.tx_index ++ (b':' ∷ (format_uint ev.index ++ (b':' ∷ ev.kind))))))

module _ (c : Config) (p : Params) (chain : Chain) (format : Event → Bytes) where
  -- One event: it is posted when its kind is configured and its key is new.
  pub announce_one : Event → State → State × List Effect
  unfolding has event_key once
  announce_one ev s =
      let (marked, fresh) = once (event_key ev) chain.clock s in
      if not (has p.events ev.kind)
      then (s, [])
      else (marked, if fresh then post (format ev) ∷ [] else [])

  -- The events of one block.
  pub announce : List Event → State → State × List Effect
  unfolding announce_one
  announce [] s = (s, [])
  announce (ev ∷ evs) s =
      let (s', said) = announce_one ev s in let (s'', log) = announce evs s' in (s'', said ++ log)

  -- The next `n` blocks behind the cursor.
  unfoldable pub scan_blocks : ℕ → State → Scanned
  unfolding announce add64
  scan_blocks zero s = record { state = s; log = []; ending = finished }
  scan_blocks (suc n) s =
      let h = add64 s.height (pos 1) in
      if chain.context_ended h
      then record { state = s; log = []; ending = cancelled }
      else elim (chain.block_events h) [
        | none ↦ record { state = s; log = []; ending = unread h }
        | some evs ↦
            let (s', log) = announce evs s in
            let rest = scan_blocks n (record s' { height = h }) in
            record rest { log = log ++ rest.log }
      ]

  -- The cursor before the first block: where to start, and back at the head of a new chain.
  unfoldable pub cursor : ℤ → State → State
  unfolding sub64
  cursor head s =
      let start =
        if leb_ℤ c.start_height (pos 0) || ltb_ℤ head c.start_height
        then head
        else c.start_height in
      let s1 = if eqb_ℤ s.height (pos 0) then record s { height = sub64 start (pos 1) } else s in
      if ltb_ℤ head s1.height then record s1 { height = sub64 head (pos 1) } else s1

  -- How many blocks a pass reads: up to the head, and no more than the configured number.
  unfoldable pub span : ℤ → State → ℕ
  unfolding sub64
  span head s =
      let left = sub64 head s.height in
      pos_part (if ltb_ℤ c.max_blocks left then c.max_blocks else left)

  unfoldable pub scan : State → Scanned
  unfolding scan_blocks cursor span
  scan s = elim chain.latest_height [
    | none ↦ record { state = s; log = []; ending = no_head }
    | some head ↦ let s' = cursor head s in scan_blocks (span head s') s'
  ]
