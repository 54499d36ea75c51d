-- ===== src/Bot/State.antt =====
-- bot/state.go: what the bot remembers over a restart. The clock is an argument, in seconds, and the
-- JSON of a state is a parameter; a map that is missing in it is read as an empty one.
pub mod Laws
use gnoracle.Base.{
  ℤ, pos, ltb_ℤ, Bool, true, false, not, List, [], Option, none, some, if◌then◌else◌,
}
use gnoracle.Base.Dict.{get, put, keep}
use gnoracle.Base.Files.{Found, LoadError, Saving, load, save_over}
use gnoracle.Base.Result.{Result}
use gnoracle.Base.Int64.{sub64}
use gnoracle.Base.Text.{Bytes}

pub record State : Type 0 where
  pub height : ℤ
  pub sent : List (Bytes × ℤ)
  pub attempt : List (Bytes × ℤ)
  pub last_remind : ℤ
  pub last_crank : ℤ
  pub last_kourt : ℤ
  pub last_settle : ℤ

abbrev pub week : ℤ
week = pos 604800

-- The part of `Save` that changes the state: keys older than a week are deleted.
unfoldable pub pruned : ℤ → State → State
unfolding keep sub64
pruned now s =
    let recent = λ (t : ℤ). not (ltb_ℤ t (sub64 now week)) in
    record s { sent = keep recent s.sent; attempt = keep recent s.attempt }

abbrev pub blank_state : State
blank_state = record {
  height = pos 0;
  sent = [];
  attempt = [];
  last_remind = pos 0;
  last_crank = pos 0;
  last_kourt = pos 0;
  last_settle = pos 0;
}

module _ {File : Type 0} where
  unfoldable pub load_state : (File → Option State) → Found File → Result LoadError State
  unfolding load
  load_state = load blank_state

  -- The state and the file behind a save; the directory is not made here.
  unfoldable pub save_state :
      (State → File) → Bytes → ℤ → Saving → State → Found File → State × Found File × Bool
  unfolding save_over
  save_state encode path now fs s file =
      let kept = pruned now s in
      let (file', saved) = save_over encode path (record fs { in_place = true }) kept file in
      (kept, file', saved)

-- Marks a key, and whether it was new.
unfoldable pub once : Bytes → ℤ → State → State × Bool
unfolding get put
once key now s = elim (get key s.sent) [
  | some _ ↦ (s, false)
  | none ↦ (record s { sent = put key now s.sent }, true)
]

-- Whether a key's last attempt is at least `every` seconds ago, and marks it then.
unfoldable pub due : Bytes → ℤ → ℤ → State → State × Bool
unfolding get put sub64
due key every now s =
    let marked = record s { attempt = put key now s.attempt } in
    elim (get key s.attempt) [
      | some t ↦ if ltb_ℤ (sub64 now t) every then (s, false) else (marked, true)
      | none ↦ (marked, true)
    ]
