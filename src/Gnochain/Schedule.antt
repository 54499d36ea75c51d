-- ===== src/Gnochain/Schedule.antt =====
-- internal/gnochain/schedule.go: the round calendar of a feed.
pub mod Laws
use gnoracle.Base.{ℕ, ◌+◌, ◌%◌, ℤ, pos, Bool, ◌&&◌, not, Option, none, some}
use gnoracle.Base.{if◌then◌else◌, ltb_ℤ, leb_ℤ, eqb_ℤ}
use gnoracle.Base.Int64.{add64, sub64, mul64, div64, to_int64, to_uint64, two64}

-- Times are int64 seconds; `interval` 0 is a one-off feed.
pub record Schedule : Type 0 where
  pub start_at : ℤ
  pub interval : ℤ
  pub submit_window : ℤ

unfoldable pub is_one_off : Schedule → Bool
is_one_off s = eqb_ℤ s.interval (pos 0)

-- `none` is the result with `false`.
unfoldable pub current : Schedule → ℤ → Option ℕ
unfolding is_one_off sub64 div64
current s now =
    if ltb_ℤ now s.start_at
    then none
    else if is_one_off s
    then some 0
    else some (to_uint64 (div64 (sub64 now s.start_at) s.interval))

unfoldable pub open_at : Schedule → ℕ → ℤ
unfolding is_one_off add64 mul64 to_int64
open_at s id =
    if is_one_off s then s.start_at else add64 s.start_at (mul64 (to_int64 (pos id)) s.interval)

unfoldable pub close_at : Schedule → ℕ → ℤ
unfolding open_at add64
close_at s id = add64 (open_at s id) s.submit_window

unfoldable pub is_open : Schedule → ℕ → ℤ → Bool
unfolding open_at close_at
is_open s id now = leb_ℤ (open_at s id) now && ltb_ℤ now (close_at s id)

unfoldable pub is_closed : Schedule → ℕ → ℤ → Bool
unfolding close_at
is_closed s id now = leb_ℤ (close_at s id) now

-- The sum is a uint64.
unfoldable pub next : Schedule → ℕ → Bool → ℕ
unfolding is_one_off
next s last_finalised have_last =
    if not have_last then 0 else if is_one_off s then 1 else (last_finalised + 1) % two64
