-- ===== src/Gnochain/Broadcast/Laws.antt =====
-- What a transaction asks for and when it is sent.
use gnoracle.Base.{
  ℕ, ◌+◌, ◌*◌, ◌/◌, ◌≤◌, ◌<◌, ℤ, pos, ◌≤ℤ◌, ltb_ℤ, true, false, ◌++◌, Option, none, ◌≡◌, ◌≢◌, ◌⊎◌,
  inl, inr, Option-cases, arith, length, take, ltb, if◌then◌else◌, length-take, length-append,
}
use gnoracle.Base.Int64.{two63, add64_pos, mul64_pos, div64_pos}
use gnoracle.Base.Result.{Result, ok, err, Result-cases}
use gnoracle.Base.Text.{Bytes, codes, ellipsis, trim_space}
use gnoracle.Gnochain.Broadcast.{
  cut_behind, committed, GasConfig, estimated_gas, trim_log, fee, ask_gas, broadcast, Node,
  Committed, TxResult, passed,
}

-- The gas asked for never exceeds the ceiling, and below the ceiling it covers the simulated gas
-- with the headroom and the whole margin on both. (The product of the gas and the margin fits
-- int64.)
pub estimated_gas_covers :
    (g : GasConfig) (used extra margin : ℕ)
    → g.margin_bps ≡ pos margin
    → (used + extra) * margin + used + extra < two63
    → let gas = estimated_gas g (pos used) (pos extra) in
      (gas ≤ℤ g.wanted)
      × ((gas ≡ g.wanted) ⊎ (gas ≡ pos (used + extra + (used + extra) * margin / 10000)))
unfolding estimated_gas
estimated_gas_covers g used extra margin h fits =
    let total = used + extra in
    let share = total * margin in
    rw h (
      ground (
        arith,
        add64_pos used extra (omega arith),
        mul64_pos total margin (omega arith),
        div64_pos share 10000 (omega arith),
        add64_pos total (share / 10000) (omega arith),
      ))

limited : (s : Bytes) → length (if ltb 600 (length s) then take 600 s ++ ellipsis else s) ≤ 603
limited s = ground (arith, length-append (take 600 s) ellipsis, length-take 600 s)

-- The realm's message in an error is never longer than 603 bytes: 600 and the ellipsis.
trim_log_short : (log : Bytes) → length (trim_log log) ≤ 603
unfolding trim_log
trim_log_short log =
    limited
      (cut_behind (codes "Machine State") (cut_behind (codes "Stack Trace:") (trim_space log)))

committed_ok : (m : Result Bytes Committed) {res : Committed} → committed m ≡ ok res → m ≡ ok res
unfolding committed
committed_ok (ok res) e = cc
committed_ok (err f) e = cc

capped : (w asked : ℤ) → (if ltb_ℤ w asked then w else asked) ≤ℤ w
capped w asked = ground arith

estimated_gas-le : (g : GasConfig) (used extra : ℤ) → estimated_gas g used extra ≤ℤ g.wanted
unfolding estimated_gas
estimated_gas-le g used extra = capped g.wanted _

ask_gas-le :
    (priced : ℤ → ℤ) (denom : Bytes) (g : GasConfig) (extra : ℤ) (node : Node) {gas : ℤ}
    → ask_gas priced denom g extra node ≡ ok gas
    → gas ≤ℤ g.wanted
unfolding ask_gas
ask_gas-le priced denom g extra node {gas} e = elim (Option-cases node.simulation) [
  | inl nothing ↦ ground arith
  | inr (used, simulated) ↦ ground (arith, estimated_gas-le g used extra)
]

module _ (unquote : Bytes → Option Bytes) (priced : ℤ → ℤ) (denom : Bytes) where
  -- A transaction that is sent and committed asked for no more than the ceiling in either mode, paid
  -- the fee for the gas it asked for, and passed both of its phases; nothing is broadcast without a
  -- live context, an account, a built transaction and a signature.
  pub broadcast_sound :
      (g : GasConfig) (extra : ℤ) (node : Node) {r : TxResult}
      → broadcast unquote priced denom g extra node ≡ ok r
      → (gas : ℤ) × (gas ≤ℤ g.wanted)
        × (r.fee_paid ≡ fee priced denom gas)
        × (node.context_ended ≡ false)
        × (node.account ≢ none)
        × (node.signs gas (fee priced denom gas) ≡ true)
        × ((res : Committed) × (node.commit gas (fee priced denom gas) ≡ ok res)
            × (res.check ≡ passed)
            × (res.deliver ≡ passed)
            × (r.hash ≡ res.hash))
  unfolding broadcast
  broadcast_sound g extra node {r} e = elim (Result-cases (ask_gas priced denom g extra node)) [
    | inr (f, refused_gas) ↦ absurd (ground arith)
    | inl (gas, asked) ↦ elim (Result-cases (committed (node.commit gas (fee priced denom gas)))) [
      | inr (f, failed_commit) ↦ absurd (ground arith)
      | inl (res, done) ↦ (
        gas,
        ask_gas-le priced denom g extra node asked,
        ground arith,
        ground arith,
        ground arith,
        ground arith,
        (res, committed_ok _ done, ground arith, ground arith, ground arith),
      )
    ]
  ]
