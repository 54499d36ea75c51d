-- ===== src/Gnochain/Broadcast.antt =====
-- internal/gnochain/client.go: pricing, signing and sending one transaction. The node, the signer
-- and the float arithmetic of the gas price are arguments: a reply for each question that a
-- broadcast asks, each of which it asks once.
pub mod Laws
use gnoracle.Base.{
  ℕ, ◌+◌, ℤ, pos, negsuc, ltb_ℤ, leb_ℤ, Bool, true, false, ltb, not, List, [], ◌∷◌, ◌++◌, Option,
  none, some, if◌then◌else◌, length, take,
}
use gnoracle.Base.Int64.{add64, mul64, div64}
use gnoracle.Base.Result.{Result, ok, err, ◌>>=◌, ◌>>◌, ensure}
use gnoracle.Base.Text.{
  Bytes, is_empty, ellipsis, codes, bytes_eq, trim_space, before_first, contains,
}
use gnoracle.Base.Text.Decimal.{format_int}
use gnoracle.Gnochain.Results.{decode_results}

pub record GasConfig : Type 0 where
  pub mode : Bytes
  pub wanted : ℤ
  pub price : Bytes
  pub margin_bps : ℤ
  pub max_deposit : Bytes

abbrev pub estimate : Bytes
estimate = codes "estimate"

unfoldable pub defaults : GasConfig → GasConfig
defaults g = record {
  mode = if is_empty g.mode then estimate else g.mode;
  wanted = if leb_ℤ g.wanted (pos 0) then pos 60000000 else g.wanted;
  price = if is_empty g.price then codes "0.001ugnot" else g.price;
  margin_bps = if leb_ℤ g.margin_bps (pos 0) then pos 2500 else g.margin_bps;
  max_deposit = if is_empty g.max_deposit then codes "5000000ugnot" else g.max_deposit;
}

-- The simulated gas with the caller's headroom and the margin on both, held to the ceiling.
unfoldable pub estimated_gas : GasConfig → ℤ → ℤ → ℤ
unfolding add64 mul64 div64
estimated_gas g simulated extra =
    let used = add64 simulated extra in
    let asked = add64 used (div64 (mul64 used g.margin_bps) (pos 10000)) in
    if ltb_ℤ g.wanted asked then g.wanted else asked

-- The fee in the smallest unit; `priced` is gas times the price, rounded up.
unfoldable pub fee : (ℤ → ℤ) → Bytes → ℤ → Bytes
unfolding format_int
fee priced denom gas =
    let amount = priced gas in format_int (if ltb_ℤ amount (pos 1) then pos 1 else amount) ++ denom

-- The realm's message without the trace behind it, and no longer than 600 bytes.
unfoldable pub cut_behind : Bytes → Bytes → Bytes
unfolding before_first trim_space
cut_behind mark log = elim (before_first mark log) [
  | some (c ∷ s) ↦ trim_space (c ∷ s)
  | other ↦ log
]

unfoldable pub trim_log : Bytes → Bytes
trim_log raw =
    let log =
      cut_behind (codes "Machine State") (cut_behind (codes "Stack Trace:") (trim_space raw)) in
    if ltb 600 (length log) then take 600 log ++ ellipsis else log

-- What a committed call returned.
pub record TxResult : Type 0 where
  pub hash : Bytes
  pub height : ℤ
  pub gas_wanted : ℤ
  pub gas_used : ℤ
  pub fee_paid : Bytes
  pub raw : Bytes
  pub results : List Bytes

pub data SendError : Type 0 where
  no_key bad_coins cancelled no_account not_built simulate bad_fee unsigned : SendError
  sequence_mismatch not_broadcast : Bytes → SendError
  checktx delivertx : Bytes → Bytes → SendError

-- One phase of a committed transaction: an error with its log, or none.
pub data Phase : Type 0 where
  passed : Phase
  refused : Bytes → Bytes → Phase

pub record Committed : Type 0 where
  pub hash : Bytes
  pub height : ℤ
  pub check : Phase
  pub deliver : Phase
  pub gas_wanted : ℤ
  pub gas_used : ℤ
  pub raw : Bytes

-- The replies of the node and the signer. `build`, `sign` and `commit` see the gas asked for and
-- the fee, on which a transaction differs.
pub record Node : Type 0 where
  pub context_ended : Bool
  pub account : Option (ℕ × ℕ)
  pub builds : ℤ → Bytes → Bool
  pub simulation : Option ℤ
  pub fee_parses : Bytes → Bool
  pub signs : ℤ → Bytes → Bool
  pub commit : ℤ → Bytes → Result Bytes Committed

abbrev pub phase_ok : (Bytes → Bytes → SendError) → Phase → Result SendError (Unit {0})
phase_ok kind passed = ok tt
phase_ok kind (refused e log) = err (kind e log)

-- The gas that the transaction asks for, simulated in the estimate mode.
unfoldable pub ask_gas : (ℤ → ℤ) → Bytes → GasConfig → ℤ → Node → Result SendError ℤ
ask_gas priced denom g extra node =
    if not (bytes_eq g.mode estimate) then ok g.wanted else elim node.simulation [
      | none ↦ err simulate
      | some used ↦
          let gas = estimated_gas g used extra in
          if node.fee_parses (fee priced denom gas) then ok gas else err bad_fee
    ]

unfoldable pub committed : Result Bytes Committed → Result SendError Committed
unfolding contains
committed (ok res) = ok res
committed (err e) = err (
    if contains e (codes "signature verification failed")
    then sequence_mismatch e
    else not_broadcast e)

module _ (unquote : Bytes → Option Bytes) (priced : ℤ → ℤ) (denom : Bytes) where
  unfoldable pub broadcast : GasConfig → ℤ → Node → Result SendError TxResult
  broadcast g extra node = do
    ensure (not node.context_ended) cancelled
    account ← elim node.account [ some a ↦ ok a | none ↦ err no_account ]
    ensure (node.builds g.wanted (fee priced denom g.wanted)) not_built
    gas ← ask_gas priced denom g extra node
    ensure (node.signs gas (fee priced denom gas)) unsigned
    res ← committed (node.commit gas (fee priced denom gas))
    phase_ok (λ e log. checktx e (trim_log log)) res.check
    phase_ok (λ e log. delivertx e (trim_log log)) res.deliver
    ok (record {
      hash = res.hash;
      height = res.height;
      gas_wanted = res.gas_wanted;
      gas_used = res.gas_used;
      fee_paid = fee priced denom gas;
      raw = res.raw;
      results = decode_results unquote res.raw;
    })

  -- `Call`: a key, and coins that parse if any are sent.
  unfoldable pub call : Bool → Bool → GasConfig → ℤ → Node → Result SendError TxResult
  call can_sign coins_ok g extra node = do
    ensure can_sign no_key
    ensure coins_ok bad_coins
    broadcast g extra node

  -- `SendCoins`: a transfer, without a memo and without headroom.
  unfoldable pub send_coins : Bool → Bool → GasConfig → Node → Result SendError TxResult
  send_coins can_sign coins_ok g node = do
    ensure can_sign no_key
    ensure coins_ok bad_coins
    broadcast g (pos 0) node
