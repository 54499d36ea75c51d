-- ===== src/Gnochain/Rpc.antt =====
-- internal/gnochain/rpc.go: asking the node's JSON-RPC. The HTTP request, the escape of a query and
-- the decoders of JSON are parameters.
use gnoracle.Base.{ℤ, [], ◌++◌, Option, none, some, if◌then◌else◌, ◌==◌}
use gnoracle.Base.Result.{Result, ok, err, ◌>>=◌}
use gnoracle.Base.Text.{Bytes, codes, is_empty, trim_right}
use gnoracle.Base.Text.Decimal.{format_int, int_or_zero}

pub data RpcError : Type 0 where
  bad_request not_sent not_read : RpcError
  not_envelope : Bytes → RpcError
  node_error : Bytes → Bytes → Bytes → RpcError
  bad_result : Bytes → RpcError

-- What the client finds: no request, no answer, an answer that breaks off, or a body.
pub data Fetch : Type 0 where
  no_request no_answer broken : Fetch
  body : Bytes → Fetch

-- The envelope of an answer: an error with its message and data, or the result.
pub data Envelope : Type 0 where
  envelope_error : Bytes → Bytes → Envelope
  envelope_result : Bytes → Envelope

pub rpc_base : Bytes → Bytes
rpc_base remote = trim_right (λ c. c == b'/') remote

module _ (fetch : Bytes → Fetch) (open_envelope : Bytes → Option Envelope) where
  address : Bytes → Bytes → Bytes → Bytes
  address base method query =
      base ++ codes "/" ++ method ++ (if is_empty query then [] else codes "?" ++ query)

  result_of : {A : Type 0} → Bytes → (Bytes → Option A) → Envelope → Result RpcError A
  result_of method decode (envelope_error message details) = err (node_error method message details)
  result_of method decode (envelope_result raw) = elim (decode raw) [
    | some a ↦ ok a
    | none ↦ err (bad_result method)
  ]

  pub rpc_get : {A : Type 0} → Bytes → Bytes → Bytes → (Bytes → Option A) → Result RpcError A
  rpc_get base method query decode = elim (fetch (address base method query)) [
    | no_request ↦ err bad_request
    | no_answer ↦ err not_sent
    | broken ↦ err not_read
    | body b ↦ elim (open_envelope b) [
      | none ↦ err (not_envelope method)
      | some e ↦ result_of method decode e
    ]
  ]

  -- The network, the height and the time of the head; a height that is no number is zero.
  pub node_status : Bytes → (Bytes → Option (Bytes × Bytes × ℤ)) → Result RpcError (Bytes × ℤ × ℤ)
  node_status base decode = do
    res ← rpc_get base (codes "status") [] decode
    ok (res.0, int_or_zero res.1, res.2)

  -- A block's time and its count of transactions.
  pub block_time : Bytes → ℤ → (Bytes → Option (ℤ × Bytes)) → Result RpcError (ℤ × ℤ)
  block_time base height decode = do
    res ← rpc_get base (codes "block") (codes "height=" ++ format_int height) decode
    ok (res.0, int_or_zero res.1)
