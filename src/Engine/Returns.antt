-- ===== src/Engine/Returns.antt =====
-- The frame of a response of any type fits in a `Frame`.
use low_latency_trading_gate.Base.{ℕ, ◌≤◌, ◌≡◌, List, some, length, arith}
use low_latency_trading_gate.Protocol.{frame_size}
use low_latency_trading_gate.Codec.Responses.Bytes.{
  encode_accepted_lem, encode_rejected_lem, encode_cancelled_lem, encode_modified_lem,
  encode_trade_lem,
}
use low_latency_trading_gate.Engine.{EngineResponse, EngineResponseType, encode_as, encode_response}

encode_as-returns :
    (t : EngineResponseType) (rsp : EngineResponse) (out : List ℕ)
    → frame_size ≤ length out
    → (frame : List ℕ) × (encode_as t rsp out ≡ some (frame_size, frame))
unfolding encode_as
encode_as-returns EngineResponseType.accepted rsp out room =
    (_, encode_accepted_lem _ _ out (omega arith))
encode_as-returns EngineResponseType.rejected rsp out room =
    (_, encode_rejected_lem _ _ out (omega arith))
encode_as-returns EngineResponseType.cancelled rsp out room =
    (_, encode_cancelled_lem _ _ out (omega arith))
encode_as-returns EngineResponseType.modified rsp out room =
    (_, encode_modified_lem _ _ out (omega arith))
encode_as-returns EngineResponseType.trade rsp out room =
    (_, encode_trade_lem _ _ out (omega arith))

pub encode_response-returns :
    (rsp : EngineResponse) (out : List ℕ)
    → frame_size ≤ length out
    → (frame : List ℕ) × (encode_response rsp out ≡ some frame)
unfolding encode_response
encode_response-returns rsp out room =
    let (frame, e) = encode_as-returns rsp.type rsp out room in (frame, rw e)
