-- ===== src/Gateway/Acceptance.antt =====
-- What the matching thread answers to a new order, and the frame of it.
use low_latency_trading_gate.Base.{
  ℕ, ◌^◌, ◌<◌, ◌≡◌, refl, sym, ap, ◌∙◌, subst, List, Option, none, some, false, length, arith,
}
use low_latency_trading_gate.Base.Bytes.{IsBytes}
use low_latency_trading_gate.Protocol.{
  MessageType, frame_size, reject_reason_code, reject_reason_of,
}
use low_latency_trading_gate.Protocol.MessageHeader.{MessageHeader}
use low_latency_trading_gate.Protocol.NewOrder.{NewOrder}
use low_latency_trading_gate.Protocol.Accepted
use low_latency_trading_gate.Protocol.Accepted.{Accepted}
use low_latency_trading_gate.Codec.Responses.Bytes.{accepted_bytes, encode_accepted_lem}
use low_latency_trading_gate.Engine.{
  gateway_header, SessionToken, EngineResponse, EngineResponseType, no_response, respond,
  encode_response,
}
use low_latency_trading_gate.Codec.Frames.{typed, framed, framed-IsBytes, length-framed}
use low_latency_trading_gate.Gateway.Matching.{is_shutdown}
use low_latency_trading_gate.Engine.Frames.{ResponseFits, Decodes, encode_response-Decodes}
use low_latency_trading_gate.Gateway.{no_frame}
use low_latency_trading_gate.Gateway.Serve.{command_of}
use low_latency_trading_gate.Gateway.Ordered.{order_message}

-- What the matching thread answers to a new order.
abbrev pub acceptance : SessionToken → ℕ → EngineResponse
acceptance token client_order_id = record no_response {
  session = token;
  client_order_id = client_order_id;
  type = EngineResponseType.accepted;
}

acceptance-Fits :
    (token : SessionToken) (client_order_id : ℕ)
    → client_order_id < 2 ^ 64
    → ResponseFits (acceptance token client_order_id)
unfolding reject_reason_code reject_reason_of
acceptance-Fits token client_order_id small = record {
  client_order_id = small;
  price = omega arith;
  quantity = omega arith;
  reject_reason = record { small = omega arith; canonical = refl };
}

pub respond-order :
    (token : SessionToken) (header : MessageHeader) (order : NewOrder)
    → respond (command_of token (order_message header order))
      ≡ some (acceptance token order.client_order_id)
unfolding respond command_of
respond-order token header order = refl

pub order-other :
    (token : SessionToken) (header : MessageHeader) (order : NewOrder)
    → is_shutdown (command_of token (order_message header order)).type ≡ false
unfolding command_of
order-other token header order = refl

frame_of : List ℕ → Option (List ℕ) → List ℕ
frame_of d none = d
frame_of d (some frame) = frame

pub acceptance-Decodes :
    (token : SessionToken) (client_order_id : ℕ) (answer : List ℕ)
    → client_order_id < 2 ^ 64
    → encode_response (acceptance token client_order_id) no_frame ≡ some answer
    → Decodes EngineResponseType.accepted (acceptance token client_order_id) answer
unfolding frame_of
acceptance-Decodes token client_order_id answer small e =
    let rsp = acceptance token client_order_id in
    let (frame, e', d) =
      encode_response-Decodes rsp no_frame (acceptance-Fits token client_order_id small)
        (omega arith) (omega arith) in
    subst (Decodes EngineResponseType.accepted rsp) (ap (frame_of answer) (sym e' ∙ e)) d

pub acceptance-IsFrame :
    (token : SessionToken) (client_order_id : ℕ) (answer : List ℕ)
    → encode_response (acceptance token client_order_id) no_frame ≡ some answer
    → IsBytes answer × (length answer ≡ frame_size)
unfolding frame_of encode_response
acceptance-IsFrame token client_order_id answer e =
    let h = typed gateway_header MessageType.accepted in
    let response : Accepted = record Accepted.default { client_order_id = client_order_id } in
    let written : encode_response (acceptance token client_order_id) no_frame
        ≡ some (framed h (accepted_bytes response) no_frame) =
      rw (encode_accepted_lem gateway_header response no_frame (omega arith)) in
    let same = ap (frame_of answer) (sym written ∙ e) in
    (
      subst IsBytes same
          (framed-IsBytes h (accepted_bytes response) no_frame (omega arith) (omega arith)),
      ap length (sym same) ∙ length-framed h (accepted_bytes response) no_frame,
    )
