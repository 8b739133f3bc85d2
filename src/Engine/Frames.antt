-- ===== src/Engine/Frames.antt =====
-- The frame that the gateway makes of an engine response, as a client decodes it.
use low_latency_trading_gate.Base.{ℕ, ◌^◌, ◌≤◌, ◌<◌, ◌≡◌, refl, List, some, arith, length}
use low_latency_trading_gate.Base.Bytes.{IsBytes}
use low_latency_trading_gate.Protocol.{
  MessageType, message_type_code, message_type_of, DecodeStatus, frame_size,
}
use low_latency_trading_gate.Protocol.Casts.{RejectReasonFits}
use low_latency_trading_gate.Protocol.MessageHeader.{MessageHeader}
use low_latency_trading_gate.Protocol.Accepted
use low_latency_trading_gate.Protocol.Accepted.{Accepted}
use low_latency_trading_gate.Protocol.Rejected
use low_latency_trading_gate.Protocol.Rejected.{Rejected}
use low_latency_trading_gate.Protocol.Cancelled
use low_latency_trading_gate.Protocol.Cancelled.{Cancelled}
use low_latency_trading_gate.Protocol.Modified
use low_latency_trading_gate.Protocol.Modified.{Modified}
use low_latency_trading_gate.Protocol.Trade
use low_latency_trading_gate.Protocol.Trade.{Trade}
use low_latency_trading_gate.Codec.Header.{decode_header}
use low_latency_trading_gate.Codec.Header.Bytes.{HeaderFits}
use low_latency_trading_gate.Codec.Frames.{typed}
use low_latency_trading_gate.Codec.Responses.{
  decode_accepted, decode_rejected, decode_cancelled, decode_modified, decode_trade,
}
use low_latency_trading_gate.Codec.Responses.RoundTrip.Accepted.{accepted-round_trip}
use low_latency_trading_gate.Codec.Responses.RoundTrip.Rejected.{rejected-round_trip}
use low_latency_trading_gate.Codec.Responses.RoundTrip.Cancelled.{cancelled-round_trip}
use low_latency_trading_gate.Codec.Responses.RoundTrip.Modified.{modified-round_trip}
use low_latency_trading_gate.Codec.Responses.RoundTrip.Trade.{trade-round_trip}
use low_latency_trading_gate.Engine.{
  EngineResponse, EngineResponseType, gateway_header, encode_as, encode_response,
}

pub record ResponseFits (rsp : EngineResponse) : Type 0 where
  pub client_order_id : rsp.client_order_id < 2 ^ 64
  pub price : rsp.price < 2 ^ 64
  pub quantity : rsp.quantity < 2 ^ 64
  pub reject_reason : RejectReasonFits rsp.reject_reason

-- A client decodes the type of the response from the header, and its fields from the payload.
abbrev pub Decodes : EngineResponseType → EngineResponse → List ℕ → Type 0
Decodes EngineResponseType.accepted rsp frame =
    ((prior : MessageHeader)
      → decode_header frame prior
        ≡ some (DecodeStatus.ok, typed gateway_header MessageType.accepted))
    × ((prior : Accepted)
        → decode_accepted frame prior
          ≡ some
              (DecodeStatus.ok, record Accepted.default { client_order_id = rsp.client_order_id }))
Decodes EngineResponseType.rejected rsp frame =
    ((prior : MessageHeader)
      → decode_header frame prior
        ≡ some (DecodeStatus.ok, typed gateway_header MessageType.rejected))
    × ((prior : Rejected)
        → decode_rejected frame prior
          ≡ some (
            DecodeStatus.ok,
            record Rejected.default {
              client_order_id = rsp.client_order_id;
              reason = rsp.reject_reason;
            },
          ))
Decodes EngineResponseType.cancelled rsp frame =
    ((prior : MessageHeader)
      → decode_header frame prior
        ≡ some (DecodeStatus.ok, typed gateway_header MessageType.cancelled))
    × ((prior : Cancelled)
        → decode_cancelled frame prior
          ≡ some
              (DecodeStatus.ok, record Cancelled.default { client_order_id = rsp.client_order_id }))
Decodes EngineResponseType.modified rsp frame =
    ((prior : MessageHeader)
      → decode_header frame prior
        ≡ some (DecodeStatus.ok, typed gateway_header MessageType.modified))
    × ((prior : Modified)
        → decode_modified frame prior
          ≡ some
              (DecodeStatus.ok, record Modified.default { client_order_id = rsp.client_order_id }))
Decodes EngineResponseType.trade rsp frame =
    ((prior : MessageHeader)
      → decode_header frame prior ≡ some (DecodeStatus.ok, typed gateway_header MessageType.trade))
    × ((prior : Trade)
        → decode_trade frame prior
          ≡ some (
            DecodeStatus.ok,
            record Trade.default {
              client_order_id = rsp.client_order_id;
              price = rsp.price;
              quantity = rsp.quantity;
            },
          ))

gateway_header-Fits : HeaderFits gateway_header
unfolding message_type_code message_type_of
gateway_header-Fits = record {
  magic = omega arith;
  version = omega arith;
  message_type = record { small = omega arith; canonical = refl };
  payload_length = omega arith;
  flags = omega arith;
  sequence_number = omega arith;
  session_id = omega arith;
  reserved = omega arith;
}

encode_as-Decodes :
    (t : EngineResponseType) (rsp : EngineResponse) (out : List ℕ)
    → ResponseFits rsp
    → IsBytes out
    → frame_size ≤ length out
    → (frame : List ℕ) × (encode_as t rsp out ≡ some (frame_size, frame)) × Decodes t rsp frame
unfolding encode_as
encode_as-Decodes EngineResponseType.accepted rsp out f bytes room =
    let (frame, e, rest, header, ok, body) =
      accepted-round_trip gateway_header
        (record Accepted.default { client_order_id = rsp.client_order_id }) out gateway_header-Fits
        refl refl
        (record {
          client_order_id = f.client_order_id;
          order_handle = omega arith;
          reserved1 = omega arith;
          reserved2 = omega arith;
        })
        bytes room in
    (frame, e, (header, body))
encode_as-Decodes EngineResponseType.rejected rsp out f bytes room =
    let (frame, e, rest, header, ok, body) =
      rejected-round_trip gateway_header
        (record Rejected.default {
          client_order_id = rsp.client_order_id;
          reason = rsp.reject_reason;
        })
        out gateway_header-Fits refl refl
        (record {
          client_order_id = f.client_order_id;
          reason = f.reject_reason;
          reserved1 = omega arith;
          reserved2 = omega arith;
        })
        bytes room in
    (frame, e, (header, body))
encode_as-Decodes EngineResponseType.cancelled rsp out f bytes room =
    let (frame, e, rest, header, ok, body) =
      cancelled-round_trip gateway_header
        (record Cancelled.default { client_order_id = rsp.client_order_id }) out gateway_header-Fits
        refl refl
        (record {
          client_order_id = f.client_order_id;
          order_handle = omega arith;
          reserved1 = omega arith;
          reserved2 = omega arith;
        })
        bytes room in
    (frame, e, (header, body))
encode_as-Decodes EngineResponseType.modified rsp out f bytes room =
    let (frame, e, rest, header, ok, body) =
      modified-round_trip gateway_header
        (record Modified.default { client_order_id = rsp.client_order_id }) out gateway_header-Fits
        refl refl
        (record {
          client_order_id = f.client_order_id;
          order_handle = omega arith;
          reserved1 = omega arith;
          reserved2 = omega arith;
        })
        bytes room in
    (frame, e, (header, body))
encode_as-Decodes EngineResponseType.trade rsp out f bytes room =
    let (frame, e, rest, header, ok, body) =
      trade-round_trip gateway_header
        (record Trade.default {
          client_order_id = rsp.client_order_id;
          price = rsp.price;
          quantity = rsp.quantity;
        })
        out gateway_header-Fits refl refl
        (record {
          client_order_id = f.client_order_id;
          order_handle = omega arith;
          price = f.price;
          quantity = f.quantity;
        })
        bytes room in
    (frame, e, (header, body))

-- `encode_response` makes of a response of any type, with fields in the range of their C++ types,
-- in a span of 64 bytes or more, with no access out of range, a frame from which a client decodes
-- that type, under a header without session id and sequence number, and the fields that it has.
pub encode_response-Decodes :
    (rsp : EngineResponse) (out : List ℕ)
    → ResponseFits rsp
    → IsBytes out
    → frame_size ≤ length out
    → (frame : List ℕ) × (encode_response rsp out ≡ some frame) × Decodes rsp.type rsp frame
unfolding encode_response
encode_response-Decodes rsp out f bytes room =
    let (frame, e, decodes) = encode_as-Decodes rsp.type rsp out f bytes room in
    (frame, rw e, decodes)
