-- ===== src/Codec/Requests/RoundTrip/CancelOrder.antt =====
-- codec.hpp: `decode_cancel_order` undoes `encode_cancel_order`.
use low_latency_trading_gate.Base.{
  ℕ, ◌^◌, ◌≤◌, ◌<◌, ◌≡◌, refl, ap, ◌∙◌, List, some, arith, length, drop,
}
use low_latency_trading_gate.Base.Bytes.{IsBytes, of_bytes-to_bytes8}
use low_latency_trading_gate.Protocol
use low_latency_trading_gate.Protocol.{
  MessageType, message_type_code, message_type_of, DecodeStatus, frame_size, header_size, side_code,
}
use low_latency_trading_gate.Protocol.Casts.{MessageTypeFits}
use low_latency_trading_gate.Protocol.MessageHeader.{MessageHeader}
use low_latency_trading_gate.Protocol.CancelOrder.{CancelOrder}
use low_latency_trading_gate.Codec.Header.{
  decode_header, check_magic_version, validate_request_header,
}
use low_latency_trading_gate.Codec.Header.Bytes.{HeaderFits}
use low_latency_trading_gate.Codec.Frames.{
  typed, typed-Fits, framed, framed-eq-append, length-framed, framed-IsBytes, decode_header-framed,
}
use low_latency_trading_gate.Codec.Requests.{encode_cancel_order, decode_cancel_order}
use low_latency_trading_gate.Codec.Requests.Bytes.{cancel_order_bytes, encode_cancel_order_lem}
use low_latency_trading_gate.Codec.Requests.Decode.{cancel_order_of, decode_cancel_order_lem}

cancel_order-Fits : MessageTypeFits MessageType.cancel_order
unfolding message_type_code message_type_of
cancel_order-Fits = record { small = omega arith; canonical = refl }

pub record CancelOrderFits (order : CancelOrder) : Type 0 where
  pub client_order_id : order.client_order_id < 2 ^ 64

decode_cancel_order-framed :
    (header : MessageHeader) (order : CancelOrder) (out : List ℕ) (prior : CancelOrder)
    → CancelOrderFits order
    → IsBytes out
    → frame_size ≤ length out
    → decode_cancel_order (framed header (cancel_order_bytes order) out) prior
      ≡ some (DecodeStatus.ok, (record prior { client_order_id = order.client_order_id }))
decode_cancel_order-framed header order out prior fits bytes room =
    let frame = framed header (cancel_order_bytes order) out in
    decode_cancel_order_lem frame prior
      (framed-IsBytes header (cancel_order_bytes order) out (omega arith) bytes)
      (omega (arith, length-framed header (cancel_order_bytes order) out))
    ∙ ap (λ o. some (DecodeStatus.ok, o))
        (ap (λ xs. cancel_order_of xs prior)
            (framed-eq-append header (cancel_order_bytes order) out (omega arith))
          ∙ rw (of_bytes-to_bytes8 order.client_order_id fits.client_order_id))

module _ (header : MessageHeader) (order : CancelOrder) (out : List ℕ) where
  -- For fields in the range of their C++ types, the right magic and version, and a span of 64
  -- bytes or more, `encode_cancel_order` makes no access out of range, returns 64 and leaves
  -- everything from byte 40 on as it was. `decode_header` accepts the frame and gets the header
  -- with the type and the payload length of the message, which `validate_request_header`
  -- accepts. `decode_cancel_order` gets the fields that are sent
  -- back, and leaves the others of its result alone.
  pub cancel_order-round_trip :
      HeaderFits header
      → header.magic ≡ Protocol.magic
      → header.version ≡ Protocol.version
      → CancelOrderFits order
      → IsBytes out
      → frame_size ≤ length out
      → (frame : List ℕ) × (encode_cancel_order header order out ≡ some (frame_size, frame))
        × (drop 40 frame ≡ drop 40 out)
        × ((prior : MessageHeader)
            → decode_header frame prior
              ≡ some (DecodeStatus.ok, typed header MessageType.cancel_order))
        × (validate_request_header (typed header MessageType.cancel_order) ≡ DecodeStatus.ok)
        × ((prior : CancelOrder)
            → decode_cancel_order frame prior
              ≡ some (DecodeStatus.ok, (record prior { client_order_id = order.client_order_id })))
  unfolding validate_request_header check_magic_version
  cancel_order-round_trip fits m ver sent bytes room =
      let h = typed header MessageType.cancel_order in
      (
        framed h (cancel_order_bytes order) out,
        encode_cancel_order_lem header order out room,
        ap (drop 40) (framed-eq-append h (cancel_order_bytes order) out (omega arith)),
        λ prior.
            decode_header-framed h prior (cancel_order_bytes order) out
              (typed-Fits fits cancel_order-Fits) (omega arith) bytes (omega arith)
            ∙ rw (m, ver),
        refl,
        λ prior. decode_cancel_order-framed h order out prior sent bytes room,
      )
