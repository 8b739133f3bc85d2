-- ===== src/Codec/Requests/RoundTrip/NewOrder.antt =====
-- codec.hpp: `decode_new_order` undoes `encode_new_order`.
use low_latency_trading_gate.Base.{
  ℕ, ◌^◌, ◌≤◌, ◌<◌, ◌≡◌, refl, ap, ◌∙◌, List, some, arith, length, drop,
}
use low_latency_trading_gate.Base.Bytes.{IsBytes, of_bytes-to_bytes8}
use low_latency_trading_gate.Protocol
use low_latency_trading_gate.Protocol.{
  MessageType, message_type_code, message_type_of, DecodeStatus, frame_size, header_size, side_code,
}
use low_latency_trading_gate.Protocol.Casts.{MessageTypeFits, SideFits}
use low_latency_trading_gate.Protocol.MessageHeader.{MessageHeader}
use low_latency_trading_gate.Protocol.NewOrder.{NewOrder}
use low_latency_trading_gate.Codec.Header.{
  decode_header, check_magic_version, validate_request_header,
}
use low_latency_trading_gate.Codec.Header.Bytes.{HeaderFits}
use low_latency_trading_gate.Codec.Frames.{
  typed, typed-Fits, framed, framed-eq-append, length-framed, framed-IsBytes, decode_header-framed,
}
use low_latency_trading_gate.Codec.Requests.{encode_new_order, decode_new_order}
use low_latency_trading_gate.Codec.Requests.Bytes.{new_order_bytes, encode_new_order_lem}
use low_latency_trading_gate.Codec.Requests.Decode.{new_order_of, decode_new_order_lem}

new_order-Fits : MessageTypeFits MessageType.new_order
unfolding message_type_code message_type_of
new_order-Fits = record { small = omega arith; canonical = refl }

pub record NewOrderFits (order : NewOrder) : Type 0 where
  pub client_order_id : order.client_order_id < 2 ^ 64
  pub side : SideFits order.side
  pub price : order.price < 2 ^ 64
  pub quantity : order.quantity < 2 ^ 64

decode_new_order-framed :
    (header : MessageHeader) (order : NewOrder) (out : List ℕ) (prior : NewOrder)
    → NewOrderFits order
    → IsBytes out
    → frame_size ≤ length out
    → decode_new_order (framed header (new_order_bytes order) out) prior
      ≡ some (DecodeStatus.ok, order)
decode_new_order-framed header order out prior fits bytes room =
    let frame = framed header (new_order_bytes order) out in
    decode_new_order_lem frame prior
      (framed-IsBytes header (new_order_bytes order) out (omega arith) bytes)
      (omega (arith, length-framed header (new_order_bytes order) out))
    ∙ ap (λ o. some (DecodeStatus.ok, o))
        (ap (λ xs. new_order_of xs prior)
            (framed-eq-append header (new_order_bytes order) out (omega arith))
          ∙ rw (
            of_bytes-to_bytes8 order.client_order_id fits.client_order_id,
            of_bytes-to_bytes8 (side_code order.side) fits.side.small,
            fits.side.canonical,
            of_bytes-to_bytes8 order.price fits.price,
            of_bytes-to_bytes8 order.quantity fits.quantity,
          ))

module _ (header : MessageHeader) (order : NewOrder) (out : List ℕ) where
  -- For fields in the range of their C++ types, the right magic and version, and a span of 64
  -- bytes or more, `encode_new_order` makes no access out of range, returns 64 and leaves
  -- everything from byte 64 on as it was. `decode_header` accepts the frame and gets the header
  -- with the type and the payload length of the message, which `validate_request_header`
  -- accepts. `decode_new_order` gets the order back.
  pub new_order-round_trip :
      HeaderFits header
      → header.magic ≡ Protocol.magic
      → header.version ≡ Protocol.version
      → NewOrderFits order
      → IsBytes out
      → frame_size ≤ length out
      → (frame : List ℕ) × (encode_new_order header order out ≡ some (frame_size, frame))
        × (drop 64 frame ≡ drop 64 out)
        × ((prior : MessageHeader)
            → decode_header frame prior
              ≡ some (DecodeStatus.ok, typed header MessageType.new_order))
        × (validate_request_header (typed header MessageType.new_order) ≡ DecodeStatus.ok)
        × ((prior : NewOrder) → decode_new_order frame prior ≡ some (DecodeStatus.ok, order))
  unfolding validate_request_header check_magic_version
  new_order-round_trip fits m ver sent bytes room =
      let h = typed header MessageType.new_order in
      (
        framed h (new_order_bytes order) out,
        encode_new_order_lem header order out room,
        ap (drop 64) (framed-eq-append h (new_order_bytes order) out (omega arith)),
        λ prior.
            decode_header-framed h prior (new_order_bytes order) out
              (typed-Fits fits new_order-Fits) (omega arith) bytes (omega arith)
            ∙ rw (m, ver),
        refl,
        λ prior. decode_new_order-framed h order out prior sent bytes room,
      )
