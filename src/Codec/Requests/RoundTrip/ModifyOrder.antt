-- ===== src/Codec/Requests/RoundTrip/ModifyOrder.antt =====
-- codec.hpp: `decode_modify_order` undoes `encode_modify_order`.
use low_latency_trading_gate.Base.{
  ℕ, ◌^◌, ◌≤◌, ◌<◌, ◌≡◌, refl, ap, ◌∙◌, List, some, arith, length, drop,
}
use low_latency_trading_gate.Base.Bytes.{IsBytes, of_bytes-to_bytes8}
use low_latency_trading_gate.Protocol
use low_latency_trading_gate.Protocol.{
  MessageType, message_type_code, message_type_of, DecodeStatus, frame_size, header_size, side_code,
}
use low_latency_trading_gate.Protocol.Casts.{MessageTypeFits}
use low_latency_trading_gate.Protocol.MessageHeader.{MessageHeader}
use low_latency_trading_gate.Protocol.ModifyOrder.{ModifyOrder}
use low_latency_trading_gate.Codec.Header.{
  decode_header, check_magic_version, validate_request_header,
}
use low_latency_trading_gate.Codec.Header.Bytes.{HeaderFits}
use low_latency_trading_gate.Codec.Frames.{
  typed, typed-Fits, framed, framed-eq-append, length-framed, framed-IsBytes, decode_header-framed,
}
use low_latency_trading_gate.Codec.Requests.{encode_modify_order, decode_modify_order}
use low_latency_trading_gate.Codec.Requests.Bytes.{modify_order_bytes, encode_modify_order_lem}
use low_latency_trading_gate.Codec.Requests.Decode.{modify_order_of, decode_modify_order_lem}

modify_order-Fits : MessageTypeFits MessageType.modify_order
unfolding message_type_code message_type_of
modify_order-Fits = record { small = omega arith; canonical = refl }

pub record ModifyOrderFits (order : ModifyOrder) : Type 0 where
  pub client_order_id : order.client_order_id < 2 ^ 64
  pub new_price : order.new_price < 2 ^ 64
  pub new_quantity : order.new_quantity < 2 ^ 64

decode_modify_order-framed :
    (header : MessageHeader) (order : ModifyOrder) (out : List ℕ) (prior : ModifyOrder)
    → ModifyOrderFits order
    → IsBytes out
    → frame_size ≤ length out
    → decode_modify_order (framed header (modify_order_bytes order) out) prior
      ≡ some (
        DecodeStatus.ok,
        (record prior {
          client_order_id = order.client_order_id;
          new_price = order.new_price;
          new_quantity = order.new_quantity;
        }),
      )
decode_modify_order-framed header order out prior fits bytes room =
    let frame = framed header (modify_order_bytes order) out in
    decode_modify_order_lem frame prior
      (framed-IsBytes header (modify_order_bytes order) out (omega arith) bytes)
      (omega (arith, length-framed header (modify_order_bytes order) out))
    ∙ ap (λ o. some (DecodeStatus.ok, o))
        (ap (λ xs. modify_order_of xs prior)
            (framed-eq-append header (modify_order_bytes order) out (omega arith))
          ∙ rw (
            of_bytes-to_bytes8 order.client_order_id fits.client_order_id,
            of_bytes-to_bytes8 order.new_price fits.new_price,
            of_bytes-to_bytes8 order.new_quantity fits.new_quantity,
          ))

module _ (header : MessageHeader) (order : ModifyOrder) (out : List ℕ) where
  -- For fields in the range of their C++ types, the right magic and version, and a span of 64
  -- bytes or more, `encode_modify_order` makes no access out of range, returns 64 and leaves
  -- everything from byte 56 on as it was. `decode_header` accepts the frame and gets the header
  -- with the type and the payload length of the message, which `validate_request_header`
  -- accepts. `decode_modify_order` gets the fields that are sent
  -- back, and leaves the others of its result alone.
  pub modify_order-round_trip :
      HeaderFits header
      → header.magic ≡ Protocol.magic
      → header.version ≡ Protocol.version
      → ModifyOrderFits order
      → IsBytes out
      → frame_size ≤ length out
      → (frame : List ℕ) × (encode_modify_order header order out ≡ some (frame_size, frame))
        × (drop 56 frame ≡ drop 56 out)
        × ((prior : MessageHeader)
            → decode_header frame prior
              ≡ some (DecodeStatus.ok, typed header MessageType.modify_order))
        × (validate_request_header (typed header MessageType.modify_order) ≡ DecodeStatus.ok)
        × ((prior : ModifyOrder)
            → decode_modify_order frame prior
              ≡ some (
                DecodeStatus.ok,
                (record prior {
                  client_order_id = order.client_order_id;
                  new_price = order.new_price;
                  new_quantity = order.new_quantity;
                }),
              ))
  unfolding validate_request_header check_magic_version
  modify_order-round_trip fits m ver sent bytes room =
      let h = typed header MessageType.modify_order in
      (
        framed h (modify_order_bytes order) out,
        encode_modify_order_lem header order out room,
        ap (drop 56) (framed-eq-append h (modify_order_bytes order) out (omega arith)),
        λ prior.
            decode_header-framed h prior (modify_order_bytes order) out
              (typed-Fits fits modify_order-Fits) (omega arith) bytes (omega arith)
            ∙ rw (m, ver),
        refl,
        λ prior. decode_modify_order-framed h order out prior sent bytes room,
      )
