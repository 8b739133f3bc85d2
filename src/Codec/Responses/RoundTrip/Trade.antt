-- ===== src/Codec/Responses/RoundTrip/Trade.antt =====
-- codec.hpp: `decode_trade` undoes `encode_trade`.
use low_latency_trading_gate.Base.{
  ℕ, ◌^◌, ◌≤◌, ◌<◌, ◌≡◌, refl, ap, ◌∙◌, List, some, arith, length, drop,
}
use low_latency_trading_gate.Base.Bytes.{IsBytes, of_bytes-to_bytes8}
use low_latency_trading_gate.Protocol
use low_latency_trading_gate.Protocol.{
  MessageType, message_type_code, message_type_of, DecodeStatus, frame_size, header_size,
  reject_reason_code,
}
use low_latency_trading_gate.Protocol.Casts.{MessageTypeFits}
use low_latency_trading_gate.Protocol.MessageHeader.{MessageHeader}
use low_latency_trading_gate.Protocol.Trade.{Trade}
use low_latency_trading_gate.Codec.Header.{
  decode_header, check_magic_version, validate_response_header,
}
use low_latency_trading_gate.Codec.Header.Bytes.{HeaderFits}
use low_latency_trading_gate.Codec.Frames.{
  typed, typed-Fits, framed, framed-eq-append, length-framed, framed-IsBytes, decode_header-framed,
}
use low_latency_trading_gate.Codec.Responses.{encode_trade, decode_trade}
use low_latency_trading_gate.Codec.Responses.Bytes.{trade_bytes, encode_trade_lem}
use low_latency_trading_gate.Codec.Responses.Decode.{trade_of, decode_trade_lem}

trade-Fits : MessageTypeFits MessageType.trade
unfolding message_type_code message_type_of
trade-Fits = record { small = omega arith; canonical = refl }

pub record TradeFits (response : Trade) : Type 0 where
  pub client_order_id : response.client_order_id < 2 ^ 64
  pub order_handle : response.order_handle < 2 ^ 64
  pub price : response.price < 2 ^ 64
  pub quantity : response.quantity < 2 ^ 64

decode_trade-framed :
    (header : MessageHeader) (response : Trade) (out : List ℕ) (prior : Trade)
    → TradeFits response
    → IsBytes out
    → frame_size ≤ length out
    → decode_trade (framed header (trade_bytes response) out) prior
      ≡ some (DecodeStatus.ok, response)
decode_trade-framed header response out prior fits bytes room =
    let frame = framed header (trade_bytes response) out in
    decode_trade_lem frame prior
      (framed-IsBytes header (trade_bytes response) out (omega arith) bytes)
      (omega (arith, length-framed header (trade_bytes response) out))
    ∙ ap (λ o. some (DecodeStatus.ok, o))
        (ap (λ xs. trade_of xs prior)
            (framed-eq-append header (trade_bytes response) out (omega arith))
          ∙ rw (
            of_bytes-to_bytes8 response.client_order_id fits.client_order_id,
            of_bytes-to_bytes8 response.order_handle fits.order_handle,
            of_bytes-to_bytes8 response.price fits.price,
            of_bytes-to_bytes8 response.quantity fits.quantity,
          ))

module _ (header : MessageHeader) (response : Trade) (out : List ℕ) where
  -- For fields in the range of their C++ types, the right magic and version, and a span of 64
  -- bytes or more, `encode_trade` makes no access out of range, returns 64 and leaves
  -- everything from byte 64 on as it was. `decode_header` accepts the frame and gets the header
  -- with the type and the payload length of the message, which `validate_response_header`
  -- accepts. `decode_trade` gets the response back.
  pub trade-round_trip :
      HeaderFits header
      → header.magic ≡ Protocol.magic
      → header.version ≡ Protocol.version
      → TradeFits response
      → IsBytes out
      → frame_size ≤ length out
      → (frame : List ℕ) × (encode_trade header response out ≡ some (frame_size, frame))
        × (drop 64 frame ≡ drop 64 out)
        × ((prior : MessageHeader)
            → decode_header frame prior ≡ some (DecodeStatus.ok, typed header MessageType.trade))
        × (validate_response_header (typed header MessageType.trade) ≡ DecodeStatus.ok)
        × ((prior : Trade) → decode_trade frame prior ≡ some (DecodeStatus.ok, response))
  unfolding validate_response_header check_magic_version
  trade-round_trip fits m ver sent bytes room =
      let h = typed header MessageType.trade in
      (
        framed h (trade_bytes response) out,
        encode_trade_lem header response out room,
        ap (drop 64) (framed-eq-append h (trade_bytes response) out (omega arith)),
        λ prior.
            decode_header-framed h prior (trade_bytes response) out (typed-Fits fits trade-Fits)
              (omega arith) bytes (omega arith)
            ∙ rw (m, ver),
        refl,
        λ prior. decode_trade-framed h response out prior sent bytes room,
      )
