-- ===== src/Codec/Responses/RoundTrip/Cancelled.antt =====
-- codec.hpp: `decode_cancelled` undoes `encode_cancelled`.
use low_latency_trading_gate.Base.{
  ℕ, ◌^◌, ◌≤◌, ◌<◌, ◌≡◌, refl, ap, ◌∙◌, List, some, arith, length, drop,
}
use low_latency_trading_gate.Base.Bytes.{IsBytes, of_bytes-to_bytes8}
use low_latency_trading_gate.Protocol
use low_latency_trading_gate.Protocol.{
  MessageType, message_type_code, message_type_of, DecodeStatus, frame_size, header_size,
  reject_reason_code,
}
use low_latency_trading_gate.Protocol.Casts.{MessageTypeFits}
use low_latency_trading_gate.Protocol.MessageHeader.{MessageHeader}
use low_latency_trading_gate.Protocol.Cancelled.{Cancelled}
use low_latency_trading_gate.Codec.Header.{
  decode_header, check_magic_version, validate_response_header,
}
use low_latency_trading_gate.Codec.Header.Bytes.{HeaderFits}
use low_latency_trading_gate.Codec.Frames.{
  typed, typed-Fits, framed, framed-eq-append, length-framed, framed-IsBytes, decode_header-framed,
}
use low_latency_trading_gate.Codec.Responses.{encode_cancelled, decode_cancelled}
use low_latency_trading_gate.Codec.Responses.Bytes.{cancelled_bytes, encode_cancelled_lem}
use low_latency_trading_gate.Codec.Responses.Decode.{cancelled_of, decode_cancelled_lem}

cancelled-Fits : MessageTypeFits MessageType.cancelled
unfolding message_type_code message_type_of
cancelled-Fits = record { small = omega arith; canonical = refl }

pub record CancelledFits (response : Cancelled) : Type 0 where
  pub client_order_id : response.client_order_id < 2 ^ 64
  pub order_handle : response.order_handle < 2 ^ 64
  pub reserved1 : response.reserved1 < 2 ^ 64
  pub reserved2 : response.reserved2 < 2 ^ 64

decode_cancelled-framed :
    (header : MessageHeader) (response : Cancelled) (out : List ℕ) (prior : Cancelled)
    → CancelledFits response
    → IsBytes out
    → frame_size ≤ length out
    → decode_cancelled (framed header (cancelled_bytes response) out) prior
      ≡ some (DecodeStatus.ok, response)
decode_cancelled-framed header response out prior fits bytes room =
    let frame = framed header (cancelled_bytes response) out in
    decode_cancelled_lem frame prior
      (framed-IsBytes header (cancelled_bytes response) out (omega arith) bytes)
      (omega (arith, length-framed header (cancelled_bytes response) out))
    ∙ ap (λ o. some (DecodeStatus.ok, o))
        (ap (λ xs. cancelled_of xs prior)
            (framed-eq-append header (cancelled_bytes response) out (omega arith))
          ∙ rw (
            of_bytes-to_bytes8 response.client_order_id fits.client_order_id,
            of_bytes-to_bytes8 response.order_handle fits.order_handle,
            of_bytes-to_bytes8 response.reserved1 fits.reserved1,
            of_bytes-to_bytes8 response.reserved2 fits.reserved2,
          ))

module _ (header : MessageHeader) (response : Cancelled) (out : List ℕ) where
  -- For fields in the range of their C++ types, the right magic and version, and a span of 64
  -- bytes or more, `encode_cancelled` makes no access out of range, returns 64 and leaves
  -- everything from byte 64 on as it was. `decode_header` accepts the frame and gets the header
  -- with the type and the payload length of the message, which `validate_response_header`
  -- accepts. `decode_cancelled` gets the response back.
  pub cancelled-round_trip :
      HeaderFits header
      → header.magic ≡ Protocol.magic
      → header.version ≡ Protocol.version
      → CancelledFits response
      → IsBytes out
      → frame_size ≤ length out
      → (frame : List ℕ) × (encode_cancelled header response out ≡ some (frame_size, frame))
        × (drop 64 frame ≡ drop 64 out)
        × ((prior : MessageHeader)
            → decode_header frame prior
              ≡ some (DecodeStatus.ok, typed header MessageType.cancelled))
        × (validate_response_header (typed header MessageType.cancelled) ≡ DecodeStatus.ok)
        × ((prior : Cancelled) → decode_cancelled frame prior ≡ some (DecodeStatus.ok, response))
  unfolding validate_response_header check_magic_version
  cancelled-round_trip fits m ver sent bytes room =
      let h = typed header MessageType.cancelled in
      (
        framed h (cancelled_bytes response) out,
        encode_cancelled_lem header response out room,
        ap (drop 64) (framed-eq-append h (cancelled_bytes response) out (omega arith)),
        λ prior.
            decode_header-framed h prior (cancelled_bytes response) out
              (typed-Fits fits cancelled-Fits) (omega arith) bytes (omega arith)
            ∙ rw (m, ver),
        refl,
        λ prior. decode_cancelled-framed h response out prior sent bytes room,
      )
