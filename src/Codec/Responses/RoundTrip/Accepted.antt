-- ===== src/Codec/Responses/RoundTrip/Accepted.antt =====
-- codec.hpp: `decode_accepted` undoes `encode_accepted`.
use low_latency_trading_gate.Base.{
  ℕ, ◌^◌, ◌≤◌, ◌<◌, ◌≡◌, refl, ap, ◌∙◌, List, some, arith, length, drop,
}
use low_latency_trading_gate.Base.Bytes.{IsBytes, of_bytes-to_bytes8}
use low_latency_trading_gate.Protocol
use low_latency_trading_gate.Protocol.{
  MessageType, message_type_code, message_type_of, DecodeStatus, frame_size, header_size,
  reject_reason_code,
}
use low_latency_trading_gate.Protocol.Casts.{MessageTypeFits}
use low_latency_trading_gate.Protocol.MessageHeader.{MessageHeader}
use low_latency_trading_gate.Protocol.Accepted.{Accepted}
use low_latency_trading_gate.Codec.Header.{
  decode_header, check_magic_version, validate_response_header,
}
use low_latency_trading_gate.Codec.Header.Bytes.{HeaderFits}
use low_latency_trading_gate.Codec.Frames.{
  typed, typed-Fits, framed, framed-eq-append, length-framed, framed-IsBytes, decode_header-framed,
}
use low_latency_trading_gate.Codec.Responses.{encode_accepted, decode_accepted}
use low_latency_trading_gate.Codec.Responses.Bytes.{accepted_bytes, encode_accepted_lem}
use low_latency_trading_gate.Codec.Responses.Decode.{accepted_of, decode_accepted_lem}

accepted-Fits : MessageTypeFits MessageType.accepted
unfolding message_type_code message_type_of
accepted-Fits = record { small = omega arith; canonical = refl }

pub record AcceptedFits (response : Accepted) : Type 0 where
  pub client_order_id : response.client_order_id < 2 ^ 64
  pub order_handle : response.order_handle < 2 ^ 64
  pub reserved1 : response.reserved1 < 2 ^ 64
  pub reserved2 : response.reserved2 < 2 ^ 64

decode_accepted-framed :
    (header : MessageHeader) (response : Accepted) (out : List ℕ) (prior : Accepted)
    → AcceptedFits response
    → IsBytes out
    → frame_size ≤ length out
    → decode_accepted (framed header (accepted_bytes response) out) prior
      ≡ some (DecodeStatus.ok, response)
decode_accepted-framed header response out prior fits bytes room =
    let frame = framed header (accepted_bytes response) out in
    decode_accepted_lem frame prior
      (framed-IsBytes header (accepted_bytes response) out (omega arith) bytes)
      (omega (arith, length-framed header (accepted_bytes response) out))
    ∙ ap (λ o. some (DecodeStatus.ok, o))
        (ap (λ xs. accepted_of xs prior)
            (framed-eq-append header (accepted_bytes response) out (omega arith))
          ∙ rw (
            of_bytes-to_bytes8 response.client_order_id fits.client_order_id,
            of_bytes-to_bytes8 response.order_handle fits.order_handle,
            of_bytes-to_bytes8 response.reserved1 fits.reserved1,
            of_bytes-to_bytes8 response.reserved2 fits.reserved2,
          ))

module _ (header : MessageHeader) (response : Accepted) (out : List ℕ) where
  -- For fields in the range of their C++ types, the right magic and version, and a span of 64
  -- bytes or more, `encode_accepted` makes no access out of range, returns 64 and leaves
  -- everything from byte 64 on as it was. `decode_header` accepts the frame and gets the header
  -- with the type and the payload length of the message, which `validate_response_header`
  -- accepts. `decode_accepted` gets the response back.
  pub accepted-round_trip :
      HeaderFits header
      → header.magic ≡ Protocol.magic
      → header.version ≡ Protocol.version
      → AcceptedFits response
      → IsBytes out
      → frame_size ≤ length out
      → (frame : List ℕ) × (encode_accepted header response out ≡ some (frame_size, frame))
        × (drop 64 frame ≡ drop 64 out)
        × ((prior : MessageHeader)
            → decode_header frame prior ≡ some (DecodeStatus.ok, typed header MessageType.accepted))
        × (validate_response_header (typed header MessageType.accepted) ≡ DecodeStatus.ok)
        × ((prior : Accepted) → decode_accepted frame prior ≡ some (DecodeStatus.ok, response))
  unfolding validate_response_header check_magic_version
  accepted-round_trip fits m ver sent bytes room =
      let h = typed header MessageType.accepted in
      (
        framed h (accepted_bytes response) out,
        encode_accepted_lem header response out room,
        ap (drop 64) (framed-eq-append h (accepted_bytes response) out (omega arith)),
        λ prior.
            decode_header-framed h prior (accepted_bytes response) out
              (typed-Fits fits accepted-Fits) (omega arith) bytes (omega arith)
            ∙ rw (m, ver),
        refl,
        λ prior. decode_accepted-framed h response out prior sent bytes room,
      )
