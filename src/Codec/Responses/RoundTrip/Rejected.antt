-- ===== src/Codec/Responses/RoundTrip/Rejected.antt =====
-- codec.hpp: `decode_rejected` undoes `encode_rejected`.
use low_latency_trading_gate.Base.{
  ℕ, ◌^◌, ◌≤◌, ◌<◌, ◌≡◌, refl, ap, ◌∙◌, List, some, arith, length, drop,
}
use low_latency_trading_gate.Base.Bytes.{IsBytes, of_bytes-to_bytes8}
use low_latency_trading_gate.Protocol
use low_latency_trading_gate.Protocol.{
  MessageType, message_type_code, message_type_of, DecodeStatus, frame_size, header_size,
  reject_reason_code,
}
use low_latency_trading_gate.Protocol.Casts.{MessageTypeFits, RejectReasonFits}
use low_latency_trading_gate.Protocol.MessageHeader.{MessageHeader}
use low_latency_trading_gate.Protocol.Rejected.{Rejected}
use low_latency_trading_gate.Codec.Header.{
  decode_header, check_magic_version, validate_response_header,
}
use low_latency_trading_gate.Codec.Header.Bytes.{HeaderFits}
use low_latency_trading_gate.Codec.Frames.{
  typed, typed-Fits, framed, framed-eq-append, length-framed, framed-IsBytes, decode_header-framed,
}
use low_latency_trading_gate.Codec.Responses.{encode_rejected, decode_rejected}
use low_latency_trading_gate.Codec.Responses.Bytes.{rejected_bytes, encode_rejected_lem}
use low_latency_trading_gate.Codec.Responses.Decode.{rejected_of, decode_rejected_lem}

rejected-Fits : MessageTypeFits MessageType.rejected
unfolding message_type_code message_type_of
rejected-Fits = record { small = omega arith; canonical = refl }

pub record RejectedFits (response : Rejected) : Type 0 where
  pub client_order_id : response.client_order_id < 2 ^ 64
  pub reason : RejectReasonFits response.reason
  pub reserved1 : response.reserved1 < 2 ^ 64
  pub reserved2 : response.reserved2 < 2 ^ 64

decode_rejected-framed :
    (header : MessageHeader) (response : Rejected) (out : List ℕ) (prior : Rejected)
    → RejectedFits response
    → IsBytes out
    → frame_size ≤ length out
    → decode_rejected (framed header (rejected_bytes response) out) prior
      ≡ some (DecodeStatus.ok, response)
decode_rejected-framed header response out prior fits bytes room =
    let frame = framed header (rejected_bytes response) out in
    decode_rejected_lem frame prior
      (framed-IsBytes header (rejected_bytes response) out (omega arith) bytes)
      (omega (arith, length-framed header (rejected_bytes response) out))
    ∙ ap (λ o. some (DecodeStatus.ok, o))
        (ap (λ xs. rejected_of xs prior)
            (framed-eq-append header (rejected_bytes response) out (omega arith))
          ∙ rw (
            of_bytes-to_bytes8 response.client_order_id fits.client_order_id,
            of_bytes-to_bytes8 (reject_reason_code response.reason) fits.reason.small,
            fits.reason.canonical,
            of_bytes-to_bytes8 response.reserved1 fits.reserved1,
            of_bytes-to_bytes8 response.reserved2 fits.reserved2,
          ))

module _ (header : MessageHeader) (response : Rejected) (out : List ℕ) where
  -- For fields in the range of their C++ types, the right magic and version, and a span of 64
  -- bytes or more, `encode_rejected` makes no access out of range, returns 64 and leaves
  -- everything from byte 64 on as it was. `decode_header` accepts the frame and gets the header
  -- with the type and the payload length of the message, which `validate_response_header`
  -- accepts. `decode_rejected` gets the response back.
  pub rejected-round_trip :
      HeaderFits header
      → header.magic ≡ Protocol.magic
      → header.version ≡ Protocol.version
      → RejectedFits response
      → IsBytes out
      → frame_size ≤ length out
      → (frame : List ℕ) × (encode_rejected header response out ≡ some (frame_size, frame))
        × (drop 64 frame ≡ drop 64 out)
        × ((prior : MessageHeader)
            → decode_header frame prior ≡ some (DecodeStatus.ok, typed header MessageType.rejected))
        × (validate_response_header (typed header MessageType.rejected) ≡ DecodeStatus.ok)
        × ((prior : Rejected) → decode_rejected frame prior ≡ some (DecodeStatus.ok, response))
  unfolding validate_response_header check_magic_version
  rejected-round_trip fits m ver sent bytes room =
      let h = typed header MessageType.rejected in
      (
        framed h (rejected_bytes response) out,
        encode_rejected_lem header response out room,
        ap (drop 64) (framed-eq-append h (rejected_bytes response) out (omega arith)),
        λ prior.
            decode_header-framed h prior (rejected_bytes response) out
              (typed-Fits fits rejected-Fits) (omega arith) bytes (omega arith)
            ∙ rw (m, ver),
        refl,
        λ prior. decode_rejected-framed h response out prior sent bytes room,
      )
