-- ===== src/Codec/Responses/RoundTrip/Modified.antt =====
-- codec.hpp: `decode_modified` undoes `encode_modified`.
use low_latency_trading_gate.Base.{
  ℕ, ◌^◌, ◌≤◌, ◌<◌, ◌≡◌, refl, ap, ◌∙◌, List, some, arith, length, drop,
}
use low_latency_trading_gate.Base.Bytes.{IsBytes, of_bytes-to_bytes8}
use low_latency_trading_gate.Protocol
use low_latency_trading_gate.Protocol.{
  MessageType, message_type_code, message_type_of, DecodeStatus, frame_size, header_size,
  reject_reason_code,
}
use low_latency_trading_gate.Protocol.Casts.{MessageTypeFits}
use low_latency_trading_gate.Protocol.MessageHeader.{MessageHeader}
use low_latency_trading_gate.Protocol.Modified.{Modified}
use low_latency_trading_gate.Codec.Header.{
  decode_header, check_magic_version, validate_response_header,
}
use low_latency_trading_gate.Codec.Header.Bytes.{HeaderFits}
use low_latency_trading_gate.Codec.Frames.{
  typed, typed-Fits, framed, framed-eq-append, length-framed, framed-IsBytes, decode_header-framed,
}
use low_latency_trading_gate.Codec.Responses.{encode_modified, decode_modified}
use low_latency_trading_gate.Codec.Responses.Bytes.{modified_bytes, encode_modified_lem}
use low_latency_trading_gate.Codec.Responses.Decode.{modified_of, decode_modified_lem}

modified-Fits : MessageTypeFits MessageType.modified
unfolding message_type_code message_type_of
modified-Fits = record { small = omega arith; canonical = refl }

pub record ModifiedFits (response : Modified) : Type 0 where
  pub client_order_id : response.client_order_id < 2 ^ 64
  pub order_handle : response.order_handle < 2 ^ 64
  pub reserved1 : response.reserved1 < 2 ^ 64
  pub reserved2 : response.reserved2 < 2 ^ 64

decode_modified-framed :
    (header : MessageHeader) (response : Modified) (out : List ℕ) (prior : Modified)
    → ModifiedFits response
    → IsBytes out
    → frame_size ≤ length out
    → decode_modified (framed header (modified_bytes response) out) prior
      ≡ some (DecodeStatus.ok, response)
decode_modified-framed header response out prior fits bytes room =
    let frame = framed header (modified_bytes response) out in
    decode_modified_lem frame prior
      (framed-IsBytes header (modified_bytes response) out (omega arith) bytes)
      (omega (arith, length-framed header (modified_bytes response) out))
    ∙ ap (λ o. some (DecodeStatus.ok, o))
        (ap (λ xs. modified_of xs prior)
            (framed-eq-append header (modified_bytes response) out (omega arith))
          ∙ rw (
            of_bytes-to_bytes8 response.client_order_id fits.client_order_id,
            of_bytes-to_bytes8 response.order_handle fits.order_handle,
            of_bytes-to_bytes8 response.reserved1 fits.reserved1,
            of_bytes-to_bytes8 response.reserved2 fits.reserved2,
          ))

module _ (header : MessageHeader) (response : Modified) (out : List ℕ) where
  -- For fields in the range of their C++ types, the right magic and version, and a span of 64
  -- bytes or more, `encode_modified` makes no access out of range, returns 64 and leaves
  -- everything from byte 64 on as it was. `decode_header` accepts the frame and gets the header
  -- with the type and the payload length of the message, which `validate_response_header`
  -- accepts. `decode_modified` gets the response back.
  pub modified-round_trip :
      HeaderFits header
      → header.magic ≡ Protocol.magic
      → header.version ≡ Protocol.version
      → ModifiedFits response
      → IsBytes out
      → frame_size ≤ length out
      → (frame : List ℕ) × (encode_modified header response out ≡ some (frame_size, frame))
        × (drop 64 frame ≡ drop 64 out)
        × ((prior : MessageHeader)
            → decode_header frame prior ≡ some (DecodeStatus.ok, typed header MessageType.modified))
        × (validate_response_header (typed header MessageType.modified) ≡ DecodeStatus.ok)
        × ((prior : Modified) → decode_modified frame prior ≡ some (DecodeStatus.ok, response))
  unfolding validate_response_header check_magic_version
  modified-round_trip fits m ver sent bytes room =
      let h = typed header MessageType.modified in
      (
        framed h (modified_bytes response) out,
        encode_modified_lem header response out room,
        ap (drop 64) (framed-eq-append h (modified_bytes response) out (omega arith)),
        λ prior.
            decode_header-framed h prior (modified_bytes response) out
              (typed-Fits fits modified-Fits) (omega arith) bytes (omega arith)
            ∙ rw (m, ver),
        refl,
        λ prior. decode_modified-framed h response out prior sent bytes room,
      )
