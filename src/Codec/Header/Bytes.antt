-- ===== src/Codec/Header/Bytes.antt =====
-- The 32 bytes that `encode_header` leaves in the span.
use low_latency_trading_gate.Base.{
  ℕ, ◌^◌, ◌≤◌, ◌<◌, ◌≡◌, refl, List, [], ◌∷◌, ◌++◌, some, arith, length, splice,
}
use low_latency_trading_gate.Base.Bytes.{to_bytes}
use low_latency_trading_gate.Protocol.{message_type_code, header_size}
use low_latency_trading_gate.Protocol.Casts.{MessageTypeFits}
use low_latency_trading_gate.Protocol.MessageHeader.{MessageHeader}
use low_latency_trading_gate.Codec.Words.Stores.{
  store_u16_le-splice, store_u32_le-splice, store_u64_le-splice,
}
use low_latency_trading_gate.Codec.Header.{encode_header}

-- The header on the wire, field by field.
abbrev pub header_bytes : MessageHeader → List ℕ
header_bytes h =
    to_bytes 4 h.magic
    ++ to_bytes 2 h.version
    ++ to_bytes 2 (message_type_code h.message_type)
    ++ to_bytes 2 h.payload_length
    ++ to_bytes 2 h.flags
    ++ to_bytes 8 h.sequence_number
    ++ to_bytes 8 h.session_id
    ++ to_bytes 4 h.reserved

-- A header whose fields lie in the range of their C++ types.
pub record HeaderFits (h : MessageHeader) : Type 0 where
  pub magic : h.magic < 2 ^ 32
  pub version : h.version < 2 ^ 16
  pub message_type : MessageTypeFits h.message_type
  pub payload_length : h.payload_length < 2 ^ 16
  pub flags : h.flags < 2 ^ 16
  pub sequence_number : h.sequence_number < 2 ^ 64
  pub session_id : h.session_id < 2 ^ 64
  pub reserved : h.reserved < 2 ^ 32

splice-nil : (out : List ℕ) → splice 0 [] out ≡ out
splice-nil [] = refl
splice-nil (b ∷ out) = refl

encode_header-nil :
    (h : MessageHeader) (out : List ℕ)
    → header_size ≤ length out
    → encode_header h (splice 0 [] out) ≡ some (splice 0 (header_bytes h) out)
unfolding encode_header
encode_header-nil h out room =
    let b4 = to_bytes 4 h.magic in
    let b6 = b4 ++ to_bytes 2 h.version in
    let b8 = b6 ++ to_bytes 2 (message_type_code h.message_type) in
    let b10 = b8 ++ to_bytes 2 h.payload_length in
    let b12 = b10 ++ to_bytes 2 h.flags in
    let b20 = b12 ++ to_bytes 8 h.sequence_number in
    let b28 = b20 ++ to_bytes 8 h.session_id in
    rw (
      store_u32_le-splice [] out 0 h.magic refl (omega arith),
      store_u16_le-splice b4 out 4 h.version refl (omega arith),
      store_u16_le-splice b6 out 6 (message_type_code h.message_type) refl (omega arith),
      store_u16_le-splice b8 out 8 h.payload_length refl (omega arith),
      store_u16_le-splice b10 out 10 h.flags refl (omega arith),
      store_u64_le-splice b12 out 12 h.sequence_number refl (omega arith),
      store_u64_le-splice b20 out 20 h.session_id refl (omega arith),
      store_u32_le-splice b28 out 28 h.reserved refl (omega arith),
    )

-- `encode_header` writes the 32 bytes of the header to the front of a span that has room for them,
-- and leaves the rest of the span alone.
pub encode_header_lem :
    (h : MessageHeader) (out : List ℕ)
    → header_size ≤ length out
    → encode_header h out ≡ some (splice 0 (header_bytes h) out)
encode_header_lem h out room = rw splice-nil at (encode_header-nil h out room)
