-- ===== src/Codec/Header/Decode.antt =====
-- What `decode_header` reads, and that it undoes `encode_header`.
use low_latency_trading_gate.Base.{
  ℕ, ◌≤◌, ◌<◌, ◌≡◌, ◌↔◌, ◌≢◌, List, ◌++◌, some, arith, length, slice, ltb-false,
}
use low_latency_trading_gate.Base.Bytes.{
  IsBytes, of_bytes, of_bytes-to_bytes2, of_bytes-to_bytes4, of_bytes-to_bytes8,
}
use low_latency_trading_gate.Protocol
use low_latency_trading_gate.Protocol.{
  message_type_of, message_type_code, header_size, DecodeStatus,
}
use low_latency_trading_gate.Protocol.MessageHeader.{MessageHeader}
use low_latency_trading_gate.Codec.Words.Loads.{
  load_u16_le-eq-of_bytes, load_u32_le-eq-of_bytes, load_u64_le-eq-of_bytes,
}
use low_latency_trading_gate.Codec.Header.{decode_header, check_magic_version}
use low_latency_trading_gate.Codec.Header.Bytes.{header_bytes, HeaderFits}

-- The header that 32 bytes stand for.
abbrev pub header_of : List ℕ → MessageHeader
header_of xs = record {
  magic = of_bytes (slice 0 4 xs);
  version = of_bytes (slice 4 2 xs);
  message_type = message_type_of (of_bytes (slice 6 2 xs));
  payload_length = of_bytes (slice 8 2 xs);
  flags = of_bytes (slice 10 2 xs);
  sequence_number = of_bytes (slice 12 8 xs);
  session_id = of_bytes (slice 20 8 xs);
  reserved = of_bytes (slice 28 4 xs);
}

-- On fewer than 32 bytes `decode_header` reads nothing and leaves its result alone.
pub decode_header-short :
    (in_ : List ℕ) (out : MessageHeader)
    → length in_ < header_size
    → decode_header in_ out ≡ some (DecodeStatus.need_more_data, out)
unfolding decode_header
decode_header-short in_ out h = ground arith

-- On 32 bytes or more it makes no access out of range, and reads every field at its offset.
pub decode_header_lem :
    (in_ : List ℕ) (out : MessageHeader)
    → IsBytes in_
    → header_size ≤ length in_
    → decode_header in_ out ≡ some (check_magic_version (header_of in_), header_of in_)
unfolding decode_header
decode_header_lem in_ out bytes room = rw (
  ltb-false (length in_) header_size room,
  load_u32_le-eq-of_bytes in_ 0 bytes (omega arith),
  load_u16_le-eq-of_bytes in_ 4 bytes (omega arith),
  load_u16_le-eq-of_bytes in_ 6 bytes (omega arith),
  load_u16_le-eq-of_bytes in_ 8 bytes (omega arith),
  load_u16_le-eq-of_bytes in_ 10 bytes (omega arith),
  load_u64_le-eq-of_bytes in_ 12 bytes (omega arith),
  load_u64_le-eq-of_bytes in_ 20 bytes (omega arith),
  load_u32_le-eq-of_bytes in_ 28 bytes (omega arith),
)

-- The bytes of a header stand for it.
pub header_of-header_bytes :
    (h : MessageHeader) (rest : List ℕ) → HeaderFits h → header_of (header_bytes h ++ rest) ≡ h
header_of-header_bytes h rest fits = rw (
  of_bytes-to_bytes4 h.magic fits.magic,
  of_bytes-to_bytes2 h.version fits.version,
  of_bytes-to_bytes2 (message_type_code h.message_type) fits.message_type.small,
  fits.message_type.canonical,
  of_bytes-to_bytes2 h.payload_length fits.payload_length,
  of_bytes-to_bytes2 h.flags fits.flags,
  of_bytes-to_bytes8 h.sequence_number fits.sequence_number,
  of_bytes-to_bytes8 h.session_id fits.session_id,
  of_bytes-to_bytes4 h.reserved fits.reserved,
)

check_magic_version-cases :
    (h : MessageHeader)
    → let status = check_magic_version h in
      ((status ≡ DecodeStatus.ok) ↔ ((h.magic ≡ Protocol.magic) × (h.version ≡ Protocol.version)))
      × ((status ≡ DecodeStatus.bad_magic) ↔ (h.magic ≢ Protocol.magic))
      × ((status ≡ DecodeStatus.bad_version)
          ↔ ((h.magic ≡ Protocol.magic) × (h.version ≢ Protocol.version)))
unfolding check_magic_version
check_magic_version-cases h = ground arith

-- On 32 bytes or more, and whatever its result held before, `decode_header` gives the header that
-- the bytes stand for, and a status that says what the first 6 bytes are: Ok exactly when they are
-- the magic number and the version, little-endian; BadMagic exactly when the first 4 are not the
-- magic number; BadVersion exactly when they are, and the next 2 are not the version.
pub decode_header-status_iff :
    (in_ : List ℕ) (out : MessageHeader)
    → IsBytes in_
    → header_size ≤ length in_
    → let magic = of_bytes (slice 0 4 in_) in
      let version = of_bytes (slice 4 2 in_) in
      (status : DecodeStatus) × (decode_header in_ out ≡ some (status, header_of in_))
      × ((status ≡ DecodeStatus.ok) ↔ ((magic ≡ Protocol.magic) × (version ≡ Protocol.version)))
      × ((status ≡ DecodeStatus.bad_magic) ↔ (magic ≢ Protocol.magic))
      × ((status ≡ DecodeStatus.bad_version)
          ↔ ((magic ≡ Protocol.magic) × (version ≢ Protocol.version)))
decode_header-status_iff in_ out bytes room =
    let (ok, bad_magic, bad_version) = check_magic_version-cases (header_of in_) in
    (
      check_magic_version (header_of in_),
      decode_header_lem in_ out bytes room,
      ok,
      bad_magic,
      bad_version,
    )
