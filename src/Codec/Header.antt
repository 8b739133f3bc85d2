-- ===== src/Codec/Header.antt =====
-- codec.hpp, `encode_header` to `validate_response_header`. A function with an `out` parameter
-- takes its value before the call and returns the one after it.
pub mod Bytes
pub mod Decode
pub mod Validate
use low_latency_trading_gate.Base.{
  ℕ, List, Option, some, Bool, true, false, not, ltb, ◌==◌, if◌then◌else◌, length, ◌>>=◌,
}
use low_latency_trading_gate.Protocol
use low_latency_trading_gate.Protocol.{
  MessageType, message_type_code, message_type_of, DecodeStatus, header_size, payload_size,
}
use low_latency_trading_gate.Protocol.MessageHeader
use low_latency_trading_gate.Protocol.MessageHeader.{MessageHeader}
use low_latency_trading_gate.Codec.Words.{
  store_u16_le, store_u32_le, store_u64_le, load_u16_le, load_u32_le, load_u64_le,
}

unfoldable pub encode_header : MessageHeader → List ℕ → Option (List ℕ)
encode_header h out = do
  out ← store_u32_le out MessageHeader.off_magic h.magic
  out ← store_u16_le out MessageHeader.off_version h.version
  out ← store_u16_le out MessageHeader.off_message_type (message_type_code h.message_type)
  out ← store_u16_le out MessageHeader.off_payload_length h.payload_length
  out ← store_u16_le out MessageHeader.off_flags h.flags
  out ← store_u64_le out MessageHeader.off_sequence_number h.sequence_number
  out ← store_u64_le out MessageHeader.off_session_id h.session_id
  store_u32_le out MessageHeader.off_reserved h.reserved

-- The two tests that end `decode_header`.
unfoldable pub check_magic_version : MessageHeader → DecodeStatus
check_magic_version out =
    if not (out.magic == Protocol.magic)
    then DecodeStatus.bad_magic
    else if not (out.version == Protocol.version)
    then DecodeStatus.bad_version
    else DecodeStatus.ok

load_header : List ℕ → MessageHeader → Option (DecodeStatus × MessageHeader)
unfolding check_magic_version
load_header in_ out = do
  magic ← load_u32_le in_ MessageHeader.off_magic
  version ← load_u16_le in_ MessageHeader.off_version
  message_type ← load_u16_le in_ MessageHeader.off_message_type
  payload_length ← load_u16_le in_ MessageHeader.off_payload_length
  flags ← load_u16_le in_ MessageHeader.off_flags
  sequence_number ← load_u64_le in_ MessageHeader.off_sequence_number
  session_id ← load_u64_le in_ MessageHeader.off_session_id
  reserved ← load_u32_le in_ MessageHeader.off_reserved
  let h : MessageHeader = record out {
    magic = magic;
    version = version;
    message_type = message_type_of message_type;
    payload_length = payload_length;
    flags = flags;
    sequence_number = sequence_number;
    session_id = session_id;
    reserved = reserved;
  }
  some (check_magic_version h, h)

unfoldable pub decode_header : List ℕ → MessageHeader → Option (DecodeStatus × MessageHeader)
unfolding load_header
decode_header in_ out =
    if ltb (length in_) header_size
    then some (DecodeStatus.need_more_data, out)
    else load_header in_ out

unfoldable pub is_known_request_type : MessageType → Bool
is_known_request_type MessageType.new_order = true
is_known_request_type MessageType.cancel_order = true
is_known_request_type MessageType.modify_order = true
is_known_request_type MessageType.heartbeat = true
is_known_request_type MessageType.logout = true
is_known_request_type _ = false

unfoldable pub is_known_response_type : MessageType → Bool
is_known_response_type MessageType.accepted = true
is_known_response_type MessageType.rejected = true
is_known_response_type MessageType.cancelled = true
is_known_response_type MessageType.modified = true
is_known_response_type MessageType.trade = true
is_known_response_type _ = false

unfoldable pub expected_payload_size : MessageType → ℕ
expected_payload_size MessageType.new_order = payload_size
expected_payload_size MessageType.cancel_order = payload_size
expected_payload_size MessageType.modify_order = payload_size
expected_payload_size MessageType.heartbeat = payload_size
expected_payload_size MessageType.logout = payload_size
expected_payload_size _ = 0

unfoldable pub validate_header : MessageHeader → DecodeStatus
unfolding is_known_request_type expected_payload_size
validate_header h =
    if not (is_known_request_type h.message_type)
    then DecodeStatus.unknown_message_type
    else let expected = expected_payload_size h.message_type in
      if not (h.payload_length == expected)
      then DecodeStatus.bad_payload_length
      else DecodeStatus.ok

unfoldable pub validate_request_header : MessageHeader → DecodeStatus
unfolding is_known_request_type
validate_request_header h =
    if not (is_known_request_type h.message_type)
    then DecodeStatus.unknown_message_type
    else if not (h.payload_length == payload_size)
    then DecodeStatus.bad_payload_length
    else DecodeStatus.ok

unfoldable pub validate_response_header : MessageHeader → DecodeStatus
unfolding is_known_response_type
validate_response_header h =
    if not (is_known_response_type h.message_type)
    then DecodeStatus.unknown_message_type
    else if not (h.payload_length == payload_size)
    then DecodeStatus.bad_payload_length
    else DecodeStatus.ok
