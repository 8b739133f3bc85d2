-- ===== src/Protocol/MessageHeader.antt =====
-- protocol.hpp, `struct MessageHeader`. `MessageType{}` is 0, which no enumerator has.
use low_latency_trading_gate.Base.{ℕ}
use low_latency_trading_gate.Protocol
use low_latency_trading_gate.Protocol.{MessageType}

pub record MessageHeader : Type 0 where
  pub magic : ℕ
  pub version : ℕ
  pub message_type : MessageType
  pub payload_length : ℕ
  pub flags : ℕ
  pub sequence_number : ℕ
  pub session_id : ℕ
  pub reserved : ℕ

abbrev pub default : MessageHeader
default = record {
  magic = Protocol.magic;
  version = Protocol.version;
  message_type = MessageType.unnamed 0;
  payload_length = 0;
  flags = 0;
  sequence_number = 0;
  session_id = 0;
  reserved = 0;
}

abbrev pub off_magic : ℕ
off_magic = 0

abbrev pub off_version : ℕ
off_version = 4

abbrev pub off_message_type : ℕ
off_message_type = 6

abbrev pub off_payload_length : ℕ
off_payload_length = 8

abbrev pub off_flags : ℕ
off_flags = 10

abbrev pub off_sequence_number : ℕ
off_sequence_number = 12

abbrev pub off_session_id : ℕ
off_session_id = 20

abbrev pub off_reserved : ℕ
off_reserved = 28
