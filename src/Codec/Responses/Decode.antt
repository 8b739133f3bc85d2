-- ===== src/Codec/Responses/Decode.antt =====
-- What the decoders of codec.hpp read: responses.
use low_latency_trading_gate.Base.{ℕ, ◌≤◌, ◌<◌, ◌≡◌, List, some, arith, length, ltb-false}
use low_latency_trading_gate.Base.Bytes.{IsBytes}
use low_latency_trading_gate.Protocol.{DecodeStatus, frame_size, reject_reason_of}
use low_latency_trading_gate.Protocol.Accepted.{Accepted}
use low_latency_trading_gate.Protocol.Rejected.{Rejected}
use low_latency_trading_gate.Protocol.Cancelled.{Cancelled}
use low_latency_trading_gate.Protocol.Modified.{Modified}
use low_latency_trading_gate.Protocol.Trade.{Trade}
use low_latency_trading_gate.Codec.Words.Loads.{load_u64_le-eq-of_bytes}
use low_latency_trading_gate.Codec.Frames.{word_at}
use low_latency_trading_gate.Codec.Responses.{
  decode_accepted, decode_rejected, decode_cancelled, decode_modified, decode_trade,
}

-- What the decoder makes of a frame and of the value before the call.
abbrev pub accepted_of : List ℕ → Accepted → Accepted
accepted_of xs out = record out {
  client_order_id = word_at 32 xs;
  order_handle = word_at 40 xs;
  reserved1 = word_at 48 xs;
  reserved2 = word_at 56 xs;
}

pub decode_accepted-short :
    (in_ : List ℕ) (out : Accepted)
    → length in_ < frame_size
    → decode_accepted in_ out ≡ some (DecodeStatus.need_more_data, out)
unfolding decode_accepted
decode_accepted-short in_ out h = ground arith

pub decode_accepted_lem :
    (in_ : List ℕ) (out : Accepted)
    → IsBytes in_
    → frame_size ≤ length in_
    → decode_accepted in_ out ≡ some (DecodeStatus.ok, accepted_of in_ out)
unfolding decode_accepted
decode_accepted_lem in_ out bytes room = rw (
  ltb-false (length in_) frame_size room,
  load_u64_le-eq-of_bytes in_ 32 bytes (omega arith),
  load_u64_le-eq-of_bytes in_ 40 bytes (omega arith),
  load_u64_le-eq-of_bytes in_ 48 bytes (omega arith),
  load_u64_le-eq-of_bytes in_ 56 bytes (omega arith),
)

-- What the decoder makes of a frame and of the value before the call.
abbrev pub rejected_of : List ℕ → Rejected → Rejected
rejected_of xs out = record out {
  client_order_id = word_at 32 xs;
  reason = reject_reason_of (word_at 40 xs);
  reserved1 = word_at 48 xs;
  reserved2 = word_at 56 xs;
}

pub decode_rejected-short :
    (in_ : List ℕ) (out : Rejected)
    → length in_ < frame_size
    → decode_rejected in_ out ≡ some (DecodeStatus.need_more_data, out)
unfolding decode_rejected
decode_rejected-short in_ out h = ground arith

pub decode_rejected_lem :
    (in_ : List ℕ) (out : Rejected)
    → IsBytes in_
    → frame_size ≤ length in_
    → decode_rejected in_ out ≡ some (DecodeStatus.ok, rejected_of in_ out)
unfolding decode_rejected
decode_rejected_lem in_ out bytes room = rw (
  ltb-false (length in_) frame_size room,
  load_u64_le-eq-of_bytes in_ 32 bytes (omega arith),
  load_u64_le-eq-of_bytes in_ 40 bytes (omega arith),
  load_u64_le-eq-of_bytes in_ 48 bytes (omega arith),
  load_u64_le-eq-of_bytes in_ 56 bytes (omega arith),
)

-- What the decoder makes of a frame and of the value before the call.
abbrev pub cancelled_of : List ℕ → Cancelled → Cancelled
cancelled_of xs out = record out {
  client_order_id = word_at 32 xs;
  order_handle = word_at 40 xs;
  reserved1 = word_at 48 xs;
  reserved2 = word_at 56 xs;
}

pub decode_cancelled-short :
    (in_ : List ℕ) (out : Cancelled)
    → length in_ < frame_size
    → decode_cancelled in_ out ≡ some (DecodeStatus.need_more_data, out)
unfolding decode_cancelled
decode_cancelled-short in_ out h = ground arith

pub decode_cancelled_lem :
    (in_ : List ℕ) (out : Cancelled)
    → IsBytes in_
    → frame_size ≤ length in_
    → decode_cancelled in_ out ≡ some (DecodeStatus.ok, cancelled_of in_ out)
unfolding decode_cancelled
decode_cancelled_lem in_ out bytes room = rw (
  ltb-false (length in_) frame_size room,
  load_u64_le-eq-of_bytes in_ 32 bytes (omega arith),
  load_u64_le-eq-of_bytes in_ 40 bytes (omega arith),
  load_u64_le-eq-of_bytes in_ 48 bytes (omega arith),
  load_u64_le-eq-of_bytes in_ 56 bytes (omega arith),
)

-- What the decoder makes of a frame and of the value before the call.
abbrev pub modified_of : List ℕ → Modified → Modified
modified_of xs out = record out {
  client_order_id = word_at 32 xs;
  order_handle = word_at 40 xs;
  reserved1 = word_at 48 xs;
  reserved2 = word_at 56 xs;
}

pub decode_modified-short :
    (in_ : List ℕ) (out : Modified)
    → length in_ < frame_size
    → decode_modified in_ out ≡ some (DecodeStatus.need_more_data, out)
unfolding decode_modified
decode_modified-short in_ out h = ground arith

pub decode_modified_lem :
    (in_ : List ℕ) (out : Modified)
    → IsBytes in_
    → frame_size ≤ length in_
    → decode_modified in_ out ≡ some (DecodeStatus.ok, modified_of in_ out)
unfolding decode_modified
decode_modified_lem in_ out bytes room = rw (
  ltb-false (length in_) frame_size room,
  load_u64_le-eq-of_bytes in_ 32 bytes (omega arith),
  load_u64_le-eq-of_bytes in_ 40 bytes (omega arith),
  load_u64_le-eq-of_bytes in_ 48 bytes (omega arith),
  load_u64_le-eq-of_bytes in_ 56 bytes (omega arith),
)

-- What the decoder makes of a frame and of the value before the call.
abbrev pub trade_of : List ℕ → Trade → Trade
trade_of xs out = record out {
  client_order_id = word_at 32 xs;
  order_handle = word_at 40 xs;
  price = word_at 48 xs;
  quantity = word_at 56 xs;
}

pub decode_trade-short :
    (in_ : List ℕ) (out : Trade)
    → length in_ < frame_size
    → decode_trade in_ out ≡ some (DecodeStatus.need_more_data, out)
unfolding decode_trade
decode_trade-short in_ out h = ground arith

pub decode_trade_lem :
    (in_ : List ℕ) (out : Trade)
    → IsBytes in_
    → frame_size ≤ length in_
    → decode_trade in_ out ≡ some (DecodeStatus.ok, trade_of in_ out)
unfolding decode_trade
decode_trade_lem in_ out bytes room = rw (
  ltb-false (length in_) frame_size room,
  load_u64_le-eq-of_bytes in_ 32 bytes (omega arith),
  load_u64_le-eq-of_bytes in_ 40 bytes (omega arith),
  load_u64_le-eq-of_bytes in_ 48 bytes (omega arith),
  load_u64_le-eq-of_bytes in_ 56 bytes (omega arith),
)
