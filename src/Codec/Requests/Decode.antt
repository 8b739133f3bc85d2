-- ===== src/Codec/Requests/Decode.antt =====
-- What the decoders of codec.hpp read: requests.
use low_latency_trading_gate.Base.{ℕ, ◌≤◌, ◌<◌, ◌≡◌, List, some, arith, length, ltb-false}
use low_latency_trading_gate.Base.Bytes.{IsBytes}
use low_latency_trading_gate.Protocol.{DecodeStatus, frame_size, side_of}
use low_latency_trading_gate.Protocol.NewOrder.{NewOrder}
use low_latency_trading_gate.Protocol.CancelOrder.{CancelOrder}
use low_latency_trading_gate.Protocol.ModifyOrder.{ModifyOrder}
use low_latency_trading_gate.Codec.Words.Loads.{load_u64_le-eq-of_bytes}
use low_latency_trading_gate.Codec.Frames.{word_at}
use low_latency_trading_gate.Codec.Requests.{
  decode_new_order, decode_cancel_order, decode_modify_order,
}

-- What the decoder makes of a frame and of the value before the call.
abbrev pub new_order_of : List ℕ → NewOrder → NewOrder
new_order_of xs out = record out {
  client_order_id = word_at 32 xs;
  side = side_of (word_at 40 xs);
  price = word_at 48 xs;
  quantity = word_at 56 xs;
}

pub decode_new_order-short :
    (in_ : List ℕ) (out : NewOrder)
    → length in_ < frame_size
    → decode_new_order in_ out ≡ some (DecodeStatus.need_more_data, out)
unfolding decode_new_order
decode_new_order-short in_ out h = ground arith

pub decode_new_order_lem :
    (in_ : List ℕ) (out : NewOrder)
    → IsBytes in_
    → frame_size ≤ length in_
    → decode_new_order in_ out ≡ some (DecodeStatus.ok, new_order_of in_ out)
unfolding decode_new_order
decode_new_order_lem in_ out bytes room = rw (
  ltb-false (length in_) frame_size room,
  load_u64_le-eq-of_bytes in_ 32 bytes (omega arith),
  load_u64_le-eq-of_bytes in_ 40 bytes (omega arith),
  load_u64_le-eq-of_bytes in_ 48 bytes (omega arith),
  load_u64_le-eq-of_bytes in_ 56 bytes (omega arith),
)

-- What the decoder makes of a frame and of the value before the call.
abbrev pub cancel_order_of : List ℕ → CancelOrder → CancelOrder
cancel_order_of xs out = record out { client_order_id = word_at 32 xs }

pub decode_cancel_order-short :
    (in_ : List ℕ) (out : CancelOrder)
    → length in_ < frame_size
    → decode_cancel_order in_ out ≡ some (DecodeStatus.need_more_data, out)
unfolding decode_cancel_order
decode_cancel_order-short in_ out h = ground arith

pub decode_cancel_order_lem :
    (in_ : List ℕ) (out : CancelOrder)
    → IsBytes in_
    → frame_size ≤ length in_
    → decode_cancel_order in_ out ≡ some (DecodeStatus.ok, cancel_order_of in_ out)
unfolding decode_cancel_order
decode_cancel_order_lem in_ out bytes room =
    rw (ltb-false (length in_) frame_size room, load_u64_le-eq-of_bytes in_ 32 bytes (omega arith))

-- What the decoder makes of a frame and of the value before the call.
abbrev pub modify_order_of : List ℕ → ModifyOrder → ModifyOrder
modify_order_of xs out = record out {
  client_order_id = word_at 32 xs;
  new_price = word_at 40 xs;
  new_quantity = word_at 48 xs;
}

pub decode_modify_order-short :
    (in_ : List ℕ) (out : ModifyOrder)
    → length in_ < frame_size
    → decode_modify_order in_ out ≡ some (DecodeStatus.need_more_data, out)
unfolding decode_modify_order
decode_modify_order-short in_ out h = ground arith

pub decode_modify_order_lem :
    (in_ : List ℕ) (out : ModifyOrder)
    → IsBytes in_
    → frame_size ≤ length in_
    → decode_modify_order in_ out ≡ some (DecodeStatus.ok, modify_order_of in_ out)
unfolding decode_modify_order
decode_modify_order_lem in_ out bytes room = rw (
  ltb-false (length in_) frame_size room,
  load_u64_le-eq-of_bytes in_ 32 bytes (omega arith),
  load_u64_le-eq-of_bytes in_ 40 bytes (omega arith),
  load_u64_le-eq-of_bytes in_ 48 bytes (omega arith),
)
