-- ===== src/Codec/Responses/Bytes.antt =====
-- The frames that the encoders of codec.hpp leave in the span: responses.
use low_latency_trading_gate.Base.{ℕ, ◌≤◌, ◌≡◌, refl, List, [], ◌++◌, some, arith, length}
use low_latency_trading_gate.Base.Bytes.{to_bytes}
use low_latency_trading_gate.Protocol.{MessageType, frame_size, reject_reason_code}
use low_latency_trading_gate.Protocol.MessageHeader.{MessageHeader}
use low_latency_trading_gate.Protocol.Accepted.{Accepted}
use low_latency_trading_gate.Protocol.Rejected.{Rejected}
use low_latency_trading_gate.Protocol.Cancelled.{Cancelled}
use low_latency_trading_gate.Protocol.Modified.{Modified}
use low_latency_trading_gate.Protocol.Trade.{Trade}
use low_latency_trading_gate.Codec.Frames.{typed, framed, encode_header-framed, store_u64_le-framed}
use low_latency_trading_gate.Codec.Responses.{
  encode_accepted, encode_rejected, encode_cancelled, encode_modified, encode_trade,
}

abbrev pub accepted_bytes : Accepted → List ℕ
accepted_bytes response =
    to_bytes 8 response.client_order_id
    ++ to_bytes 8 response.order_handle
    ++ to_bytes 8 response.reserved1
    ++ to_bytes 8 response.reserved2

abbrev pub rejected_bytes : Rejected → List ℕ
rejected_bytes response =
    to_bytes 8 response.client_order_id
    ++ to_bytes 8 (reject_reason_code response.reason)
    ++ to_bytes 8 response.reserved1
    ++ to_bytes 8 response.reserved2

abbrev pub cancelled_bytes : Cancelled → List ℕ
cancelled_bytes response =
    to_bytes 8 response.client_order_id
    ++ to_bytes 8 response.order_handle
    ++ to_bytes 8 response.reserved1
    ++ to_bytes 8 response.reserved2

abbrev pub modified_bytes : Modified → List ℕ
modified_bytes response =
    to_bytes 8 response.client_order_id
    ++ to_bytes 8 response.order_handle
    ++ to_bytes 8 response.reserved1
    ++ to_bytes 8 response.reserved2

abbrev pub trade_bytes : Trade → List ℕ
trade_bytes response =
    to_bytes 8 response.client_order_id
    ++ to_bytes 8 response.order_handle
    ++ to_bytes 8 response.price
    ++ to_bytes 8 response.quantity

pub encode_accepted_lem :
    (header : MessageHeader) (response : Accepted) (out : List ℕ)
    → frame_size ≤ length out
    → encode_accepted header response out
      ≡ some (frame_size, framed (typed header MessageType.accepted) (accepted_bytes response) out)
unfolding encode_accepted
encode_accepted_lem header response out room =
    let h = typed header MessageType.accepted in
    let w1 = to_bytes 8 response.client_order_id in
    let w2 = w1 ++ to_bytes 8 response.order_handle in
    let w3 = w2 ++ to_bytes 8 response.reserved1 in
    rw (
      encode_header-framed h out (omega arith),
      store_u64_le-framed h [] out 32 response.client_order_id refl (omega arith),
      store_u64_le-framed h w1 out 40 response.order_handle refl (omega arith),
      store_u64_le-framed h w2 out 48 response.reserved1 refl (omega arith),
      store_u64_le-framed h w3 out 56 response.reserved2 refl (omega arith),
    )

pub encode_rejected_lem :
    (header : MessageHeader) (response : Rejected) (out : List ℕ)
    → frame_size ≤ length out
    → encode_rejected header response out
      ≡ some (frame_size, framed (typed header MessageType.rejected) (rejected_bytes response) out)
unfolding encode_rejected
encode_rejected_lem header response out room =
    let h = typed header MessageType.rejected in
    let w1 = to_bytes 8 response.client_order_id in
    let w2 = w1 ++ to_bytes 8 (reject_reason_code response.reason) in
    let w3 = w2 ++ to_bytes 8 response.reserved1 in
    rw (
      encode_header-framed h out (omega arith),
      store_u64_le-framed h [] out 32 response.client_order_id refl (omega arith),
      store_u64_le-framed h w1 out 40 (reject_reason_code response.reason) refl (omega arith),
      store_u64_le-framed h w2 out 48 response.reserved1 refl (omega arith),
      store_u64_le-framed h w3 out 56 response.reserved2 refl (omega arith),
    )

pub encode_cancelled_lem :
    (header : MessageHeader) (response : Cancelled) (out : List ℕ)
    → frame_size ≤ length out
    → encode_cancelled header response out
      ≡ some
          (frame_size, framed (typed header MessageType.cancelled) (cancelled_bytes response) out)
unfolding encode_cancelled
encode_cancelled_lem header response out room =
    let h = typed header MessageType.cancelled in
    let w1 = to_bytes 8 response.client_order_id in
    let w2 = w1 ++ to_bytes 8 response.order_handle in
    let w3 = w2 ++ to_bytes 8 response.reserved1 in
    rw (
      encode_header-framed h out (omega arith),
      store_u64_le-framed h [] out 32 response.client_order_id refl (omega arith),
      store_u64_le-framed h w1 out 40 response.order_handle refl (omega arith),
      store_u64_le-framed h w2 out 48 response.reserved1 refl (omega arith),
      store_u64_le-framed h w3 out 56 response.reserved2 refl (omega arith),
    )

pub encode_modified_lem :
    (header : MessageHeader) (response : Modified) (out : List ℕ)
    → frame_size ≤ length out
    → encode_modified header response out
      ≡ some (frame_size, framed (typed header MessageType.modified) (modified_bytes response) out)
unfolding encode_modified
encode_modified_lem header response out room =
    let h = typed header MessageType.modified in
    let w1 = to_bytes 8 response.client_order_id in
    let w2 = w1 ++ to_bytes 8 response.order_handle in
    let w3 = w2 ++ to_bytes 8 response.reserved1 in
    rw (
      encode_header-framed h out (omega arith),
      store_u64_le-framed h [] out 32 response.client_order_id refl (omega arith),
      store_u64_le-framed h w1 out 40 response.order_handle refl (omega arith),
      store_u64_le-framed h w2 out 48 response.reserved1 refl (omega arith),
      store_u64_le-framed h w3 out 56 response.reserved2 refl (omega arith),
    )

pub encode_trade_lem :
    (header : MessageHeader) (response : Trade) (out : List ℕ)
    → frame_size ≤ length out
    → encode_trade header response out
      ≡ some (frame_size, framed (typed header MessageType.trade) (trade_bytes response) out)
unfolding encode_trade
encode_trade_lem header response out room =
    let h = typed header MessageType.trade in
    let w1 = to_bytes 8 response.client_order_id in
    let w2 = w1 ++ to_bytes 8 response.order_handle in
    let w3 = w2 ++ to_bytes 8 response.price in
    rw (
      encode_header-framed h out (omega arith),
      store_u64_le-framed h [] out 32 response.client_order_id refl (omega arith),
      store_u64_le-framed h w1 out 40 response.order_handle refl (omega arith),
      store_u64_le-framed h w2 out 48 response.price refl (omega arith),
      store_u64_le-framed h w3 out 56 response.quantity refl (omega arith),
    )
