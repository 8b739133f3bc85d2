-- ===== src/Codec/Requests/Bytes.antt =====
-- The frames that the encoders of codec.hpp leave in the span: requests.
use low_latency_trading_gate.Base.{ℕ, ◌≤◌, ◌≡◌, refl, List, [], ◌++◌, some, arith, length}
use low_latency_trading_gate.Base.Bytes.{to_bytes}
use low_latency_trading_gate.Protocol.{MessageType, frame_size, side_code}
use low_latency_trading_gate.Protocol.MessageHeader.{MessageHeader}
use low_latency_trading_gate.Protocol.NewOrder.{NewOrder}
use low_latency_trading_gate.Protocol.CancelOrder.{CancelOrder}
use low_latency_trading_gate.Protocol.ModifyOrder.{ModifyOrder}
use low_latency_trading_gate.Codec.Frames.{typed, framed, encode_header-framed, store_u64_le-framed}
use low_latency_trading_gate.Codec.Requests.{
  encode_new_order, encode_cancel_order, encode_modify_order,
}

abbrev pub new_order_bytes : NewOrder → List ℕ
new_order_bytes order =
    to_bytes 8 order.client_order_id
    ++ to_bytes 8 (side_code order.side)
    ++ to_bytes 8 order.price
    ++ to_bytes 8 order.quantity

abbrev pub cancel_order_bytes : CancelOrder → List ℕ
cancel_order_bytes order = to_bytes 8 order.client_order_id

abbrev pub modify_order_bytes : ModifyOrder → List ℕ
modify_order_bytes order =
    to_bytes 8 order.client_order_id ++ to_bytes 8 order.new_price ++ to_bytes 8 order.new_quantity

pub encode_new_order_lem :
    (header : MessageHeader) (order : NewOrder) (out : List ℕ)
    → frame_size ≤ length out
    → encode_new_order header order out
      ≡ some (frame_size, framed (typed header MessageType.new_order) (new_order_bytes order) out)
unfolding encode_new_order
encode_new_order_lem header order out room =
    let h = typed header MessageType.new_order in
    let w1 = to_bytes 8 order.client_order_id in
    let w2 = w1 ++ to_bytes 8 (side_code order.side) in
    let w3 = w2 ++ to_bytes 8 order.price in
    rw (
      encode_header-framed h out (omega arith),
      store_u64_le-framed h [] out 32 order.client_order_id refl (omega arith),
      store_u64_le-framed h w1 out 40 (side_code order.side) refl (omega arith),
      store_u64_le-framed h w2 out 48 order.price refl (omega arith),
      store_u64_le-framed h w3 out 56 order.quantity refl (omega arith),
    )

pub encode_cancel_order_lem :
    (header : MessageHeader) (order : CancelOrder) (out : List ℕ)
    → frame_size ≤ length out
    → encode_cancel_order header order out
      ≡ some (
        frame_size,
        framed (typed header MessageType.cancel_order) (cancel_order_bytes order) out,
      )
unfolding encode_cancel_order
encode_cancel_order_lem header order out room =
    let h = typed header MessageType.cancel_order in
    rw (
      encode_header-framed h out (omega arith),
      store_u64_le-framed h [] out 32 order.client_order_id refl (omega arith),
    )

pub encode_modify_order_lem :
    (header : MessageHeader) (order : ModifyOrder) (out : List ℕ)
    → frame_size ≤ length out
    → encode_modify_order header order out
      ≡ some (
        frame_size,
        framed (typed header MessageType.modify_order) (modify_order_bytes order) out,
      )
unfolding encode_modify_order
encode_modify_order_lem header order out room =
    let h = typed header MessageType.modify_order in
    let w1 = to_bytes 8 order.client_order_id in
    let w2 = w1 ++ to_bytes 8 order.new_price in
    rw (
      encode_header-framed h out (omega arith),
      store_u64_le-framed h [] out 32 order.client_order_id refl (omega arith),
      store_u64_le-framed h w1 out 40 order.new_price refl (omega arith),
      store_u64_le-framed h w2 out 48 order.new_quantity refl (omega arith),
    )
