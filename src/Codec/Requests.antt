-- ===== src/Codec/Requests.antt =====
-- codec.hpp, the three requests. `load_new_order` and its like are the decoders behind their size test.
pub mod Bytes
pub mod Decode
pub mod RoundTrip
use low_latency_trading_gate.Base.{ℕ, ◌+◌, List, Option, some, ltb, if◌then◌else◌, length, ◌>>=◌}
use low_latency_trading_gate.Protocol.{
  MessageType, DecodeStatus, header_size, payload_size, side_code, side_of,
}
use low_latency_trading_gate.Protocol.MessageHeader.{MessageHeader}
use low_latency_trading_gate.Protocol.NewOrder
use low_latency_trading_gate.Protocol.NewOrder.{NewOrder}
use low_latency_trading_gate.Protocol.CancelOrder
use low_latency_trading_gate.Protocol.CancelOrder.{CancelOrder}
use low_latency_trading_gate.Protocol.ModifyOrder
use low_latency_trading_gate.Protocol.ModifyOrder.{ModifyOrder}
use low_latency_trading_gate.Codec.Words.{store_u64_le, load_u64_le}
use low_latency_trading_gate.Codec.Header.{encode_header}

unfoldable pub encode_new_order : MessageHeader → NewOrder → List ℕ → Option (ℕ × List ℕ)
encode_new_order header order out = do
  let total_size = header_size + payload_size
  let h : MessageHeader = record header {
    message_type = MessageType.new_order;
    payload_length = payload_size;
  }
  out ← encode_header h out
  let base = header_size
  out ← store_u64_le out (base + NewOrder.off_id) order.client_order_id
  out ← store_u64_le out (base + NewOrder.off_side) (side_code order.side)
  out ← store_u64_le out (base + NewOrder.off_price) order.price
  out ← store_u64_le out (base + NewOrder.off_quantity) order.quantity
  some (total_size, out)

load_new_order : List ℕ → NewOrder → Option (DecodeStatus × NewOrder)
load_new_order in_ out = do
  let base = header_size
  client_order_id ← load_u64_le in_ (base + NewOrder.off_id)
  side ← load_u64_le in_ (base + NewOrder.off_side)
  price ← load_u64_le in_ (base + NewOrder.off_price)
  quantity ← load_u64_le in_ (base + NewOrder.off_quantity)
  some (
    DecodeStatus.ok,
    record out {
      client_order_id = client_order_id;
      side = side_of side;
      price = price;
      quantity = quantity;
    },
  )

unfoldable pub decode_new_order : List ℕ → NewOrder → Option (DecodeStatus × NewOrder)
unfolding load_new_order
decode_new_order in_ out =
    if ltb (length in_) (header_size + payload_size)
    then some (DecodeStatus.need_more_data, out)
    else load_new_order in_ out

unfoldable pub encode_cancel_order : MessageHeader → CancelOrder → List ℕ → Option (ℕ × List ℕ)
encode_cancel_order header order out = do
  let total_size = header_size + payload_size
  let h : MessageHeader = record header {
    message_type = MessageType.cancel_order;
    payload_length = payload_size;
  }
  out ← encode_header h out
  let base = header_size
  out ← store_u64_le out (base + CancelOrder.off_id) order.client_order_id
  some (total_size, out)

load_cancel_order : List ℕ → CancelOrder → Option (DecodeStatus × CancelOrder)
load_cancel_order in_ out = do
  let base = header_size
  client_order_id ← load_u64_le in_ (base + CancelOrder.off_id)
  some (DecodeStatus.ok, record out { client_order_id = client_order_id })

unfoldable pub decode_cancel_order : List ℕ → CancelOrder → Option (DecodeStatus × CancelOrder)
unfolding load_cancel_order
decode_cancel_order in_ out =
    if ltb (length in_) (header_size + payload_size)
    then some (DecodeStatus.need_more_data, out)
    else load_cancel_order in_ out

unfoldable pub encode_modify_order : MessageHeader → ModifyOrder → List ℕ → Option (ℕ × List ℕ)
encode_modify_order header order out = do
  let total_size = header_size + payload_size
  let h : MessageHeader = record header {
    message_type = MessageType.modify_order;
    payload_length = payload_size;
  }
  out ← encode_header h out
  let base = header_size
  out ← store_u64_le out (base + ModifyOrder.off_id) order.client_order_id
  out ← store_u64_le out (base + ModifyOrder.off_new_price) order.new_price
  out ← store_u64_le out (base + ModifyOrder.off_new_quantity) order.new_quantity
  some (total_size, out)

load_modify_order : List ℕ → ModifyOrder → Option (DecodeStatus × ModifyOrder)
load_modify_order in_ out = do
  let base = header_size
  client_order_id ← load_u64_le in_ (base + ModifyOrder.off_id)
  new_price ← load_u64_le in_ (base + ModifyOrder.off_new_price)
  new_quantity ← load_u64_le in_ (base + ModifyOrder.off_new_quantity)
  some (
    DecodeStatus.ok,
    record out {
      client_order_id = client_order_id;
      new_price = new_price;
      new_quantity = new_quantity;
    },
  )

unfoldable pub decode_modify_order : List ℕ → ModifyOrder → Option (DecodeStatus × ModifyOrder)
unfolding load_modify_order
decode_modify_order in_ out =
    if ltb (length in_) (header_size + payload_size)
    then some (DecodeStatus.need_more_data, out)
    else load_modify_order in_ out
