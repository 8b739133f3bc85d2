-- ===== src/Codec/Responses.antt =====
-- codec.hpp, the five responses. `load_accepted` and its like are the decoders behind their size test.
pub mod Bytes
pub mod Decode
pub mod RoundTrip
use low_latency_trading_gate.Base.{ℕ, ◌+◌, List, Option, some, ltb, if◌then◌else◌, length, ◌>>=◌}
use low_latency_trading_gate.Protocol.{
  MessageType, DecodeStatus, frame_size, header_size, payload_size, reject_reason_code,
  reject_reason_of,
}
use low_latency_trading_gate.Protocol.MessageHeader.{MessageHeader}
use low_latency_trading_gate.Protocol.Accepted
use low_latency_trading_gate.Protocol.Accepted.{Accepted}
use low_latency_trading_gate.Protocol.Rejected
use low_latency_trading_gate.Protocol.Rejected.{Rejected}
use low_latency_trading_gate.Protocol.Cancelled
use low_latency_trading_gate.Protocol.Cancelled.{Cancelled}
use low_latency_trading_gate.Protocol.Modified
use low_latency_trading_gate.Protocol.Modified.{Modified}
use low_latency_trading_gate.Protocol.Trade
use low_latency_trading_gate.Protocol.Trade.{Trade}
use low_latency_trading_gate.Codec.Words.{store_u64_le, load_u64_le}
use low_latency_trading_gate.Codec.Header.{encode_header}

unfoldable pub encode_accepted : MessageHeader → Accepted → List ℕ → Option (ℕ × List ℕ)
encode_accepted header response out = do
  let h : MessageHeader = record header {
    message_type = MessageType.accepted;
    payload_length = payload_size;
  }
  out ← encode_header h out
  let base = header_size
  out ← store_u64_le out (base + Accepted.off_client_order_id) response.client_order_id
  out ← store_u64_le out (base + Accepted.off_order_handle) response.order_handle
  out ← store_u64_le out (base + Accepted.off_reserved1) response.reserved1
  out ← store_u64_le out (base + Accepted.off_reserved2) response.reserved2
  some (frame_size, out)

load_accepted : List ℕ → Accepted → Option (DecodeStatus × Accepted)
load_accepted in_ out = do
  let base = header_size
  client_order_id ← load_u64_le in_ (base + Accepted.off_client_order_id)
  order_handle ← load_u64_le in_ (base + Accepted.off_order_handle)
  reserved1 ← load_u64_le in_ (base + Accepted.off_reserved1)
  reserved2 ← load_u64_le in_ (base + Accepted.off_reserved2)
  some (
    DecodeStatus.ok,
    record out {
      client_order_id = client_order_id;
      order_handle = order_handle;
      reserved1 = reserved1;
      reserved2 = reserved2;
    },
  )

unfoldable pub decode_accepted : List ℕ → Accepted → Option (DecodeStatus × Accepted)
unfolding load_accepted
decode_accepted in_ out =
    if ltb (length in_) (frame_size)
    then some (DecodeStatus.need_more_data, out)
    else load_accepted in_ out

unfoldable pub encode_rejected : MessageHeader → Rejected → List ℕ → Option (ℕ × List ℕ)
encode_rejected header response out = do
  let h : MessageHeader = record header {
    message_type = MessageType.rejected;
    payload_length = payload_size;
  }
  out ← encode_header h out
  let base = header_size
  out ← store_u64_le out (base + Rejected.off_client_order_id) response.client_order_id
  out ← store_u64_le out (base + Rejected.off_reason) (reject_reason_code response.reason)
  out ← store_u64_le out (base + Rejected.off_reserved1) response.reserved1
  out ← store_u64_le out (base + Rejected.off_reserved2) response.reserved2
  some (frame_size, out)

load_rejected : List ℕ → Rejected → Option (DecodeStatus × Rejected)
load_rejected in_ out = do
  let base = header_size
  client_order_id ← load_u64_le in_ (base + Rejected.off_client_order_id)
  reason ← load_u64_le in_ (base + Rejected.off_reason)
  reserved1 ← load_u64_le in_ (base + Rejected.off_reserved1)
  reserved2 ← load_u64_le in_ (base + Rejected.off_reserved2)
  some (
    DecodeStatus.ok,
    record out {
      client_order_id = client_order_id;
      reason = reject_reason_of reason;
      reserved1 = reserved1;
      reserved2 = reserved2;
    },
  )

unfoldable pub decode_rejected : List ℕ → Rejected → Option (DecodeStatus × Rejected)
unfolding load_rejected
decode_rejected in_ out =
    if ltb (length in_) (frame_size)
    then some (DecodeStatus.need_more_data, out)
    else load_rejected in_ out

unfoldable pub encode_cancelled : MessageHeader → Cancelled → List ℕ → Option (ℕ × List ℕ)
encode_cancelled header response out = do
  let h : MessageHeader = record header {
    message_type = MessageType.cancelled;
    payload_length = payload_size;
  }
  out ← encode_header h out
  let base = header_size
  out ← store_u64_le out (base + Cancelled.off_client_order_id) response.client_order_id
  out ← store_u64_le out (base + Cancelled.off_order_handle) response.order_handle
  out ← store_u64_le out (base + Cancelled.off_reserved1) response.reserved1
  out ← store_u64_le out (base + Cancelled.off_reserved2) response.reserved2
  some (frame_size, out)

load_cancelled : List ℕ → Cancelled → Option (DecodeStatus × Cancelled)
load_cancelled in_ out = do
  let base = header_size
  client_order_id ← load_u64_le in_ (base + Cancelled.off_client_order_id)
  order_handle ← load_u64_le in_ (base + Cancelled.off_order_handle)
  reserved1 ← load_u64_le in_ (base + Cancelled.off_reserved1)
  reserved2 ← load_u64_le in_ (base + Cancelled.off_reserved2)
  some (
    DecodeStatus.ok,
    record out {
      client_order_id = client_order_id;
      order_handle = order_handle;
      reserved1 = reserved1;
      reserved2 = reserved2;
    },
  )

unfoldable pub decode_cancelled : List ℕ → Cancelled → Option (DecodeStatus × Cancelled)
unfolding load_cancelled
decode_cancelled in_ out =
    if ltb (length in_) (frame_size)
    then some (DecodeStatus.need_more_data, out)
    else load_cancelled in_ out

unfoldable pub encode_modified : MessageHeader → Modified → List ℕ → Option (ℕ × List ℕ)
encode_modified header response out = do
  let h : MessageHeader = record header {
    message_type = MessageType.modified;
    payload_length = payload_size;
  }
  out ← encode_header h out
  let base = header_size
  out ← store_u64_le out (base + Modified.off_client_order_id) response.client_order_id
  out ← store_u64_le out (base + Modified.off_order_handle) response.order_handle
  out ← store_u64_le out (base + Modified.off_reserved1) response.reserved1
  out ← store_u64_le out (base + Modified.off_reserved2) response.reserved2
  some (frame_size, out)

load_modified : List ℕ → Modified → Option (DecodeStatus × Modified)
load_modified in_ out = do
  let base = header_size
  client_order_id ← load_u64_le in_ (base + Modified.off_client_order_id)
  order_handle ← load_u64_le in_ (base + Modified.off_order_handle)
  reserved1 ← load_u64_le in_ (base + Modified.off_reserved1)
  reserved2 ← load_u64_le in_ (base + Modified.off_reserved2)
  some (
    DecodeStatus.ok,
    record out {
      client_order_id = client_order_id;
      order_handle = order_handle;
      reserved1 = reserved1;
      reserved2 = reserved2;
    },
  )

unfoldable pub decode_modified : List ℕ → Modified → Option (DecodeStatus × Modified)
unfolding load_modified
decode_modified in_ out =
    if ltb (length in_) (frame_size)
    then some (DecodeStatus.need_more_data, out)
    else load_modified in_ out

unfoldable pub encode_trade : MessageHeader → Trade → List ℕ → Option (ℕ × List ℕ)
encode_trade header response out = do
  let h : MessageHeader = record header {
    message_type = MessageType.trade;
    payload_length = payload_size;
  }
  out ← encode_header h out
  let base = header_size
  out ← store_u64_le out (base + Trade.off_client_order_id) response.client_order_id
  out ← store_u64_le out (base + Trade.off_order_handle) response.order_handle
  out ← store_u64_le out (base + Trade.off_price) response.price
  out ← store_u64_le out (base + Trade.off_quantity) response.quantity
  some (frame_size, out)

load_trade : List ℕ → Trade → Option (DecodeStatus × Trade)
load_trade in_ out = do
  let base = header_size
  client_order_id ← load_u64_le in_ (base + Trade.off_client_order_id)
  order_handle ← load_u64_le in_ (base + Trade.off_order_handle)
  price ← load_u64_le in_ (base + Trade.off_price)
  quantity ← load_u64_le in_ (base + Trade.off_quantity)
  some (
    DecodeStatus.ok,
    record out {
      client_order_id = client_order_id;
      order_handle = order_handle;
      price = price;
      quantity = quantity;
    },
  )

unfoldable pub decode_trade : List ℕ → Trade → Option (DecodeStatus × Trade)
unfolding load_trade
decode_trade in_ out =
    if ltb (length in_) (frame_size)
    then some (DecodeStatus.need_more_data, out)
    else load_trade in_ out
