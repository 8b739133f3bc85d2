-- ===== src/Codec/Tests.antt =====
-- Concrete inputs for the theorems about codec.hpp, and small runs of its functions.
use low_latency_trading_gate.Base.{
  ℕ, ◌≤◌, ◌↔◌, ◌≢◌, ◌≡◌, refl, List, [], ◌∷◌, some, arith, drop, replicate, slice,
}
use low_latency_trading_gate.Base.Bytes.{of_bytes}
use low_latency_trading_gate.Protocol.{
  MessageType, message_type_code, message_type_of, Side, side_code, side_of, RejectReason,
  reject_reason_code, reject_reason_of, DecodeStatus, frame_size,
}
use low_latency_trading_gate.Protocol.MessageHeader
use low_latency_trading_gate.Protocol.MessageHeader.{MessageHeader}
use low_latency_trading_gate.Protocol.NewOrder.{NewOrder}
use low_latency_trading_gate.Protocol.CancelOrder.{CancelOrder}
use low_latency_trading_gate.Protocol.ModifyOrder.{ModifyOrder}
use low_latency_trading_gate.Protocol.Accepted.{Accepted}
use low_latency_trading_gate.Protocol.Rejected.{Rejected}
use low_latency_trading_gate.Protocol.Cancelled.{Cancelled}
use low_latency_trading_gate.Protocol.Modified.{Modified}
use low_latency_trading_gate.Protocol.Trade.{Trade}
use low_latency_trading_gate.Codec.Words.{store_u16_le}
use low_latency_trading_gate.Codec.Header.{
  decode_header, validate_header, validate_request_header, validate_response_header,
}
use low_latency_trading_gate.Codec.Header.Bytes.{HeaderFits}
use low_latency_trading_gate.Codec.Header.Decode.{header_of, decode_header-status_iff}
use low_latency_trading_gate.Codec.Header.Validate.{validate-ok_iff}
use low_latency_trading_gate.Protocol
use low_latency_trading_gate.Codec.Frames.{typed}
use low_latency_trading_gate.Codec.Requests.{
  encode_new_order, decode_new_order, encode_cancel_order, decode_cancel_order, encode_modify_order,
  decode_modify_order,
}
use low_latency_trading_gate.Codec.Responses.{
  encode_accepted, decode_accepted, encode_rejected, decode_rejected, encode_cancelled,
  decode_cancelled, encode_modified, decode_modified, encode_trade, decode_trade,
}
use low_latency_trading_gate.Codec.Requests.RoundTrip.NewOrder.{new_order-round_trip}
use low_latency_trading_gate.Codec.Requests.RoundTrip.CancelOrder.{cancel_order-round_trip}
use low_latency_trading_gate.Codec.Requests.RoundTrip.ModifyOrder.{modify_order-round_trip}
use low_latency_trading_gate.Codec.Responses.RoundTrip.Accepted.{accepted-round_trip}
use low_latency_trading_gate.Codec.Responses.RoundTrip.Rejected.{rejected-round_trip}
use low_latency_trading_gate.Codec.Responses.RoundTrip.Cancelled.{cancelled-round_trip}
use low_latency_trading_gate.Codec.Responses.RoundTrip.Modified.{modified-round_trip}
use low_latency_trading_gate.Codec.Responses.RoundTrip.Trade.{trade-round_trip}

-- `0x1234 -> 34 12`
store_u16_le_low_first : store_u16_le (0 ∷ 0 ∷ 0 ∷ []) 1 0x1234 ≡ some (0 ∷ 0x34 ∷ 0x12 ∷ [])
unfolding store_u16_le
store_u16_le_low_first = refl

abbrev header : MessageHeader
header = record MessageHeader.default { sequence_number = 7; session_id = 0x1_0000_0001 }

abbrev empty_frame : List ℕ
empty_frame = replicate 64 0

header-Fits : HeaderFits header
unfolding message_type_code message_type_of
header-Fits = record {
  magic = omega arith;
  version = omega arith;
  message_type = record { small = omega arith; canonical = refl };
  payload_length = omega arith;
  flags = omega arith;
  sequence_number = omega arith;
  session_id = omega arith;
  reserved = omega arith;
}

abbrev new_order_sample : NewOrder
new_order_sample = record {
  client_order_id = 42;
  side = Side.sell;
  price = 10_000;
  quantity = 0x1_0000_0002;
}

new_order-round_trip_example :
    (frame : List ℕ) × (encode_new_order header new_order_sample empty_frame
      ≡ some (frame_size, frame))
    × (drop 64 frame ≡ drop 64 empty_frame)
    × ((prior : MessageHeader)
        → decode_header frame prior ≡ some (DecodeStatus.ok, typed header MessageType.new_order))
    × (validate_request_header (typed header MessageType.new_order) ≡ DecodeStatus.ok)
    × ((prior : NewOrder) → decode_new_order frame prior ≡ some (DecodeStatus.ok, new_order_sample))
unfolding side_code side_of reject_reason_code reject_reason_of
new_order-round_trip_example =
    new_order-round_trip header new_order_sample empty_frame header-Fits refl refl
      (record {
        client_order_id = omega arith;
        side = record { small = omega arith; canonical = refl };
        price = omega arith;
        quantity = omega arith;
      })
      (omega arith) (omega arith)

abbrev cancel_order_sample : CancelOrder
cancel_order_sample = record { client_order_id = 42; reserved1 = 0; reserved2 = 0; reserved3 = 0 }

cancel_order-round_trip_example :
    (frame : List ℕ) × (encode_cancel_order header cancel_order_sample empty_frame
      ≡ some (frame_size, frame))
    × (drop 40 frame ≡ drop 40 empty_frame)
    × ((prior : MessageHeader)
        → decode_header frame prior ≡ some (DecodeStatus.ok, typed header MessageType.cancel_order))
    × (validate_request_header (typed header MessageType.cancel_order) ≡ DecodeStatus.ok)
    × ((prior : CancelOrder)
        → decode_cancel_order frame prior
          ≡ some (DecodeStatus.ok, (record prior { client_order_id = 42 })))
unfolding side_code side_of reject_reason_code reject_reason_of
cancel_order-round_trip_example =
    cancel_order-round_trip header cancel_order_sample empty_frame header-Fits refl refl
      (record { client_order_id = omega arith }) (omega arith) (omega arith)

abbrev modify_order_sample : ModifyOrder
modify_order_sample = record {
  client_order_id = 42;
  new_price = 9_999;
  new_quantity = 3;
  reserved = 0;
}

modify_order-round_trip_example :
    (frame : List ℕ) × (encode_modify_order header modify_order_sample empty_frame
      ≡ some (frame_size, frame))
    × (drop 56 frame ≡ drop 56 empty_frame)
    × ((prior : MessageHeader)
        → decode_header frame prior ≡ some (DecodeStatus.ok, typed header MessageType.modify_order))
    × (validate_request_header (typed header MessageType.modify_order) ≡ DecodeStatus.ok)
    × ((prior : ModifyOrder)
        → decode_modify_order frame prior
          ≡ some (
            DecodeStatus.ok,
            (record prior { client_order_id = 42; new_price = 9_999; new_quantity = 3 }),
          ))
unfolding side_code side_of reject_reason_code reject_reason_of
modify_order-round_trip_example =
    modify_order-round_trip header modify_order_sample empty_frame header-Fits refl refl
      (record {
        client_order_id = omega arith;
        new_price = omega arith;
        new_quantity = omega arith;
      })
      (omega arith) (omega arith)

abbrev accepted_sample : Accepted
accepted_sample = record {
  client_order_id = 42;
  order_handle = 0xffff_ffff_ffff_ffff;
  reserved1 = 0;
  reserved2 = 0;
}

accepted-round_trip_example :
    (frame : List ℕ) × (encode_accepted header accepted_sample empty_frame
      ≡ some (frame_size, frame))
    × (drop 64 frame ≡ drop 64 empty_frame)
    × ((prior : MessageHeader)
        → decode_header frame prior ≡ some (DecodeStatus.ok, typed header MessageType.accepted))
    × (validate_response_header (typed header MessageType.accepted) ≡ DecodeStatus.ok)
    × ((prior : Accepted) → decode_accepted frame prior ≡ some (DecodeStatus.ok, accepted_sample))
unfolding side_code side_of reject_reason_code reject_reason_of
accepted-round_trip_example =
    accepted-round_trip header accepted_sample empty_frame header-Fits refl refl
      (record {
        client_order_id = omega arith;
        order_handle = omega arith;
        reserved1 = omega arith;
        reserved2 = omega arith;
      })
      (omega arith) (omega arith)

abbrev rejected_sample : Rejected
rejected_sample = record {
  client_order_id = 42;
  reason = RejectReason.invalid_price;
  reserved1 = 0;
  reserved2 = 0;
}

rejected-round_trip_example :
    (frame : List ℕ) × (encode_rejected header rejected_sample empty_frame
      ≡ some (frame_size, frame))
    × (drop 64 frame ≡ drop 64 empty_frame)
    × ((prior : MessageHeader)
        → decode_header frame prior ≡ some (DecodeStatus.ok, typed header MessageType.rejected))
    × (validate_response_header (typed header MessageType.rejected) ≡ DecodeStatus.ok)
    × ((prior : Rejected) → decode_rejected frame prior ≡ some (DecodeStatus.ok, rejected_sample))
unfolding side_code side_of reject_reason_code reject_reason_of
rejected-round_trip_example =
    rejected-round_trip header rejected_sample empty_frame header-Fits refl refl
      (record {
        client_order_id = omega arith;
        reason = record { small = omega arith; canonical = refl };
        reserved1 = omega arith;
        reserved2 = omega arith;
      })
      (omega arith) (omega arith)

abbrev cancelled_sample : Cancelled
cancelled_sample = record {
  client_order_id = 42;
  order_handle = 0xffff_ffff_ffff_ffff;
  reserved1 = 0;
  reserved2 = 0;
}

cancelled-round_trip_example :
    (frame : List ℕ) × (encode_cancelled header cancelled_sample empty_frame
      ≡ some (frame_size, frame))
    × (drop 64 frame ≡ drop 64 empty_frame)
    × ((prior : MessageHeader)
        → decode_header frame prior ≡ some (DecodeStatus.ok, typed header MessageType.cancelled))
    × (validate_response_header (typed header MessageType.cancelled) ≡ DecodeStatus.ok)
    × ((prior : Cancelled)
        → decode_cancelled frame prior ≡ some (DecodeStatus.ok, cancelled_sample))
unfolding side_code side_of reject_reason_code reject_reason_of
cancelled-round_trip_example =
    cancelled-round_trip header cancelled_sample empty_frame header-Fits refl refl
      (record {
        client_order_id = omega arith;
        order_handle = omega arith;
        reserved1 = omega arith;
        reserved2 = omega arith;
      })
      (omega arith) (omega arith)

abbrev modified_sample : Modified
modified_sample = record {
  client_order_id = 42;
  order_handle = 0xffff_ffff_ffff_ffff;
  reserved1 = 0;
  reserved2 = 0;
}

modified-round_trip_example :
    (frame : List ℕ) × (encode_modified header modified_sample empty_frame
      ≡ some (frame_size, frame))
    × (drop 64 frame ≡ drop 64 empty_frame)
    × ((prior : MessageHeader)
        → decode_header frame prior ≡ some (DecodeStatus.ok, typed header MessageType.modified))
    × (validate_response_header (typed header MessageType.modified) ≡ DecodeStatus.ok)
    × ((prior : Modified) → decode_modified frame prior ≡ some (DecodeStatus.ok, modified_sample))
unfolding side_code side_of reject_reason_code reject_reason_of
modified-round_trip_example =
    modified-round_trip header modified_sample empty_frame header-Fits refl refl
      (record {
        client_order_id = omega arith;
        order_handle = omega arith;
        reserved1 = omega arith;
        reserved2 = omega arith;
      })
      (omega arith) (omega arith)

abbrev trade_sample : Trade
trade_sample = record { client_order_id = 42; order_handle = 1; price = 10_000; quantity = 5 }

trade-round_trip_example :
    (frame : List ℕ) × (encode_trade header trade_sample empty_frame ≡ some (frame_size, frame))
    × (drop 64 frame ≡ drop 64 empty_frame)
    × ((prior : MessageHeader)
        → decode_header frame prior ≡ some (DecodeStatus.ok, typed header MessageType.trade))
    × (validate_response_header (typed header MessageType.trade) ≡ DecodeStatus.ok)
    × ((prior : Trade) → decode_trade frame prior ≡ some (DecodeStatus.ok, trade_sample))
unfolding side_code side_of reject_reason_code reject_reason_of
trade-round_trip_example =
    trade-round_trip header trade_sample empty_frame header-Fits refl refl
      (record {
        client_order_id = omega arith;
        order_handle = omega arith;
        price = omega arith;
        quantity = omega arith;
      })
      (omega arith) (omega arith)

-- The header with a wrong version on the wire.
abbrev wire : List ℕ
wire = 0x67 ∷ 0x74 ∷ 0x6c ∷ 0x6c ∷ 2 ∷ replicate 59 0

decode_header-status_iff_example :
    (status : DecodeStatus) × (decode_header wire header ≡ some (status, header_of wire))
    × ((status ≡ DecodeStatus.ok)
        ↔ ((of_bytes (slice 0 4 wire) ≡ Protocol.magic) × (2 ≡ Protocol.version)))
    × ((status ≡ DecodeStatus.bad_magic) ↔ (of_bytes (slice 0 4 wire) ≢ Protocol.magic))
    × ((status ≡ DecodeStatus.bad_version)
        ↔ ((of_bytes (slice 0 4 wire) ≡ Protocol.magic) × (2 ≢ Protocol.version)))
decode_header-status_iff_example = decode_header-status_iff wire header (omega arith) (omega arith)

abbrev trade_header : MessageHeader
trade_header = record header { message_type = MessageType.trade; payload_length = 32 }

validate-ok_iff_example :
    let code = message_type_code MessageType.trade in
    ((validate_header trade_header ≡ DecodeStatus.ok)
      ↔ ((1 ≤ code) × (code ≤ 5) × (trade_header.payload_length ≡ 32)))
    × ((validate_request_header trade_header ≡ DecodeStatus.ok)
        ↔ ((1 ≤ code) × (code ≤ 5) × (trade_header.payload_length ≡ 32)))
    × ((validate_response_header trade_header ≡ DecodeStatus.ok)
        ↔ ((101 ≤ code) × (code ≤ 105) × (trade_header.payload_length ≡ 32)))
unfolding message_type_code message_type_of
validate-ok_iff_example = validate-ok_iff trade_header refl
