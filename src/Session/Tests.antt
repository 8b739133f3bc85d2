-- ===== src/Session/Tests.antt =====
-- Concrete inputs for the theorems about session.hpp: a session with one live order, and the order
-- that cancels it.
use low_latency_trading_gate.Base.{
  ℕ, ◌<◌, ◌^◌, ◌≡◌, refl, List, [], ◌∷◌, some, Bool, arith, replicate,
}
use low_latency_trading_gate.Protocol.{MessageType, message_type_code, message_type_of}
use low_latency_trading_gate.Protocol.MessageHeader
use low_latency_trading_gate.Protocol.MessageHeader.{MessageHeader}
use low_latency_trading_gate.Protocol.NewOrder
use low_latency_trading_gate.Protocol.CancelOrder
use low_latency_trading_gate.Protocol.Casts.{MessageTypeFits}
use low_latency_trading_gate.FrameParser.{DecodedMessage, no_message}
use low_latency_trading_gate.Session.{
  OrderEntrySession, new_session, handle_message, response_header_of,
}
use low_latency_trading_gate.Base.Maps.{find}
use low_latency_trading_gate.Session.Ledger.{Reply, step, request_of}
use low_latency_trading_gate.Session.Replies.{Conveys, IsRequestHeader}
use low_latency_trading_gate.Session.Valid.{IsValid, view}
use low_latency_trading_gate.Session.Handles.{Unique, serve, serve-new_session}
use low_latency_trading_gate.Session.Refine.{MessageFits, handle_message_refines}

abbrev one_order : OrderEntrySession
one_order = record {
  session_id = 9;
  expected_sequence_number = 0xffff_ffff_ffff_ffff;
  next_order_handle = 4;
  orders = (42, 3) ∷ [];
}

one_order-IsValid : IsValid one_order
unfolding find
one_order-IsValid = record {
  distinct = (refl, tt);
  session_id = omega arith;
  next_handle = omega arith;
  handles = λ k h e. ground arith;
}

abbrev request_header : MessageType → ℕ → MessageHeader
request_header t n = record MessageHeader.default {
  message_type = t;
  payload_length = 32;
  sequence_number = n;
}

request_header-IsRequestHeader :
    (t : MessageType) (n : ℕ)
    → MessageTypeFits t
    → n < 2 ^ 64
    → IsRequestHeader (request_header t n)
request_header-IsRequestHeader t n type small = record {
  fits = record {
    magic = omega arith;
    version = omega arith;
    message_type = type;
    payload_length = omega arith;
    flags = omega arith;
    sequence_number = small;
    session_id = omega arith;
    reserved = omega arith;
  };
  magic = refl;
  version = refl;
}

-- In sequence, with the last sequence number before it wraps.
abbrev cancel_message : DecodedMessage
cancel_message = record no_message {
  header = request_header MessageType.cancel_order 0xffff_ffff_ffff_ffff;
  type = MessageType.cancel_order;
  cancel_order = record CancelOrder.default { client_order_id = 42 };
}

cancel_message-Fits : MessageFits cancel_message
unfolding message_type_code message_type_of
cancel_message-Fits = record {
  header =
      request_header-IsRequestHeader MessageType.cancel_order 0xffff_ffff_ffff_ffff
        (record { small = omega arith; canonical = refl }) (omega arith);
  new_id = omega arith;
  cancel_id = omega arith;
  modify_id = omega arith;
}

handle_message_refines_example :
    (keep : Bool) × (s : OrderEntrySession) × (reply : Reply) × (frame : List ℕ) × (handle_message
        one_order cancel_message
        (replicate 64 0)
      ≡ some (keep, s, frame))
    × IsValid s
    × ((keep, view s, reply)
        ≡ step
            (view one_order)
            0xffff_ffff_ffff_ffff
            (request_of MessageType.cancel_order cancel_message))
    × Conveys (response_header_of one_order cancel_message.header) reply frame
handle_message_refines_example =
    handle_message_refines cancel_message (replicate 64 0) one_order-IsValid cancel_message-Fits
      (omega arith) (omega arith)

-- The first message of a session.
abbrev order_message : DecodedMessage
order_message = record no_message {
  header = request_header MessageType.new_order 1;
  type = MessageType.new_order;
  new_order = record NewOrder.default { client_order_id = 42; price = 10_000; quantity = 5 };
}

order_message-Fits : MessageFits order_message
unfolding message_type_code message_type_of
order_message-Fits = record {
  header =
      request_header-IsRequestHeader MessageType.new_order 1
        (record { small = omega arith; canonical = refl }) (omega arith);
  new_id = omega arith;
  cancel_id = omega arith;
  modify_id = omega arith;
}

serve-new_session_example :
    (s : OrderEntrySession) × (serve (new_session 9) (order_message ∷ cancel_message ∷ []) ≡ some s)
    × IsValid s
    × Unique (view s)
serve-new_session_example =
    serve-new_session 9 (order_message ∷ cancel_message ∷ []) (omega arith) (omega arith)
      (order_message-Fits, (cancel_message-Fits, tt))
