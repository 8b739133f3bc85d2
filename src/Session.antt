-- ===== src/Session.antt =====
-- core/order_entry/include/lltg/order_entry/session.hpp. `orders_`, an unordered_map from client
-- order ids to order handles, is an association list. A member function takes the session and
-- returns the new one; `none` is an access outside the response span.
pub mod Ledger
pub mod Replies
pub mod Valid
pub mod Judged
pub mod Refine
pub mod Handles
mod Tests
use low_latency_trading_gate.Base.{
  ℕ, ◌+◌, ◌%◌, ◌^◌, List, [], ◌∷◌, Option, none, some, Bool, true, false, not, ◌==◌, if◌then◌else◌,
  ◌>>=◌,
}
use low_latency_trading_gate.Protocol.{MessageType, RejectReason}
use low_latency_trading_gate.Protocol.MessageHeader.{MessageHeader}
use low_latency_trading_gate.Protocol.Accepted
use low_latency_trading_gate.Protocol.Accepted.{Accepted}
use low_latency_trading_gate.Protocol.Rejected
use low_latency_trading_gate.Protocol.Rejected.{Rejected}
use low_latency_trading_gate.Protocol.Cancelled
use low_latency_trading_gate.Protocol.Cancelled.{Cancelled}
use low_latency_trading_gate.Protocol.Modified
use low_latency_trading_gate.Protocol.Modified.{Modified}
use low_latency_trading_gate.Codec.Responses.{
  encode_accepted, encode_rejected, encode_cancelled, encode_modified,
}
use low_latency_trading_gate.FrameParser.{DecodedMessage}
use low_latency_trading_gate.Base.Maps.{find, emplace, erase, count}

abbrev pub OrderMap : Type 0
OrderMap = List (ℕ × ℕ)

pub record OrderEntrySession : Type 0 where
  pub session_id : ℕ
  pub expected_sequence_number : ℕ
  pub next_order_handle : ℕ
  pub orders : OrderMap

-- explicit OrderEntrySession(session_id)
unfoldable pub new_session : ℕ → OrderEntrySession
new_session session_id = record {
  session_id = session_id;
  expected_sequence_number = 1;
  next_order_handle = 1;
  orders = [];
}

unfoldable pub active_order_count : OrderEntrySession → ℕ
active_order_count s = count s.orders

-- ++ on a std::uint64_t
abbrev pub next_u64 : ℕ → ℕ
next_u64 n = (n + 1) % 2 ^ 64

-- The header that the four encoders of the session share.
unfoldable pub response_header_of : OrderEntrySession → MessageHeader → MessageHeader
response_header_of s request_header = record request_header {
  session_id = if s.session_id == 0 then request_header.session_id else s.session_id;
}

unfoldable pub encode_reject :
    OrderEntrySession → MessageHeader → ℕ → RejectReason → List ℕ → Option (List ℕ)
unfolding response_header_of
encode_reject s request_header client_order_id reason response_out = do
  let response : Rejected = record Rejected.default {
    client_order_id = client_order_id;
    reason = reason;
  }
  (_, response_out) ← encode_rejected (response_header_of s request_header) response response_out
  some response_out

unfoldable pub encode_accept : OrderEntrySession → MessageHeader → ℕ → ℕ → List ℕ → Option (List ℕ)
unfolding response_header_of
encode_accept s request_header client_order_id order_handle response_out = do
  let response : Accepted = record Accepted.default {
    client_order_id = client_order_id;
    order_handle = order_handle;
  }
  (_, response_out) ← encode_accepted (response_header_of s request_header) response response_out
  some response_out

unfoldable pub encode_cancel : OrderEntrySession → MessageHeader → ℕ → ℕ → List ℕ → Option (List ℕ)
unfolding response_header_of
encode_cancel s request_header client_order_id order_handle response_out = do
  let response : Cancelled = record Cancelled.default {
    client_order_id = client_order_id;
    order_handle = order_handle;
  }
  (_, response_out) ← encode_cancelled (response_header_of s request_header) response response_out
  some response_out

unfoldable pub encode_modify : OrderEntrySession → MessageHeader → ℕ → ℕ → List ℕ → Option (List ℕ)
unfolding response_header_of
encode_modify s request_header client_order_id order_handle response_out = do
  let response : Modified = record Modified.default {
    client_order_id = client_order_id;
    order_handle = order_handle;
  }
  (_, response_out) ← encode_modified (response_header_of s request_header) response response_out
  some response_out

unfoldable pub check_sequence_or_reject :
    OrderEntrySession → DecodedMessage → ℕ → List ℕ → Option (Bool × OrderEntrySession × List ℕ)
check_sequence_or_reject s msg client_order_id response_out =
    if not (msg.header.sequence_number == s.expected_sequence_number)
    then (do
      response_out ←
          encode_reject s msg.header client_order_id RejectReason.bad_sequence response_out
      some (false, s, response_out))
    else some (
      true,
      record s { expected_sequence_number = next_u64 s.expected_sequence_number },
      response_out,
    )

-- What `handle_message` returns: whether to keep the session, the session, and the span.
abbrev pub Handled : Type 0
Handled = Option (Bool × OrderEntrySession × List ℕ)

reject : OrderEntrySession → DecodedMessage → ℕ → RejectReason → List ℕ → Handled
reject s msg client_order_id reason response_out = do
  response_out ← encode_reject s msg.header client_order_id reason response_out
  some (true, s, response_out)

-- case MessageType::NewOrder, behind the check of the sequence number
pub accept_new_order : OrderEntrySession → DecodedMessage → ℕ → List ℕ → Handled
unfolding reject
accept_new_order s msg client_order_id response_out =
    if msg.new_order.price == 0
    then reject s msg client_order_id RejectReason.invalid_price response_out
    else if msg.new_order.quantity == 0
    then reject s msg client_order_id RejectReason.invalid_quantity response_out
    else elim (find client_order_id s.orders) [
      | some _ ↦ reject s msg client_order_id RejectReason.duplicate_client_order_id response_out
      | none ↦ (do
        let order_handle = s.next_order_handle
        let s : OrderEntrySession = record s {
          next_order_handle = next_u64 s.next_order_handle;
          orders = emplace client_order_id order_handle s.orders;
        }
        response_out ← encode_accept s msg.header client_order_id order_handle response_out
        some (true, s, response_out))
    ]

-- case MessageType::CancelOrder
pub cancel_live_order : OrderEntrySession → DecodedMessage → ℕ → List ℕ → Handled
unfolding reject
cancel_live_order s msg client_order_id response_out = elim (find client_order_id s.orders) [
  | none ↦ reject s msg client_order_id RejectReason.unknown_client_order_id response_out
  | some order_handle ↦ (do
    let s : OrderEntrySession = record s { orders = erase client_order_id s.orders }
    response_out ← encode_cancel s msg.header client_order_id order_handle response_out
    some (true, s, response_out))
]

-- case MessageType::ModifyOrder
pub modify_live_order : OrderEntrySession → DecodedMessage → ℕ → List ℕ → Handled
unfolding reject
modify_live_order s msg client_order_id response_out = elim (find client_order_id s.orders) [
  | none ↦ reject s msg client_order_id RejectReason.unknown_client_order_id response_out
  | some order_handle ↦
      (if msg.modify_order.new_price == 0
        then reject s msg client_order_id RejectReason.invalid_price response_out
        else if msg.modify_order.new_quantity == 0
        then reject s msg client_order_id RejectReason.invalid_quantity response_out
        else do
          response_out ← encode_modify s msg.header client_order_id order_handle response_out
          some (true, s, response_out))
]

-- case MessageType::Heartbeat and MessageType::Logout: `keep` is what they return
pub acknowledge : Bool → OrderEntrySession → DecodedMessage → List ℕ → Handled
acknowledge keep s msg response_out = do
  response_out ← encode_accept s msg.header 0 0 response_out
  some (keep, s, response_out)

in_sequence :
    OrderEntrySession
    → DecodedMessage
    → ℕ
    → List ℕ
    → (OrderEntrySession → List ℕ → Handled)
    → Handled
in_sequence s msg client_order_id response_out go = do
  (passed, s, response_out) ← check_sequence_or_reject s msg client_order_id response_out
  if not passed then some (true, s, response_out) else go s response_out

handle_type : MessageType → OrderEntrySession → DecodedMessage → List ℕ → Handled
unfolding in_sequence reject accept_new_order cancel_live_order modify_live_order acknowledge
handle_type MessageType.new_order s msg response_out =
    let client_order_id = msg.new_order.client_order_id in
    in_sequence s msg client_order_id response_out
      λ s response_out. accept_new_order s msg client_order_id response_out
handle_type MessageType.cancel_order s msg response_out =
    let client_order_id = msg.cancel_order.client_order_id in
    in_sequence s msg client_order_id response_out
      λ s response_out. cancel_live_order s msg client_order_id response_out
handle_type MessageType.modify_order s msg response_out =
    let client_order_id = msg.modify_order.client_order_id in
    in_sequence s msg client_order_id response_out
      λ s response_out. modify_live_order s msg client_order_id response_out
handle_type MessageType.heartbeat s msg response_out =
    in_sequence s msg 0 response_out λ s response_out. acknowledge true s msg response_out
handle_type MessageType.logout s msg response_out =
    in_sequence s msg 0 response_out λ s response_out. acknowledge false s msg response_out
handle_type _ s msg response_out = reject s msg 0 RejectReason.unsupported_message_type response_out

unfoldable pub handle_message : OrderEntrySession → DecodedMessage → List ℕ → Handled
unfolding handle_type
handle_message s msg response_out = handle_type msg.type s msg response_out
