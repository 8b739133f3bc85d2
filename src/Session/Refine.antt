-- ===== src/Session/Refine.antt =====
-- `handle_message` does what the ledger says, and sends the reply of the ledger.
use low_latency_trading_gate.Base.{
  ℕ, ◌^◌, ◌≤◌, ◌<◌, ◌≡◌, refl, sym, ap, ◌∙◌, inl, inr, List, Option, none, some, Bool, true, false,
  not, arith, ◌==◌, if◌then◌else◌, ◌>>=◌, length, Bool-cases,
}
use low_latency_trading_gate.Base.Bytes.{IsBytes}
use low_latency_trading_gate.Protocol.{MessageType, RejectReason, frame_size}
use low_latency_trading_gate.Protocol.MessageHeader.{MessageHeader}
use low_latency_trading_gate.FrameParser.{DecodedMessage}
use low_latency_trading_gate.Session.{
  OrderEntrySession, Handled, next_u64, response_header_of, encode_accept, encode_cancel,
  encode_modify, encode_reject, in_sequence, accept_new_order, cancel_live_order, modify_live_order,
  acknowledge, handle_type, handle_message, check_sequence_or_reject, reject,
}
use low_latency_trading_gate.Session.Ledger.{Request, Reply, request_of, rule, step, id_of}
use low_latency_trading_gate.Session.Replies.{answer, Conveys, IsRequestHeader, answer-Conveys}
use low_latency_trading_gate.Session.Valid.{IsValid, view}
use low_latency_trading_gate.Session.Judged.{
  Judged, rejected-Judged, Given, reason-Fits, accept_new_order-Judged, cancel_live_order-Judged,
  modify_live_order-Judged, acknowledge-Judged,
}

-- The ids of a message are in the range of their type, and its header came through the parser.
pub record MessageFits (msg : DecodedMessage) : Type 0 where
  pub header : IsRequestHeader msg.header
  pub new_id : msg.new_order.client_order_id < 2 ^ 64
  pub cancel_id : msg.cancel_order.client_order_id < 2 ^ 64
  pub modify_id : msg.modify_order.client_order_id < 2 ^ 64

abbrev bump : OrderEntrySession → OrderEntrySession
bump s = record s { expected_sequence_number = next_u64 s.expected_sequence_number }

-- The encoders read nothing of a session but its id.
answer-bump :
    (s : OrderEntrySession) (h : MessageHeader) (r : Reply) (out : List ℕ)
    → answer (bump s) h r out ≡ answer s h r out
unfolding answer encode_accept encode_cancel encode_modify encode_reject
answer-bump s h (Reply.accepted id handle) out = refl
answer-bump s h (Reply.cancelled id handle) out = refl
answer-bump s h (Reply.modified id handle) out = refl
answer-bump s h (Reply.rejected id reason) out = refl

turned_down :
    (s : OrderEntrySession) (go : OrderEntrySession → List ℕ → Handled) (o : Option (List ℕ))
    → ((o >>= λ out. some (false, s, out)) >>= λ (x : Bool × OrderEntrySession × List ℕ).
        if not x.0 then some (true, x.1, x.2) else go x.1 x.2)
      ≡ (o >>= λ out. some (true, s, out))
turned_down s go none = refl
turned_down s go (some out) = refl

module _ {s : OrderEntrySession} (msg : DecodedMessage) (out : List ℕ) (v : IsValid s) where
  bump-IsValid : IsValid (bump s)
  bump-IsValid = record {
    distinct = v.distinct;
    session_id = v.session_id;
    next_handle = v.next_handle;
    handles = v.handles;
  }

  -- The check of the sequence number, before any handler.
  in_sequence-Judged :
      (r : Request) (go : OrderEntrySession → List ℕ → Handled)
      → id_of r < 2 ^ 64
      → step (view s) msg.header.sequence_number r ≡ (
          if msg.header.sequence_number == s.expected_sequence_number
          then rule (view (bump s)) r
          else (true, view s, Reply.rejected (id_of r) RejectReason.bad_sequence))
      → Judged (bump s) msg.header out (go (bump s) out) (rule (view (bump s)) r)
      → Judged s msg.header out
          (in_sequence s msg (id_of r) out go)
          (step (view s) msg.header.sequence_number r)
  unfolding in_sequence check_sequence_or_reject answer
  in_sequence-Judged r go small e j =
      elim (Bool-cases (msg.header.sequence_number == s.expected_sequence_number)) [
        | inl same ↦ record {
          keep = j.keep;
          next = j.next;
          reply = j.reply;
          runs = rw same (
              j.runs
              ∙ ap (λ a. a >>= λ frame. some (j.keep, j.next, frame))
                  (answer-bump s msg.header j.reply out));
          valid = j.valid;
          meets = j.meets ∙ sym (e ∙ rw same);
          fits = j.fits;
        }
        | inr other ↦
            rejected-Judged (id_of r) RejectReason.bad_sequence v small (reason-Fits Given.sequence)
              (rw other (
                turned_down s go
                  (encode_reject s msg.header (id_of r) RejectReason.bad_sequence out)))
              (e ∙ rw other)
      ]

module _ {s : OrderEntrySession} (msg : DecodedMessage) (out : List ℕ) (v : IsValid s)
    (m : MessageFits msg) where
  handle_type-Judged :
      (t : MessageType)
      → Judged s msg.header out
          (handle_type t s msg out)
          (step (view s) msg.header.sequence_number (request_of t msg))
  unfolding handle_type step request_of reject answer
  handle_type-Judged MessageType.new_order =
      in_sequence-Judged msg out v (request_of MessageType.new_order msg)
        (λ s out. accept_new_order s msg msg.new_order.client_order_id out) m.new_id refl
        (accept_new_order-Judged msg out (bump-IsValid msg out v) m.new_id)
  handle_type-Judged MessageType.cancel_order =
      in_sequence-Judged msg out v (request_of MessageType.cancel_order msg)
        (λ s out. cancel_live_order s msg msg.cancel_order.client_order_id out) m.cancel_id refl
        (cancel_live_order-Judged msg out (bump-IsValid msg out v) m.cancel_id)
  handle_type-Judged MessageType.modify_order =
      in_sequence-Judged msg out v (request_of MessageType.modify_order msg)
        (λ s out. modify_live_order s msg msg.modify_order.client_order_id out) m.modify_id refl
        (modify_live_order-Judged msg out (bump-IsValid msg out v) m.modify_id)
  handle_type-Judged MessageType.heartbeat =
      in_sequence-Judged msg out v (request_of MessageType.heartbeat msg)
        (λ s out. acknowledge true s msg out) (omega arith) refl
        (acknowledge-Judged msg out (bump-IsValid msg out v) MessageType.heartbeat true refl)
  handle_type-Judged MessageType.logout =
      in_sequence-Judged msg out v (request_of MessageType.logout msg)
        (λ s out. acknowledge false s msg out) (omega arith) refl
        (acknowledge-Judged msg out (bump-IsValid msg out v) MessageType.logout false refl)
  handle_type-Judged _ =
      rejected-Judged 0 RejectReason.unsupported_message_type v (omega arith)
        (reason-Fits Given.unsupported) refl refl

  -- For a valid session, a message of any type whose header is one that a parser lets through and
  -- whose ids are in the range of std::uint64_t, and a response span of 64 bytes or more,
  -- `handle_message` makes no access outside the span. It keeps the invariant; what it returns, the
  -- ledger it leaves and its reply are those of the specification; and from the span a client decodes
  -- exactly that reply, under the session's header.
  pub handle_message_refines :
      IsBytes out
      → frame_size ≤ length out
      → (keep : Bool) × (s' : OrderEntrySession) × (reply : Reply) × (frame : List ℕ)
        × (handle_message s msg out ≡ some (keep, s', frame))
        × IsValid s'
        × ((keep, view s', reply)
            ≡ step (view s) msg.header.sequence_number (request_of msg.type msg))
        × Conveys (response_header_of s msg.header) reply frame
  unfolding handle_message
  handle_message_refines bytes room =
      let j = handle_type-Judged msg.type in
      let (frame, e, conveys) =
        answer-Conveys s msg.header j.reply out v.session_id m.header j.fits bytes room in
      (
        j.keep,
        j.next,
        j.reply,
        frame,
        j.runs ∙ ap (λ a. a >>= λ frame. some (j.keep, j.next, frame)) e,
        j.valid,
        j.meets,
        conveys,
      )
