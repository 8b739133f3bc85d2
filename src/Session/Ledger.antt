-- ===== src/Session/Ledger.antt =====
-- What a session promises, apart from bytes and hash tables: a ledger of live orders, the requests
-- that it judges, and the replies.
use low_latency_trading_gate.Base.{
  ℕ, ◌+◌, ◌%◌, ◌^◌, ◌≡◌, Option, none, some, Bool, true, false, ◌==◌, if◌then◌else◌,
}
use low_latency_trading_gate.Protocol.{MessageType, RejectReason}
use low_latency_trading_gate.FrameParser.{DecodedMessage}

pub record Ledger : Type 0 where
  pub expected : ℕ
  pub next_handle : ℕ
  pub live : ℕ → Option ℕ

pub data Request : Type 0 where
  place : (id price quantity : ℕ) → Request
  withdraw : (id : ℕ) → Request
  amend : (id price quantity : ℕ) → Request
  beat leave unsupported : Request

pub data Reply : Type 0 where
  accepted cancelled modified : (id handle : ℕ) → Reply
  rejected : (id : ℕ) → RejectReason → Reply

unfoldable pub request_of : MessageType → DecodedMessage → Request
request_of MessageType.new_order msg =
    place msg.new_order.client_order_id msg.new_order.price msg.new_order.quantity
request_of MessageType.cancel_order msg = withdraw msg.cancel_order.client_order_id
request_of MessageType.modify_order msg =
    amend msg.modify_order.client_order_id msg.modify_order.new_price msg.modify_order.new_quantity
request_of MessageType.heartbeat msg = beat
request_of MessageType.logout msg = leave
request_of _ msg = unsupported

-- The order that a request is about; 0 where it is about none.
abbrev pub id_of : Request → ℕ
id_of (place id _ _) = id
id_of (withdraw id) = id
id_of (amend id _ _) = id
id_of _ = 0

terms_objection : ℕ → ℕ → Option RejectReason
terms_objection price quantity =
    if price == 0
    then some RejectReason.invalid_price
    else if quantity == 0
    then some RejectReason.invalid_quantity
    else none

abbrev or_else {ℓ} : {A : Type ℓ} → Option A → Option A → Option A
or_else (some a) other = some a
or_else none other = other

-- Why a request is refused, if it is: the first reason that applies.
unfoldable pub objection : (ℕ → Option ℕ) → Request → Option RejectReason
unfolding terms_objection
objection live (place id price quantity) =
    or_else (terms_objection price quantity)
      (elim (live id) [ some _ ↦ some RejectReason.duplicate_client_order_id | none ↦ none ])
objection live (withdraw id) = elim (live id) [
  | some _ ↦ none
  | none ↦ some RejectReason.unknown_client_order_id
]
objection live (amend id price quantity) =
    or_else (elim (live id) [ some _ ↦ none | none ↦ some RejectReason.unknown_client_order_id ])
      (terms_objection price quantity)
objection live beat = none
objection live leave = none
objection live unsupported = some RejectReason.unsupported_message_type

abbrev pub update : (ℕ → Option ℕ) → ℕ → Option ℕ → ℕ → Option ℕ
update live id h j = if id == j then h else live j

abbrev pub handle_or_zero : Option ℕ → ℕ
handle_or_zero (some h) = h
handle_or_zero none = 0

-- What a request that is not refused does, and its reply.
unfoldable pub effect : Ledger → Request → Ledger × Reply
effect l (place id price quantity) = (
  record l {
    next_handle = (l.next_handle + 1) % 2 ^ 64;
    live = update l.live id (some l.next_handle);
  },
  accepted id l.next_handle,
)
effect l (withdraw id) =
    (record l { live = update l.live id none }, cancelled id (handle_or_zero (l.live id)))
effect l (amend id price quantity) = (l, modified id (handle_or_zero (l.live id)))
effect l _ = (l, accepted 0 0)

-- Only a logout in sequence ends the session.
abbrev pub stays : Request → Bool
stays leave = false
stays _ = true

-- A request in sequence.
unfoldable pub rule : Ledger → Request → Bool × Ledger × Reply
unfolding objection effect
rule l r = elim (objection l.live r) [
  | some reason ↦ (true, l, rejected (id_of r) reason)
  | none ↦ let (l', reply) = effect l r in (stays r, l', reply)
]

-- Being in sequence moves the sequence number on, whether or not the request is refused then.
abbrev pub advance : Ledger → Ledger
advance l = record l { expected = (l.expected + 1) % 2 ^ 64 }

-- A message of a type that is no request is refused whatever its sequence number; one out of
-- sequence is refused and changes nothing.
unfoldable pub step : Ledger → ℕ → Request → Bool × Ledger × Reply
unfolding rule
step l sequence unsupported = (true, l, rejected 0 RejectReason.unsupported_message_type)
step l sequence r =
    if sequence == l.expected
    then rule (advance l) r
    else (true, l, rejected (id_of r) RejectReason.bad_sequence)

pub rule-refused :
    (l : Ledger) (r : Request) (reason : RejectReason)
    → objection l.live r ≡ some reason
    → rule l r ≡ (true, l, rejected (id_of r) reason)
unfolding rule
rule-refused l r reason e = rw (e, rule)

pub rule-allowed :
    (l : Ledger) (r : Request)
    → objection l.live r ≡ none
    → rule l r ≡ (stays r, (effect l r).0, (effect l r).1)
unfolding rule
rule-allowed l r e = rw (e, rule)
