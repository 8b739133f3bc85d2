-- ===== src/Codec/Header/Validate.antt =====
-- Which headers the three validators accept.
use low_latency_trading_gate.Base.{◌≤◌, ◌≡◌, ◌↔◌, refl, sym, ◌∙◌, true, arith}
use low_latency_trading_gate.Protocol.{
  MessageType, message_type_code, message_type_of, DecodeStatus, payload_size,
}
use low_latency_trading_gate.Protocol.MessageHeader.{MessageHeader}
use low_latency_trading_gate.Codec.Header.{
  is_known_request_type, is_known_response_type, validate_header, validate_request_header,
  validate_response_header,
}

-- `validate_header` and `validate_request_header` give every header the same status: the lookup of
-- the expected payload size is redundant.
pub validate_header-eq-request : (h : MessageHeader) → validate_header h ≡ validate_request_header h
unfolding validate_header validate_request_header
validate_header-eq-request h = ground arith

request_code :
    (t : MessageType)
    → message_type_of (message_type_code t) ≡ t
    → (is_known_request_type t ≡ true) ↔ ((1 ≤ message_type_code t) × (message_type_code t ≤ 5))
unfolding is_known_request_type message_type_code message_type_of
request_code MessageType.new_order e = (λ k. omega arith, λ h. refl)
request_code _ e = (λ k. ground arith, λ h. ground arith)

response_code :
    (t : MessageType)
    → message_type_of (message_type_code t) ≡ t
    → (is_known_response_type t ≡ true)
      ↔ ((101 ≤ message_type_code t) × (message_type_code t ≤ 105))
unfolding is_known_response_type message_type_code message_type_of
response_code MessageType.accepted e = (λ k. omega arith, λ h. refl)
response_code _ e = (λ k. ground arith, λ h. ground arith)

request_ok :
    (h : MessageHeader)
    → (validate_request_header h ≡ DecodeStatus.ok)
      ↔ ((is_known_request_type h.message_type ≡ true) × (h.payload_length ≡ payload_size))
unfolding validate_request_header
request_ok h = (λ e. ground arith, λ k. ground arith)

response_ok :
    (h : MessageHeader)
    → (validate_response_header h ≡ DecodeStatus.ok)
      ↔ ((is_known_response_type h.message_type ≡ true) × (h.payload_length ≡ payload_size))
unfolding validate_response_header
response_ok h = (λ e. ground arith, λ k. ground arith)

-- For a message type in its canonical form (no named value under `unnamed`), the three validators
-- accept exactly the headers with a payload of 32 bytes and a type from 1 to 5, for requests, or from
-- 101 to 105, for responses.
pub validate-ok_iff :
    (h : MessageHeader)
    → message_type_of (message_type_code h.message_type) ≡ h.message_type
    → let code = message_type_code h.message_type in
      ((validate_header h ≡ DecodeStatus.ok) ↔ ((1 ≤ code) × (code ≤ 5) × (h.payload_length ≡ 32)))
      × ((validate_request_header h ≡ DecodeStatus.ok)
          ↔ ((1 ≤ code) × (code ≤ 5) × (h.payload_length ≡ 32)))
      × ((validate_response_header h ≡ DecodeStatus.ok)
          ↔ ((101 ≤ code) × (code ≤ 105) × (h.payload_length ≡ 32)))
validate-ok_iff h e = (
  (
    λ k. request (sym (validate_header-eq-request h) ∙ k),
    λ k. validate_header-eq-request h ∙ back k,
  ),
  (request, back),
  (
    λ k.
        let (t, n) = (response_ok h).0 k in
        let (lo, hi) = (response_code h.message_type e).0 t in (lo, hi, n),
    λ k. (response_ok h).1 ((response_code h.message_type e).1 (k.0, k.1), k.2),
  ),
)
  where
    request :
        validate_request_header h ≡ DecodeStatus.ok
        → (1 ≤ message_type_code h.message_type)
          × (message_type_code h.message_type ≤ 5)
          × (h.payload_length ≡ 32)
    request k =
        let (t, n) = (request_ok h).0 k in
        let (lo, hi) = (request_code h.message_type e).0 t in (lo, hi, n)

    back :
        (1 ≤ message_type_code h.message_type)
          × (message_type_code h.message_type ≤ 5)
          × (h.payload_length ≡ 32)
        → validate_request_header h ≡ DecodeStatus.ok
    back k = (request_ok h).1 ((request_code h.message_type e).1 (k.0, k.1), k.2)
