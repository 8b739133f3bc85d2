-- ===== src/FrameParser/Orders.antt =====
-- The frame of an order, as the parser's stream sees it.
use low_latency_trading_gate.Base.{
  ℕ, ◌≤◌, ◌≡◌, sym, ap, ◌∙◌, subst, List, [], Option, some, true, arith, length, take, drop,
  ltb-false, take-length, drop-length,
}
use low_latency_trading_gate.Base.Bytes.{IsBytes}
use low_latency_trading_gate.Protocol
use low_latency_trading_gate.Protocol.{MessageType, DecodeStatus, frame_size}
use low_latency_trading_gate.Protocol.MessageHeader
use low_latency_trading_gate.Protocol.MessageHeader.{MessageHeader}
use low_latency_trading_gate.Protocol.NewOrder.{NewOrder}
use low_latency_trading_gate.Codec.Header.{decode_header, is_known_request_type}
use low_latency_trading_gate.Codec.Header.Bytes.{HeaderFits}
use low_latency_trading_gate.Codec.Header.Decode.{header_of, decode_header_lem}
use low_latency_trading_gate.Codec.Frames.{typed, framed, framed-IsBytes, length-framed}
use low_latency_trading_gate.Codec.Requests.Bytes.{new_order_bytes, encode_new_order_lem}
use low_latency_trading_gate.Codec.Requests.{encode_new_order, decode_new_order}
use low_latency_trading_gate.Codec.Requests.Decode.{new_order_of, decode_new_order_lem}
use low_latency_trading_gate.Codec.Requests.RoundTrip.NewOrder.{NewOrderFits, new_order-round_trip}
use low_latency_trading_gate.FrameParser.{DecodedMessage, Status}
use low_latency_trading_gate.FrameParser.Stream
use low_latency_trading_gate.FrameParser.Stream.{accepts, fill, message}

decoded_value {ℓ ℓ'} : {S : Type ℓ} {A : Type ℓ'} → A → Option (S × A) → A
decoded_value d (some (status, a)) = a
decoded_value d Option.none = d

pub next-frame :
    (frame : List ℕ) (out : DecodedMessage)
    → length frame ≡ frame_size
    → accepts (header_of frame) ≡ true
    → Stream.next frame out ≡ (Status.message_ready, [], message frame out)
unfolding Stream.next
next-frame frame out len good = rw (
  ltb-false (length frame) frame_size (omega (arith, len)),
  ap (λ n. take n frame) (sym len) ∙ take-length frame,
  good,
  ap (λ n. drop n frame) (sym len) ∙ drop-length frame,
)

-- The frame of an order stands for its header and for the order.
pub order_frame :
    (header : MessageHeader) (order : NewOrder) (frame : List ℕ)
    → header.magic ≡ Protocol.magic
    → header.version ≡ Protocol.version
    → IsBytes frame
    → frame_size ≤ length frame
    → ((prior : MessageHeader)
        → decode_header frame prior ≡ some (DecodeStatus.ok, typed header MessageType.new_order))
    → ((prior : NewOrder) → decode_new_order frame prior ≡ some (DecodeStatus.ok, order))
    → (out : DecodedMessage)
    → (accepts (header_of frame) ≡ true)
      × (message frame out ≡ record out {
        header = typed header MessageType.new_order;
        type = MessageType.new_order;
        new_order = order;
      })
unfolding accepts message fill is_known_request_type decoded_value
order_frame header order frame m v b len h o out = (
  ap accepts same_header ∙ rw (m, v),
  ap (λ k. fill k.message_type frame (record out { header = k; type = k.message_type })) same_header
      ∙ ap
          (λ k. record out {
            header = typed header MessageType.new_order;
            type = MessageType.new_order;
            new_order = k;
          })
          same_order,
)
  where
    same_header : header_of frame ≡ typed header MessageType.new_order
    same_header = ap (decoded_value MessageHeader.default) (
        sym (decode_header_lem frame MessageHeader.default b (omega arith))
        ∙ h MessageHeader.default)

    same_order : new_order_of frame out.new_order ≡ order
    same_order =
        ap (decoded_value order)
          (sym (decode_new_order_lem frame out.new_order b len) ∙ o out.new_order)

-- What `encode_new_order` leaves of a span of bytes are as many bytes.
pub encoded_frame :
    (header : MessageHeader) (order : NewOrder) (span frame : List ℕ)
    → IsBytes span
    → length span ≡ frame_size
    → encode_new_order header order span ≡ some (frame_size, frame)
    → IsBytes frame × (length frame ≡ frame_size)
unfolding decoded_value
encoded_frame header order span frame bytes len e =
    let h = typed header MessageType.new_order in
    let same : framed h (new_order_bytes order) span ≡ frame =
      ap (decoded_value span)
        (sym (encode_new_order_lem header order span (omega (arith, len))) ∙ e) in
    (
      subst IsBytes same (framed-IsBytes h (new_order_bytes order) span (omega arith) bytes),
      ap length (sym same) ∙ length-framed h (new_order_bytes order) span ∙ len,
    )

-- The frame of an order, and what the stream makes of it.
pub order_next :
    (header : MessageHeader) (order : NewOrder) (span : List ℕ)
    → HeaderFits header
    → header.magic ≡ Protocol.magic
    → header.version ≡ Protocol.version
    → NewOrderFits order
    → IsBytes span
    → length span ≡ frame_size
    → (frame : List ℕ) × (encode_new_order header order span ≡ some (frame_size, frame))
      × IsBytes frame
      × (length frame ≡ frame_size)
      × ((out : DecodedMessage)
          → Stream.next frame out ≡ (
            Status.message_ready,
            [],
            record out {
              header = typed header MessageType.new_order;
              type = MessageType.new_order;
              new_order = order;
            },
          ))
order_next header order span fits m ver sent bytes len =
    let (frame, e, rest, h, ok, o) =
      new_order-round_trip header order span fits m ver sent bytes (omega (arith, len)) in
    let (b, l) = encoded_frame header order span frame bytes len e in
    (
      frame,
      e,
      b,
      l,
      λ out.
          let (good, whole) = order_frame header order frame m ver b (omega (arith, l)) h o out in
          next-frame frame out l good ∙ ap (λ msg. (Status.message_ready, [], msg)) whole,
    )
