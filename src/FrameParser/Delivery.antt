-- ===== src/FrameParser/Delivery.antt =====
-- From the encoder to the parser: an order that arrives in two pieces, cut anywhere.
use low_latency_trading_gate.Base.{
  ℕ, zero, suc, refl, ◌+◌, ◌≤◌, ◌≡◌, sym, ap, ◌∙◌, subst, List, [], ◌∷◌, ◌++◌, some, true, arith,
  length, take, drop, ltb-false, length-append, take-append, drop-append, All-take, All-drop,
}
use low_latency_trading_gate.Base.Bytes.{IsByte, IsBytes}
use low_latency_trading_gate.Protocol
use low_latency_trading_gate.Protocol.{MessageType, DecodeStatus, frame_size}
use low_latency_trading_gate.Protocol.MessageHeader.{MessageHeader}
use low_latency_trading_gate.Protocol.NewOrder.{NewOrder}
use low_latency_trading_gate.Codec.Header.Bytes.{HeaderFits}
use low_latency_trading_gate.Codec.Header.Decode.{header_of}
use low_latency_trading_gate.Codec.Frames.{typed}
use low_latency_trading_gate.Codec.Requests.{encode_new_order}
use low_latency_trading_gate.Codec.Requests.RoundTrip.NewOrder.{NewOrderFits, new_order-round_trip}
use low_latency_trading_gate.FrameParser.{FrameParser, DecodedMessage, Status}
use low_latency_trading_gate.FrameParser.Valid.{IsCapacity, capacity_bounds, IsValid, contents}
use low_latency_trading_gate.FrameParser.Stream
use low_latency_trading_gate.FrameParser.Stream.{accepts, fill, message}
use low_latency_trading_gate.FrameParser.Orders.{next-frame, order_frame, encoded_frame}
use low_latency_trading_gate.FrameParser.Run.{
  read, parse, taken, parsed, run, run_stream, run_refines,
}

push-fits :
    (capacity : ℕ) (stream bytes : List ℕ)
    → length stream + length bytes ≤ capacity
    → Stream.push capacity stream bytes ≡ (true, stream ++ bytes)
unfolding Stream.push
push-fits capacity stream bytes h = rw (ltb-false capacity (length stream + length bytes) h)

-- What the stream makes of a frame with a right header that arrives in two pieces.
run_stream-frame :
    (capacity : ℕ) (xs ys : List ℕ) (out : DecodedMessage)
    → frame_size ≤ capacity
    → length (xs ++ ys) ≡ frame_size
    → accepts (header_of (xs ++ ys)) ≡ true
    → run_stream capacity [] (read xs ∷ read ys ∷ parse out ∷ [])
      ≡ (taken true ∷ taken true ∷ parsed Status.message_ready (message (xs ++ ys) out) ∷ [], [])
unfolding run_stream
run_stream-frame capacity xs ys out room len good = rw (
  push-fits capacity [] xs (omega (arith, length-append xs ys)),
  push-fits capacity xs ys (omega (arith, length-append xs ys)),
  next-frame (xs ++ ys) out len good,
)

take-drop_append : (n : ℕ) (xs : List ℕ) → take n xs ++ drop n xs ≡ xs
take-drop_append zero xs = refl
take-drop_append (suc n) [] = refl
take-drop_append (suc n) (x ∷ xs) = ap (◌∷◌ x) (take-drop_append n xs)

-- The parser does with the two pieces what the stream does.
delivered :
    {capacity : ℕ} {p : FrameParser} (xs ys : List ℕ) (out : DecodedMessage) {msg : DecodedMessage}
    → IsCapacity capacity
    → IsValid capacity p
    → contents capacity p ≡ []
    → IsBytes (xs ++ ys)
    → length (xs ++ ys) ≡ frame_size
    → accepts (header_of (xs ++ ys)) ≡ true
    → message (xs ++ ys) out ≡ msg
    → (q : FrameParser) × (run capacity p (read xs ∷ read ys ∷ parse out ∷ [])
        ≡ some (taken true ∷ taken true ∷ parsed Status.message_ready msg ∷ [], q))
      × IsValid capacity q
      × (contents capacity q ≡ [])
delivered {capacity} {p} xs ys out {msg} c v empty b l good whole =
    let (replies, q, e, w, k) =
      run_refines (read xs ∷ read ys ∷ parse out ∷ []) c v (front, (back, (tt, tt))) in
    let same : (replies, contents capacity q)
        ≡ (taken true ∷ taken true ∷ parsed Status.message_ready msg ∷ [], []) =
      k
      ∙ ap (λ s. run_stream capacity s (read xs ∷ read ys ∷ parse out ∷ [])) empty
      ∙ run_stream-frame capacity xs ys out (capacity_bounds c).0 l good
      ∙ ap (λ k. (taken true ∷ taken true ∷ parsed Status.message_ready k ∷ [], [])) whole in
    (q, e ∙ ap (λ s. some (s.0, q)) same, w, ap (λ s. s.1) same)
  where
    front : IsBytes xs
    front = subst IsBytes (take-append xs ys) (All-take IsByte (length xs) (xs ++ ys) b)

    back : IsBytes ys
    back = subst IsBytes (drop-append xs ys) (All-drop IsByte (length xs) (xs ++ ys) b)

-- An order that `encode_new_order` writes to a span of 64 bytes and that arrives in two pieces, cut
-- anywhere, at a parser that holds nothing, is parsed to the same order under the same header, with
-- the type and the payload length set; nothing is left over, and no access is out of range. The
-- order and the header have fields in the range of their C++ types, and the header has the right
-- magic and version.
pub new_order_delivered :
    {capacity : ℕ} {p : FrameParser} (header : MessageHeader) (order : NewOrder) (span : List ℕ)
    (cut : ℕ) (out : DecodedMessage)
    → IsCapacity capacity
    → IsValid capacity p
    → contents capacity p ≡ []
    → HeaderFits header
    → header.magic ≡ Protocol.magic
    → header.version ≡ Protocol.version
    → NewOrderFits order
    → IsBytes span
    → length span ≡ frame_size
    → (frame : List ℕ) × (q : FrameParser) × (encode_new_order header order span
        ≡ some (frame_size, frame))
      × (run capacity p (read (take cut frame) ∷ read (drop cut frame) ∷ parse out ∷ [])
          ≡ some (
            taken true
                ∷ taken true
                ∷ parsed Status.message_ready (record out {
                  header = typed header MessageType.new_order;
                  type = MessageType.new_order;
                  new_order = order;
                })
                ∷ [],
            q,
          ))
      × IsValid capacity q
      × (contents capacity q ≡ [])
new_order_delivered {capacity} {p} header order span cut out c v empty fits m ver sent bytes len =
    let (frame, e, rest, h, ok, o) =
      new_order-round_trip header order span fits m ver sent bytes (omega (arith, len)) in
    let (b, l) = encoded_frame header order span frame bytes len e in
    let (good, whole) = order_frame header order frame m ver b (omega (arith, l)) h o out in
    let both = take-drop_append cut frame in
    let (q, runs, valid, none_left) =
      delivered (take cut frame) (drop cut frame) out c v empty (subst IsBytes (sym both) b)
        (ap length both ∙ l) (ap (λ f. accepts (header_of f)) both ∙ good)
        (ap (λ f. message f out) both ∙ whole) in
    (frame, q, e, runs, valid, none_left)
