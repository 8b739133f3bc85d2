-- ===== src/FrameParser/Parse.antt =====
-- `FrameParser::try_parse` takes the next frame from the front of the contents.
use native.Mathlib.Decide.{dec_lt}
use low_latency_trading_gate.Base.{
  ℕ, ◌≤◌, ◌≡◌, refl, ap, ◌∙◌, List, some, true, not, ◌&&◌, arith, length, take, ltb-false, lt→ltb,
  length-take, All-take, slice-take, Bool-cases, if◌then◌else◌, inl, inr,
}
use low_latency_trading_gate.Base.Bytes.{IsByte, IsBytes}
use low_latency_trading_gate.Protocol.{MessageType, frame_size, header_size}
use low_latency_trading_gate.Protocol.MessageHeader
use low_latency_trading_gate.Protocol.MessageHeader.{MessageHeader}
use low_latency_trading_gate.Codec.Header.{
  decode_header, is_known_request_type, check_magic_version, validate_header,
}
use low_latency_trading_gate.Codec.Header.Decode.{header_of, decode_header_lem}
use low_latency_trading_gate.Codec.Requests.Decode.{
  decode_new_order_lem, decode_cancel_order_lem, decode_modify_order_lem,
}
use low_latency_trading_gate.FrameParser.{
  FrameParser, DecodedMessage, Status, size, readable_span, move_read_pos, parse_order, try_parse,
  is_ok,
}
use low_latency_trading_gate.FrameParser.Valid.{IsCapacity, IsValid, contents, length-contents}
use low_latency_trading_gate.FrameParser.Front.{
  readable_span_lem, frame-IsBytes, move_read_pos-IsValid, drop-contents,
}
use low_latency_trading_gate.FrameParser.Stream
use low_latency_trading_gate.FrameParser.Stream.{accepts, fill, message}

accepts-eq :
    (h : MessageHeader) → accepts h ≡ is_ok (check_magic_version h) && is_ok (validate_header h)
unfolding accepts check_magic_version validate_header
accepts-eq h = ground arith

-- The header stands in the first half of the frame.
header_of-take : (xs : List ℕ) → header_of (take header_size xs) ≡ header_of xs
header_of-take xs = rw (
  slice-take 0 4 32 xs (omega arith),
  slice-take 4 2 32 xs (omega arith),
  slice-take 6 2 32 xs (omega arith),
  slice-take 8 2 32 xs (omega arith),
  slice-take 10 2 32 xs (omega arith),
  slice-take 12 8 32 xs (omega arith),
  slice-take 20 8 32 xs (omega arith),
  slice-take 28 4 32 xs (omega arith),
)

decode_header-take :
    (frame : List ℕ)
    → IsBytes frame
    → frame_size ≤ length frame
    → decode_header (take header_size frame) MessageHeader.default
      ≡ some (check_magic_version (header_of frame), header_of frame)
decode_header-take frame b len =
    decode_header_lem (take header_size frame) MessageHeader.default
      (All-take IsByte header_size frame b) (omega (arith, length-take header_size frame))
    ∙ ap (λ h. some (check_magic_version h, h)) (header_of-take frame)

parse_order-known :
    (t : MessageType) (p : FrameParser) (span : List ℕ) (out : DecodedMessage)
    → is_known_request_type t ≡ true
    → IsBytes span
    → frame_size ≤ length span
    → parse_order t p span out
      ≡ some (Status.message_ready, move_read_pos p frame_size, fill t span out)
unfolding parse_order fill is_known_request_type
parse_order-known MessageType.new_order p span out k b len =
    rw (decode_new_order_lem span out.new_order b len)
parse_order-known MessageType.cancel_order p span out k b len =
    rw (decode_cancel_order_lem span out.cancel_order b len)
parse_order-known MessageType.modify_order p span out k b len =
    rw (decode_modify_order_lem span out.modify_order b len)
parse_order-known MessageType.heartbeat p span out k b len = refl
parse_order-known MessageType.logout p span out k b len = refl
parse_order-known _ p span out k b len = cc

known_of_valid :
    (h : MessageHeader)
    → is_ok (validate_header h) ≡ true
    → is_known_request_type h.message_type ≡ true
unfolding validate_header
known_of_valid h e = ground arith

-- The two tests on the header, and the switch behind them.
parse_after_header :
    (h : MessageHeader) (p : FrameParser) (frame : List ℕ) (out : DecodedMessage)
    → IsBytes frame
    → frame_size ≤ length frame
    → (if not (is_ok (check_magic_version h))
        then some (Status.protocol_error, p, out)
        else if not (is_ok (validate_header h))
        then some (Status.protocol_error, p, out)
        else parse_order h.message_type p frame (record out { header = h; type = h.message_type }))
      ≡ some (
          if is_ok (check_magic_version h) && is_ok (validate_header h)
          then (
            Status.message_ready,
            move_read_pos p frame_size,
            fill h.message_type frame (record out { header = h; type = h.message_type }),
          )
          else (Status.protocol_error, p, out))
parse_after_header h p frame out b len = elim (Bool-cases (is_ok (check_magic_version h))) [
  | inl e ↦ elim (Bool-cases (is_ok (validate_header h))) [
    | inl f ↦
        rw (e, f)
          (parse_order-known h.message_type p frame
            (record out { header = h; type = h.message_type }) (known_of_valid h f) b len)
    | inr f ↦ rw (e, f)
  ]
  | inr e ↦ rw e
]

-- `try_parse` on a whole frame: one test decides, and nothing is read out of range.
try_parse-frame :
    (capacity : ℕ) (p : FrameParser) (out : DecodedMessage) (frame : List ℕ)
    → frame_size ≤ size p
    → readable_span capacity p ≡ some frame
    → IsBytes frame
    → frame_size ≤ length frame
    → try_parse capacity p out
      ≡ some (
          if accepts (header_of frame)
          then (Status.message_ready, move_read_pos p frame_size, message frame out)
          else (Status.protocol_error, p, out))
unfolding try_parse message
try_parse-frame capacity p out frame whole span b len =
    rw
      (
        ltb-false (size p) frame_size whole,
        span,
        decode_header-take frame b len,
        accepts-eq (header_of frame),
      )
      (parse_after_header (header_of frame) p frame out b len)

-- On a valid parser, whose capacity is a power of 2 and a multiple of 64, `try_parse` makes no access
-- outside the buffer, keeps the invariant, and does to the contents what the specification does: it
-- reports that more bytes are needed, consumes exactly one frame with a right header, or reports an
-- error and consumes nothing.
pub try_parse_refines :
    {capacity : ℕ} {p : FrameParser} (out : DecodedMessage)
    → IsCapacity capacity
    → IsValid capacity p
    → (status : Status) × (q : FrameParser) × (msg : DecodedMessage) × (try_parse capacity p out
        ≡ some (status, q, msg))
      × IsValid capacity q
      × ((status, contents capacity q, msg) ≡ Stream.next (contents capacity p) out)
unfolding Stream.next
try_parse_refines {capacity} {p} out c v = elim (dec_lt (size p) frame_size) [
  | yes short ↦ (
    Status.need_more_data,
    p,
    out,
    unfold try_parse in rw (lt→ltb (size p) frame_size short),
    v,
    rw (
        lt→ltb (length (contents capacity p)) frame_size
          (omega (arith, length-contents capacity p))),
  )
  | no long ↦ elim (Bool-cases (accepts (header_of (take frame_size (contents capacity p))))) [
    | inl good ↦ (
      Status.message_ready,
      move_read_pos p frame_size,
      message (take frame_size (contents capacity p)) out,
      parsed (omega arith) ∙ rw good,
      move_read_pos-IsValid c v (omega arith),
      rw (
        ltb-false (length (contents capacity p)) frame_size
            (omega (arith, length-contents capacity p)),
        good,
        drop-contents c v frame_size (omega arith),
      ),
    )
    | inr bad ↦ (
      Status.protocol_error,
      p,
      out,
      parsed (omega arith) ∙ rw bad,
      v,
      rw (
        ltb-false (length (contents capacity p)) frame_size
            (omega (arith, length-contents capacity p)),
        bad,
      ),
    )
  ]
]
  where
    parsed :
        frame_size ≤ size p
        → try_parse capacity p out
          ≡ some (
              if accepts (header_of (take frame_size (contents capacity p)))
              then (
                Status.message_ready,
                move_read_pos p frame_size,
                message (take frame_size (contents capacity p)) out,
              )
              else (Status.protocol_error, p, out))
    parsed whole =
        try_parse-frame capacity p out (take frame_size (contents capacity p)) whole
          (readable_span_lem c v whole) (frame-IsBytes c v whole)
          (omega (arith, length-take frame_size (contents capacity p), length-contents capacity p))
