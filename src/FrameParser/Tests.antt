-- ===== src/FrameParser/Tests.antt =====
-- Concrete inputs for the theorems about frame_parser.hpp: a buffer of 128 bytes whose contents go
-- round both the end of the buffer and 2 ^ 64.
use low_latency_trading_gate.Base.{
  ℕ, ◌≡◌, refl, List, [], ◌∷◌, ◌++◌, some, Bool, true, arith, replicate, take, drop, length,
  Returns,
}
use low_latency_trading_gate.Protocol.{
  MessageType, message_type_code, message_type_of, Side, side_code, side_of, frame_size,
}
use low_latency_trading_gate.Protocol.MessageHeader
use low_latency_trading_gate.Protocol.MessageHeader.{MessageHeader}
use low_latency_trading_gate.Protocol.NewOrder.{NewOrder}
use low_latency_trading_gate.Codec.Header.Bytes.{HeaderFits}
use low_latency_trading_gate.Codec.Frames.{typed}
use low_latency_trading_gate.Codec.Requests.{encode_new_order}
use low_latency_trading_gate.FrameParser.{
  FrameParser, DecodedMessage, Status, no_message, fresh, size, append, try_parse, readable_span,
}
use low_latency_trading_gate.FrameParser.Valid.{IsCapacity, IsValid, contents, fresh-IsValid}
use low_latency_trading_gate.FrameParser.Stream
use low_latency_trading_gate.FrameParser.Span.{run-readable_span}
use low_latency_trading_gate.FrameParser.Parse.{try_parse_refines}
use low_latency_trading_gate.FrameParser.Run.{
  Op, read, parse, Reply, taken, parsed, run, run_stream, append_refines, run_refines,
}
use low_latency_trading_gate.FrameParser.Delivery.{new_order_delivered}

abbrev header : MessageHeader
header = record MessageHeader.default { sequence_number = 7; session_id = 0x1_0000_0001 }

header-Fits : HeaderFits header
unfolding message_type_code message_type_of
header-Fits = record {
  magic = omega arith;
  version = omega arith;
  message_type = record { small = omega arith; canonical = refl };
  payload_length = omega arith;
  flags = omega arith;
  sequence_number = omega arith;
  session_id = omega arith;
  reserved = omega arith;
}

abbrev order : NewOrder
order = record { client_order_id = 42; side = Side.sell; price = 10_000; quantity = 5 }

abbrev frame : List ℕ
frame = 0x67 ∷ 0x74 ∷ 0x6c ∷ 0x6c ∷ 1 ∷ 0 ∷ 5 ∷ 0 ∷ 32 ∷ replicate 55 0

-- Holds a frame at place 64 and the six bytes 67 74 6c 6c 01 00 of the next at place 0.
abbrev wrapped : FrameParser
wrapped = record {
  buffer = 0x67 ∷ 0x74 ∷ 0x6c ∷ 0x6c ∷ 1 ∷ replicate 59 0 ++ frame;
  read_pos = 0xffff_ffff_ffff_ffc0;
  write_pos = 6;
}

word128-IsCapacity : IsCapacity 128
word128-IsCapacity = record { aligned = refl; exponent = 7; power = refl; word = omega arith }

wrapped-IsValid : IsValid 128 wrapped
unfolding size
wrapped-IsValid = record {
  sized = refl;
  bytes = omega arith;
  aligned = refl;
  read_in = omega arith;
  write_in = omega arith;
  fits = omega arith;
}

try_parse_refines_example :
    (status : Status) × (q : FrameParser) × (msg : DecodedMessage) × (try_parse 128 wrapped
        no_message
      ≡ some (status, q, msg))
    × IsValid 128 q
    × ((status, contents 128 q, msg) ≡ Stream.next (contents 128 wrapped) no_message)
try_parse_refines_example = try_parse_refines no_message word128-IsCapacity wrapped-IsValid

append_refines_example :
    (fits : Bool) × (q : FrameParser) × (append 128 wrapped frame ≡ some (fits, q))
    × IsValid 128 q
    × ((fits, contents 128 q) ≡ Stream.push 128 (contents 128 wrapped) frame)
append_refines_example = append_refines frame word128-IsCapacity wrapped-IsValid (omega arith)

run_refines_example :
    (replies : List Reply) × (q : FrameParser) × (run 128 wrapped
        (parse no_message ∷ read frame ∷ read frame ∷ parse no_message ∷ [])
      ≡ some (replies, q))
    × IsValid 128 q
    × ((replies, contents 128 q)
        ≡ run_stream 128
            (contents 128 wrapped)
            (parse no_message ∷ read frame ∷ read frame ∷ parse no_message ∷ []))
run_refines_example =
    run_refines (parse no_message ∷ read frame ∷ read frame ∷ parse no_message ∷ [])
      word128-IsCapacity wrapped-IsValid (tt, (omega arith, (omega arith, (tt, tt))))

-- A chunk that is a frame and a half, of which the frame is parsed.
abbrev split : List Op
split = read (frame ++ take 32 frame) ∷ parse no_message ∷ []

run-readable_span_example :
    let stream = (run_stream 128 [] split).1 in
    Returns (run 128 (fresh 128) split) (λ (r : List Reply × FrameParser).
      Returns
        (readable_span 128 r.1)
        (λ (span : List ℕ). (length span ≡ 64) × (take (length stream) span ≡ take 64 stream)))
run-readable_span_example = run-readable_span split word128-IsCapacity (omega arith, (tt, tt))

new_order_delivered_example :
    (sent : List ℕ) × (q : FrameParser) × (encode_new_order header order (replicate 64 0)
      ≡ some (frame_size, sent))
    × (run 128 (fresh 128) (read (take 37 sent) ∷ read (drop 37 sent) ∷ parse no_message ∷ [])
        ≡ some (
          taken true
              ∷ taken true
              ∷ parsed Status.message_ready (record no_message {
                header = typed header MessageType.new_order;
                type = MessageType.new_order;
                new_order = order;
              })
              ∷ [],
          q,
        ))
    × IsValid 128 q
    × (contents 128 q ≡ [])
unfolding side_code side_of
new_order_delivered_example =
    new_order_delivered header order (replicate 64 0) 37 no_message word128-IsCapacity
      (fresh-IsValid word128-IsCapacity).0 (fresh-IsValid word128-IsCapacity).1 header-Fits refl
      refl
      (record {
        client_order_id = omega arith;
        side = record { small = omega arith; canonical = refl };
        price = omega arith;
        quantity = omega arith;
      })
      (omega arith) refl
