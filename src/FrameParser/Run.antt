-- ===== src/FrameParser/Run.antt =====
-- A parser against the byte stream, over any sequence of reads and parses.
use low_latency_trading_gate.Base.{
  ℕ, ◌+◌, ◌≡◌, refl, List, [], ◌∷◌, Option, some, Bool, true, false, arith, length, All, lt→ltb,
  ltb-false, ◌>>=◌,
}
use native.Mathlib.Decide.{dec_lt}
use low_latency_trading_gate.Base.Bytes.{IsBytes}
use low_latency_trading_gate.FrameParser.{
  FrameParser, DecodedMessage, Status, size, append, try_parse,
}
use low_latency_trading_gate.FrameParser.Valid.{IsCapacity, IsValid, contents, length-contents}
use low_latency_trading_gate.FrameParser.Append.{append_lem, append-refused}
use low_latency_trading_gate.FrameParser.Parse.{try_parse_refines}
use low_latency_trading_gate.FrameParser.Stream

-- What the owner of a parser does with it: append a chunk that was read, or parse.
pub data Op : Type 0 where
  read : List ℕ → Op
  parse : DecodedMessage → Op

pub data Reply : Type 0 where
  taken : Bool → Reply
  parsed : Status → DecodedMessage → Reply

pub run : ℕ → FrameParser → List Op → Option (List Reply × FrameParser)
run capacity p [] = some ([], p)
run capacity p (read bytes ∷ ops) = do
  (fits, p) ← append capacity p bytes
  (replies, p) ← run capacity p ops
  some (taken fits ∷ replies, p)
run capacity p (parse out ∷ ops) = do
  (status, p, msg) ← try_parse capacity p out
  (replies, p) ← run capacity p ops
  some (parsed status msg ∷ replies, p)

-- The same on the stream of bytes.
unfoldable pub run_stream : ℕ → List ℕ → List Op → List Reply × List ℕ
run_stream capacity stream [] = ([], stream)
run_stream capacity stream (read bytes ∷ ops) =
    let (fits, stream) = Stream.push capacity stream bytes in
    let (replies, stream) = run_stream capacity stream ops in (taken fits ∷ replies, stream)
run_stream capacity stream (parse out ∷ ops) =
    let (status, stream, msg) = Stream.next stream out in
    let (replies, stream) = run_stream capacity stream ops in (parsed status msg ∷ replies, stream)

abbrev pub HasBytes : Op → Type 0
HasBytes (read bytes) = IsBytes bytes
HasBytes (parse out) = Unit {0}

-- On a valid parser, whose capacity is a power of 2 and a multiple of 64, `append` is `push` on the
-- contents, with no access outside the buffer: it takes all of a chunk of bytes that fits, and
-- nothing of one that does not.
pub append_refines :
    {capacity : ℕ} {p : FrameParser} (bytes : List ℕ)
    → IsCapacity capacity
    → IsValid capacity p
    → IsBytes bytes
    → (fits : Bool) × (q : FrameParser) × (append capacity p bytes ≡ some (fits, q))
      × IsValid capacity q
      × ((fits, contents capacity q) ≡ Stream.push capacity (contents capacity p) bytes)
unfolding Stream.push
append_refines {capacity} {p} bytes c v b = elim (dec_lt capacity (size p + length bytes)) [
  | yes over ↦ (
    false,
    p,
    append-refused bytes c v over,
    v,
    rw (
        lt→ltb capacity (length (contents capacity p) + length bytes)
          (omega (arith, length-contents capacity p))),
  )
  | no fits ↦
      let (q, e, w, k) = append_lem bytes c v b (omega arith) in
      (
        true,
        q,
        e,
        w,
        rw (
          ltb-false capacity (length (contents capacity p) + length bytes)
              (omega (arith, length-contents capacity p)),
          k,
        ),
      )
]

-- From a valid parser on, whose capacity is a power of 2 and a multiple of 64, no sequence of reads
-- of bytes and of parses makes an access outside the buffer, breaks the invariant, or tells the
-- parser from the stream of the bytes that it holds.
pub run_refines :
    {capacity : ℕ} (ops : List Op) {p : FrameParser}
    → IsCapacity capacity
    → IsValid capacity p
    → All HasBytes ops
    → (replies : List Reply) × (q : FrameParser) × (run capacity p ops ≡ some (replies, q))
      × IsValid capacity q
      × ((replies, contents capacity q) ≡ run_stream capacity (contents capacity p) ops)
unfolding run run_stream
run_refines [] {p} c v h = ([], p, refl, v, refl)
run_refines (read bytes ∷ ops) c v h =
    let (fits, q, e, w, k) = append_refines bytes c v h.0 in
    let (replies, r, e', w', k') = run_refines ops c w h.1 in
    (taken fits ∷ replies, r, rw (e, e'), w', rw (← k, ← k'))
run_refines (parse out ∷ ops) c v h =
    let (status, q, msg, e, w, k) = try_parse_refines out c v in
    let (replies, r, e', w', k') = run_refines ops c w h.1 in
    (parsed status msg ∷ replies, r, rw (e, e'), w', rw (← k, ← k'))
