-- ===== src/Gateway/Quiet.antt =====
-- How far the dialogue on a chunk goes.
use native.Mathlib.Decide.{dec_lt}
use low_latency_trading_gate.Base.{
  ℕ, zero, suc, ◌+◌, ◌-◌, ◌*◌, ◌%◌, ◌^◌, ◌≤◌, ◌<◌, ◌≡◌, refl, sym, ap, ◌∙◌, subst, List, ◌++◌, some,
  ◌==◌, length, length-append, Returns, arith, Bool-cases, ==_iff, false, inl, inr, ◌⊎◌, take, drop,
  length-drop, lt→ltb, ltb-false,
}
use low_latency_trading_gate.Base.Bytes.{IsBytes}
use low_latency_trading_gate.Base.Maps.{find}
use low_latency_trading_gate.Protocol.{MessageType, frame_size}
use low_latency_trading_gate.Codec.Header.Decode.{header_of}
use low_latency_trading_gate.FrameParser
use low_latency_trading_gate.FrameParser.{DecodedMessage, Status, no_message}
use low_latency_trading_gate.FrameParser.Valid as Parsers
use low_latency_trading_gate.FrameParser.Stream
use low_latency_trading_gate.Engine.{SessionToken}
use low_latency_trading_gate.Gateway.{Connection, Limits, Gateway}
use low_latency_trading_gate.Gateway.Serve.{Next, again, stop, serve_rounds, serve_bytes}
use low_latency_trading_gate.Gateway.Valid.{IsLimits, IsValid}
use low_latency_trading_gate.Gateway.Dialogue.{
  Client, hear_type, hear, hear_status, hear_next, converse,
}
use low_latency_trading_gate.Gateway.Refine.{view}
use low_latency_trading_gate.Gateway.Conversation.{converse_stop, converse_again}
use low_latency_trading_gate.Gateway.Chunks.{serve_bytes-Conversed}

next-cases :
    (stream : List ℕ) (out : DecodedMessage)
    → ((length stream < frame_size)
        × (Stream.next stream out ≡ (Status.need_more_data, stream, out)))
      ⊎ (((frame_size ≤ length stream)
            × (Stream.accepts (header_of (take frame_size stream)) ≡ false)
            × (Stream.next stream out ≡ (Status.protocol_error, stream, out)))
          ⊎ ((msg : DecodedMessage) × (frame_size ≤ length stream)
              × (Stream.next stream out ≡ (Status.message_ready, drop frame_size stream, msg))))
unfolding Stream.next
next-cases stream out = elim (dec_lt (length stream) frame_size) [
  | yes short ↦ rw (lt→ltb (length stream) frame_size short) (inl (short, refl))
  | no long ↦
      let enough : frame_size ≤ length stream = omega arith in
      rw (ltb-false (length stream) frame_size enough)
        (elim (Bool-cases (Stream.accepts (header_of (take frame_size stream)))) [
          | inl good ↦
              rw good (inr (inr (Stream.message (take frame_size stream) out, enough, refl)))
          | inr bad ↦ rw bad (inr (inl (enough, refl, refl)))
        ])
]

module _ (bound fd : ℕ) (token : SessionToken) where
  -- The clients that the dialogue goes through from a start, message by message, as long as it goes
  -- on.
  pub data Hears (start : Client) : Client → Type 0 where
    here : Hears start start
    next :
        {c c' : Client} → Hears start c → hear_next bound fd token c ≡ (again, c') → Hears start c'

  -- Where the dialogue from a start ends: before a stream that is shorter than a frame, before a
  -- frame with a wrong header, or behind a logout in sequence.
  pub data Quiet (start c : Client) : Type 0 where
    short : Hears start c → length c.stream < frame_size → Quiet start c
    wrong :
        Hears start c
        → frame_size ≤ length c.stream
        → Stream.accepts (header_of (take frame_size c.stream)) ≡ false
        → Quiet start c
    logged_out :
        (before : Client) (msg : DecodedMessage)
        → Hears start before
        → Stream.next before.stream no_message ≡ (Status.message_ready, c.stream, msg)
        → msg.type ≡ MessageType.logout
        → msg.header.sequence_number ≡ before.expected
        → hear_next bound fd token before ≡ (stop, c)
        → Quiet start c

  -- What ends the dialogue at a message: a logout in sequence.
  abbrev Goes : DecodedMessage → Client → Next × Client → Type 0
  Goes msg c (again, c') = c'.stream ≡ c.stream
  Goes msg c (stop, c') =
      (msg.type ≡ MessageType.logout)
      × (msg.header.sequence_number ≡ c.expected)
      × (c'.stream ≡ c.stream)

  hear_type-Goes :
      (t : MessageType) (msg : DecodedMessage) (c c' : Client)
      → msg.type ≡ t
      → msg.header.sequence_number ≡ c.expected
      → c'.stream ≡ c.stream
      → Goes msg c (hear_type t bound fd token msg c')
  unfolding hear_type
  hear_type-Goes MessageType.logout msg c c' same seq left = (same, seq, left)
  hear_type-Goes MessageType.heartbeat msg c c' same seq left = left
  hear_type-Goes _ msg c c' same seq left = left

  hear-Goes : (msg : DecodedMessage) (c : Client) → Goes msg c (hear bound fd token msg c)
  unfolding hear
  hear-Goes msg c = elim (Bool-cases (msg.header.sequence_number == c.expected)) [
    | inl same ↦ rw same (
        hear_type-Goes msg.type msg c (record c { expected = (c.expected + 1) % 2 ^ 64 }) refl
          ((==_iff msg.header.sequence_number c.expected).0 same) refl)
    | inr other ↦ rw other refl
  ]

  hear_next-waits :
      (c : Client) {status : Status}
      → (status ≡ Status.need_more_data) ⊎ (status ≡ Status.protocol_error)
      → Stream.next c.stream no_message ≡ (status, c.stream, no_message)
      → hear_next bound fd token c ≡ (stop, c)
  unfolding hear_next hear_status
  hear_next-waits c (inl waits) e = rw (e, waits)
  hear_next-waits c (inr refuses) e = rw (e, refuses)

  hear_next-hears :
      (c : Client) (rest : List ℕ) (msg : DecodedMessage)
      → Stream.next c.stream no_message ≡ (Status.message_ready, rest, msg)
      → hear_next bound fd token c ≡ hear bound fd token msg (record c { stream = rest })
  unfolding hear_next hear_status
  hear_next-hears c rest msg e = rw e

  converse-step :
      (rounds : ℕ) {start c : Client} (rest : List ℕ) (msg : DecodedMessage) (r : Next × Client)
      → Hears start c
      → Stream.next c.stream no_message ≡ (Status.message_ready, rest, msg)
      → hear_next bound fd token c ≡ r
      → Goes msg (record c { stream = rest }) r
      → ((c' : Client)
          → Hears start c'
          → c'.stream ≡ rest
          → Quiet start (converse rounds bound fd token c'))
      → Quiet start (converse (suc rounds) bound fd token c)
  converse-step rounds {start} {c} rest msg (again, c') so_far e hears goes more =
      subst (Quiet start) (sym (converse_again rounds bound fd token c hears))
        (more c' (next so_far hears) goes)
  converse-step rounds {start} {c} rest msg (stop, c') so_far e hears (last, seq, left) more =
      subst (Quiet start) (sym (converse_stop rounds bound fd token c hears)) (
        logged_out c msg so_far
          (e ∙ ap (λ (stream : List ℕ). (Status.message_ready, stream, msg)) (sym left)) last seq
          hears)

  converse-Quiet :
      (rounds : ℕ) {start c : Client}
      → Hears start c
      → length c.stream < rounds * frame_size
      → Quiet start (converse rounds bound fd token c)
  converse-Quiet zero so_far few = absurd (omega arith)
  converse-Quiet (suc rounds) {start} {c} so_far few = elim (next-cases c.stream no_message) [
    | inl (less, e) ↦
        let ends = converse_stop rounds bound fd token c (hear_next-waits c (inl refl) e) in
        subst (Quiet start) (sym ends) (short so_far less)
    | inr (inl (enough, bad, e)) ↦
        let ends = converse_stop rounds bound fd token c (hear_next-waits c (inr refl) e) in
        subst (Quiet start) (sym ends) (wrong so_far enough bad)
    | inr (inr (msg, enough, e)) ↦
        let rest = drop frame_size c.stream in
        let heard : Client = record c { stream = rest } in
        converse-step rounds rest msg (hear bound fd token msg heard) so_far e
          (hear_next-hears c rest msg e) (hear-Goes msg heard)
          λ c' further left.
            converse-Quiet rounds further
              (omega (arith, length-drop frame_size c.stream, ap length left))
  ]

-- In a valid state, a chunk of bytes that the connection's parser has room for is served until the
-- dialogue ends by itself. From the bytes held and the chunk behind them, one message after another
-- is heard, and this goes on until less than a frame is left, the frame at the front has a wrong
-- header, or a logout in sequence has just been heard: no other message ends it, so but for what is
-- behind a logout no message that could be heard is left waiting.
pub serve_bytes-Quiet :
    {l : Limits} (i : IsLimits l) (fd : ℕ) (g : Gateway) (conn : Connection)
    → IsValid i g
    → find fd g.connections ≡ some conn
    → (chunk : List ℕ) → IsBytes chunk
    → FrameParser.size conn.parser + length chunk ≤ l.parser_capacity
    → Returns (serve_bytes l fd conn chunk g) (λ (g' : Gateway).
      (conn' : Connection) × (find fd g'.connections ≡ some conn')
      × Quiet
          (l.queue_capacity - 1)
          fd
          conn.token
          (record (view l conn g) {
            stream = Parsers.contents l.parser_capacity conn.parser ++ chunk;
          })
          (view l conn' g'))
serve_bytes-Quiet {l} i fd g conn v there chunk bytes room =
    let (g', e, h) = serve_bytes-Conversed i fd g conn v there chunk bytes room in
    let held = Parsers.contents l.parser_capacity conn.parser in
    let few : length (held ++ chunk) < serve_rounds l * frame_size =
      omega
        (arith, length-append held chunk, Parsers.length-contents l.parser_capacity conn.parser) in
    let start : Client = record (view l conn g) { stream = held ++ chunk } in
    (
      g',
      e,
      (
        h.conn',
        h.there,
        subst (Quiet (l.queue_capacity - 1) fd conn.token start) (sym h.meets)
            (converse-Quiet (l.queue_capacity - 1) fd conn.token (serve_rounds l) here few),
      ),
    )
