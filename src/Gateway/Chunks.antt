-- ===== src/Gateway/Chunks.antt =====
-- A chunk of bytes of a client against the dialogue.
use native.Mathlib.Decide.{dec_lt}
use low_latency_trading_gate.Base.{
  ℕ, ◌+◌, ◌-◌, ◌*◌, ◌≤◌, ◌<◌, ◌≡◌, refl, ap, ◌∙◌, subst, List, ◌++◌, Option, some, false, length,
  Returns, arith,
}
use low_latency_trading_gate.Base.Bytes.{IsBytes}
use low_latency_trading_gate.Base.Maps.{find, find-assign}
use low_latency_trading_gate.Spsc.Places
use low_latency_trading_gate.Protocol.{frame_size}
use low_latency_trading_gate.FrameParser
use low_latency_trading_gate.FrameParser.{FrameParser}
use low_latency_trading_gate.FrameParser.Valid as Parsers
use low_latency_trading_gate.FrameParser.Append.{append_lem, append-refused}
use low_latency_trading_gate.Gateway.{Connection, Limits, Gateway, no_command, put}
use low_latency_trading_gate.Gateway.Serve.{serve_rounds, serve_bytes}
use low_latency_trading_gate.Gateway.Dialogue.{converse}
use low_latency_trading_gate.Gateway.Valid.{IsLimits, IsValid}
use low_latency_trading_gate.Gateway.Close.{Closed, close_conn-Closed, announce, vacate}
use low_latency_trading_gate.Gateway.Refine.{view, client_of, Rest, Serves, put-Serves}
use low_latency_trading_gate.Gateway.Rounds.{serve-Served}

module _ {l : Limits} (i : IsLimits l) (fd : ℕ) (g : Gateway) (conn : Connection) where
  -- What the client's dialogue says of a chunk that its parser has room for.
  pub record Conversed (chunk : List ℕ) (g' : Gateway) : Type 0 where
    pub valid : IsValid i g'
    pub conn' : Connection
    pub there : find fd g'.connections ≡ some conn'
    pub token : conn'.token ≡ conn.token
    pub rest : Rest g g'
    pub meets :
        view l conn' g'
        ≡ converse (serve_rounds l) (l.queue_capacity - 1) fd conn.token (record (view l conn g) {
          stream = Parsers.contents l.parser_capacity conn.parser ++ chunk;
        })

  module _ (v : IsValid i g) (there : find fd g.connections ≡ some conn) where
    -- A valid state in which the loop starts, with the bytes in the parser.
    start :
        (parser : FrameParser)
        → Parsers.IsValid l.parser_capacity parser
        → Serves i fd (record {
          conn = record conn { parser = parser };
          should_close = false;
          gateway = put fd (record conn { parser = parser }) g;
        })
    start parser w =
        let c = v.connections fd conn there in
        put-Serves i fd (record { conn = conn; should_close = false; gateway = g })
          (record conn { parser = parser }) (record { gateway = v; there = there; conn = c })
          (record { parser = w; slot = c.slot; fd = c.fd })

    -- The bytes of a valid parser are fewer than the frames that the loop has rounds for.
    few :
        (parser : FrameParser)
        → Parsers.IsValid l.parser_capacity parser
        → length (Parsers.contents l.parser_capacity parser) < serve_rounds l * frame_size
    few parser w = omega (arith, w.fits, Parsers.length-contents l.parser_capacity parser)

    -- In a valid state, a chunk of bytes that the connection's parser has room for is served with no
    -- access out of range, in the rounds that the loop is given. The state stays valid, the
    -- connection stays in the map with its token, and its sequence number, its bytes left, the
    -- commands for the engine and the calls are those of the dialogue on the bytes held and the
    -- chunk behind them. The slots and the responses are as they were.
    pub serve_bytes-Conversed :
        (chunk : List ℕ)
        → IsBytes chunk
        → FrameParser.size conn.parser + length chunk ≤ l.parser_capacity
        → Returns (serve_bytes l fd conn chunk g) (Conversed chunk)
    unfolding serve_bytes
    serve_bytes-Conversed chunk bytes room =
        let c = v.connections fd conn there in
        let (parser, e, w, k) = append_lem chunk i.parser c.parser bytes room in
        let (s', e', h) = serve-Served i fd (serve_rounds l) (start parser w) refl (few parser w) in
        (
          s'.gateway,
          rw (e, e'),
          record {
            valid = h.serves.gateway;
            conn' = s'.conn;
            there = h.serves.there;
            token = h.token;
            rest = h.rest;
            meets =
                subst
                  (λ (bytes : List ℕ).
                    client_of i fd s'
                    ≡ converse (serve_rounds l) (l.queue_capacity - 1) fd conn.token
                        (record (view l conn g) { stream = bytes }))
                  k h.meets;
          },
        )

    -- In a valid state, a chunk of bytes that the connection's parser has no room for closes the
    -- connection.
    pub serve_bytes-Closed :
        (chunk : List ℕ)
        → l.parser_capacity < FrameParser.size conn.parser + length chunk
        → Returns (serve_bytes l fd conn chunk g) (Closed i fd g)
    unfolding serve_bytes
    serve_bytes-Closed chunk full =
        let c = v.connections fd conn there in
        let (g', e, h) = close_conn-Closed i (start conn.parser c.parser).gateway fd in
        let law = λ (k : ℕ). find-assign fd conn k g.connections conn there in
        (
          g',
          rw (append-refused chunk i.parser c.parser full, e),
          record {
            valid = h.valid;
            left = λ k. h.left k ∙ ground (arith, law k);
            slots =
                h.slots
                ∙ ap (λ (was : Option Connection). vacate was g.slots) (ground (arith, law fd));
            responses = h.responses;
            calls = h.calls;
            told =
                h.told
                ∙ ap
                    (λ (was : Option Connection).
                      announce (l.queue_capacity - 1) was
                        (Places.contents no_command l.queue_capacity g.cmd_queue.ring))
                    (ground (arith, law fd));
          },
        )

    pub serve_bytes-IsValid :
        (chunk : List ℕ) → IsBytes chunk → Returns (serve_bytes l fd conn chunk g) (IsValid i)
    serve_bytes-IsValid chunk bytes =
        elim (dec_lt l.parser_capacity (FrameParser.size conn.parser + length chunk)) [
          | yes full ↦ let (g', e, h) = serve_bytes-Closed chunk full in (g', e, h.valid)
          | no room ↦
              let (g', e, h) = serve_bytes-Conversed chunk bytes (omega arith) in (g', e, h.valid)
        ]
