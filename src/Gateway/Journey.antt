-- ===== src/Gateway/Journey.antt =====
-- The way of an order: from the bytes of a client over the matching thread to the answer.
use low_latency_trading_gate.Base.{
  ℕ, suc, ◌+◌, ◌-◌, ◌/◌, ◌%◌, ◌^◌, ◌≡◌, refl, sym, ap, ◌∙◌, subst, List, [], ◌∷◌, ◌++◌, some, true,
  false, ◌==◌, length, Returns, arith, ==_iff, lt→ltb,
}
use low_latency_trading_gate.Base.Bytes.{IsBytes}
use low_latency_trading_gate.Base.Maps.{find}
use low_latency_trading_gate.Protocol.{frame_size}
use low_latency_trading_gate.Protocol.MessageHeader.{MessageHeader}
use low_latency_trading_gate.Protocol.NewOrder.{NewOrder}
use low_latency_trading_gate.FrameParser
use low_latency_trading_gate.FrameParser.{DecodedMessage, Status, no_message}
use low_latency_trading_gate.FrameParser.Valid as Parsers
use low_latency_trading_gate.FrameParser.Stream
use low_latency_trading_gate.Spsc.Queue
use low_latency_trading_gate.Spsc.Places
use low_latency_trading_gate.Gateway.Matching.{Matching, is_shutdown, match_round}
use low_latency_trading_gate.Engine.{
  EngineCommand, EngineResponse, no_response, respond, encode_response,
}
use low_latency_trading_gate.Gateway.{Connection, Limits, Call, sent, Gateway, no_command, no_frame}
use low_latency_trading_gate.Gateway.Serve.{
  command_of, Next, again, bytes, would_block, serve_connection, serve_bytes, serve_rounds,
}
use low_latency_trading_gate.Gateway.Responses.{Send, is_whole, drain}
use low_latency_trading_gate.Gateway.Loop.{client_event, handle_event}
use low_latency_trading_gate.Gateway.Valid.{IsLimits, IsValid}
use low_latency_trading_gate.Gateway.Dialogue.{Client, converse}
use low_latency_trading_gate.Gateway.Refine.{view, Rest}
use low_latency_trading_gate.Gateway.Chunks.{serve_bytes-Conversed}
use low_latency_trading_gate.Gateway.Answers.{addressee, Settled, Delivered, Answered}
use low_latency_trading_gate.Gateway.Matched.{
  Backlog, reply, take_command, backlog, MatchingIsValid, round_of,
}
use low_latency_trading_gate.Gateway.System.{
  Turn, event, round, System, matching, matched, take_turn, matched-IsValid,
}
use low_latency_trading_gate.Gateway.Ordered.{order_message, ordered, converse-order}

-- A descriptor is readable and some bytes are there; and the eventfd is readable.
abbrev pub receives : ℕ → List ℕ → Turn
receives fd chunk =
    event (record { fd = fd; readable = true; accepted = []; received = bytes chunk })

abbrev pub wakes : ℕ → Turn
wakes event_fd =
    event (record { fd = event_fd; readable = true; accepted = []; received = would_block })

-- A connection whose slot is its own, with nothing under way.
pub record Ready {l : Limits} (i : IsLimits l) (fd : ℕ) (conn : Connection) (s : System)
    : Type 0 where
  pub there : find fd s.gateway.connections ≡ some conn
  pub live : addressee s.gateway.slots conn.token ≡ some fd
  pub parser : Parsers.contents l.parser_capacity conn.parser ≡ []
  pub commands : (backlog i (matching s)).commands ≡ []
  pub responses : (backlog i (matching s)).responses ≡ []
  pub runs : s.ended ≡ false

-- An order taken: its command is the only one, and the connection waits for the next.
pub record Taken {l : Limits} (i : IsLimits l) (fd : ℕ) (conn : Connection) (cmd : EngineCommand)
    (g g' : Gateway) : Type 0 where
  pub valid : IsValid i g'
  pub conn' : Connection
  pub there : find fd g'.connections ≡ some conn'
  pub token : conn'.token ≡ conn.token
  pub parser : Parsers.contents l.parser_capacity conn'.parser ≡ []
  pub expected : conn'.expected_sequence ≡ (conn.expected_sequence + 1) % 2 ^ 64
  pub commands : Places.contents no_command l.queue_capacity g'.cmd_queue.ring ≡ cmd ∷ []
  pub calls : g'.calls ≡ g.calls
  pub rest : Rest g g'

module _ (send : Send) {l : Limits} (i : IsLimits l) (event_fd listen_fd : ℕ) where
  pub client_turn :
      (fd : ℕ) (conn : Connection) (chunk : List ℕ) (s : System) {g : Gateway}
      → (fd == event_fd) ≡ false
      → (fd == listen_fd) ≡ false
      → find fd s.gateway.connections ≡ some conn
      → serve_bytes l fd conn chunk s.gateway ≡ some g
      → take_turn send l event_fd listen_fd (receives fd chunk) s ≡ some (record s { gateway = g })
  unfolding take_turn handle_event client_event serve_connection
  client_turn fd conn chunk s other client there e = rw (other, client, there, e)

  pub wake_turn :
      (s : System) {g : Gateway}
      → drain l.queue_capacity send l no_response s.gateway ≡ some g
      → take_turn send l event_fd listen_fd (wakes event_fd) s ≡ some (record s { gateway = g })
  unfolding take_turn handle_event
  wake_turn s e = rw ((==_iff event_fd event_fd).1 refl, e)

  pub serve_bytes-Taken :
      (fd : ℕ) (conn : Connection) (header : MessageHeader) (order : NewOrder) (frame : List ℕ)
      (s : System)
      → IsValid i s.gateway
      → Ready i fd conn s
      → IsBytes frame
      → length frame ≡ frame_size
      → Stream.next frame no_message ≡ (Status.message_ready, [], order_message header order)
      → header.sequence_number ≡ conn.expected_sequence
      → Returns
          (serve_bytes l fd conn frame s.gateway)
          (Taken i fd conn (command_of conn.token (order_message header order)) s.gateway)
  unfolding Queue.push
  serve_bytes-Taken fd conn header order frame s v ready b len next seq =
      let few = Parsers.capacity_bounds i.parser in
      let empty : FrameParser.size conn.parser ≡ 0 =
        sym (Parsers.length-contents l.parser_capacity conn.parser) ∙ ap length ready.parser in
      let (g, e, h) =
        serve_bytes-Conversed i fd s.gateway conn v ready.there frame b (omega (arith, few.0)) in
      let bound = l.queue_capacity - 1 in
      let enough : serve_rounds l ≡ suc (suc (l.parser_capacity / frame_size - 1)) =
        omega (arith, few.0) in
      let start : Client = record (view l conn s.gateway) { stream = frame } in
      let said : view l h.conn' g ≡ ordered bound conn.token (order_message header order) start =
        h.meets
        ∙ ap
            (λ (bytes : List ℕ).
              converse (serve_rounds l) bound fd conn.token
                (record (view l conn s.gateway) { stream = bytes ++ frame }))
            ready.parser
        ∙ ap (λ (rounds : ℕ). converse rounds bound fd conn.token start) enough
        ∙ converse-order bound fd conn.token (l.parser_capacity / frame_size - 1) header order start
            next seq in
      let room = lt→ltb 0 bound (omega (arith, i.queue.two)) in
      (
        g,
        e,
        record {
          valid = h.valid;
          conn' = h.conn';
          there = h.there;
          token = h.token;
          parser = ap (λ (c : Client). c.stream) said;
          expected = ap (λ (c : Client). c.expected) said;
          commands =
              ap (λ (c : Client). c.commands) said
              ∙ ap
                  (λ (cmds : List EngineCommand).
                    (Queue.push bound cmds (command_of conn.token (order_message header order))).1)
                  ready.commands
              ∙ rw room;
          calls = ap (λ (c : Client). c.calls) said;
          rest = h.rest;
        },
      )

  -- The round of the matching thread on the only command.
  pub round_turn :
      (cmd : EngineCommand) (rsp : EngineResponse) (s : System)
      → IsValid i s.gateway
      → (backlog i (matching s)).commands ≡ cmd ∷ []
      → (backlog i (matching s)).responses ≡ []
      → s.ended ≡ false
      → is_shutdown cmd.type ≡ false
      → respond cmd ≡ some rsp
      → (m : Matching) × (take_turn send l event_fd listen_fd round s ≡ some (matched (again, m) s))
        × IsValid i (matched (again, m) s).gateway
        × ((backlog i m).commands ≡ [])
        × ((backlog i m).responses ≡ rsp ∷ [])
  unfolding take_turn take_command reply Queue.push
  round_turn cmd rsp s v one none_left runs other says =
      let m : MatchingIsValid i (matching s) = record {
        commands = v.commands;
        responses = v.responses;
      } in
      let ((next, m'), e, (w, k)) = round_of i (cmd ∷ []) m one in
      let room = lt→ltb 0 (l.queue_capacity - 1) (omega (arith, i.queue.two)) in
      let behind : Next × Backlog = (
        again,
        record {
          commands = [];
          responses = (Queue.push (l.queue_capacity - 1) (backlog i (matching s)).responses rsp).1;
          notices = s.notices + 1;
        },
      ) in
      let said : (next, backlog i m') ≡ behind = k ∙ rw (other, says) in
      let done : match_round l (matching s) ≡ some (again, m') =
        e ∙ ap (λ (r : Next × Backlog). some (r.0, m')) said in
      (
        m',
        rw (runs, done),
        matched-IsValid i send event_fd listen_fd s (again, m') v w,
        ap (λ (r : Next × Backlog). r.1.commands) said,
        ap (λ (r : Next × Backlog). r.1.responses) said
            ∙ ap (λ (rsps : List EngineResponse). (Queue.push (l.queue_capacity - 1) rsps rsp).1)
                none_left
            ∙ rw room,
      )

  -- The only response, to a session that has its slot.
  pub Answered-single :
      (fd : ℕ) (rsp : EngineResponse) (g : Gateway) {g' : Gateway}
      → ((calls : List Call) (frame : List ℕ) → is_whole (send calls fd frame) ≡ true)
      → addressee g.slots rsp.session ≡ some fd
      → Answered send i (rsp ∷ []) g g'
      → (answer : List ℕ) × (encode_response rsp no_frame ≡ some answer)
        × (g' ≡ record g { rsp_queue = g'.rsp_queue; calls = sent fd answer ∷ g.calls })
  Answered-single fd rsp g {g'} whole live (queue, h, d, last) =
      let before : Gateway = record g { rsp_queue = queue } in
      let (answer, e, settled) = subst (λ to. Delivered send i to rsp before h) live d in
      let same = subst (λ b. Settled send i b fd answer before h) (whole g.calls answer) settled in
      (answer, e, last ∙ ap (λ (x : Gateway). record x { rsp_queue = g'.rsp_queue }) same)
