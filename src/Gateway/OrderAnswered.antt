-- ===== src/Gateway/OrderAnswered.antt =====
-- A client's new order is answered: both threads, from the encoder to the decoder.
use low_latency_trading_gate.Base.{
  ℕ, ◌+◌, ◌%◌, ◌^◌, ◌≡◌, refl, ap, ◌∙◌, subst, List, [], ◌∷◌, some, true, false, ◌==◌, length,
  Returns,
}
use low_latency_trading_gate.Base.Bytes.{IsBytes}
use low_latency_trading_gate.Base.Maps.{find}
use low_latency_trading_gate.Protocol
use low_latency_trading_gate.Protocol.{
  MessageType, frame_size, RejectReason, reject_reason_code, reject_reason_of, DecodeStatus,
}
use low_latency_trading_gate.Protocol.MessageHeader.{MessageHeader}
use low_latency_trading_gate.Protocol.NewOrder.{NewOrder}
use low_latency_trading_gate.Codec.Header.Bytes.{HeaderFits}
use low_latency_trading_gate.Codec.Requests.{encode_new_order}
use low_latency_trading_gate.Codec.Requests.RoundTrip.NewOrder.{NewOrderFits}
use low_latency_trading_gate.FrameParser.{no_message}
use low_latency_trading_gate.FrameParser.Orders.{order_next}
use low_latency_trading_gate.Spsc.Places
use low_latency_trading_gate.Spsc.AtomicV3.{Cached}
use low_latency_trading_gate.Gateway.Matching.{is_shutdown}
use low_latency_trading_gate.Engine.{
  EngineCommand, EngineResponse, EngineResponseType, no_response, respond, encode_response,
}
use low_latency_trading_gate.Engine.Frames.{Decodes}
use low_latency_trading_gate.Gateway.{
  Connection, SessionSlot, Limits, Call, sent, Gateway, no_command, no_frame,
}
use low_latency_trading_gate.Gateway.Serve.{command_of, again}
use low_latency_trading_gate.Gateway.Responses.{Send, is_whole}
use low_latency_trading_gate.Gateway.Valid.{IsLimits, IsValid}
use low_latency_trading_gate.Gateway.Answers.{addressee, Answered, drain-Drained}
use low_latency_trading_gate.Gateway.Matched.{backlog}
use low_latency_trading_gate.Gateway.System.{round, System, matching, matched, take_turns}
use low_latency_trading_gate.Gateway.Journey.{
  receives, wakes, Ready, client_turn, wake_turn, serve_bytes-Taken, round_turn, Answered-single,
}
use low_latency_trading_gate.Gateway.Ordered.{order_message}
use low_latency_trading_gate.Gateway.Acceptance.{
  acceptance, respond-order, order-other, acceptance-Decodes, acceptance-IsFrame,
}

-- A command answered: both queues are empty, and the answer is the one call.
record Replied {l : Limits} (i : IsLimits l) (fd : ℕ) (rsp : EngineResponse) (s s' : System)
    : Type 0 where
  valid : IsValid i s'.gateway
  connections : s'.gateway.connections ≡ s.gateway.connections
  slots : s'.gateway.slots ≡ s.gateway.slots
  commands : (backlog i (matching s')).commands ≡ []
  responses : (backlog i (matching s')).responses ≡ []
  runs : s'.ended ≡ false
  answer : List ℕ
  encodes : encode_response rsp no_frame ≡ some answer
  calls : s'.gateway.calls ≡ sent fd answer ∷ s.gateway.calls

-- A new order acknowledged: the connection waits for the next message with nothing under way, and
-- the one call sent the client a frame that decodes as the acceptance of its order id.
pub record Acknowledged {l : Limits} (i : IsLimits l) (fd : ℕ) (conn : Connection)
    (client_order_id : ℕ) (s s' : System) : Type 0 where
  pub valid : IsValid i s'.gateway
  pub conn' : Connection
  pub ready : Ready i fd conn' s'
  pub expected : conn'.expected_sequence ≡ (conn.expected_sequence + 1) % 2 ^ 64
  pub answer : List ℕ
  pub bytes : IsBytes answer
  pub sized : length answer ≡ frame_size
  pub calls : s'.gateway.calls ≡ sent fd answer ∷ s.gateway.calls
  pub decodes : Decodes EngineResponseType.accepted (acceptance conn.token client_order_id) answer

module _ (send : Send) {l : Limits} (i : IsLimits l) (event_fd listen_fd : ℕ) where
  -- The only command is answered to the descriptor of its session.
  command_answered :
      (fd : ℕ) (cmd : EngineCommand) (rsp : EngineResponse) (s : System)
      → IsValid i s.gateway
      → (backlog i (matching s)).commands ≡ cmd ∷ []
      → (backlog i (matching s)).responses ≡ []
      → s.ended ≡ false
      → is_shutdown cmd.type ≡ false
      → respond cmd ≡ some rsp
      → ((calls : List Call) (frame : List ℕ) → is_whole (send calls fd frame) ≡ true)
      → addressee s.gateway.slots rsp.session ≡ some fd
      → Returns
          (take_turns send l event_fd listen_fd (round ∷ wakes event_fd ∷ []) s)
          (Replied i fd rsp s)
  unfolding take_turns
  command_answered fd cmd rsp s v one none_left runs other says whole live =
      let (m, turn, v', cmds, rsps) =
        round_turn send i event_fd listen_fd cmd rsp s v one none_left runs other says in
      let s' : System = matched (again, m) s in
      let (g, drained, (w, none_pending, answered)) = drain-Drained send i no_response v' in
      let (answer, sends, same) =
        Answered-single send i event_fd listen_fd fd rsp s'.gateway {g' = g} whole live (
          subst (λ (items : List EngineResponse). Answered send i items s'.gateway g) rsps
            answered) in
      let wake = wake_turn send i event_fd listen_fd s' {g = g} drained in
      (
        record s' { gateway = g },
        rw (turn, wake),
        record {
          valid = w;
          connections = ap (λ (x : Gateway). x.connections) same;
          slots = ap (λ (x : Gateway). x.slots) same;
          commands =
              ap (λ (x : Gateway). Places.contents no_command l.queue_capacity x.cmd_queue.ring)
                same
              ∙ cmds;
          responses = none_pending;
          runs = refl;
          answer = answer;
          encodes = sends;
          calls = ap (λ (x : Gateway). x.calls) same;
        },
      )

  -- In a valid state with no commands, no responses and the matching thread at work, a client whose
  -- connection holds no bytes and has its slot sends a new order, in sequence and with fields in the
  -- range of their C++ types, as `encode_new_order` writes it to a span of 64 bytes. The event of
  -- its bytes, a round of the matching thread and the event of the eventfd are handled with no
  -- access out of range; the one call on a socket that they make sends this client a frame that
  -- decodes as the acceptance of its order id; and the state is such a state again, with the
  -- sequence number moved on. The client's descriptor is not the eventfd's nor the listening
  -- socket's, and `send` takes the frame whole.
  pub order_answered :
      (fd : ℕ) (conn : Connection) (header : MessageHeader) (order : NewOrder) (span : List ℕ)
      (s : System)
      → IsValid i s.gateway
      → Ready i fd conn s
      → (fd == event_fd) ≡ false
      → (fd == listen_fd) ≡ false
      → ((calls : List Call) (frame : List ℕ) → is_whole (send calls fd frame) ≡ true)
      → HeaderFits header
      → header.magic ≡ Protocol.magic
      → header.version ≡ Protocol.version
      → header.sequence_number ≡ conn.expected_sequence
      → NewOrderFits order
      → IsBytes span
      → length span ≡ frame_size
      → (frame : List ℕ) × (encode_new_order header order span ≡ some (frame_size, frame))
        × Returns
            (take_turns send l event_fd listen_fd
              (receives fd frame ∷ round ∷ wakes event_fd ∷ [])
              s)
            (Acknowledged i fd conn order.client_order_id s)
  unfolding take_turns
  order_answered fd conn header order span s v ready other client whole fits m ver seq sizes
        span_bytes len =
      let rsp = acceptance conn.token order.client_order_id in
      let cmd = command_of conn.token (order_message header order) in
      let (frame, e, b, l', next) = order_next header order span fits m ver sizes span_bytes len in
      let (g1, served, t) =
        serve_bytes-Taken send i event_fd listen_fd fd conn header order frame s v ready b l'
          (next no_message) seq in
      let s1 : System = record s { gateway = g1 } in
      let slots : g1.slots ≡ s.gateway.slots =
        ap (λ (r : List SessionSlot × Cached EngineResponse). r.0) t.rest in
      let queue : g1.rsp_queue ≡ s.gateway.rsp_queue =
        ap (λ (r : List SessionSlot × Cached EngineResponse). r.1) t.rest in
      let live : addressee g1.slots conn.token ≡ some fd =
        ap (λ (slots : List SessionSlot). addressee slots conn.token) slots ∙ ready.live in
      let (s', turns, r) =
        command_answered fd cmd rsp s1 t.valid t.commands
          (ap (λ (q : Cached EngineResponse). Places.contents no_response l.queue_capacity q.ring)
              queue
            ∙ ready.responses)
          ready.runs (order-other conn.token header order) (respond-order conn.token header order)
          whole live in
      let turn =
        client_turn send i event_fd listen_fd fd conn frame s other client ready.there served in
      let whole_frame = acceptance-IsFrame conn.token order.client_order_id r.answer r.encodes in
      (
        frame,
        e,
        (
          s',
          rw turn turns,
          record {
            valid = r.valid;
            conn' = t.conn';
            ready = record {
              there = ap (find fd) r.connections ∙ t.there;
              live =
                  ap (λ (slots : List SessionSlot). addressee slots t.conn'.token) r.slots
                  ∙ ap (addressee g1.slots) t.token
                  ∙ live;
              parser = t.parser;
              commands = r.commands;
              responses = r.responses;
              runs = r.runs;
            };
            expected = t.expected;
            answer = r.answer;
            bytes = whole_frame.0;
            sized = whole_frame.1;
            calls = r.calls ∙ ap (λ (calls : List Call). sent fd r.answer ∷ calls) t.calls;
            decodes =
                acceptance-Decodes conn.token order.client_order_id r.answer sizes.client_order_id
                  r.encodes;
          },
        ),
      )
