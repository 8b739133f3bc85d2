-- ===== src/Gateway/Serve.antt =====
-- epoll_server.cpp: the bytes of a client, from `recv` to the commands and the replies.
use low_latency_trading_gate.Base.{
  ℕ, suc, zero, ◌+◌, ◌%◌, ◌/◌, ◌^◌, List, Option, none, some, Bool, true, false, not, ◌==◌,
  if◌then◌else◌, ◌>>=◌,
}
use low_latency_trading_gate.Protocol.{MessageType, RejectReason, frame_size}
use low_latency_trading_gate.Protocol.Accepted
use low_latency_trading_gate.Protocol.Rejected
use low_latency_trading_gate.Protocol.Rejected.{Rejected}
use low_latency_trading_gate.Codec.Responses.{encode_accepted, encode_rejected}
use low_latency_trading_gate.FrameParser
use low_latency_trading_gate.FrameParser.{
  FrameParser, DecodedMessage, Status, no_message, fresh, try_parse,
}
use low_latency_trading_gate.Spsc.AtomicV3
use low_latency_trading_gate.Spsc.AtomicV3.{Cached, new_cached}
use low_latency_trading_gate.Engine.{SessionToken, EngineCommand, EngineCommandType}
use low_latency_trading_gate.Gateway.{
  Connection, Limits, sent, Gateway, log, close_conn, no_frame, put, no_command,
}

-- The command of an order message.
unfoldable pub command_of : SessionToken → DecodedMessage → EngineCommand
command_of token msg =
    let cmd : EngineCommand = record no_command {
      session = token;
      request_sequence = msg.header.sequence_number;
    } in
    elim msg.type [
      | MessageType.new_order ↦ record cmd {
        type = EngineCommandType.new_limit;
        client_order_id = msg.new_order.client_order_id;
        side = msg.new_order.side;
        price = msg.new_order.price;
        quantity = msg.new_order.quantity;
      }
      | MessageType.cancel_order ↦ record cmd {
        type = EngineCommandType.cancel;
        client_order_id = msg.cancel_order.client_order_id;
      }
      | MessageType.modify_order ↦ record cmd {
        type = EngineCommandType.modify;
        client_order_id = msg.modify_order.client_order_id;
        price = msg.modify_order.new_price;
        quantity = msg.modify_order.new_quantity;
      }
      | _ ↦ cmd
    ]

-- The answer to a message that is out of sequence, and to a heartbeat or a logout.
unfoldable pub send_rejected : ℕ → Connection → DecodedMessage → Gateway → Option Gateway
send_rejected fd conn msg g = do
  (_, frame) ←
      encode_rejected (record msg.header { session_id = conn.token.slot })
        (record Rejected.default { reason = RejectReason.bad_sequence }) no_frame
  some (log g (sent fd frame))

unfoldable pub send_accepted : ℕ → DecodedMessage → Gateway → Option Gateway
send_accepted fd msg g = do
  (_, frame) ← encode_accepted msg.header Accepted.default no_frame
  some (log g (sent fd frame))

-- How a round of a loop ends.
pub data Next : Type 0 where
  again stop : Next

-- The loop's variables: the connection, `should_close`, and the gateway.
pub record Serving : Type 0 where
  pub conn : Connection
  pub should_close : Bool
  pub gateway : Gateway

-- An order message: the end of the loop's body.
unfoldable pub forward_order : Limits → ℕ → DecodedMessage → Serving → Option (Next × Serving)
forward_order l fd msg s = do
  (_, cmd_queue) ← AtomicV3.push l.queue_capacity s.gateway.cmd_queue (command_of s.conn.token msg)
  let g : Gateway = record s.gateway { cmd_queue = cmd_queue }
  g ← if s.should_close then close_conn l fd g else some g
  some (again, record s { gateway = g })

-- A message in sequence, by its type.
unfoldable pub serve_type :
    MessageType → Limits → ℕ → DecodedMessage → Serving → Option (Next × Serving)
unfolding forward_order
serve_type MessageType.logout l fd msg s = do
  g ← send_accepted fd msg s.gateway
  some (stop, record s { should_close = true; gateway = g })
serve_type MessageType.heartbeat l fd msg s = do
  g ← send_accepted fd msg s.gateway
  some (again, record s { gateway = g })
serve_type _ l fd msg s = forward_order l fd msg s

-- The loop's body from the check of the sequence number on.
unfoldable pub serve_message : Limits → ℕ → DecodedMessage → Serving → Option (Next × Serving)
unfolding serve_type
serve_message l fd msg s =
    if not (msg.header.sequence_number == s.conn.expected_sequence)
    then (do g ← send_rejected fd s.conn msg s.gateway; some (again, record s { gateway = g }))
    else let conn : Connection = record s.conn {
      expected_sequence = (s.conn.expected_sequence + 1) % 2 ^ 64;
    } in
      serve_type msg.type l fd msg (record s { conn = conn; gateway = put fd conn s.gateway })

-- One round of the loop, for what `try_parse` returned.
unfoldable pub serve_status :
    Status → Limits → ℕ → DecodedMessage → Serving → Option (Next × Serving)
serve_status Status.need_more_data l fd msg s = some (stop, s)
serve_status Status.protocol_error l fd msg s = some (stop, record s { should_close = true })
serve_status _ l fd msg s = serve_message l fd msg s

-- The body of the loop over the messages that a connection's parser holds.
unfoldable pub serve_round : Limits → ℕ → Serving → Option (Next × Serving)
unfolding serve_status
serve_round l fd s = do
  (status, parser, msg) ← try_parse l.parser_capacity s.conn.parser no_message
  let conn : Connection = record s.conn { parser = parser }
  serve_status status l fd msg (record s { conn = conn; gateway = put fd conn s.gateway })

unfoldable pub serve : ℕ → Limits → ℕ → Serving → Option Serving
serve zero l fd s = none
serve (suc rounds) l fd s = do
  (next, s) ← serve_round l fd s
  elim next [ stop ↦ some s | again ↦ serve rounds l fd s ]

-- A buffer of the parser holds so many frames; one round more sees that there is none left.
abbrev pub serve_rounds : Limits → ℕ
serve_rounds l = l.parser_capacity / frame_size + 1

-- What `recv` returns: some bytes, the end of the stream, nothing as yet (EAGAIN), or an error.
pub data Received : Type 0 where
  bytes : List ℕ → Received
  end_of_stream would_block failed : Received

-- A chunk that `recv` returned.
unfoldable pub serve_bytes : Limits → ℕ → Connection → List ℕ → Gateway → Option Gateway
serve_bytes l fd conn chunk g = do
  (fits, parser) ← FrameParser.append l.parser_capacity conn.parser chunk
  let conn : Connection = record conn { parser = parser }
  let g = put fd conn g
  if not fits then close_conn l fd g else do
    s ← serve (serve_rounds l) l fd (record { conn = conn; should_close = false; gateway = g })
    some s.gateway

-- An event on a connection that the map has.
unfoldable pub serve_connection : Limits → ℕ → Connection → Received → Gateway → Option Gateway
serve_connection l fd conn end_of_stream g = close_conn l fd g
serve_connection l fd conn would_block g = some g
serve_connection l fd conn failed g = close_conn l fd g
serve_connection l fd conn (bytes chunk) g = serve_bytes l fd conn chunk g
