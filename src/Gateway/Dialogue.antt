-- ===== src/Gateway/Dialogue.antt =====
-- What the gateway promises a client: the bytes of its connection are a stream of messages, each of
-- which is answered at once or becomes a command.
use low_latency_trading_gate.Base.{ℕ, zero, suc, ◌+◌, ◌%◌, ◌^◌, List, ◌∷◌, ◌==◌, if◌then◌else◌}
use low_latency_trading_gate.Protocol.{MessageType, RejectReason}
use low_latency_trading_gate.Protocol.MessageHeader.{MessageHeader}
use low_latency_trading_gate.Protocol.Accepted
use low_latency_trading_gate.Protocol.Rejected
use low_latency_trading_gate.Codec.Frames.{typed, framed}
use low_latency_trading_gate.Codec.Responses.Bytes.{accepted_bytes, rejected_bytes}
use low_latency_trading_gate.FrameParser.{DecodedMessage, Status, no_message}
use low_latency_trading_gate.FrameParser.Stream
use low_latency_trading_gate.Spsc.Queue
use low_latency_trading_gate.Engine.{SessionToken, EngineCommand}
use low_latency_trading_gate.Gateway.{Call, sent, no_frame}
use low_latency_trading_gate.Gateway.Serve.{command_of, Next, again, stop}

-- The next sequence number, the bytes not yet read as messages, the commands for the engine, and
-- the calls so far, the newest first.
pub record Client : Type 0 where
  pub expected : ℕ
  pub stream : List ℕ
  pub commands : List EngineCommand
  pub calls : List Call

-- The frames of a refusal and of a confirmation.
unfoldable pub refusal : SessionToken → MessageHeader → List ℕ
refusal token header =
    framed (typed (record header { session_id = token.slot }) MessageType.rejected)
      (rejected_bytes (record Rejected.default { reason = RejectReason.bad_sequence })) no_frame

unfoldable pub confirmation : MessageHeader → List ℕ
confirmation header =
    framed (typed header MessageType.accepted) (accepted_bytes Accepted.default) no_frame

-- A message in sequence. A command that finds the queue full is lost.
unfoldable pub hear_type :
    MessageType → ℕ → ℕ → SessionToken → DecodedMessage → Client → Next × Client
unfolding confirmation
hear_type MessageType.logout bound fd token msg c =
    (stop, record c { calls = sent fd (confirmation msg.header) ∷ c.calls })
hear_type MessageType.heartbeat bound fd token msg c =
    (again, record c { calls = sent fd (confirmation msg.header) ∷ c.calls })
hear_type _ bound fd token msg c =
    (again, record c { commands = (Queue.push bound c.commands (command_of token msg)).1 })

unfoldable pub hear : ℕ → ℕ → SessionToken → DecodedMessage → Client → Next × Client
unfolding hear_type refusal
hear bound fd token msg c =
    if msg.header.sequence_number == c.expected
    then hear_type msg.type bound fd token msg (record c { expected = (c.expected + 1) % 2 ^ 64 })
    else (again, record c { calls = sent fd (refusal token msg.header) ∷ c.calls })

unfoldable pub hear_status : Status → ℕ → ℕ → SessionToken → DecodedMessage → Client → Next × Client
unfolding hear
hear_status Status.need_more_data bound fd token msg c = (stop, c)
hear_status Status.protocol_error bound fd token msg c = (stop, c)
hear_status _ bound fd token msg c = hear bound fd token msg c

-- The next message of the stream, if there is one.
unfoldable pub hear_next : ℕ → ℕ → SessionToken → Client → Next × Client
unfolding hear_status
hear_next bound fd token c =
    let (status, stream, msg) = Stream.next c.stream no_message in
    hear_status status bound fd token msg (record c { stream = stream })

-- At most so many messages, up to the first that is wrong or ends the session.
unfoldable pub converse : ℕ → ℕ → ℕ → SessionToken → Client → Client
converse zero bound fd token c = c
converse (suc rounds) bound fd token c =
    let (next, c') = hear_next bound fd token c in
    elim next [ stop ↦ c' | again ↦ converse rounds bound fd token c' ]
