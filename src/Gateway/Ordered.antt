-- ===== src/Gateway/Ordered.antt =====
-- The dialogue on an order in sequence.
use low_latency_trading_gate.Base.{ℕ, suc, ◌+◌, ◌%◌, ◌^◌, ◌≡◌, refl, ◌∙◌, [], ==_iff}
use low_latency_trading_gate.Protocol.{MessageType}
use low_latency_trading_gate.Protocol.MessageHeader.{MessageHeader}
use low_latency_trading_gate.Protocol.NewOrder.{NewOrder}
use low_latency_trading_gate.Codec.Frames.{typed}
use low_latency_trading_gate.FrameParser.{DecodedMessage, Status, no_message}
use low_latency_trading_gate.FrameParser.Stream
use low_latency_trading_gate.Spsc.Queue
use low_latency_trading_gate.Engine.{SessionToken}
use low_latency_trading_gate.Gateway.Serve.{command_of, again, stop}
use low_latency_trading_gate.Gateway.Dialogue.{
  Client, hear_type, hear, hear_status, hear_next, converse,
}
use low_latency_trading_gate.Gateway.Conversation.{converse_stop, converse_again}

-- The message of an order, as the parser reports it.
abbrev pub order_message : MessageHeader → NewOrder → DecodedMessage
order_message header order = record no_message {
  header = typed header MessageType.new_order;
  type = MessageType.new_order;
  new_order = order;
}

-- The client as an order in sequence leaves it.
abbrev pub ordered : ℕ → SessionToken → DecodedMessage → Client → Client
ordered bound token msg c = record c {
  expected = (c.expected + 1) % 2 ^ 64;
  stream = [];
  commands = (Queue.push bound c.commands (command_of token msg)).1;
}

module _ (bound fd : ℕ) (token : SessionToken) where
  hear-order :
      (header : MessageHeader) (order : NewOrder) (c : Client)
      → Stream.next c.stream no_message ≡ (Status.message_ready, [], order_message header order)
      → header.sequence_number ≡ c.expected
      → hear_next bound fd token c ≡ (again, ordered bound token (order_message header order) c)
  unfolding hear_next hear_status hear hear_type
  hear-order header order c e s = rw (e, (==_iff header.sequence_number c.expected).1 s)

  hear-end : (c : Client) → c.stream ≡ [] → hear_next bound fd token c ≡ (stop, c)
  unfolding hear_next hear_status Stream.next
  hear-end c e = rw e

  pub converse-order :
      (rounds : ℕ) (header : MessageHeader) (order : NewOrder) (c : Client)
      → Stream.next c.stream no_message ≡ (Status.message_ready, [], order_message header order)
      → header.sequence_number ≡ c.expected
      → converse (suc (suc rounds)) bound fd token c
        ≡ ordered bound token (order_message header order) c
  converse-order rounds header order c e s =
      converse_again (suc rounds) bound fd token c (hear-order header order c e s)
      ∙ converse_stop rounds bound fd token (ordered bound token (order_message header order) c)
          (hear-end (ordered bound token (order_message header order) c) refl)
