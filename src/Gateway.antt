-- ===== src/Gateway.antt =====
-- core/order_entry/examples/epoll_server.cpp: the event loop of the gateway thread. A handler takes
-- the state of the gateway and returns the new one; `none` is an access out of range, or a loop
-- that needs more rounds than it is given. The calls of the system that the client sees are logged
-- in the state, the newest first; what the system answers are arguments: `send` from what was
-- called before, the others with the event.
pub mod Valid
pub mod Close
pub mod Open
pub mod Serve
pub mod Dialogue
pub mod Refine
pub mod Conversation
pub mod Rounds
pub mod Chunks
pub mod Quiet
pub mod Responses
pub mod Answers
pub mod Vacated
pub mod Loop
pub mod Safe
pub mod Matching
pub mod Matched
pub mod Shutdown
pub mod Answering
pub mod System
pub mod Ordered
pub mod Journey
pub mod Acceptance
pub mod OrderAnswered
pub mod Examples
mod Tests
use low_latency_trading_gate.Base.{
  ℕ, suc, zero, ◌+◌, ◌%◌, ◌/◌, ◌^◌, List, [], ◌∷◌, Option, none, some, Bool, true, false, not, ◌==◌,
  if◌then◌else◌, ◌>>=◌, get_elem?, set, replicate,
}
use low_latency_trading_gate.Base.Maps.{find, emplace, erase, assign}
use low_latency_trading_gate.Protocol.{MessageType, Side, RejectReason, frame_size}
use low_latency_trading_gate.Protocol.MessageHeader.{MessageHeader}
use low_latency_trading_gate.Protocol.Accepted
use low_latency_trading_gate.Protocol.Rejected
use low_latency_trading_gate.Protocol.Rejected.{Rejected}
use low_latency_trading_gate.Codec.Responses.{encode_accepted, encode_rejected}
use low_latency_trading_gate.FrameParser
use low_latency_trading_gate.FrameParser.{
  FrameParser, DecodedMessage, Status, no_message, fresh, try_parse,
}
use low_latency_trading_gate.Spsc.AtomicV3
use low_latency_trading_gate.Spsc.AtomicV3.{Cached, new_cached}
use low_latency_trading_gate.Engine.{
  SessionToken, EngineCommand, EngineCommandType, EngineResponse, no_response, encode_response,
}

pub record Connection : Type 0 where
  pub parser : FrameParser
  pub token : SessionToken
  pub expected_sequence : ℕ
  pub fd : ℕ

-- The file descriptor -1 is `none`.
pub record SessionSlot : Type 0 where
  pub fd : Option ℕ
  pub generation : ℕ

-- FrameParser<4096>, kQueueCapacity and kMaxSlots.
pub record Limits : Type 0 where
  pub parser_capacity : ℕ
  pub queue_capacity : ℕ
  pub max_slots : ℕ

abbrev pub limits : Limits
limits = record { parser_capacity = 4096; queue_capacity = 4096; max_slots = 1024 }

-- A system call on a socket.
pub data Call : Type 0 where
  sent : ℕ → List ℕ → Call
  added removed closed : ℕ → Call

pub record Gateway : Type 0 where
  pub connections : List (ℕ × Connection)
  pub slots : List SessionSlot
  pub next_slot : ℕ
  pub cmd_queue : Cached EngineCommand
  pub rsp_queue : Cached EngineResponse
  pub calls : List Call

-- EngineCommand{}
abbrev pub no_command : EngineCommand
no_command = record {
  request_sequence = 0;
  client_order_id = 0;
  price = 0;
  quantity = 0;
  side = Side.buy;
  session = record { slot = 0; generation = 0 };
  type = EngineCommandType.new_limit;
}

-- The state before the event loop.
unfoldable pub new_gateway : Limits → Gateway
new_gateway l = record {
  connections = [];
  slots = replicate l.max_slots (record { fd = none; generation = 0 });
  next_slot = 0;
  cmd_queue = new_cached l.queue_capacity no_command;
  rsp_queue = new_cached l.queue_capacity no_response;
  calls = [];
}

abbrev pub log : Gateway → Call → Gateway
log g call = record g { calls = call ∷ g.calls }

-- slots[slot] = value, an access out of range if there is no such slot
unfoldable pub set_slot : List SessionSlot → ℕ → SessionSlot → Option (List SessionSlot)
set_slot slots slot value = get_elem? slots slot >>= λ _. some (set slots slot value)

-- What `close_conn` does for a connection that the map has.
unfoldable pub end_session : Limits → ℕ → Connection → Gateway → Option Gateway
unfolding set_slot
end_session l fd conn g = do
  let tok = conn.token
  slot ← get_elem? g.slots tok.slot
  slots ← set_slot g.slots tok.slot (record slot { fd = none })
  (_, cmd_queue) ←
      AtomicV3.push l.queue_capacity g.cmd_queue
        (record no_command { type = EngineCommandType.session_closed; session = tok })
  some (record g { connections = erase fd g.connections; slots = slots; cmd_queue = cmd_queue })

unfoldable pub close_conn : Limits → ℕ → Gateway → Option Gateway
unfolding end_session
close_conn l fd g = do
  g ← elim (find fd g.connections) [ some conn ↦ end_session l fd conn g | none ↦ some g ]
  some (log (log g (removed fd)) (closed fd))

-- The accept of one connection.
unfoldable pub accept_client : Limits → ℕ → Gateway → Option Gateway
unfolding set_slot
accept_client l client_fd g = do
  let s = g.next_slot % l.max_slots
  slot ← get_elem? g.slots s
  let generation = (slot.generation + 1) % 2 ^ 32
  slots ← set_slot g.slots s (record { fd = some client_fd; generation = generation })
  let conn : Connection = record {
    parser = fresh l.parser_capacity;
    token = record { slot = s; generation = generation };
    expected_sequence = 1;
    fd = client_fd;
  }
  some (
      log
        (record g {
          connections = emplace client_fd conn g.connections;
          slots = slots;
          next_slot = (g.next_slot + 1) % 2 ^ 32;
        })
        (added client_fd))

-- The loop of accepts, for what `accept` returns until it fails.
unfoldable pub accept_clients : Limits → List ℕ → Gateway → Option Gateway
accept_clients l [] g = some g
accept_clients l (client_fd ∷ accepted) g = do
  g ← accept_client l client_fd g
  accept_clients l accepted g

-- Frame frame{}
abbrev pub no_frame : List ℕ
no_frame = replicate frame_size 0

-- The connection of the loop over a chunk's messages is a reference into the map.
abbrev pub put : ℕ → Connection → Gateway → Gateway
put fd conn g = record g { connections = assign fd conn g.connections }
