-- ===== src/Gateway/Loop.antt =====
-- epoll_server.cpp: the dispatch of one event.
use low_latency_trading_gate.Base.{
  ℕ, List, Option, none, some, Bool, not, ◌==◌, if◌then◌else◌, ◌>>=◌,
}
use low_latency_trading_gate.Base.Maps.{find}
use low_latency_trading_gate.Engine.{no_response}
use low_latency_trading_gate.Gateway.{Limits, Gateway, accept_clients}
use low_latency_trading_gate.Gateway.Serve.{Received, serve_connection}
use low_latency_trading_gate.Gateway.Responses.{Send, drain}

-- One entry of `events`, with what the system answers while it is handled.
pub record Event : Type 0 where
  pub fd : ℕ
  pub readable : Bool
  pub accepted : List ℕ
  pub received : Received

-- The client branch of the event loop.
unfoldable pub client_event : Limits → Event → Gateway → Option Gateway
client_event l event g = if not event.readable then some g else elim (find event.fd g.connections) [
  | none ↦ some g
  | some conn ↦ serve_connection l event.fd conn event.received g
]

-- The body of the loop over `events`. Behind the accepts the code runs on into the client branch.
unfoldable pub handle_event :
    Send → Limits → (event_fd listen_fd : ℕ) → Event → Gateway → Option Gateway
handle_event send l event_fd listen_fd event g =
    if event.fd == event_fd then drain l.queue_capacity send l no_response g else do
      g ← if event.fd == listen_fd then accept_clients l event.accepted g else some g
      client_event l event g
