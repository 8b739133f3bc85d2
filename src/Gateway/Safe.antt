-- ===== src/Gateway/Safe.antt =====
-- Every event keeps the gateway valid.
use low_latency_trading_gate.Base.{
  ℕ, ◌≡◌, refl, some, ◌==◌, Returns, Bool-cases, Option-cases, inl, inr,
}
use low_latency_trading_gate.Base.Bytes.{IsBytes}
use low_latency_trading_gate.Base.Maps.{find}
use low_latency_trading_gate.Engine.{no_response}
use low_latency_trading_gate.Gateway.{Connection, Limits, Gateway, close_conn}
use low_latency_trading_gate.Gateway.Serve.{
  Received, bytes, end_of_stream, would_block, failed, serve_connection,
}
use low_latency_trading_gate.Gateway.Responses.{Send}
use low_latency_trading_gate.Gateway.Loop.{Event, client_event, handle_event}
use low_latency_trading_gate.Gateway.Valid.{IsLimits, IsValid}
use low_latency_trading_gate.Gateway.Close.{close_conn-Closed}
use low_latency_trading_gate.Gateway.Open.{accept_clients-IsValid}
use low_latency_trading_gate.Gateway.Chunks.{serve_bytes-IsValid}
use low_latency_trading_gate.Gateway.Answers.{drain-Drained}

-- What `recv` wrote are bytes.
abbrev pub ReceivedBytes : Received → Type 0
ReceivedBytes (bytes chunk) = IsBytes chunk
ReceivedBytes _ = Unit {0}

module _ {l : Limits} (i : IsLimits l) where
  module _ {g : Gateway} (v : IsValid i g) where
    closed-IsValid : (fd : ℕ) → Returns (close_conn l fd g) (IsValid i)
    closed-IsValid fd = let (g', e, h) = close_conn-Closed i v fd in (g', e, h.valid)

    serve_connection-IsValid :
        (fd : ℕ) (conn : Connection)
        → find fd g.connections ≡ some conn
        → (received : Received) → ReceivedBytes received
        → Returns (serve_connection l fd conn received g) (IsValid i)
    unfolding serve_connection
    serve_connection-IsValid fd conn there (bytes chunk) b =
        serve_bytes-IsValid i fd g conn v there chunk b
    serve_connection-IsValid fd conn there end_of_stream b = closed-IsValid fd
    serve_connection-IsValid fd conn there would_block b = (g, refl, v)
    serve_connection-IsValid fd conn there failed b = closed-IsValid fd

    client_event-IsValid :
        (event : Event)
        → ReceivedBytes event.received
        → Returns (client_event l event g) (IsValid i)
    unfolding client_event
    client_event-IsValid event b = elim (Bool-cases event.readable) [
      | inr idle ↦ (g, rw idle, v)
      | inl ready ↦ elim (Option-cases (find event.fd g.connections)) [
        | inl gone ↦ (g, rw (ready, gone), v)
        | inr (conn, there) ↦
            let (g', e, w) = serve_connection-IsValid event.fd conn there event.received b in
            (g', rw (ready, there) e, w)
      ]
    ]

  -- From a valid state on, the handling of an event, whatever the system answers, ends, makes no
  -- access out of range, and keeps the state valid.
  pub handle_event-IsValid :
      (send : Send) (event_fd listen_fd : ℕ) (event : Event) {g : Gateway}
      → IsValid i g
      → ReceivedBytes event.received
      → Returns (handle_event send l event_fd listen_fd event g) (IsValid i)
  unfolding handle_event
  handle_event-IsValid send event_fd listen_fd event {g} v b =
      elim (Bool-cases (event.fd == event_fd)) [
        | inl notified ↦
            let (g', e, h) = drain-Drained send i no_response v in (g', rw notified e, h.0)
        | inr other ↦ elim (Bool-cases (event.fd == listen_fd)) [
          | inl listens ↦
              let (g', e, w) = accept_clients-IsValid i event.accepted v in
              let (g'', e', x) = client_event-IsValid w event b in
              (g'', rw (other, listens, e) e', x)
          | inr client ↦
              let (g', e, w) = client_event-IsValid v event b in (g', rw (other, client) e, w)
        ]
      ]
