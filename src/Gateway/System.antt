-- ===== src/Gateway/System.antt =====
-- epoll_server.cpp: the two threads on the queues between them, a whole event of the gateway thread
-- or a whole round of the matching thread at a time.
use low_latency_trading_gate.Base.{
  ℕ, List, [], ◌∷◌, Option, some, Bool, true, false, refl, if◌then◌else◌, ◌>>=◌, All, Returns,
  Bool-cases, inl, inr,
}
use low_latency_trading_gate.Gateway.{Limits, Gateway, new_gateway}
use low_latency_trading_gate.Gateway.Serve.{Next, again, stop}
use low_latency_trading_gate.Gateway.Responses.{Send}
use low_latency_trading_gate.Gateway.Loop.{Event, handle_event}
use low_latency_trading_gate.Gateway.Matching.{Matching, match_round}
use low_latency_trading_gate.Gateway.Valid.{IsLimits, IsValid, new_gateway-IsValid}
use low_latency_trading_gate.Gateway.Safe.{ReceivedBytes, handle_event-IsValid}
use low_latency_trading_gate.Gateway.Matched.{MatchingIsValid, match_round-Matched}

pub data Turn : Type 0 where
  event : Event → Turn
  round : Turn

-- The gateway, the notices of the matching thread, and whether that thread has ended.
pub record System : Type 0 where
  pub gateway : Gateway
  pub notices : ℕ
  pub ended : Bool

abbrev pub new_system : Limits → System
new_system l = record { gateway = new_gateway l; notices = 0; ended = false }

abbrev pub matching : System → Matching
matching s = record {
  cmd_queue = s.gateway.cmd_queue;
  rsp_queue = s.gateway.rsp_queue;
  notices = s.notices;
}

abbrev pub matched : Next × Matching → System → System
matched (next, m) s = record s {
  gateway = record s.gateway { cmd_queue = m.cmd_queue; rsp_queue = m.rsp_queue };
  notices = m.notices;
  ended = elim next [ stop ↦ true | again ↦ false ];
}

module _ (send : Send) (l : Limits) (event_fd listen_fd : ℕ) where
  unfoldable pub take_turn : Turn → System → Option System
  take_turn (event e) s = do
    g ← handle_event send l event_fd listen_fd e s.gateway
    some (record s { gateway = g })
  take_turn round s =
      if s.ended then some s else do r ← match_round l (matching s); some (matched r s)

  unfoldable pub take_turns : List Turn → System → Option System
  take_turns [] s = some s
  take_turns (turn ∷ turns) s = do s ← take_turn turn s; take_turns turns s

abbrev pub TurnBytes : Turn → Type 0
TurnBytes (event e) = ReceivedBytes e.received
TurnBytes round = Unit {0}

module _ {l : Limits} (i : IsLimits l) (send : Send) (event_fd listen_fd : ℕ) where
  pub matched-IsValid :
      (s : System) (r : Next × Matching)
      → IsValid i s.gateway
      → MatchingIsValid i r.1
      → IsValid i (matched r s).gateway
  matched-IsValid s r v w = record {
    distinct = v.distinct;
    connections = v.connections;
    sized = v.sized;
    commands = w.commands;
    responses = w.responses;
  }

  take_turn-IsValid :
      (turn : Turn) (s : System)
      → IsValid i s.gateway
      → TurnBytes turn
      → Returns (take_turn send l event_fd listen_fd turn s) (λ (s' : System). IsValid i s'.gateway)
  unfolding take_turn
  take_turn-IsValid (event e) s v bytes =
      let (g, done, w) = handle_event-IsValid i send event_fd listen_fd e v bytes in
      (record s { gateway = g }, rw done, w)
  take_turn-IsValid round s v bytes = elim (Bool-cases s.ended) [
    | inl over ↦ (s, rw over, v)
    | inr runs ↦
        let m : MatchingIsValid i (matching s) = record {
          commands = v.commands;
          responses = v.responses;
        } in
        let (r, done, (w, k)) = match_round-Matched i m in
        (matched r s, rw (runs, done), matched-IsValid s r v w)
  ]

  take_turns-from :
      (turns : List Turn) (s : System)
      → IsValid i s.gateway
      → All TurnBytes turns
      → Returns
          (take_turns send l event_fd listen_fd turns s)
          (λ (s' : System). IsValid i s'.gateway)
  unfolding take_turns
  take_turns-from [] s v bytes = (s, refl, v)
  take_turns-from (turn ∷ turns) s v bytes =
      let (s', done, w) = take_turn-IsValid turn s v bytes.0 in
      let (s'', done', w') = take_turns-from turns s' w bytes.1 in (s'', rw done done', w')

  -- From the start of the program on, whatever the clients send and the system answers, no sequence
  -- of events of the gateway thread and rounds of the matching thread makes an access out of range
  -- or runs a loop without end, and the gateway is valid behind it: the map has a connection for a
  -- descriptor once, with a valid parser and a slot that there is, and the queues hold commands and
  -- responses of slots that there are.
  pub take_turns-IsValid :
      (turns : List Turn)
      → All TurnBytes turns
      → Returns
          (take_turns send l event_fd listen_fd turns (new_system l))
          (λ (s : System). IsValid i s.gateway)
  take_turns-IsValid turns bytes =
      take_turns-from turns (new_system l) (new_gateway-IsValid i) bytes
