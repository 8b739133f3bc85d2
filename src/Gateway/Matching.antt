-- ===== src/Gateway/Matching.antt =====
-- epoll_server.cpp: the matching thread, one round of its loop at a time, and the end of the program.
use low_latency_trading_gate.Base.{
  ℕ, zero, suc, ◌+◌, Option, none, some, Bool, true, false, if◌then◌else◌, ◌>>=◌,
}
use low_latency_trading_gate.Spsc.AtomicV3
use low_latency_trading_gate.Spsc.AtomicV3.{Cached}
use low_latency_trading_gate.Engine.{EngineCommand, EngineCommandType, EngineResponse, respond}
use low_latency_trading_gate.Gateway.{Limits, no_command}
use low_latency_trading_gate.Gateway.Serve.{Next, again, stop}

-- The queues, and how often the thread has written to the eventfd.
pub record Matching : Type 0 where
  pub cmd_queue : Cached EngineCommand
  pub rsp_queue : Cached EngineResponse
  pub notices : ℕ

-- The answer, pushed whether or not the queue has room, and the gateway woken.
unfoldable pub answer : Limits → Option EngineResponse → Matching → Option Matching
answer l none m = some m
answer l (some rsp) m = do
  (_, rsp_queue) ← AtomicV3.push l.queue_capacity m.rsp_queue rsp
  some (record m { rsp_queue = rsp_queue; notices = m.notices + 1 })

abbrev pub is_shutdown : EngineCommandType → Bool
is_shutdown EngineCommandType.shutdown = true
is_shutdown _ = false

-- A command that was popped.
unfoldable pub match_command : Limits → EngineCommand → Matching → Option (Next × Matching)
unfolding answer
match_command l cmd m =
    if is_shutdown cmd.type
    then some (stop, m)
    else do m ← answer l (respond cmd) m; some (again, m)

-- The body of the loop.
unfoldable pub match_round : Limits → Matching → Option (Next × Matching)
unfolding match_command
match_round l m = do
  (popped, cmd_queue, cmd) ← AtomicV3.pop l.queue_capacity m.cmd_queue no_command
  let m : Matching = record m { cmd_queue = cmd_queue }
  elim popped [ false ↦ some (again, m) | true ↦ match_command l cmd m ]

-- So many rounds of the loop, and whether it has ended by then.
unfoldable pub match_rounds : ℕ → Limits → Matching → Option (Next × Matching)
unfolding match_round
match_rounds zero l m = some (again, m)
match_rounds (suc rounds) l m = do
  (next, m) ← match_round l m
  elim next [ stop ↦ some (stop, m) | again ↦ match_rounds rounds l m ]

-- What `main` sends the thread when the event loop is over.
abbrev pub shutdown_command : EngineCommand
shutdown_command = record no_command { type = EngineCommandType.shutdown }

unfoldable pub shut_down : Limits → Cached EngineCommand → Option (Bool × Cached EngineCommand)
shut_down l cmd_queue = AtomicV3.push l.queue_capacity cmd_queue shutdown_command
