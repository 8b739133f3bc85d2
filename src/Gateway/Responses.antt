-- ===== src/Gateway/Responses.antt =====
-- epoll_server.cpp: the responses of the matching thread, from the queue to the sockets.
use low_latency_trading_gate.Base.{
  ℕ, suc, zero, List, Option, none, some, Bool, true, false, not, ◌==◌, if◌then◌else◌, ◌>>=◌,
  get_elem?,
}
use low_latency_trading_gate.Protocol.{frame_size}
use low_latency_trading_gate.Spsc.AtomicV3
use low_latency_trading_gate.Spsc.AtomicV3.{Cached, new_cached}
use low_latency_trading_gate.Engine.{EngineResponse, encode_response}
use low_latency_trading_gate.Gateway.{Limits, Call, sent, Gateway, log, close_conn, no_frame}

-- What `send` returns for a frame on a descriptor after the calls before it: the number of bytes
-- taken, or nothing for an error.
abbrev pub Send : Type 0
Send = List Call → ℕ → List ℕ → Option ℕ

abbrev pub is_whole : Option ℕ → Bool
is_whole (some taken) = taken == frame_size
is_whole none = false

-- The frame of a response to the descriptor of its slot.
unfoldable pub send_response : Send → Limits → EngineResponse → ℕ → Gateway → Option Gateway
send_response send l rsp fd g = do
  frame ← encode_response rsp no_frame
  let taken = send g.calls fd frame
  let g = log g (sent fd frame)
  if is_whole taken then some g else close_conn l fd g

-- A response that was popped: dropped unless its session still has its slot.
unfoldable pub deliver : Send → Limits → EngineResponse → Gateway → Option Gateway
deliver send l rsp g = do
  slot ← get_elem? g.slots rsp.session.slot
  if not (slot.generation == rsp.session.generation)
      then some g
      else elim slot.fd [ none ↦ some g | some fd ↦ send_response send l rsp fd g ]

-- The loop over the responses. `rsp` keeps what the last pop wrote to it.
unfoldable pub drain : ℕ → Send → Limits → EngineResponse → Gateway → Option Gateway
drain zero send l rsp g = none
drain (suc rounds) send l rsp g = do
  (popped, rsp_queue, rsp) ← AtomicV3.pop l.queue_capacity g.rsp_queue rsp
  let g : Gateway = record g { rsp_queue = rsp_queue }
  elim popped [ false ↦ some g | true ↦ (do g ← deliver send l rsp g; drain rounds send l rsp g) ]
