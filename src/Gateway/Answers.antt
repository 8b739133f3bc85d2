-- ===== src/Gateway/Answers.antt =====
-- What becomes of the responses in the queue: each is sent to the connection of its session, or
-- dropped.
use low_latency_trading_gate.Base.{
  ℕ, zero, suc, ◌<◌, ◌≡◌, refl, sym, ap, ◌∙◌, subst, List, [], ◌∷◌, Option, none, some, Bool, true,
  false, ◌==◌, if◌then◌else◌, length, get_or, Returns, arith, Bool-cases, inl, inr,
}
use low_latency_trading_gate.Spsc.Queue
use low_latency_trading_gate.Spsc.Places
use low_latency_trading_gate.Spsc.Places.{length-contents, used-lt}
use low_latency_trading_gate.Spsc.AtomicV3.{Cached}
use low_latency_trading_gate.Spsc.AtomicV3.Items.{pop_items}
use low_latency_trading_gate.Engine.{SessionToken, EngineResponse, no_response, encode_response}
use low_latency_trading_gate.Engine.Returns.{encode_response-returns}
use low_latency_trading_gate.Gateway.{SessionSlot, Limits, sent, Gateway, log, close_conn, no_frame}
use low_latency_trading_gate.Gateway.Responses.{Send, is_whole, send_response, deliver, drain}
use low_latency_trading_gate.Gateway.Valid.{
  IsLimits, IsValid, ResponsesHold, log-IsValid, set_slot_lem,
}
use low_latency_trading_gate.Gateway.Close.{Closed, close_conn-Closed, no_slot}

-- The descriptor that a response of a session goes to: that of its slot, while the slot is still of
-- the session's generation.
unfoldable pub addressee : List SessionSlot → SessionToken → Option ℕ
addressee slots token =
    let slot = get_or slots token.slot no_slot in
    if slot.generation == token.generation then slot.fd else none

module _ (send : Send) {l : Limits} (i : IsLimits l) where
  abbrev pub Settled : Bool → ℕ → List ℕ → Gateway → Gateway → Type 0
  Settled true fd frame g g' = g' ≡ log g (sent fd frame)
  Settled false fd frame g g' = Closed i fd (log g (sent fd frame)) g'

  -- Without a descriptor to go to, a response is dropped; else it is sent whole, or the connection
  -- is closed.
  abbrev pub Delivered : Option ℕ → EngineResponse → Gateway → Gateway → Type 0
  Delivered none rsp g g' = g' ≡ g
  Delivered (some fd) rsp g g' =
      (frame : List ℕ) × (encode_response rsp no_frame ≡ some frame)
      × Settled (is_whole (send g.calls fd frame)) fd frame g g'

  settle :
      (whole : Bool) (fd : ℕ) (frame : List ℕ) {g : Gateway}
      → IsValid i g
      → Returns
          (if whole then some (log g (sent fd frame)) else close_conn l fd (log g (sent fd frame)))
          (Settled whole fd frame g)
  settle true fd frame {g} v = (log g (sent fd frame), refl, refl)
  settle false fd frame v = close_conn-Closed i (log-IsValid i (sent fd frame) v) fd

  send_response-Delivered :
      (to : Option ℕ) (rsp : EngineResponse) {g : Gateway}
      → IsValid i g
      → Returns
          (elim to [ none ↦ some g | some fd ↦ send_response send l rsp fd g ])
          (Delivered to rsp g)
  unfolding send_response
  send_response-Delivered none rsp {g} v = (g, refl, refl)
  send_response-Delivered (some fd) rsp {g} v =
      let (frame, e) = encode_response-returns rsp no_frame (omega arith) in
      let (g', e', h) = settle (is_whole (send g.calls fd frame)) fd frame v in
      (g', rw e e', (frame, e, h))

  pub deliver-Delivered :
      (rsp : EngineResponse) {g : Gateway}
      → IsValid i g
      → rsp.session.slot < l.max_slots
      → Returns (deliver send l rsp g) (Delivered (addressee g.slots rsp.session) rsp g)
  unfolding deliver addressee
  deliver-Delivered rsp {g} v small =
      let slot = get_or g.slots rsp.session.slot no_slot in
      let (got, _, _) = set_slot_lem i g.slots rsp.session.slot slot v.sized small in
      elim (Bool-cases (slot.generation == rsp.session.generation)) [
        | inl same ↦
            let (g', e, h) = send_response-Delivered slot.fd rsp v in
            (g', rw (got, same) e, rw same h)
        | inr stale ↦ (g, rw (got, stale), rw stale refl)
      ]

  -- A delivery keeps the state valid and leaves the queue of responses.
  Delivered-IsValid :
      (to : Option ℕ) (rsp : EngineResponse) {g g' : Gateway}
      → IsValid i g
      → Delivered to rsp g g'
      → IsValid i g' × (g'.rsp_queue ≡ g.rsp_queue)
  Delivered-IsValid none rsp v same =
      (subst (IsValid i) (sym same) v, ap (λ (x : Gateway). x.rsp_queue) same)
  Delivered-IsValid (some fd) rsp {g} {g'} v (frame, e, h) =
      settled (is_whole (send g.calls fd frame)) h
    where
      settled :
          (whole : Bool) → Settled whole fd frame g g' → IsValid i g' × (g'.rsp_queue ≡ g.rsp_queue)
      settled true same = (
        subst (IsValid i) (sym same) (log-IsValid i (sent fd frame) v),
        ap (λ (x : Gateway). x.rsp_queue) same,
      )
      settled false closed = (closed.valid, closed.responses)

  -- The responses are delivered one after another, and nothing else is done.
  abbrev pub Answered : List EngineResponse → Gateway → Gateway → Type 0
  Answered [] g g' = g' ≡ record g { rsp_queue = g'.rsp_queue }
  Answered (rsp ∷ rsps) g g' =
      (queue : Cached EngineResponse) × (h : Gateway) × Delivered (addressee g.slots rsp.session)
        rsp (record g { rsp_queue = queue }) h
      × Answered rsps h g'

  abbrev pub pending : Gateway → List EngineResponse
  pending g = Places.contents no_response l.queue_capacity g.rsp_queue.ring

  -- What a drain gives from a state whose queue holds such responses.
  abbrev pub Drained : List EngineResponse → Gateway → Gateway → Type 0
  Drained rsps g g' = IsValid i g' × (pending g' ≡ []) × Answered rsps g g'

  popped-IsValid :
      {g : Gateway} (queue : Cached EngineResponse)
      → IsValid i g
      → ResponsesHold i queue
      → IsValid i (record g { rsp_queue = queue })
  popped-IsValid queue v h = record {
    distinct = v.distinct;
    connections = v.connections;
    sized = v.sized;
    commands = v.commands;
    responses = h;
  }

  drain_items :
      (rounds : ℕ) (items : List EngineResponse) (rsp : EngineResponse) {g : Gateway}
      → IsValid i g
      → pending g ≡ items
      → length items < rounds
      → Returns (drain rounds send l rsp g) (Drained items g)
  unfolding drain Queue.pop
  drain_items zero items rsp v e few = absurd (omega arith)
  drain_items (suc rounds) [] rsp {g} v e few =
      let (queue, popped, h, left, _) =
        pop_items _ no_response i.queue [] g.rsp_queue rsp v.responses e in
      (record g { rsp_queue = queue }, rw popped, (popped-IsValid queue v h, left, refl))
  drain_items (suc rounds) (item ∷ items) rsp {g} v e few =
      let (queue, popped, h, left, small) =
        pop_items _ no_response i.queue (item ∷ items) g.rsp_queue rsp v.responses e in
      let w = popped-IsValid queue v h in
      let (g', de, d) = deliver-Delivered item w small in
      let (w', kept) = Delivered-IsValid (addressee g.slots item.session) item w d in
      let same : pending g' ≡ items =
        ap (λ (q : Cached EngineResponse). Places.contents no_response l.queue_capacity q.ring) kept
        ∙ left in
      let (g'', re, (x, none_left, rest)) = drain_items rounds items item w' same (omega arith) in
      (g'', rw (popped, de, re), (x, none_left, (queue, g', d, rest)))

  -- From a valid state on, the loop over the responses ends in the rounds that it is given, makes no
  -- access out of range, keeps the state valid, and leaves no response. It does nothing but deliver
  -- the responses that the queue holds, the oldest first: each is sent to the descriptor of its
  -- session's slot while the slot has the session's generation and is open, and is dropped
  -- otherwise; a connection that a frame is not sent to as a whole is closed.
  pub drain-Drained :
      (rsp : EngineResponse) {g : Gateway}
      → IsValid i g
      → Returns (drain l.queue_capacity send l rsp g) (Drained (pending g) g)
  drain-Drained rsp {g} v = drain_items l.queue_capacity (pending g) rsp v refl (
      omega (
        arith,
        length-contents no_response l.queue_capacity g.rsp_queue.ring,
        used-lt i.queue v.responses.valid.ring,
      ))
