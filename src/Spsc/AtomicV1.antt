-- ===== src/Spsc/AtomicV1.antt =====
-- SpscRingBufferAtomicV1. Every load and store is sequentially consistent.
use low_latency_trading_gate.Base.{
  ℕ, ◌-◌, ◌≡◌, ap, ◌∙◌, List, [], Option, some, Bool, true, false, ◌==◌, if◌then◌else◌, ◌>>=◌,
  get_elem?,
}
use low_latency_trading_gate.Spsc.{Ring, new_ring, increment, store}
use low_latency_trading_gate.Spsc.Mutex
use low_latency_trading_gate.Spsc.Places.{
  IsCapacity, IsValid, contents, new_ring-IsValid, contents-new_ring,
}
use low_latency_trading_gate.Spsc.Run.{Call, Answer, run, run_items, IsQueue, run_refines_queue}

pub push {ℓ} : {A : Type ℓ} → ℕ → Ring A → A → Option (Bool × Ring A)
push capacity q value =
    let head = q.head in
    let next = increment capacity head in
    if next == q.tail then some (false, q) else do
      buffer ← store q.buffer head value
      some (true, record q { buffer = buffer; head = next })

pub pop {ℓ} : {A : Type ℓ} → ℕ → Ring A → A → Option (Bool × Ring A × A)
pop capacity q out =
    let tail = q.tail in
    if tail == q.head then some (false, q, out) else do
      out ← get_elem? q.buffer tail
      some (true, record q { tail = increment capacity tail }, out)

module _ {A : Type 0} (d : A) {capacity : ℕ} (c : IsCapacity capacity) where
  v1-IsQueue : IsQueue (capacity - 1) (push {A = A} capacity) (pop capacity)
  unfolding push pop Mutex.push Mutex.pop
  v1-IsQueue = Mutex.mutex-IsQueue d c

  -- From an empty queue on, any sequence of pushes and pops of V1, each a whole call, answers as a
  -- queue of at most `Capacity - 1` items does, and makes no access outside the buffer.
  pub v1_run_refines :
      (calls : List (Call A))
      → (answers : List (Answer A)) × (q : Ring A) × (run
            (push capacity)
            (pop capacity)
            (new_ring capacity d)
            calls
          ≡ some (answers, q))
        × IsValid capacity q
        × ((answers, contents d capacity q) ≡ run_items (capacity - 1) [] calls)
  unfolding v1-IsQueue push pop Mutex.push Mutex.pop Mutex.mutex-IsQueue
  v1_run_refines calls =
      let (answers, q, e, v, k) = run_refines_queue (v1-IsQueue) calls (new_ring-IsValid d c) in
      (
        answers,
        q,
        e,
        v,
        k ∙ ap (λ items. run_items (capacity - 1) items calls) (contents-new_ring d c),
      )
