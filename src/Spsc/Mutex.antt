-- ===== src/Spsc/Mutex.antt =====
-- SpscRingBufferMutex. The lock is held from the start of a call to its end, so calls never
-- overlap.
use low_latency_trading_gate.Base.{
  ℕ, ◌-◌, ◌≡◌, sym, ap, ◌∙◌, List, [], Option, some, Bool, true, false, ◌==◌, if◌then◌else◌, ◌>>=◌,
  get_elem?, get_or, inl, inr, Bool-cases,
}
use low_latency_trading_gate.Spsc.{Ring, new_ring, increment, store}
use low_latency_trading_gate.Spsc.Queue
use low_latency_trading_gate.Spsc.Places.{
  IsCapacity, IsValid, contents, new_ring-IsValid, contents-new_ring, pushed, store-pushed,
  pushed-IsValid, popped, load-front, popped-IsValid, used-full, used-room, used-empty, used-left,
  push-full, push-room, pop-empty, pop-left,
}
use low_latency_trading_gate.Spsc.Run.{Call, Answer, run, run_items, IsQueue, run_refines_queue}

unfoldable pub push {ℓ} : {A : Type ℓ} → ℕ → Ring A → A → Option (Bool × Ring A)
push capacity q value =
    let next = increment capacity q.head in
    if next == q.tail then some (false, q) else do
      buffer ← store q.buffer q.head value
      some (true, record q { buffer = buffer; head = next })

unfoldable pub pop {ℓ} : {A : Type ℓ} → ℕ → Ring A → A → Option (Bool × Ring A × A)
pop capacity q out = if q.tail == q.head then some (false, q, out) else do
  out ← get_elem? q.buffer q.tail
  some (true, record q { tail = increment capacity q.tail }, out)

module _ {A : Type 0} (d : A) {capacity : ℕ} (c : IsCapacity capacity) where
  pub push_refines :
      (q : Ring A) (value : A)
      → IsValid capacity q
      → (ok : Bool) × (q' : Ring A) × (push capacity q value ≡ some (ok, q'))
        × IsValid capacity q'
        × ((ok, contents d capacity q') ≡ Queue.push (capacity - 1) (contents d capacity q) value)
  unfolding push
  push_refines q value v = elim (Bool-cases (increment capacity q.head == q.tail)) [
    | inl e ↦ (false, q, rw e, v, sym (push-full d c v value (used-full c v e)))
    | inr e ↦ (
      true,
      pushed d c v value,
      rw (e, store-pushed d c v value),
      pushed-IsValid d c v value,
      sym (push-room d c v value (used-room c v e)),
    )
  ]

  pub pop_refines :
      (q : Ring A) (out : A)
      → IsValid capacity q
      → (ok : Bool) × (q' : Ring A) × (value : A) × (pop capacity q out ≡ some (ok, q', value))
        × IsValid capacity q'
        × ((ok, contents d capacity q', value) ≡ Queue.pop (contents d capacity q) out)
  unfolding pop
  pop_refines q out v = elim (Bool-cases (q.tail == q.head)) [
    | inl e ↦ (false, q, out, rw e, v, sym (pop-empty d c v out (used-empty c v e)))
    | inr e ↦ (
      true,
      popped d c v,
      get_or q.buffer q.tail d,
      rw (e, load-front d c v),
      popped-IsValid d c v,
      sym (pop-left d c v out (used-left c v e)),
    )
  ]

  unfoldable pub mutex-IsQueue : IsQueue (capacity - 1) (push {A = A} capacity) (pop capacity)
  mutex-IsQueue = record {
    IsValid = IsValid capacity;
    contents = contents d capacity;
    push_refines = push_refines;
    pop_refines = pop_refines;
  }

  -- From an empty queue on, any sequence of pushes and pops of the mutex queue answers as a queue
  -- of at most `Capacity - 1` items does, and makes no access outside the buffer.
  pub mutex_run_refines :
      (calls : List (Call A))
      → (answers : List (Answer A)) × (q : Ring A) × (run
            (push capacity)
            (pop capacity)
            (new_ring capacity d)
            calls
          ≡ some (answers, q))
        × IsValid capacity q
        × ((answers, contents d capacity q) ≡ run_items (capacity - 1) [] calls)
  unfolding mutex-IsQueue
  mutex_run_refines calls =
      let (answers, q, e, v, k) = run_refines_queue mutex-IsQueue calls (new_ring-IsValid d c) in
      (
        answers,
        q,
        e,
        v,
        k ∙ ap (λ items. run_items (capacity - 1) items calls) (contents-new_ring d c),
      )
