-- ===== src/Spsc/AtomicV4/Refine.antt =====
-- The queue with counters against its promise.
use low_latency_trading_gate.Base.{
  ℕ, suc, ◌%◌, ◌≤◌, ◌<◌, ◌≡◌, refl, sym, ap, ◌∙◌, ap₂, List, [], ◌∷◌, Option, some, Bool, true,
  false, arith, ◌==◌, get_or, Bool-cases, inl, inr, length, length-replicate, get_elem?-eq-get_or,
  lt→ltb, ltb-false, ==_iff,
}
use low_latency_trading_gate.Base.Window.{window}
use low_latency_trading_gate.Spsc.{store}
use low_latency_trading_gate.Spsc.Queue
use low_latency_trading_gate.Spsc.Places.{IsCapacity}
use low_latency_trading_gate.Spsc.Run.{Call, Answer, run, run_items, IsQueue, run_refines_queue}
use low_latency_trading_gate.Spsc.AtomicV4.{
  Counters, new_counters, idx_of, minus, next_counter, push_item, push, pop_item, pop, used,
}
use low_latency_trading_gate.Spsc.AtomicV4.Valid.{
  IsValid, contents, length-contents, idx_of-eq-mod, idx_of-lt, pushed, pushed-IsValid,
  contents-pushed, popped, popped-IsValid, used-popped, place_add,
}

module _ {A : Type 0} (d : A) {capacity : ℕ} (c : IsCapacity capacity) where
  PushRefines : Counters A → A → Option (Bool × Counters A) → Type 0
  PushRefines q value result =
      (ok : Bool) × (q' : Counters A) × (result ≡ some (ok, q'))
      × IsValid capacity q'
      × ((ok, contents d c q') ≡ Queue.push capacity (contents d c q) value)

  push_item_refines :
      (q : Counters A) (value : A)
      → IsValid capacity q
      → minus q.head q.producer_tail < capacity
      → PushRefines q value (push_item capacity q value)
  unfolding push_item PushRefines pushed store Queue.push
  push_item_refines q value v room = (
    true,
    pushed d c v value,
    rw (
        lt→ltb (idx_of capacity q.producer_head) (length q.buffer)
          (omega (arith, idx_of-lt d c q.producer_head, v.sized))),
    pushed-IsValid d c v value room,
    rw (
      lt→ltb (length (contents d c q)) capacity
          (omega (arith, length-contents d c q, v.room, room)),
      contents-pushed d c v value (omega (arith, v.room, room)),
    ),
  )

  tail_loaded-IsValid :
      {q : Counters A} → IsValid capacity q → IsValid capacity (record q { producer_tail = q.tail })
  tail_loaded-IsValid v = record {
    sized = v.sized;
    head_in = v.head_in;
    tail_in = v.tail_in;
    tail_copy_in = v.tail_in;
    head_copy_in = v.head_copy_in;
    own_head = v.own_head;
    own_tail = v.own_tail;
    fits = omega (arith, v.room, v.fits);
    room = omega arith;
    items = v.items;
  }

  head_loaded-IsValid :
      {q : Counters A} → IsValid capacity q → IsValid capacity (record q { consumer_head = q.head })
  head_loaded-IsValid v = record {
    sized = v.sized;
    head_in = v.head_in;
    tail_in = v.tail_in;
    tail_copy_in = v.tail_copy_in;
    head_copy_in = v.head_in;
    own_head = v.own_head;
    own_tail = v.own_tail;
    fits = v.fits;
    room = v.room;
    items = omega arith;
  }

  -- The test of `push` on a copy of the tail.
  full-false :
      {q : Counters A}
      → IsValid capacity q
      → (minus q.producer_head q.producer_tail == capacity) ≡ false
      → minus q.head q.producer_tail < capacity
  full-false {q} v e =
      ground (arith, ==_iff (minus q.producer_head q.producer_tail) capacity, v.own_head, v.fits)

  push_refines :
      (q : Counters A) (value : A)
      → IsValid capacity q
      → PushRefines q value (push capacity q value)
  unfolding push PushRefines Queue.push
  push_refines q value v = elim (Bool-cases (minus q.producer_head q.producer_tail == capacity)) [
    | inr room ↦
        let (ok, q', e, w, k) = push_item_refines q value v (full-false v room) in
        (ok, q', rw room e, w, k)
    | inl full ↦ elim (Bool-cases (minus q.producer_head q.tail == capacity)) [
      | inl e ↦ (
        false,
        record q { producer_tail = q.tail },
        rw (full, e),
        tail_loaded-IsValid v,
        rw (
            ltb-false (length (contents d c q)) capacity (
              omega (
                arith,
                length-contents d c q,
                v.own_head,
                (==_iff (minus q.producer_head q.tail) capacity).0 e,
              ))),
      )
      | inr room ↦
          let loaded = tail_loaded-IsValid v in
          let (ok, q', e, w, k) =
            push_item_refines (record q { producer_tail = q.tail }) value loaded
              (full-false loaded room) in
          (ok, q', rw (full, room) e, w, k)
    ]
  ]

  PopRefines : Counters A → A → Option (Bool × Counters A × A) → Type 0
  PopRefines q out result =
      (ok : Bool) × (q' : Counters A) × (value : A) × (result ≡ some (ok, q', value))
      × IsValid capacity q'
      × ((ok, contents d c q', value) ≡ Queue.pop (contents d c q) out)

  -- The front of the items is what `pop` loads.
  contents-popped :
      {q : Counters A} (v : IsValid capacity q)
      → 1 ≤ used q
      → contents d c q
        ≡ get_or q.buffer (idx_of capacity q.consumer_tail) d ∷ contents d c (popped d c v)
  unfolding popped
  contents-popped {q} v left =
      ap (window d q.buffer capacity (q.tail % capacity)) {y = suc (used (popped d c v))}
        (omega (arith, used-popped d c v left))
      ∙ ap₂ (λ i t. get_or q.buffer i d ∷ window d q.buffer capacity t (used (popped d c v)))
          (ap (λ t. t % capacity) (sym v.own_tail) ∙ sym (idx_of-eq-mod d c q.consumer_tail))
          (sym (place_add d c q.tail 1) ∙ ap (λ t. next_counter t % capacity) (sym v.own_tail))

  pop_item_refines :
      (q : Counters A) (out : A)
      → IsValid capacity q
      → 1 ≤ minus q.consumer_head q.tail
      → PopRefines q out (pop_item capacity q)
  unfolding pop_item PopRefines popped Queue.pop
  pop_item_refines q out v left = (
    true,
    popped d c v,
    get_or q.buffer (idx_of capacity q.consumer_tail) d,
    rw (
        get_elem?-eq-get_or q.buffer (idx_of capacity q.consumer_tail) d
          (omega (arith, idx_of-lt d c q.consumer_tail, v.sized))),
    popped-IsValid d c v left,
    rw (contents-popped v (omega (arith, left, v.items))),
  )

  empty-false :
      {q : Counters A}
      → IsValid capacity q
      → (q.consumer_head == q.consumer_tail) ≡ false
      → 1 ≤ minus q.consumer_head q.tail
  empty-false {q} v e =
      ground (arith, ==_iff q.consumer_head q.consumer_tail, v.own_tail, v.tail_in, v.head_copy_in)

  pop_refines :
      (q : Counters A) (out : A) → IsValid capacity q → PopRefines q out (pop capacity q out)
  unfolding pop PopRefines Queue.pop
  pop_refines q out v = elim (Bool-cases (q.consumer_head == q.consumer_tail)) [
    | inr left ↦
        let (ok, q', value, e, w, k) = pop_item_refines q out v (empty-false v left) in
        (ok, q', value, rw left e, w, k)
    | inl empty ↦ elim (Bool-cases (q.head == q.consumer_tail)) [
      | inl e ↦ (
        false,
        record q { consumer_head = q.head },
        out,
        rw (empty, e),
        head_loaded-IsValid v,
        rw (
            ap (window d q.buffer capacity (q.tail % capacity)) {x = used q} {y = 0} (
              omega
                (arith, v.own_tail, v.head_in, v.tail_in, (==_iff q.head q.consumer_tail).0 e))),
      )
      | inr left ↦
          let loaded = head_loaded-IsValid v in
          let (ok, q', value, e, w, k) =
            pop_item_refines (record q { consumer_head = q.head }) out loaded
              (empty-false loaded left) in
          (ok, q', value, rw (empty, left) e, w, k)
    ]
  ]

  new_counters-IsValid : IsValid capacity (new_counters capacity d)
  new_counters-IsValid = record {
    sized = length-replicate capacity d;
    head_in = omega arith;
    tail_in = omega arith;
    tail_copy_in = omega arith;
    head_copy_in = omega arith;
    own_head = refl;
    own_tail = refl;
    fits = omega arith;
    room = omega arith;
    items = omega arith;
  }

  v4-IsQueue : IsQueue capacity (push {A = A} capacity) (pop capacity)
  unfolding PushRefines PopRefines
  v4-IsQueue = record {
    IsValid = IsValid capacity;
    contents = contents d c;
    push_refines = push_refines;
    pop_refines = pop_refines;
  }

  -- From an empty queue on, any sequence of pushes and pops of V4, each a whole call, answers as a
  -- queue of at most `Capacity` items does, and makes no access outside the buffer, also when the
  -- counters wrap at 2 ^ 64.
  pub v4_run_refines :
      (calls : List (Call A))
      → (answers : List (Answer A)) × (q : Counters A) × (run
            (push capacity)
            (pop capacity)
            (new_counters capacity d)
            calls
          ≡ some (answers, q))
        × IsValid capacity q
        × ((answers, contents d c q) ≡ run_items capacity [] calls)
  unfolding v4-IsQueue
  v4_run_refines calls = run_refines_queue v4-IsQueue calls new_counters-IsValid
