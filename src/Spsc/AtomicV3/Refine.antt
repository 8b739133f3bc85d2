-- ===== src/Spsc/AtomicV3/Refine.antt =====
-- V3 against its promise.
use low_latency_trading_gate.Base.{
  ℕ, ◌-◌, ◌≤◌, ◌<◌, ◌≡◌, refl, sym, ap, ◌∙◌, List, [], Option, some, Bool, true, false, arith, ◌==◌,
  get_or, Bool-cases, inl, inr,
}
use low_latency_trading_gate.Spsc.{Ring, increment}
use low_latency_trading_gate.Spsc.Queue
use low_latency_trading_gate.Spsc.Places.{
  IsCapacity, increment-eq-mod, distance, distance-push, distance-pop, used, contents,
  new_ring-IsValid, contents-new_ring, pushed, store-pushed, pushed-IsValid, used-pushed, popped,
  load-front, popped-IsValid, used-popped, used-full, used-room, used-empty, used-left, used-lt,
  push-full, push-room, pop-empty, pop-left,
}
use low_latency_trading_gate.Spsc.Places
use low_latency_trading_gate.Spsc.Run.{Call, Answer, run, run_items, IsQueue, run_refines_queue}
use low_latency_trading_gate.Spsc.AtomicV3.{
  Cached, new_cached, push_item, push, emplace, pop_item, pop,
}

-- A copy is a position that the other thread once had: the producer sees no more room than there
-- is, and the consumer no more items.
pub record IsValid {A : Type 0} (capacity : ℕ) (q : Cached A) : Type 0 where
  pub ring : Places.IsValid capacity q.ring
  pub tail_cache : q.producer_tail_cache < capacity
  pub head_cache : q.consumer_head_cache < capacity
  pub room : used capacity q.ring ≤ distance capacity q.producer_tail_cache q.ring.head
  pub items : distance capacity q.ring.tail q.consumer_head_cache ≤ used capacity q.ring

-- What the producer takes the ring for, and what the consumer does.
abbrev produced : {A : Type 0} → Cached A → Ring A
produced q = record q.ring { tail = q.producer_tail_cache }

abbrev consumed : {A : Type 0} → Cached A → Ring A
consumed q = record q.ring { head = q.consumer_head_cache }

module _ {A : Type 0} (d : A) {capacity : ℕ} (c : IsCapacity capacity) where
  abbrev pub PushRefines : Cached A → A → Option (Bool × Cached A) → Type 0
  PushRefines q value result =
      (ok : Bool) × (q' : Cached A) × (result ≡ some (ok, q'))
      × IsValid capacity q'
      × ((ok, contents d capacity q'.ring)
          ≡ Queue.push (capacity - 1) (contents d capacity q.ring) value)

  pub produced-IsValid : {q : Cached A} → IsValid capacity q → Places.IsValid capacity (produced q)
  produced-IsValid v = record { sized = v.ring.sized; head = v.ring.head; tail = v.tail_cache }

  pub consumed-IsValid : {q : Cached A} → IsValid capacity q → Places.IsValid capacity (consumed q)
  consumed-IsValid v = record { sized = v.ring.sized; head = v.head_cache; tail = v.ring.tail }

  push_item_refines :
      (q : Cached A) (value : A)
      → IsValid capacity q
      → (increment capacity q.ring.head == q.producer_tail_cache) ≡ false
      → PushRefines q value (push_item q (increment capacity q.ring.head) value)
  unfolding push_item
  push_item_refines q value v e =
      let seen = used-room c (produced-IsValid v) e in
      let grown = used-pushed d c v.ring value (omega (arith, seen, v.room)) in
      let seen_grown = used-pushed d c (produced-IsValid v) value seen in
      (
        true,
        record q { ring = pushed d c v.ring value },
        rw (store-pushed d c v.ring value),
        record {
          ring = pushed-IsValid d c v.ring value;
          tail_cache = v.tail_cache;
          head_cache = v.head_cache;
          room = omega (arith, v.room, grown, seen_grown);
          items = omega (arith, v.items, grown);
        },
        sym (push-room d c v.ring value (omega (arith, seen, v.room))),
      )

  pub tail_loaded-IsValid :
      {q : Cached A}
      → IsValid capacity q
      → IsValid capacity (record q { producer_tail_cache = q.ring.tail })
  tail_loaded-IsValid v = record {
    ring = v.ring;
    tail_cache = v.ring.tail;
    head_cache = v.head_cache;
    room = omega arith;
    items = v.items;
  }

  pub head_loaded-IsValid :
      {q : Cached A}
      → IsValid capacity q
      → IsValid capacity (record q { consumer_head_cache = q.ring.head })
  head_loaded-IsValid v = record {
    ring = v.ring;
    tail_cache = v.tail_cache;
    head_cache = v.ring.head;
    room = v.room;
    items = omega arith;
  }

  pub push_refines :
      (q : Cached A) (value : A) → IsValid capacity q → PushRefines q value (push capacity q value)
  unfolding push
  push_refines q value v =
      elim (Bool-cases (increment capacity q.ring.head == q.producer_tail_cache)) [
        | inr room ↦
            let (ok, q', e, w, k) = push_item_refines q value v room in (ok, q', rw room e, w, k)
        | inl full ↦ elim (Bool-cases (increment capacity q.ring.head == q.ring.tail)) [
          | inl e ↦ (
            false,
            record q { producer_tail_cache = q.ring.tail },
            rw (full, e),
            tail_loaded-IsValid v,
            sym (push-full d c v.ring value (used-full c v.ring e)),
          )
          | inr room ↦
              let (ok, q', e, w, k) =
                push_item_refines (record q { producer_tail_cache = q.ring.tail }) value
                  (tail_loaded-IsValid v) room in
              (ok, q', rw (full, room) e, w, k)
        ]
      ]

  abbrev pub PopRefines : Cached A → A → Option (Bool × Cached A × A) → Type 0
  PopRefines q out result =
      (ok : Bool) × (q' : Cached A) × (value : A) × (result ≡ some (ok, q', value))
      × IsValid capacity q'
      × ((ok, contents d capacity q'.ring, value) ≡ Queue.pop (contents d capacity q.ring) out)

  pop_item_refines :
      (q : Cached A) (out : A)
      → IsValid capacity q
      → (q.ring.tail == q.consumer_head_cache) ≡ false
      → PopRefines q out (pop_item capacity q)
  unfolding pop_item
  pop_item_refines q out v e =
      let seen = used-left c (consumed-IsValid v) e in
      let shrunk = used-popped d c v.ring (omega (arith, seen, v.items)) in
      let seen_shrunk = used-popped d c (consumed-IsValid v) seen in
      (
        true,
        record q { ring = popped d c v.ring },
        get_or q.ring.buffer q.ring.tail d,
        rw (load-front d c v.ring),
        record {
          ring = popped-IsValid d c v.ring;
          tail_cache = v.tail_cache;
          head_cache = v.head_cache;
          room = omega (arith, v.room, shrunk);
          items = omega (arith, v.items, shrunk, seen_shrunk);
        },
        sym (pop-left d c v.ring out (omega (arith, seen, v.items))),
      )

  pub pop_refines :
      (q : Cached A) (out : A) → IsValid capacity q → PopRefines q out (pop capacity q out)
  unfolding pop
  pop_refines q out v = elim (Bool-cases (q.ring.tail == q.consumer_head_cache)) [
    | inr left ↦
        let (ok, q', value, e, w, k) = pop_item_refines q out v left in
        (ok, q', value, rw left e, w, k)
    | inl empty ↦ elim (Bool-cases (q.ring.tail == q.ring.head)) [
      | inl e ↦ (
        false,
        record q { consumer_head_cache = q.ring.head },
        out,
        rw (empty, e),
        head_loaded-IsValid v,
        sym (pop-empty d c v.ring out (used-empty c v.ring e)),
      )
      | inr left ↦
          let (ok, q', value, e, w, k) =
            pop_item_refines (record q { consumer_head_cache = q.ring.head }) out
              (head_loaded-IsValid v) left in
          (ok, q', value, rw (empty, left) e, w, k)
    ]
  ]

  pub new_cached-IsValid : IsValid capacity (new_cached capacity d)
  new_cached-IsValid =
      let ring = new_ring-IsValid d c in
      record {
        ring = ring;
        tail_cache = ring.tail;
        head_cache = ring.head;
        room = omega arith;
        items = omega arith;
      }

  v3-IsQueue : IsQueue (capacity - 1) (push {A = A} capacity) (pop capacity)
  v3-IsQueue = record {
    IsValid = IsValid capacity;
    contents = λ q. contents d capacity q.ring;
    push_refines = push_refines;
    pop_refines = pop_refines;
  }

  -- From an empty queue on, any sequence of pushes and pops of V3, each a whole call, answers as a
  -- queue of at most `Capacity - 1` items does, and makes no access outside the buffer: a copy of
  -- the other thread's position that is out of date never changes an answer.
  pub v3_run_refines :
      (calls : List (Call A))
      → (answers : List (Answer A)) × (q : Cached A) × (run
            (push capacity)
            (pop capacity)
            (new_cached capacity d)
            calls
          ≡ some (answers, q))
        × IsValid capacity q
        × ((answers, contents d capacity q.ring) ≡ run_items (capacity - 1) [] calls)
  unfolding v3-IsQueue
  v3_run_refines calls =
      let (answers, q, e, v, k) = run_refines_queue v3-IsQueue calls new_cached-IsValid in
      (
        answers,
        q,
        e,
        v,
        k ∙ ap (λ items. run_items (capacity - 1) items calls) (contents-new_ring d c),
      )

  pub emplace-eq-push :
      {Args : Type 0} (construct : Args → A) (q : Cached A) (args : Args)
      → emplace construct capacity q args ≡ push capacity q (construct args)
  unfolding emplace push
  emplace-eq-push construct q args = refl
