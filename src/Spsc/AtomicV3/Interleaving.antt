-- ===== src/Spsc/AtomicV3/Interleaving.antt =====
-- What holds of V3 in every interleaving of its two threads.
use low_latency_trading_gate.Base.{
  ℕ, ◌+◌, ◌-◌, ◌≤◌, ◌<◌, ◌≡◌, refl, sym, ap, ◌∙◌, List, [], ◌∷◌, ◌++◌, some, arith, ◌==◌, get_or,
  set, length, get_or-set_self, Bool-cases, inl, inr, append_assoc,
}
use low_latency_trading_gate.Base.Window.{window}
use low_latency_trading_gate.Spsc.{increment}
use low_latency_trading_gate.Spsc.Places.{
  IsCapacity, used, contents, length-contents, contents-new_ring, pushed, store-pushed,
  pushed-IsValid, used-pushed, contents-pushed, popped, load-front, popped-IsValid, used-popped,
  contents-popped, used-room, used-left, used-lt,
}
use low_latency_trading_gate.Spsc.AtomicV3.{Cached}
use low_latency_trading_gate.Spsc.AtomicV3.Refine.{
  IsValid, produced-IsValid, consumed-IsValid, tail_loaded-IsValid, head_loaded-IsValid,
  new_cached-IsValid,
}
use low_latency_trading_gate.Spsc.AtomicV3.Threads.{
  Producer, Consumer, Threads, new_threads, Turn, produce, consume, take_turn, interleave,
  producer_at, consumer_at,
}
use low_latency_trading_gate.Spsc.AtomicV3.Safe.{
  set-same, ProducerFits, ConsumerFits, IsSafe, consumer-kept, producer-kept, write-contents,
  consumer-kept_write, written-IsValid, Steps,
}

module _ {A : Type 0} (d : A) {capacity : ℕ} (c : IsCapacity capacity) where
  module _ (s : Threads A) (v : IsValid capacity s.queue)
      (f : s.sent ≡ s.received ++ contents d capacity s.queue.ring) where
    write_step :
        (item value : A)
        → ProducerFits d capacity s.queue (Producer.writing item)
        → ConsumerFits d capacity s.queue s.consumer
        → Steps d c (producer_at (Producer.writing item) capacity s value)
    unfolding producer_at
    write_step item value p k = (
      record s {
        queue = record s.queue {
          ring = record s.queue.ring { buffer = set s.queue.ring.buffer s.queue.ring.head item };
        };
        producer = Producer.publishing item;
      },
      rw (store-pushed d c v.ring item),
      record {
        queue = written-IsValid d c item v;
        producer = (
          p,
          get_or-set_self s.queue.ring.buffer s.queue.ring.head item d
              (omega (arith, v.ring.sized, v.ring.head)),
        );
        consumer = consumer-kept_write d c s.consumer item v k;
        fifo = f ∙ ap (λ items. s.received ++ items) (sym (write-contents d c item v.ring));
      },
    )

    publish_step :
        (item value : A)
        → ProducerFits d capacity s.queue (Producer.publishing item)
        → ConsumerFits d capacity s.queue s.consumer
        → Steps d c (producer_at (Producer.publishing item) capacity s value)
    unfolding producer_at
    publish_step item value p k =
        let same =
          ap (set s.queue.ring.buffer s.queue.ring.head) (sym p.1)
          ∙ set-same s.queue.ring.buffer s.queue.ring.head d in
        let room : used capacity s.queue.ring + 1 < capacity = omega (arith, p.0, v.room) in
        let after = pushed-IsValid d c v.ring item in
        let grown = used-pushed d c v.ring item room in
        let seen_grown = used-pushed d c (produced-IsValid d c v) item p.0 in
        (
          record s {
            queue = record s.queue {
              ring = record s.queue.ring { head = increment capacity s.queue.ring.head };
            };
            producer = Producer.idle;
            sent = s.sent ++ (item ∷ []);
          },
          refl,
          record {
            queue = record {
              ring = record { sized = v.ring.sized; head = after.head; tail = after.tail };
              tail_cache = v.tail_cache;
              head_cache = v.head_cache;
              room = omega (arith, v.room, grown, seen_grown);
              items = omega (arith, v.items, grown);
            };
            producer = tt;
            consumer =
                consumer-kept d capacity s.consumer s.queue (increment capacity s.queue.ring.head)
                  s.queue.producer_tail_cache k;
            fifo =
                ap (λ items. items ++ (item ∷ [])) f
                ∙ append_assoc s.received (contents d capacity s.queue.ring) (item ∷ [])
                ∙ ap (λ items. s.received ++ items)
                    (sym (contents-pushed d c v.ring item room)
                      ∙ ap
                          (λ b.
                            window d b capacity s.queue.ring.tail
                              (used capacity (pushed d c v.ring item)))
                          same);
          },
        )

    release_step :
        (out : A)
        → ProducerFits d capacity s.queue s.producer
        → ConsumerFits d capacity s.queue (Consumer.releasing out)
        → Steps d c (consumer_at (Consumer.releasing out) capacity s)
    unfolding consumer_at
    release_step out p k =
        let left : 1 ≤ used capacity s.queue.ring = omega (arith, k.0, v.items) in
        let shrunk = used-popped d c v.ring left in
        let seen_shrunk = used-popped d c (consumed-IsValid d c v) k.0 in
        (
          record s {
            queue = record s.queue { ring = popped d c v.ring };
            consumer = Consumer.idle;
            received = s.received ++ (out ∷ []);
          },
          refl,
          record {
            queue = record {
              ring = popped-IsValid d c v.ring;
              tail_cache = v.tail_cache;
              head_cache = v.head_cache;
              room = omega (arith, v.room, shrunk);
              items = omega (arith, v.items, shrunk, seen_shrunk);
            };
            producer =
                producer-kept d capacity s.producer s.queue (increment capacity s.queue.ring.tail)
                  s.queue.consumer_head_cache p;
            consumer = tt;
            fifo =
                f
                ∙ ap (λ items. s.received ++ items)
                    (contents-popped d c v.ring left
                      ∙ ap (λ x. x ∷ contents d capacity (popped d c v.ring)) k.1)
                ∙ sym
                    (append_assoc s.received (out ∷ []) (contents d capacity (popped d c v.ring)));
          },
        )

    producer_step :
        (pc : Producer A) (value : A)
        → ProducerFits d capacity s.queue pc
        → ConsumerFits d capacity s.queue s.consumer
        → Steps d c (producer_at pc capacity s value)
    unfolding producer_at
    producer_step Producer.idle value p k =
        elim (Bool-cases (increment capacity s.queue.ring.head == s.queue.producer_tail_cache)) [
          | inl e ↦ (
            record s { producer = Producer.loading_tail value },
            rw e,
            record { queue = v; producer = tt; consumer = k; fifo = f },
          )
          | inr e ↦ (
            record s { producer = Producer.writing value },
            rw e,
            record {
              queue = v;
              producer = used-room c (produced-IsValid d c v) e;
              consumer = k;
              fifo = f;
            },
          )
        ]
    producer_step (Producer.loading_tail item) value p k =
        let queue : Cached A = record s.queue { producer_tail_cache = s.queue.ring.tail } in
        let loaded = tail_loaded-IsValid d c v in
        let kept =
          consumer-kept d capacity s.consumer s.queue s.queue.ring.head s.queue.ring.tail k in
        elim (Bool-cases (increment capacity s.queue.ring.head == s.queue.ring.tail)) [
          | inl e ↦ (
            record s { queue = queue; producer = Producer.idle },
            rw e,
            record { queue = loaded; producer = tt; consumer = kept; fifo = f },
          )
          | inr e ↦ (
            record s { queue = queue; producer = Producer.writing item },
            rw e,
            record {
              queue = loaded;
              producer = used-room c (produced-IsValid d c loaded) e;
              consumer = kept;
              fifo = f;
            },
          )
        ]
    producer_step (Producer.writing item) value p k = write_step item value p k
    producer_step (Producer.publishing item) value p k = publish_step item value p k

    consumer_step :
        (pc : Consumer A)
        → ProducerFits d capacity s.queue s.producer
        → ConsumerFits d capacity s.queue pc
        → Steps d c (consumer_at pc capacity s)
    unfolding consumer_at
    consumer_step Consumer.idle p k =
        elim (Bool-cases (s.queue.ring.tail == s.queue.consumer_head_cache)) [
          | inl e ↦ (
            record s { consumer = Consumer.loading_head },
            rw e,
            record { queue = v; producer = p; consumer = tt; fifo = f },
          )
          | inr e ↦ (
            record s { consumer = Consumer.reading },
            rw e,
            record {
              queue = v;
              producer = p;
              consumer = used-left c (consumed-IsValid d c v) e;
              fifo = f;
            },
          )
        ]
    consumer_step Consumer.loading_head p k =
        let queue : Cached A = record s.queue { consumer_head_cache = s.queue.ring.head } in
        let loaded = head_loaded-IsValid d c v in
        let kept =
          producer-kept d capacity s.producer s.queue s.queue.ring.tail s.queue.ring.head p in
        elim (Bool-cases (s.queue.ring.tail == s.queue.ring.head)) [
          | inl e ↦ (
            record s { queue = queue; consumer = Consumer.idle },
            rw e,
            record { queue = loaded; producer = kept; consumer = tt; fifo = f },
          )
          | inr e ↦ (
            record s { queue = queue; consumer = Consumer.reading },
            rw e,
            record {
              queue = loaded;
              producer = kept;
              consumer = used-left c (consumed-IsValid d c loaded) e;
              fifo = f;
            },
          )
        ]
    consumer_step Consumer.reading p k = (
      record s { consumer = Consumer.releasing (get_or s.queue.ring.buffer s.queue.ring.tail d) },
      rw (load-front d c v.ring),
      record { queue = v; producer = p; consumer = (k, refl); fifo = f },
    )
    consumer_step (Consumer.releasing out) p k = release_step out p k

  turn-IsSafe :
      (turn : Turn A) (s : Threads A) → IsSafe d capacity s → Steps d c (take_turn capacity s turn)
  unfolding take_turn
  turn-IsSafe (produce value) s i =
      producer_step s i.queue i.fifo s.producer value i.producer i.consumer
  turn-IsSafe consume s i = consumer_step s i.queue i.fifo s.consumer i.producer i.consumer

  interleave-IsSafe :
      (turns : List (Turn A)) (s : Threads A)
      → IsSafe d capacity s
      → Steps d c (interleave capacity s turns)
  unfolding interleave
  interleave-IsSafe [] s i = (s, refl, i)
  interleave-IsSafe (turn ∷ turns) s i =
      let (t, e, j) = turn-IsSafe turn s i in
      let (u, e', k) = interleave-IsSafe turns t j in (u, rw e e', k)

  new_threads-IsSafe : IsSafe d capacity (new_threads capacity d)
  new_threads-IsSafe = record {
    queue = new_cached-IsValid d c;
    producer = tt;
    consumer = tt;
    fifo = sym (contents-new_ring d c);
  }

  -- However the loads, the stores and the buffer accesses of the two threads of V3 interleave, none
  -- is out of range; what was sent is, in order, what was received and then what the ring holds,
  -- which is at most `Capacity - 1` items. Each store is seen by the loads that follow it.
  pub v3_interleave_fifo :
      (turns : List (Turn A))
      → (s : Threads A) × (interleave capacity (new_threads capacity d) turns ≡ some s)
        × (s.sent ≡ s.received ++ contents d capacity s.queue.ring)
        × (length (contents d capacity s.queue.ring) ≤ capacity - 1)
  v3_interleave_fifo turns =
      let (s, e, i) = interleave-IsSafe turns (new_threads capacity d) new_threads-IsSafe in
      (s, e, i.fifo, omega (arith, length-contents d capacity s.queue.ring, used-lt c i.queue.ring))
