-- ===== src/Spsc/AtomicV3/Safe.antt =====
-- The invariant of the two threads of V3, and that a step of one keeps what the other knows.
use low_latency_trading_gate.Base.{
  ℕ, zero, suc, ◌+◌, ◌≤◌, ◌<◌, ◌≡◌, refl, sym, ap, ◌∙◌, List, [], ◌∷◌, ◌++◌, Option, some, arith,
  get_or, set, length-set, get_or-set_ne,
}
use low_latency_trading_gate.Base.Window.{window-congr, place-ne}
use low_latency_trading_gate.Spsc.{Ring}
use low_latency_trading_gate.Spsc.Places
use low_latency_trading_gate.Spsc.Places.{
  IsCapacity, increment-eq-mod, distance, distance-zero_iff, place-distance, used, contents,
  length-contents, new_ring-IsValid, contents-new_ring, pushed, store-pushed, pushed-IsValid,
  used-pushed, contents-pushed, popped, load-front, popped-IsValid, used-popped, contents-popped,
  used-room, used-left, used-lt,
}
use low_latency_trading_gate.Spsc.AtomicV3.{Cached}
use low_latency_trading_gate.Spsc.AtomicV3.Refine.{IsValid}
use low_latency_trading_gate.Spsc.AtomicV3.Threads.{Producer, Consumer, Threads}

pub set-same {ℓ} : {A : Type ℓ} (xs : List A) (i : ℕ) (d : A) → set xs i (get_or xs i d) ≡ xs
set-same [] i d = refl
set-same (x ∷ xs) zero d = refl
set-same (x ∷ xs) (suc i) d = ap (◌∷◌ x) (set-same xs i d)

module _ {A : Type 0} (d : A) (capacity : ℕ) where
  -- What the producer knows where it stands.
  abbrev pub ProducerFits : Cached A → Producer A → Type 0
  ProducerFits q (Producer.writing item) =
      distance capacity q.producer_tail_cache q.ring.head + 1 < capacity
  ProducerFits q (Producer.publishing item) =
      (distance capacity q.producer_tail_cache q.ring.head + 1 < capacity)
      × (get_or q.ring.buffer q.ring.head d ≡ item)
  ProducerFits q _ = Unit {0}

  -- What the consumer knows where it stands.
  abbrev pub ConsumerFits : Cached A → Consumer A → Type 0
  ConsumerFits q Consumer.reading = 1 ≤ distance capacity q.ring.tail q.consumer_head_cache
  ConsumerFits q (Consumer.releasing out) =
      (1 ≤ distance capacity q.ring.tail q.consumer_head_cache)
      × (get_or q.ring.buffer q.ring.tail d ≡ out)
  ConsumerFits q _ = Unit {0}

  -- The items sent are those received and those in the ring, in this order.
  pub record IsSafe (s : Threads A) : Type 0 where
    pub queue : IsValid capacity s.queue
    pub producer : ProducerFits s.queue s.producer
    pub consumer : ConsumerFits s.queue s.consumer
    pub fifo : s.sent ≡ s.received ++ contents d capacity s.queue.ring

-- A step of one thread keeps what the other knows.
module _ {A : Type 0} (d : A) (capacity : ℕ) where
  pub consumer-kept :
      (pc : Consumer A) (q : Cached A) (head tail_cache : ℕ)
      → ConsumerFits d capacity q pc
      → ConsumerFits d capacity
          (record q { ring = record q.ring { head = head }; producer_tail_cache = tail_cache })
          pc
  consumer-kept Consumer.idle q head tail_cache k = k
  consumer-kept Consumer.loading_head q head tail_cache k = k
  consumer-kept Consumer.reading q head tail_cache k = k
  consumer-kept (Consumer.releasing out) q head tail_cache k = k

  pub producer-kept :
      (pc : Producer A) (q : Cached A) (tail head_cache : ℕ)
      → ProducerFits d capacity q pc
      → ProducerFits d capacity
          (record q { ring = record q.ring { tail = tail }; consumer_head_cache = head_cache })
          pc
  producer-kept Producer.idle q tail head_cache k = k
  producer-kept (Producer.loading_tail item) q tail head_cache k = k
  producer-kept (Producer.writing item) q tail head_cache k = k
  producer-kept (Producer.publishing item) q tail head_cache k = k

module _ {A : Type 0} (d : A) {capacity : ℕ} (c : IsCapacity capacity) where
  -- The place that the producer writes holds no item.
  pub write-contents :
      {q : Ring A} (item : A)
      → Places.IsValid capacity q
      → contents d capacity (record q { buffer = set q.buffer q.head item }) ≡ contents d capacity q
  write-contents {q} item v =
      window-congr d q.buffer (set q.buffer q.head item) capacity q.tail (used capacity q) v.tail
        λ i hi. get_or-set_ne q.buffer item d λ e.
          place-ne capacity q.tail (used capacity q) i v.tail (used-lt c v)
            (omega (arith, hi, used-lt c v)) (omega (arith, hi))
            (place-distance capacity q.tail q.head c.two v.tail v.head ∙ e)

  pub consumer-kept_write :
      (pc : Consumer A) {q : Cached A} (item : A)
      → IsValid capacity q
      → ConsumerFits d capacity q pc
      → ConsumerFits d capacity
          (record q { ring = record q.ring { buffer = set q.ring.buffer q.ring.head item } })
          pc
  consumer-kept_write Consumer.idle item v k = k
  consumer-kept_write Consumer.loading_head item v k = k
  consumer-kept_write Consumer.reading item v k = k
  consumer-kept_write (Consumer.releasing out) {q} item v k = (
    k.0,
    get_or-set_ne q.ring.buffer item d (λ e.
          let empty =
            (distance-zero_iff capacity q.ring.tail q.ring.head c.two v.ring.tail v.ring.head).1
              (sym e) in
          absurd (omega (arith, empty, k.0, v.items)))
        ∙ k.1,
  )

  pub written-IsValid :
      {q : Cached A} (item : A)
      → IsValid capacity q
      → IsValid capacity
          (record q { ring = record q.ring { buffer = set q.ring.buffer q.ring.head item } })
  written-IsValid {q} item v = record {
    ring = record {
      sized = length-set q.ring.buffer q.ring.head item ∙ v.ring.sized;
      head = v.ring.head;
      tail = v.ring.tail;
    };
    tail_cache = v.tail_cache;
    head_cache = v.head_cache;
    room = v.room;
    items = v.items;
  }

  -- A thread takes a step from a safe state to a safe state.
  abbrev pub Steps : Option (Threads A) → Type 0
  Steps result = (t : Threads A) × (result ≡ some t) × IsSafe d capacity t
