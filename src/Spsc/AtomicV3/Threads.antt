-- ===== src/Spsc/AtomicV3/Threads.antt =====
-- The two threads of V3, cut at every load and store of a shared position and at every access of
-- the buffer. The threads take turns in any order; what one stores is seen by the next load of the
-- other, as under sequential consistency.
use low_latency_trading_gate.Base.{
  ℕ, List, [], ◌∷◌, ◌++◌, Option, some, ◌==◌, if◌then◌else◌, ◌>>=◌, get_elem?,
}
use low_latency_trading_gate.Spsc.{increment, store}
use low_latency_trading_gate.Spsc.AtomicV3.{Cached, new_cached}

-- Where the producer stands in `push`: outside; about to load the tail; about to write the item;
-- about to store the head.
pub data Producer (A : Type 0) : Type 0 where
  idle : Producer A
  loading_tail writing publishing : A → Producer A

-- Where the consumer stands in `pop`: outside; about to load the head; about to read the item;
-- about to store the tail.
pub data Consumer (A : Type 0) : Type 0 where
  idle loading_head reading : Consumer A
  releasing : A → Consumer A

-- `sent` are the items whose push has returned true, `received` those whose pop has.
pub record Threads (A : Type 0) : Type 0 where
  pub queue : Cached A
  pub producer : Producer A
  pub consumer : Consumer A
  pub sent : List A
  pub received : List A

abbrev pub new_threads : {A : Type 0} → ℕ → A → Threads A
new_threads capacity value = record {
  queue = new_cached capacity value;
  producer = Producer.idle;
  consumer = Consumer.idle;
  sent = [];
  received = [];
}

-- The next step of the producer, which pushes `value` next.
unfoldable pub producer_at : {A : Type 0} → Producer A → ℕ → Threads A → A → Option (Threads A)
producer_at Producer.idle capacity s value =
    let next = increment capacity s.queue.ring.head in
    if next == s.queue.producer_tail_cache
    then some (record s { producer = Producer.loading_tail value })
    else some (record s { producer = Producer.writing value })
producer_at (Producer.loading_tail item) capacity s value =
    let next = increment capacity s.queue.ring.head in
    let queue : Cached _ = record s.queue { producer_tail_cache = s.queue.ring.tail } in
    if next == queue.producer_tail_cache
    then some (record s { queue = queue; producer = Producer.idle })
    else some (record s { queue = queue; producer = Producer.writing item })
producer_at (Producer.writing item) capacity s value = do
  buffer ← store s.queue.ring.buffer s.queue.ring.head item
  some (record s {
    queue = record s.queue { ring = record s.queue.ring { buffer = buffer } };
    producer = Producer.publishing item;
  })
producer_at (Producer.publishing item) capacity s value =
    let next = increment capacity s.queue.ring.head in
    some (record s {
      queue = record s.queue { ring = record s.queue.ring { head = next } };
      producer = Producer.idle;
      sent = s.sent ++ (item ∷ []);
    })

-- The next step of the consumer.
unfoldable pub consumer_at : {A : Type 0} → Consumer A → ℕ → Threads A → Option (Threads A)
consumer_at Consumer.idle capacity s =
    if s.queue.ring.tail == s.queue.consumer_head_cache
    then some (record s { consumer = Consumer.loading_head })
    else some (record s { consumer = Consumer.reading })
consumer_at Consumer.loading_head capacity s =
    let queue : Cached _ = record s.queue { consumer_head_cache = s.queue.ring.head } in
    if queue.ring.tail == queue.consumer_head_cache
    then some (record s { queue = queue; consumer = Consumer.idle })
    else some (record s { queue = queue; consumer = Consumer.reading })
consumer_at Consumer.reading capacity s = do
  out ← get_elem? s.queue.ring.buffer s.queue.ring.tail
  some (record s { consumer = Consumer.releasing out })
consumer_at (Consumer.releasing out) capacity s = some (record s {
  queue = record s.queue {
    ring = record s.queue.ring { tail = increment capacity s.queue.ring.tail };
  };
  consumer = Consumer.idle;
  received = s.received ++ (out ∷ []);
})

-- Whose turn it is.
pub data Turn (A : Type 0) : Type 0 where
  produce : A → Turn A
  consume : Turn A

unfoldable pub take_turn : {A : Type 0} → ℕ → Threads A → Turn A → Option (Threads A)
unfolding producer_at consumer_at
take_turn capacity s (produce value) = producer_at s.producer capacity s value
take_turn capacity s consume = consumer_at s.consumer capacity s

unfoldable pub interleave : {A : Type 0} → ℕ → Threads A → List (Turn A) → Option (Threads A)
interleave capacity s [] = some s
interleave capacity s (turn ∷ turns) = do s ← take_turn capacity s turn; interleave capacity s turns
