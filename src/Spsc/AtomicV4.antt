-- ===== src/Spsc/AtomicV4.antt =====
-- SpscRingBufferAtomicV4: the positions are counters that only grow, and wrap at 2 ^ 64; each thread
-- keeps its own position and a copy of the other's. All `Capacity` places are used.
pub mod Valid
pub mod Refine
use native.Mathlib.Nat.{mod-lt, mod-mod_of_dvd, mod-add-mod}
use low_latency_trading_gate.Base.{
  ℕ, suc, ◌+◌, ◌-◌, ◌%◌, ◌^◌, ◌≤◌, ◌<◌, ◌≡◌, refl, sym, ap, ◌∙◌, subst, List, [], ◌∷◌, ◌++◌, Option,
  some, Bool, true, false, arith, ◌==◌, if◌then◌else◌, ◌>>=◌, get_elem?, get_or, Bool-cases, inl,
  inr, length, set, replicate, length-set, length-replicate, get_elem?-eq-get_or, lt→ltb, ltb-false,
  ltb, bit_and, ==_iff,
}
use Prim.Native.Nat.{◌∣◌}
use low_latency_trading_gate.Base.Bits.{bit_and-mask, two_pow_dvd}
use low_latency_trading_gate.Base.Window.{window, length-window, window-Written, set-Written}
use low_latency_trading_gate.Spsc.{store}
use low_latency_trading_gate.Spsc.Queue
use low_latency_trading_gate.Spsc.Places.{IsCapacity, capacity-le}
use low_latency_trading_gate.Spsc.Run.{Call, Answer, run, run_items, IsQueue, run_refines_queue}

pub record Counters (A : Type 0) : Type 0 where
  pub buffer : List A
  pub head : ℕ
  pub tail : ℕ
  pub producer_head : ℕ
  pub producer_tail : ℕ
  pub consumer_head : ℕ
  pub consumer_tail : ℕ

abbrev pub new_counters : {A : Type 0} → ℕ → A → Counters A
new_counters capacity value = record {
  buffer = replicate capacity value;
  head = 0;
  tail = 0;
  producer_head = 0;
  producer_tail = 0;
  consumer_head = 0;
  consumer_tail = 0;
}

unfoldable pub idx_of : ℕ → ℕ → ℕ
idx_of capacity counter = bit_and counter (capacity - 1)

-- size_t a - b
abbrev minus : ℕ → ℕ → ℕ
minus a b = (a + 2 ^ 64 - b) % 2 ^ 64

-- ++ on a size_t
abbrev next_counter : ℕ → ℕ
next_counter n = (n + 1) % 2 ^ 64

-- The end of `push`, where there is room.
push_item : {A : Type 0} → ℕ → Counters A → A → Option (Bool × Counters A)
push_item capacity q value = do
  buffer ← store q.buffer (idx_of capacity q.producer_head) value
  let producer_head = next_counter q.producer_head
  some (true, record q { buffer = buffer; producer_head = producer_head; head = producer_head })

unfoldable pub push : {A : Type 0} → ℕ → Counters A → A → Option (Bool × Counters A)
unfolding push_item
push capacity q value =
    if minus q.producer_head q.producer_tail == capacity
    then (let q : Counters _ = record q { producer_tail = q.tail } in
        if minus q.producer_head q.producer_tail == capacity
        then some (false, q)
        else push_item capacity q value)
    else push_item capacity q value

-- The end of `pop`, where there is an item.
pop_item : {A : Type 0} → ℕ → Counters A → Option (Bool × Counters A × A)
pop_item capacity q = do
  out ← get_elem? q.buffer (idx_of capacity q.consumer_tail)
  let consumer_tail = next_counter q.consumer_tail
  some (true, record q { consumer_tail = consumer_tail; tail = consumer_tail }, out)

unfoldable pub pop : {A : Type 0} → ℕ → Counters A → A → Option (Bool × Counters A × A)
unfolding pop_item
pop capacity q out =
    if q.consumer_head == q.consumer_tail
    then (let q : Counters _ = record q { consumer_head = q.head } in
        if q.consumer_head == q.consumer_tail then some (false, q, out) else pop_item capacity q)
    else pop_item capacity q

abbrev pub used : {A : Type 0} → Counters A → ℕ
used q = minus q.head q.tail
