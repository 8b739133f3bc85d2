-- ===== src/Spsc/AtomicV3.antt =====
-- SpscRingBufferAtomicV3, the queue of the gateway. The producer keeps a copy of the tail and the
-- consumer a copy of the head, and each loads the other's position only when its copy gives no way
-- on.
pub mod Refine
pub mod Items
pub mod Threads
pub mod Safe
pub mod Interleaving
use low_latency_trading_gate.Base.{
  ℕ, Option, some, Bool, true, false, ◌==◌, if◌then◌else◌, ◌>>=◌, get_elem?,
}
use low_latency_trading_gate.Spsc.{Ring, new_ring, increment, store}

pub record Cached (A : Type 0) : Type 0 where
  pub ring : Ring A
  pub producer_tail_cache : ℕ
  pub consumer_head_cache : ℕ

abbrev pub new_cached : {A : Type 0} → ℕ → A → Cached A
new_cached capacity value = record {
  ring = new_ring capacity value;
  producer_tail_cache = 0;
  consumer_head_cache = 0;
}

-- The end of `push`, where there is room.
push_item : {A : Type 0} → Cached A → ℕ → A → Option (Bool × Cached A)
push_item q next value = do
  buffer ← store q.ring.buffer q.ring.head value
  some (true, record q { ring = record q.ring { buffer = buffer; head = next } })

unfoldable pub push : {A : Type 0} → ℕ → Cached A → A → Option (Bool × Cached A)
unfolding push_item
push capacity q value =
    let next = increment capacity q.ring.head in
    if next == q.producer_tail_cache
    then (let q : Cached _ = record q { producer_tail_cache = q.ring.tail } in
        if next == q.producer_tail_cache then some (false, q) else push_item q next value)
    else push_item q next value

-- `emplace`, for the object that T's constructor makes of the arguments.
unfoldable pub emplace :
    {A Args : Type 0} → (Args → A) → ℕ → Cached A → Args → Option (Bool × Cached A)
unfolding push_item
emplace construct capacity q args =
    let next = increment capacity q.ring.head in
    if next == q.producer_tail_cache
    then (let q : Cached _ = record q { producer_tail_cache = q.ring.tail } in
        if next == q.producer_tail_cache
        then some (false, q)
        else push_item q next (construct args))
    else push_item q next (construct args)

-- The end of `pop`, where there is an item.
pop_item : {A : Type 0} → ℕ → Cached A → Option (Bool × Cached A × A)
pop_item capacity q = do
  out ← get_elem? q.ring.buffer q.ring.tail
  some (true, record q { ring = record q.ring { tail = increment capacity q.ring.tail } }, out)

unfoldable pub pop : {A : Type 0} → ℕ → Cached A → A → Option (Bool × Cached A × A)
unfolding pop_item
pop capacity q out =
    if q.ring.tail == q.consumer_head_cache
    then (let q : Cached _ = record q { consumer_head_cache = q.ring.head } in
        if q.ring.tail == q.consumer_head_cache then some (false, q, out) else pop_item capacity q)
    else pop_item capacity q
