-- ===== src/Spsc.antt =====
-- core/SPSC/spsc_ring_buffer.hpp: the queues between the gateway and the matching thread, each of
-- `capacity` places of a type A, as functions from the state to the new state. In all but
-- AtomicV3.Threads a call runs from its start to its end: what a load sees is what the last store
-- left, whatever its memory order. `none` is an access outside `buffer_`.
pub mod Queue
pub mod Places
pub mod PowerOfTwo
pub mod Run
pub mod Mutex
pub mod AtomicV1
pub mod AtomicV2
pub mod AtomicV3
pub mod AtomicV4
mod Tests
use low_latency_trading_gate.Base.{
  ℕ, ◌+◌, ◌-◌, ◌%◌, ◌^◌, bit_and, List, Option, none, some, Bool, false, not, ◌&&◌, ltb, ◌==◌,
  if◌then◌else◌, length, set, replicate,
}

unfoldable pub is_power_of_two : ℕ → Bool
is_power_of_two value = not (value == 0) && bit_and value (value - 1) == 0

-- `(index + 1) & (Capacity - 1)` on a size_t
unfoldable pub increment : ℕ → ℕ → ℕ
increment capacity index = bit_and ((index + 1) % 2 ^ 64) (capacity - 1)

-- The members that the mutex queue, V1 and V2 have: the mutex, the atomics and the padding do not
-- show in the values.
pub record Ring {ℓ} (A : Type ℓ) : Type ℓ where
  pub buffer : List A
  pub head : ℕ
  pub tail : ℕ

-- `value` is what `T{}` is.
abbrev pub new_ring {ℓ} : {A : Type ℓ} → ℕ → A → Ring A
new_ring capacity value = record { buffer = replicate capacity value; head = 0; tail = 0 }

-- buffer_[index] = value
unfoldable pub store {ℓ} : {A : Type ℓ} → List A → ℕ → A → Option (List A)
store buffer index value = if ltb index (length buffer) then some (set buffer index value) else none
