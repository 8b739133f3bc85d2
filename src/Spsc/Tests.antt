-- ===== src/Spsc/Tests.antt =====
-- Concrete inputs for the theorems about spsc_ring_buffer.hpp: four places, and calls that fill the
-- queue, go round the end of the buffer, and empty it.
use low_latency_trading_gate.Base.{
  ◌++◌, ◌≤◌, length, ℕ, ◌≡◌, refl, List, [], ◌∷◌, some, arith, ◌↔◌, ◌^◌, true,
}
use low_latency_trading_gate.Spsc.{Ring, new_ring}
use low_latency_trading_gate.Spsc.Places.{IsCapacity, IsValid, contents}
use low_latency_trading_gate.Spsc.Run.{Call, Answer, push, pop, run, run_items}
use low_latency_trading_gate.Spsc.Mutex
use low_latency_trading_gate.Spsc.Mutex.{mutex_run_refines}
use low_latency_trading_gate.Spsc.AtomicV1
use low_latency_trading_gate.Spsc.AtomicV1.{v1_run_refines}
use low_latency_trading_gate.Spsc.AtomicV2
use low_latency_trading_gate.Spsc.AtomicV2.{v2_run_refines}
use low_latency_trading_gate.Spsc.AtomicV3
use low_latency_trading_gate.Spsc.AtomicV3.{Cached, new_cached}
use low_latency_trading_gate.Spsc.AtomicV3.Refine as V3
use low_latency_trading_gate.Spsc.AtomicV3.Refine.{v3_run_refines}
use low_latency_trading_gate.Spsc.AtomicV3.Threads.{
  Threads, new_threads, Turn, produce, consume, interleave,
}
use low_latency_trading_gate.Spsc.AtomicV3.Interleaving.{v3_interleave_fifo}
use low_latency_trading_gate.Spsc.{is_power_of_two}
use low_latency_trading_gate.Spsc.PowerOfTwo.{is_power_of_two_iff}
use low_latency_trading_gate.Spsc.AtomicV4
use low_latency_trading_gate.Spsc.AtomicV4.{Counters, new_counters}
use low_latency_trading_gate.Spsc.AtomicV4.Valid as V4
use low_latency_trading_gate.Spsc.AtomicV4.Refine.{v4_run_refines}

abbrev capacity_four : IsCapacity 4
capacity_four = record { two = omega arith; exponent = 2; power = refl; word = omega arith }

abbrev calls : List (Call ℕ)
calls =
    push 1
    ∷ push 2
    ∷ push 3
    ∷ push 4
    ∷ push 5
    ∷ pop 0
    ∷ pop 0
    ∷ push 6
    ∷ pop 0
    ∷ pop 0
    ∷ pop 0
    ∷ pop 0
    ∷ []

mutex_run_refines_example :
    (answers : List (Answer ℕ)) × (q : Ring ℕ) × (run
        (Mutex.push 4)
        (Mutex.pop 4)
        (new_ring 4 0)
        calls
      ≡ some (answers, q))
    × IsValid 4 q
    × ((answers, contents 0 4 q) ≡ run_items 3 [] calls)
mutex_run_refines_example = mutex_run_refines 0 capacity_four calls

v1_run_refines_example :
    (answers : List (Answer ℕ)) × (q : Ring ℕ) × (run
        (AtomicV1.push 4)
        (AtomicV1.pop 4)
        (new_ring 4 0)
        calls
      ≡ some (answers, q))
    × IsValid 4 q
    × ((answers, contents 0 4 q) ≡ run_items 3 [] calls)
v1_run_refines_example = v1_run_refines 0 capacity_four calls

v2_run_refines_example :
    (answers : List (Answer ℕ)) × (q : Ring ℕ) × (run
        (AtomicV2.push 4)
        (AtomicV2.pop 4)
        (new_ring 4 0)
        calls
      ≡ some (answers, q))
    × IsValid 4 q
    × ((answers, contents 0 4 q) ≡ run_items 3 [] calls)
v2_run_refines_example = v2_run_refines 0 capacity_four calls

v3_run_refines_example :
    (answers : List (Answer ℕ)) × (q : Cached ℕ) × (run
        (AtomicV3.push 4)
        (AtomicV3.pop 4)
        (new_cached 4 0)
        calls
      ≡ some (answers, q))
    × V3.IsValid 4 q
    × ((answers, contents 0 4 q.ring) ≡ run_items 3 [] calls)
v3_run_refines_example = v3_run_refines 0 capacity_four calls

v4_run_refines_example :
    (answers : List (Answer ℕ)) × (q : Counters ℕ) × (run
        (AtomicV4.push 4)
        (AtomicV4.pop 4)
        (new_counters 4 0)
        calls
      ≡ some (answers, q))
    × V4.IsValid 4 q
    × ((answers, V4.contents 0 capacity_four q) ≡ run_items 4 [] calls)
v4_run_refines_example = v4_run_refines 0 capacity_four calls

-- The producer pushes an item; the consumer looks too early, looks again and takes it, while the
-- producer is at the next.
abbrev turns : List (Turn ℕ)
turns =
    produce 1
    ∷ consume
    ∷ produce 0
    ∷ consume
    ∷ produce 0
    ∷ consume
    ∷ consume
    ∷ produce 2
    ∷ consume
    ∷ produce 0
    ∷ consume
    ∷ produce 0
    ∷ []

v3_interleave_fifo_example :
    (s : Threads ℕ) × (interleave 4 (new_threads 4 0) turns ≡ some s)
    × (s.sent ≡ s.received ++ contents 0 4 s.queue.ring)
    × (length (contents 0 4 s.queue.ring) ≤ 3)
v3_interleave_fifo_example = v3_interleave_fifo 0 capacity_four turns

is_power_of_two_iff_example : (is_power_of_two 1024 ≡ true) ↔ ((k : ℕ) × (1024 ≡ 2 ^ k))
is_power_of_two_iff_example = is_power_of_two_iff 1024
