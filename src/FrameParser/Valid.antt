-- ===== src/FrameParser/Valid.antt =====
-- The representation invariant of `FrameParser`, and the bytes that a parser holds.
use native.Mathlib.Nat.{mod-add-mod, mod-mod_of_dvd, one-le-pow, pow-le-pow_right}
use low_latency_trading_gate.Base.{
  ℕ, zero, suc, ◌+◌, ◌-◌, ◌%◌, ◌^◌, ◌≤◌, ◌<◌, ◌≡◌, refl, sym, ap, ◌∙◌, subst, List, [], replicate,
  length-replicate, arith, length, bit_and,
}
use Prim.Native.Nat.{◌∣◌}
use low_latency_trading_gate.Base.Bits.{bit_and-mask, two_pow_dvd}
use low_latency_trading_gate.Base.Bytes.{IsBytes}
use low_latency_trading_gate.Base.Window.{window, length-window}
use low_latency_trading_gate.Protocol.{frame_size}
use low_latency_trading_gate.FrameParser.{
  FrameParser, fresh, size, buffer_idx, free_slots, move_write_pos, move_read_pos,
}

-- The two static_asserts: a multiple of 64, and a power of 2 that a size_t can hold.
pub record IsCapacity (capacity : ℕ) : Type 0 where
  pub aligned : capacity % frame_size ≡ 0
  pub exponent : ℕ
  pub power : capacity ≡ 2 ^ exponent
  pub word : exponent < 64

module _ {capacity : ℕ} (c : IsCapacity capacity) where
  pub capacity-dvd : capacity ∣ 2 ^ 64
  capacity-dvd = subst (λ t. t ∣ 2 ^ 64) (sym c.power) (two_pow_dvd c.exponent 64 (omega arith))

  pub capacity_bounds : (frame_size ≤ capacity) × (capacity ≤ 2 ^ 63)
  capacity_bounds =
      let positive = one-le-pow c.exponent 2 (omega arith) in
      let small = pow-le-pow_right {n = 2} (omega arith) {i = c.exponent} {j = 63} (omega arith) in
      (omega arith, omega arith)

  -- The mask of `buffer_idx` is the remainder.
  pub buffer_idx-eq-mod : (index : ℕ) → buffer_idx capacity index ≡ index % capacity
  unfolding buffer_idx
  buffer_idx-eq-mod index =
      subst (λ t. bit_and index (t - 1) ≡ index % t) (sym c.power) (bit_and-mask c.exponent index)

-- The positions wrap at 2 ^ 64 and the capacity divides 2 ^ 64, so the places stay right.
pub record IsValid (capacity : ℕ) (p : FrameParser) : Type 0 where
  pub sized : length p.buffer ≡ capacity
  pub bytes : IsBytes p.buffer
  pub aligned : p.read_pos % frame_size ≡ 0
  pub read_in : p.read_pos < 2 ^ 64
  pub write_in : p.write_pos < 2 ^ 64
  pub fits : size p ≤ capacity

-- The bytes appended and not yet parsed, oldest first.
abbrev pub contents : ℕ → FrameParser → List ℕ
contents capacity p = window 0 p.buffer capacity (p.read_pos % capacity) (size p)

pub length-contents : (capacity : ℕ) (p : FrameParser) → length (contents capacity p) ≡ size p
length-contents capacity p = length-window 0 p.buffer capacity (p.read_pos % capacity) (size p)

module _ {capacity : ℕ} {p : FrameParser} (c : IsCapacity capacity) (v : IsValid capacity p) where
  pub free_slots-eq-sub : free_slots capacity p ≡ capacity - size p
  unfolding free_slots
  free_slots-eq-sub = omega (arith, capacity_bounds c, v.fits)

  pub size-move_write_pos :
      (step : ℕ) → size p + step ≤ capacity → size (move_write_pos p step) ≡ size p + step
  unfolding size move_write_pos
  size-move_write_pos step h = omega (arith, capacity_bounds c)

  pub size-move_read_pos : (step : ℕ) → step ≤ size p → size (move_read_pos p step) ≡ size p - step
  unfolding size move_read_pos
  size-move_read_pos step h = omega (arith, capacity_bounds c)

  write_pos-eq-add : p.write_pos ≡ (p.read_pos + size p) % 2 ^ 64
  unfolding size
  write_pos-eq-add = omega arith

  -- The next byte goes to the place right behind the contents.
  pub write-place : p.write_pos % capacity ≡ (p.read_pos % capacity + size p) % capacity
  write-place =
      ap (λ k. k % capacity) write_pos-eq-add
      ∙ (mod-mod_of_dvd capacity (p.read_pos + size p) (capacity-dvd c)
          ∙ sym (mod-add-mod p.read_pos capacity (size p)))

  -- The next byte to parse stands `step` places on.
  pub read-place :
      (step : ℕ)
      → (move_read_pos p step).read_pos % capacity ≡ (p.read_pos % capacity + step) % capacity
  unfolding move_read_pos
  read-place step =
      mod-mod_of_dvd capacity (p.read_pos + step) (capacity-dvd c)
      ∙ sym (mod-add-mod p.read_pos capacity step)

zeros-IsBytes : (n : ℕ) → IsBytes (replicate n 0)
zeros-IsBytes zero = tt
zeros-IsBytes (suc n) = (omega arith, zeros-IsBytes n)

-- A new parser is valid and holds nothing.
pub fresh-IsValid :
    {capacity : ℕ}
    → IsCapacity capacity
    → IsValid capacity (fresh capacity) × (contents capacity (fresh capacity) ≡ [])
unfolding size
fresh-IsValid {capacity} c = (
  record {
    sized = length-replicate capacity 0;
    bytes = zeros-IsBytes capacity;
    aligned = refl;
    read_in = omega arith;
    write_in = omega arith;
    fits = omega arith;
  },
  refl,
)
