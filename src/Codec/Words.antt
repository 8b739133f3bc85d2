-- ===== src/Codec/Words.antt =====
-- codec.hpp, the helpers `store_u16_le` to `load_u64_le`: bytes stored and loaded one by one.
pub mod Stores
pub mod Loads
use low_latency_trading_gate.Base.{
  ℕ, ◌+◌, ◌*◌, ◌/◌, ◌%◌, ◌^◌, bit_and, bit_or, List, Option, none, some, ltb, if◌then◌else◌, length,
  set, get_elem?, ◌>>=◌,
}

-- value >> k
abbrev pub shr : ℕ → ℕ → ℕ
shr value k = value / 2 ^ k

-- value << k in a word of `w` bits
abbrev pub shl : ℕ → ℕ → ℕ → ℕ
shl w value k = value * 2 ^ k % 2 ^ w

-- out[i] = b
write_byte : List ℕ → ℕ → ℕ → Option (List ℕ)
write_byte out i b = if ltb i (length out) then some (set out i b) else none

unfoldable pub store_u16_le : List ℕ → ℕ → ℕ → Option (List ℕ)
unfolding write_byte
store_u16_le out offset value = do
  out ← write_byte out (offset + 0) (bit_and value 0xff)
  write_byte out (offset + 1) (bit_and (shr value 8) 0xff)

unfoldable pub store_u32_le : List ℕ → ℕ → ℕ → Option (List ℕ)
unfolding write_byte
store_u32_le out offset value = do
  out ← write_byte out (offset + 0) (bit_and value 0xff)
  out ← write_byte out (offset + 1) (bit_and (shr value 8) 0xff)
  out ← write_byte out (offset + 2) (bit_and (shr value 16) 0xff)
  write_byte out (offset + 3) (bit_and (shr value 24) 0xff)

unfoldable pub store_u64_le : List ℕ → ℕ → ℕ → Option (List ℕ)
unfolding write_byte
store_u64_le out offset value = do
  out ← write_byte out (offset + 0) (bit_and value 0xff)
  out ← write_byte out (offset + 1) (bit_and (shr value 8) 0xff)
  out ← write_byte out (offset + 2) (bit_and (shr value 16) 0xff)
  out ← write_byte out (offset + 3) (bit_and (shr value 24) 0xff)
  out ← write_byte out (offset + 4) (bit_and (shr value 32) 0xff)
  out ← write_byte out (offset + 5) (bit_and (shr value 40) 0xff)
  out ← write_byte out (offset + 6) (bit_and (shr value 48) 0xff)
  write_byte out (offset + 7) (bit_and (shr value 56) 0xff)

unfoldable pub load_u16_le : List ℕ → ℕ → Option ℕ
load_u16_le in_ offset = do
  b0 ← get_elem? in_ (offset + 0)
  let res = bit_or 0 b0
  b1 ← get_elem? in_ (offset + 1)
  some (bit_or res (shl 16 b1 8))

unfoldable pub load_u32_le : List ℕ → ℕ → Option ℕ
load_u32_le in_ offset = do
  b0 ← get_elem? in_ (offset + 0)
  let res = bit_or 0 b0
  b1 ← get_elem? in_ (offset + 1)
  let res = bit_or res (shl 32 b1 8)
  b2 ← get_elem? in_ (offset + 2)
  let res = bit_or res (shl 32 b2 16)
  b3 ← get_elem? in_ (offset + 3)
  some (bit_or res (shl 32 b3 24))

unfoldable pub load_u64_le : List ℕ → ℕ → Option ℕ
load_u64_le in_ offset = do
  b0 ← get_elem? in_ (offset + 0)
  let res = bit_or 0 b0
  b1 ← get_elem? in_ (offset + 1)
  let res = bit_or res (shl 64 b1 8)
  b2 ← get_elem? in_ (offset + 2)
  let res = bit_or res (shl 64 b2 16)
  b3 ← get_elem? in_ (offset + 3)
  let res = bit_or res (shl 64 b3 24)
  b4 ← get_elem? in_ (offset + 4)
  let res = bit_or res (shl 64 b4 32)
  b5 ← get_elem? in_ (offset + 5)
  let res = bit_or res (shl 64 b5 40)
  b6 ← get_elem? in_ (offset + 6)
  let res = bit_or res (shl 64 b6 48)
  b7 ← get_elem? in_ (offset + 7)
  some (bit_or res (shl 64 b7 56))
