-- ===== src/Codec/Words/Stores.antt =====
-- What the store helpers leave in the span, against `to_bytes`.
use low_latency_trading_gate.Base.{
  ℕ, ◌+◌, ◌/◌, ◌%◌, ◌≤◌, ◌<◌, ◌≡◌, ap, ◌∙◌, bit_and, List, [], ◌∷◌, ◌++◌, Option, some, arith,
  lt→ltb, length, splice, ◌>>=◌, set-eq-splice, splice-append, length-splice, append-nil,
  append_assoc, length-append,
}
use low_latency_trading_gate.Base.Bits.{bit_and-mask}
use low_latency_trading_gate.Base.Bytes.{to_bytes}
use low_latency_trading_gate.Codec.Words.{shr, write_byte, store_u16_le, store_u32_le, store_u64_le}

low_byte : (v : ℕ) → bit_and v 0xff ≡ v % 256
low_byte v = bit_and-mask 8 v

-- A byte written behind a splice extends it.
write-splice :
    (off : ℕ) (bs out : List ℕ) (i b : ℕ)
    → i ≡ off + length bs
    → i < length out
    → write_byte (splice off bs out) i b ≡ some (splice off (bs ++ b ∷ []) out)
unfolding write_byte
write-splice off bs out i b e h =
    rw (lt→ltb i (length (splice off bs out)) (omega (arith, length-splice off bs out))) (
      ap some (
        set-eq-splice (splice off bs out) i b
        ∙ (ap (λ n. splice n (b ∷ []) (splice off bs out)) e ∙ splice-append off bs (b ∷ []) out)))

-- The bytes `bs` written one by one from `off + i` on.
write_bytes : List ℕ → ℕ → ℕ → List ℕ → Option (List ℕ)
write_bytes out off i [] = some out
write_bytes out off i (b ∷ bs) = do out ← write_byte out (off + i) b; write_bytes out off (i + 1) bs

write_bytes-splice :
    (acc out : List ℕ) (off i : ℕ) (bs : List ℕ)
    → off + i ≡ length acc
    → length acc + length bs ≤ length out
    → write_bytes (splice 0 acc out) off i bs ≡ some (splice 0 (acc ++ bs) out)
unfolding write_bytes
write_bytes-splice acc out off i [] e h = rw append-nil
write_bytes-splice acc out off i (b ∷ bs) e h =
    rw (write-splice 0 acc out (off + i) b (omega arith) (omega arith)) (
      write_bytes-splice (acc ++ b ∷ []) out off (i + 1) bs
        (omega (arith, length-append acc (b ∷ []))) (omega (arith, length-append acc (b ∷ [])))
      ∙ ap (λ cs. some (splice 0 cs out)) (append_assoc acc (b ∷ []) bs))

bind-some : (m : Option (List ℕ)) → (m >>= λ out. some out) ≡ m
bind-some m = ground arith

module _ (v : ℕ) where
  byte0 : bit_and v 0xff ≡ v % 256
  byte0 = low_byte v

  byte1 : bit_and (shr v 8) 0xff ≡ v / 256 % 256
  byte1 = low_byte (shr v 8)

  byte2 : bit_and (shr v 16) 0xff ≡ v / 256 / 256 % 256
  byte2 = low_byte (shr v 16) ∙ omega arith

  byte3 : bit_and (shr v 24) 0xff ≡ v / 256 / 256 / 256 % 256
  byte3 = low_byte (shr v 24) ∙ omega arith

  byte4 : bit_and (shr v 32) 0xff ≡ v / 256 / 256 / 256 / 256 % 256
  byte4 = low_byte (shr v 32) ∙ omega arith

  byte5 : bit_and (shr v 40) 0xff ≡ v / 256 / 256 / 256 / 256 / 256 % 256
  byte5 = low_byte (shr v 40) ∙ omega arith

  byte6 : bit_and (shr v 48) 0xff ≡ v / 256 / 256 / 256 / 256 / 256 / 256 % 256
  byte6 = low_byte (shr v 48) ∙ omega arith

  byte7 : bit_and (shr v 56) 0xff ≡ v / 256 / 256 / 256 / 256 / 256 / 256 / 256 % 256
  byte7 = low_byte (shr v 56) ∙ omega arith

store_u16_le-eq-write_bytes :
    (out : List ℕ) (off v : ℕ) → store_u16_le out off v ≡ write_bytes out off 0 (to_bytes 2 v)
unfolding store_u16_le write_bytes
store_u16_le-eq-write_bytes out off v = simp (byte0 v, byte1 v, bind-some)

store_u32_le-eq-write_bytes :
    (out : List ℕ) (off v : ℕ) → store_u32_le out off v ≡ write_bytes out off 0 (to_bytes 4 v)
unfolding store_u32_le write_bytes
store_u32_le-eq-write_bytes out off v = simp (byte0 v, byte1 v, byte2 v, byte3 v, bind-some)

store_u64_le-eq-write_bytes :
    (out : List ℕ) (off v : ℕ) → store_u64_le out off v ≡ write_bytes out off 0 (to_bytes 8 v)
unfolding store_u64_le write_bytes
store_u64_le-eq-write_bytes out off v =
    simp (byte0 v, byte1 v, byte2 v, byte3 v, byte4 v, byte5 v, byte6 v, byte7 v, bind-some)

-- A word stored right behind what has been written extends it by the bytes of the word.
module _ (acc out : List ℕ) (off v : ℕ) (e : off ≡ length acc) where
  pub store_u16_le-splice :
      off + 2 ≤ length out
      → store_u16_le (splice 0 acc out) off v ≡ some (splice 0 (acc ++ to_bytes 2 v) out)
  store_u16_le-splice h =
      store_u16_le-eq-write_bytes (splice 0 acc out) off v
      ∙ write_bytes-splice acc out off 0 (to_bytes 2 v) (omega arith) (omega arith)

  pub store_u32_le-splice :
      off + 4 ≤ length out
      → store_u32_le (splice 0 acc out) off v ≡ some (splice 0 (acc ++ to_bytes 4 v) out)
  store_u32_le-splice h =
      store_u32_le-eq-write_bytes (splice 0 acc out) off v
      ∙ write_bytes-splice acc out off 0 (to_bytes 4 v) (omega arith) (omega arith)

  pub store_u64_le-splice :
      off + 8 ≤ length out
      → store_u64_le (splice 0 acc out) off v ≡ some (splice 0 (acc ++ to_bytes 8 v) out)
  store_u64_le-splice h =
      store_u64_le-eq-write_bytes (splice 0 acc out) off v
      ∙ write_bytes-splice acc out off 0 (to_bytes 8 v) (omega arith) (omega arith)
