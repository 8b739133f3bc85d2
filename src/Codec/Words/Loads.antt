-- ===== src/Codec/Words/Loads.antt =====
-- What the load helpers read, against `of_bytes`.
use native.Mathlib.Nat.{mod-eq_of_lt}
use low_latency_trading_gate.Base.{
  ℕ, ◌+◌, ◌*◌, ◌^◌, ◌≤◌, ◌<◌, ◌≡◌, ap, ◌∙◌, bit_or, List, ◌∷◌, some, arith, length, slice, drop,
  take, get_elem?-drop, length-drop, All-drop,
}
use low_latency_trading_gate.Base.Bits.{bit_or-shift}
use low_latency_trading_gate.Base.Bytes.{IsBytes, of_bytes}
use low_latency_trading_gate.Codec.Words.{shl, load_u16_le, load_u32_le, load_u64_le}

-- A byte joins the bits below it.
or-field : (w r k b : ℕ) → r < 2 ^ k → b * 2 ^ k < 2 ^ w → bit_or r (shl w b k) ≡ r + b * 2 ^ k
or-field w r k b hr hb = ap (bit_or r) (mod-eq_of_lt hb) ∙ bit_or-shift k r b hr

or-low : (b : ℕ) → bit_or 0 b ≡ b
or-low b =
    ap (bit_or 0) {x = b} {y = b * 2 ^ 0} (omega arith)
    ∙ (bit_or-shift 0 0 b (omega arith) ∙ omega arith)

load_u16_le-front :
    (ys : List ℕ) → 2 ≤ length ys → IsBytes ys → load_u16_le ys 0 ≡ some (of_bytes (take 2 ys))
unfolding load_u16_le
load_u16_le-front (a ∷ b ∷ ys) len h =
    rw (or-low a, or-field 16 a 8 b (omega arith) (omega arith)) (ap some (omega arith))
load_u16_le-front _ len h = absurd (omega arith)

load_u32_le-front :
    (ys : List ℕ) → 4 ≤ length ys → IsBytes ys → load_u32_le ys 0 ≡ some (of_bytes (take 4 ys))
unfolding load_u32_le
load_u32_le-front (a ∷ b ∷ c ∷ d ∷ ys) len h =
    rw
      (
        or-low a,
        or-field 32 a 8 b (omega arith) (omega arith),
        or-field 32 (a + b * 2 ^ 8) 16 c (omega arith) (omega arith),
        or-field 32 (a + b * 2 ^ 8 + c * 2 ^ 16) 24 d (omega arith) (omega arith),
      )
      (ap some (omega arith))
load_u32_le-front _ len h = absurd (omega arith)

load_u64_le-front :
    (ys : List ℕ) → 8 ≤ length ys → IsBytes ys → load_u64_le ys 0 ≡ some (of_bytes (take 8 ys))
unfolding load_u64_le
load_u64_le-front (a ∷ b ∷ c ∷ d ∷ e ∷ f ∷ g ∷ k ∷ ys) len h =
    let r2 : ℕ = a + b * 2 ^ 8 in
    let r3 : ℕ = r2 + c * 2 ^ 16 in
    let r4 : ℕ = r3 + d * 2 ^ 24 in
    let r5 : ℕ = r4 + e * 2 ^ 32 in
    let r6 : ℕ = r5 + f * 2 ^ 40 in
    let r7 : ℕ = r6 + g * 2 ^ 48 in
    rw
      (
        or-low a,
        or-field 64 a 8 b (omega arith) (omega arith),
        or-field 64 r2 16 c (omega arith) (omega arith),
        or-field 64 r3 24 d (omega arith) (omega arith),
        or-field 64 r4 32 e (omega arith) (omega arith),
        or-field 64 r5 40 f (omega arith) (omega arith),
        or-field 64 r6 48 g (omega arith) (omega arith),
        or-field 64 r7 56 k (omega arith) (omega arith),
      )
      (ap some (omega arith))
load_u64_le-front _ len h = absurd (omega arith)

-- A load in range gives the number whose bytes stand behind the offset.
module _ (xs : List ℕ) (off : ℕ) (bytes : IsBytes xs) where
  pub load_u16_le-eq-of_bytes :
      off + 2 ≤ length xs → load_u16_le xs off ≡ some (of_bytes (slice off 2 xs))
  load_u16_le-eq-of_bytes h =
      moved
      ∙ load_u16_le-front (drop off xs) (omega (arith, length-drop off xs))
          (All-drop _ off xs bytes)
    where
      moved : load_u16_le xs off ≡ load_u16_le (drop off xs) 0
      moved = unfold load_u16_le in simp (get_elem?-drop off xs)

  pub load_u32_le-eq-of_bytes :
      off + 4 ≤ length xs → load_u32_le xs off ≡ some (of_bytes (slice off 4 xs))
  load_u32_le-eq-of_bytes h =
      moved
      ∙ load_u32_le-front (drop off xs) (omega (arith, length-drop off xs))
          (All-drop _ off xs bytes)
    where
      moved : load_u32_le xs off ≡ load_u32_le (drop off xs) 0
      moved = unfold load_u32_le in simp (get_elem?-drop off xs)

  pub load_u64_le-eq-of_bytes :
      off + 8 ≤ length xs → load_u64_le xs off ≡ some (of_bytes (slice off 8 xs))
  load_u64_le-eq-of_bytes h =
      moved
      ∙ load_u64_le-front (drop off xs) (omega (arith, length-drop off xs))
          (All-drop _ off xs bytes)
    where
      moved : load_u64_le xs off ≡ load_u64_le (drop off xs) 0
      moved = unfold load_u64_le in simp (get_elem?-drop off xs)
