-- ===== src/Base/Bytes.antt =====
-- Little-endian numbers as lists of bytes: the description that the codec is held against.
use Prim.Native.Nat.{ℕ, zero, suc, ◌+◌, ◌*◌, ◌/◌, ◌%◌, ◌^◌, ◌<◌}
use mathlib.Core.Path.{◌≡◌, refl, ap}
use mathlib.Core.List.{List, [], ◌∷◌}
use native.Mathlib.Omega.{arith}
use low_latency_trading_gate.Base.Lists.{length, All}

abbrev pub IsByte : ℕ → Type 0
IsByte b = b < 256

abbrev pub IsBytes : List ℕ → Type 0
IsBytes xs = All IsByte xs

-- The number `v` in `n` bytes, the lowest first.
abbrev pub to_bytes : ℕ → ℕ → List ℕ
to_bytes zero v = []
to_bytes (suc n) v = v % 256 ∷ to_bytes n (v / 256)

abbrev pub of_bytes : List ℕ → ℕ
of_bytes [] = 0
of_bytes (b ∷ bs) = b + of_bytes bs * 256

pub length-to_bytes : (n v : ℕ) → length (to_bytes n v) ≡ n
length-to_bytes zero v = refl
length-to_bytes (suc n) v = ap suc (length-to_bytes n (v / 256))

pub to_bytes-IsBytes : (n v : ℕ) → IsBytes (to_bytes n v)
to_bytes-IsBytes zero v = tt
to_bytes-IsBytes (suc n) v = (omega arith, to_bytes-IsBytes n (v / 256))

-- The bytes of a number give it back, as far as they reach.
pub of_bytes-to_bytes2 : (v : ℕ) → v < 2 ^ 16 → of_bytes (to_bytes 2 v) ≡ v
of_bytes-to_bytes2 v h = omega arith

pub of_bytes-to_bytes4 : (v : ℕ) → v < 2 ^ 32 → of_bytes (to_bytes 4 v) ≡ v
of_bytes-to_bytes4 v h = omega arith

pub of_bytes-to_bytes8 : (v : ℕ) → v < 2 ^ 64 → of_bytes (to_bytes 8 v) ≡ v
of_bytes-to_bytes8 v h = omega arith

-- A number of at most `n` bytes is below `256 ^ n`.
pub of_bytes-lt4 :
    (a b c d : ℕ) → IsBytes (a ∷ b ∷ c ∷ d ∷ []) → of_bytes (a ∷ b ∷ c ∷ d ∷ []) < 2 ^ 32
of_bytes-lt4 a b c d h = omega arith
