-- ===== src/Base/PowersOfTwo.antt =====
-- The numbers that share no digit with the number before them.
use Prim.Native.Nat.{ℕ, zero, suc, ◌-◌, ◌/◌, ◌%◌, ◌^◌, ◌≤◌, bit_and}
use mathlib.Core.Path.{◌≡◌, refl, ap}
use native.Mathlib.Nat.{pow-suc}
use native.Mathlib.Decide.{dec_lt}
use native.Mathlib.Omega.{arith}
use low_latency_trading_gate.Base.Bits.{and_digit}

bit_and_self : (fuel a : ℕ) → a ≤ fuel → bit_and a a ≡ a
bit_and_self fuel zero h = refl
bit_and_self zero (suc a) h = absurd (omega arith)
bit_and_self (suc fuel) (suc a) h =
    omega (arith, and_digit (suc a) (suc a), bit_and_self fuel (suc a / 2) (omega arith))

-- An even number: the halves pass the test.
halve : (n : ℕ) → 1 ≤ n → n % 2 ≡ 0 → bit_and n (n - 1) ≡ 0 → bit_and (n / 2) (n / 2 - 1) ≡ 0
halve n positive even test =
    let halves : (n - 1) / 2 ≡ n / 2 - 1 = omega arith in
    omega (arith, and_digit n (n - 1), ap (bit_and (n / 2)) halves)

-- An odd number is 1.
odd_one : (n : ℕ) → n % 2 ≡ 1 → bit_and n (n - 1) ≡ 0 → n ≡ 1
odd_one n odd test =
    let halves : (n - 1) / 2 ≡ n / 2 = omega arith in
    omega (
      arith,
      and_digit n (n - 1),
      ap (bit_and (n / 2)) halves,
      bit_and_self (n / 2) (n / 2) (omega arith),
    )

power : (fuel n : ℕ) → n ≤ fuel → 1 ≤ n → bit_and n (n - 1) ≡ 0 → (k : ℕ) × (n ≡ 2 ^ k)
power zero n h positive test = absurd (omega arith)
power (suc fuel) n h positive test = elim (dec_lt (n % 2) 1) [
  | yes even ↦
      let (k, e) =
        power fuel (n / 2) (omega arith) (omega arith) (halve n positive (omega arith) test) in
      (suc k, omega (arith, pow-suc 2 k))
  | no odd ↦ (0, odd_one n (omega arith) test)
]

-- A number above 0 whose digits and those of the number before have no 1 in common is a power of 2.
pub bit_and-pred_power : (n : ℕ) → 1 ≤ n → bit_and n (n - 1) ≡ 0 → (k : ℕ) × (n ≡ 2 ^ k)
bit_and-pred_power n positive test = power n n (omega arith) positive test
