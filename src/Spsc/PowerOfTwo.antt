-- ===== src/Spsc/PowerOfTwo.antt =====
-- spsc_ring_buffer.hpp: what `is_power_of_two` tests.
use native.Mathlib.Nat.{one-le-pow, mod_self}
use low_latency_trading_gate.Base.{
  ℕ, ◌-◌, ◌%◌, ◌^◌, ◌≤◌, ◌≡◌, sym, ◌∙◌, subst, ◌↔◌, true, bit_and, arith,
}
use low_latency_trading_gate.Base.Bits.{bit_and-mask}
use low_latency_trading_gate.Base.PowersOfTwo.{bit_and-pred_power}
use low_latency_trading_gate.Spsc.{is_power_of_two}

tests : (value : ℕ) → is_power_of_two value ≡ true → (1 ≤ value) × (bit_and value (value - 1) ≡ 0)
unfolding is_power_of_two
tests value e = ground arith

passes : (value : ℕ) → 1 ≤ value → bit_and value (value - 1) ≡ 0 → is_power_of_two value ≡ true
unfolding is_power_of_two
passes value positive e = ground arith

-- `is_power_of_two` gives true for the powers of 2 and for no other number.
pub is_power_of_two_iff : (value : ℕ) → (is_power_of_two value ≡ true) ↔ ((k : ℕ) × (value ≡ 2 ^ k))
is_power_of_two_iff value = (
  λ e. let (positive, test) = tests value e in bit_and-pred_power value positive test,
  λ (k, e).
      let positive : 1 ≤ value = subst (λ v. 1 ≤ v) (sym e) (one-le-pow k 2 (omega arith)) in
      let masked : bit_and value (value - 1) ≡ value % value =
        subst (λ v. bit_and v (v - 1) ≡ v % v) (sym e) (bit_and-mask k (2 ^ k)) in
      passes value positive (masked ∙ mod_self value),
)
