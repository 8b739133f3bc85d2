-- ===== src/Base/Bits.antt =====
-- `|` of disjoint bit fields and `&` with a mask of low bits, as arithmetic, at every width.
use Prim.Native.Nat.{ℕ, zero, suc, ◌+◌, ◌-◌, ◌*◌, ◌/◌, ◌%◌, ◌^◌, ◌≤◌, ◌<◌, min, max}
use Prim.Native.Nat.{bit_and, bit_or, digits, bit_and-bitwise, bit_or-bitwise}
use mathlib.Core.Path.{◌≡◌, refl, sym, subst, ap, ◌∙◌}
use native.Mathlib.Nat.{pow-suc, one-le-pow, le_refl, dvd_refl, dvd-mul_right_of_dvd}
use native.Mathlib.Decide.{dec_le}
use Prim.Native.Nat.{◌∣◌}
use native.Mathlib.Omega.{arith}

-- Fuel beyond the first number does not matter.
digits-fuel :
    (unit : ℕ → ℕ) (op : ℕ → ℕ → ℕ) (fuel more a b : ℕ)
    → a ≤ fuel
    → a ≤ more
    → digits unit op fuel a b ≡ digits unit op more a b
digits-fuel unit op zero zero zero b h k = refl
digits-fuel unit op zero (suc more) zero b h k = refl
digits-fuel unit op (suc fuel) zero zero b h k = refl
digits-fuel unit op (suc fuel) (suc more) zero b h k = refl
digits-fuel unit op (suc fuel) (suc more) (suc a) b h k =
    ap (λ d. d * 2 + op (suc a % 2) (b % 2))
      (digits-fuel unit op fuel more (suc a / 2) (b / 2) (omega arith) (omega arith))
digits-fuel unit op fuel more (suc a) b h k = absurd (omega arith)

or_digit : (a b : ℕ) → bit_or a b ≡ bit_or (a / 2) (b / 2) * 2 + max (a % 2) (b % 2)
or_digit zero b = simp bit_or-bitwise (omega arith)
or_digit (suc a) b = simp bit_or-bitwise (
    ap (λ d. d * 2 + max (suc a % 2) (b % 2))
      (digits-fuel (λ y. y) max a (suc a / 2) (suc a / 2) (b / 2) (omega arith) (le_refl _)))

pub and_digit : (a b : ℕ) → bit_and a b ≡ bit_and (a / 2) (b / 2) * 2 + min (a % 2) (b % 2)
and_digit zero b = simp bit_and-bitwise (omega arith)
and_digit (suc a) b = simp bit_and-bitwise (
    ap (λ d. d * 2 + min (suc a % 2) (b % 2))
      (digits-fuel (λ y. 0) min a (suc a / 2) (suc a / 2) (b / 2) (omega arith) (le_refl _)))

double : (q k : ℕ) → q * 2 ^ suc k ≡ q * 2 ^ k * 2
double q k = omega (arith, ap (λ (t : ℕ). q * t) (pow-suc 2 k))

-- `r | (q << k)` is a sum where `r` has `k` bits.
pub bit_or-shift : (k r q : ℕ) → r < 2 ^ k → bit_or r (q * 2 ^ k) ≡ r + q * 2 ^ k
bit_or-shift zero zero q h = bit_or-bitwise 0 (q * 1) ∙ omega arith
bit_or-shift zero (suc r) q h = absurd (omega arith)
bit_or-shift (suc k) r q h = omega (
  arith,
  or_digit r (q * 2 ^ suc k),
  ap (λ (t : ℕ). bit_or (r / 2) t) {x = q * 2 ^ suc k / 2} {y = q * 2 ^ k}
      (omega (arith, double q k)),
  double q k,
  pow-suc 2 k,
  bit_or-shift k (r / 2) q (omega (arith, pow-suc 2 k)),
)

bit_and-zero : (fuel a : ℕ) → a ≤ fuel → bit_and a 0 ≡ 0
bit_and-zero fuel zero h = refl
bit_and-zero zero (suc a) h = absurd (omega arith)
bit_and-zero (suc fuel) (suc a) h =
    omega (arith, and_digit (suc a) 0, bit_and-zero fuel (suc a / 2) (omega arith))

-- A mask of `k` ones keeps the `k` low bits, whatever stands above them.
mask_fields : (k q r : ℕ) → r < 2 ^ k → bit_and (q * 2 ^ k + r) (2 ^ k - 1) ≡ r
mask_fields zero q r h = bit_and-zero (q * 1 + r) (q * 1 + r) (le_refl _) ∙ omega arith
mask_fields (suc k) q r h = omega (
  arith,
  and_digit (q * 2 ^ suc k + r) (2 ^ suc k - 1),
  ap (λ (t : ℕ). bit_and t ((2 ^ suc k - 1) / 2)) {x = (q * 2 ^ suc k + r) / 2}
      {y = q * 2 ^ k + r / 2} (omega (arith, double q k)),
  ap (λ (t : ℕ). bit_and (q * 2 ^ k + r / 2) t) {x = (2 ^ suc k - 1) / 2} {y = 2 ^ k - 1}
      (omega (arith, pow-suc 2 k, one-le-pow k 2)),
  double q k,
  pow-suc 2 k,
  one-le-pow k 2,
  mask_fields k q (r / 2) (omega (arith, pow-suc 2 k)),
)

-- `x & (2 ^ k - 1)` is the remainder by `2 ^ k`.
pub bit_and-mask : (k a : ℕ) → bit_and a (2 ^ k - 1) ≡ a % 2 ^ k
bit_and-mask k a = ground (arith, one-le-pow k 2, mask_fields k (a / 2 ^ k) (a % 2 ^ k))

pub two_pow_dvd : (k n : ℕ) → k ≤ n → 2 ^ k ∣ 2 ^ n
two_pow_dvd k zero h = subst (λ j. 2 ^ j ∣ 2 ^ 0) {x = 0} (omega arith) (dvd_refl (2 ^ 0))
two_pow_dvd k (suc n) h = elim (dec_le k n) [
  | yes p ↦
      subst (λ t. 2 ^ k ∣ t) (sym (pow-suc 2 n))
        (dvd-mul_right_of_dvd (2 ^ k) (two_pow_dvd k n p) 2)
  | no p ↦ subst (λ j. 2 ^ j ∣ 2 ^ suc n) {x = suc n} (omega arith) (dvd_refl (2 ^ suc n))
]
