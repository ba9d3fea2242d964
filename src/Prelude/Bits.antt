-- ===== src/Prelude/Bits.antt =====
-- The last binary digit, by the bit operations at the mask 1.
use Prim.Native.Nat.{
  ℕ, zero, suc, ◌+◌, ◌-◌, ◌/◌, ◌%◌, ◌≤◌, min, differ, bit_and, bit_xor, digits, bit_and-bitwise,
  bit_xor-bitwise,
}
use mathlib.Core.Path.{◌≡◌, refl}
use native.Mathlib.Omega.{arith}
use gophersat.Prelude.Tests.{◌==◌, if◌then◌else◌}

and_digits-zero : (n a : ℕ) → a ≤ n → digits (λ b. zero) min n a 0 ≡ 0
and_digits-zero zero zero h = refl
and_digits-zero zero (suc a) h = absurd (omega arith)
and_digits-zero (suc n) zero h = refl
and_digits-zero (suc n) (suc a) h = omega (arith, and_digits-zero n (suc a / 2) (omega arith))

differ-zero : (r : ℕ) → differ r 0 ≡ r
differ-zero zero = refl
differ-zero (suc r) = refl

-- On digits.
differ-one : (r : ℕ) → differ r 1 ≡ (if r == 0 then 1 else r - 1)
differ-one zero = refl
differ-one (suc r) = ground (arith, differ-zero r)

xor_digits-zero : (n a : ℕ) → a ≤ n → digits (λ b. b) differ n a 0 ≡ a
xor_digits-zero zero zero h = refl
xor_digits-zero zero (suc a) h = absurd (omega arith)
xor_digits-zero (suc n) zero h = refl
xor_digits-zero (suc n) (suc a) h =
    omega (arith, xor_digits-zero n (suc a / 2) (omega arith), differ-zero (suc a % 2))

pub bit_and-one : (a : ℕ) → bit_and a 1 ≡ a % 2
bit_and-one zero = bit_and-bitwise 0 1
bit_and-one (suc a) =
    omega (arith, bit_and-bitwise (suc a) 1, and_digits-zero a (suc a / 2) (omega arith))

-- Exclusive or with 1 turns the last digit over.
pub bit_xor-one : (a : ℕ) → bit_xor a 1 ≡ (if a % 2 == 0 then a + 1 else a - 1)
bit_xor-one zero = bit_xor-bitwise 0 1
bit_xor-one (suc a) = ground (
  arith,
  bit_xor-bitwise (suc a) 1,
  xor_digits-zero a (suc a / 2) (omega arith),
  differ-one (suc a % 2),
)
