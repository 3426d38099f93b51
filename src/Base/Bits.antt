-- ===== src/Base/Bits.antt =====
-- `^` on u32 stays within 32 bits.
use Prim.Native.Nat.{
  ℕ, zero, suc, ◌*◌, ◌/◌, ◌%◌, ◌^◌, ◌<◌, bit_xor, digits, differ, bit_xor-bitwise,
}
use native.Mathlib.Omega.{arith}

-- 2 ^ k
abbrev two_to : ℕ → ℕ
two_to zero = 1
two_to (suc k) = 2 * two_to k

differ_small : (x y : ℕ) → x < 2 → y < 2 → differ x y < 2
differ_small zero y h k = k
differ_small (suc x) zero h k = h
differ_small (suc zero) (suc zero) h k = omega arith
differ_small (suc zero) (suc (suc y)) h k = absurd (omega arith)
differ_small (suc (suc x)) (suc y) h k = absurd (omega arith)

digits_small : (n k a b : ℕ) → a < two_to k → b < two_to k → digits (λ b. b) differ n a b < two_to k
digits_small zero k a b h l = l
digits_small (suc n) k zero b h l = l
digits_small (suc n) zero (suc a) b h l = absurd (omega arith)
digits_small (suc n) (suc k) (suc a) b h l = omega (
  arith,
  digits_small n k (suc a / 2) (b / 2) (omega arith) (omega arith),
  differ_small (suc a % 2) (b % 2) (omega arith) (omega arith),
)

pub bit_xor-u32 : (a b : ℕ) → a < 2 ^ 32 → b < 2 ^ 32 → bit_xor a b < 2 ^ 32
bit_xor-u32 a b h l = rw (bit_xor-bitwise a b) (digits_small a 32 a b h l)
