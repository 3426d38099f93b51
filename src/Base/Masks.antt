-- ===== src/Base/Masks.antt =====
-- Masks of low bits, and `|` of numbers that have no bit in common.
use Prim.Native.Nat.{
  ℕ, zero, suc, ◌+◌, ◌*◌, ◌/◌, ◌%◌, ◌^◌, ◌≤◌, ◌<◌, min, bit_and, bit_or, digits, bit_and-bitwise,
}
use mathlib.Core.Path.{◌≡◌, refl, sym, ap, ◌∙◌}
use native.Mathlib.Omega.{arith}
use native.Mathlib.Nat.{pow-succ', div-div-eq-div-mul, mul_assoc, two-pow-succ}
use eidolon.Base.BitAt.{bit_or_halves, zero-bit_or, halve, half_mod}

abbrev and_digits : ℕ → ℕ → ℕ → ℕ
and_digits fuel a b = digits (λ b. 0) min fuel a b

and_digits-zero : (fuel b : ℕ) → and_digits fuel 0 b ≡ 0
and_digits-zero zero b = refl
and_digits-zero (suc fuel) b = refl

-- Any fuel that suffices gives the same number.
and_digits_same : (k l a b : ℕ) → a ≤ k → a ≤ l → and_digits k a b ≡ and_digits l a b
and_digits_same k l zero b ak al = and_digits-zero k b ∙ sym (and_digits-zero l b)
and_digits_same zero l (suc a) b ak al = absurd (omega arith)
and_digits_same (suc k) zero (suc a) b ak al = absurd (omega arith)
and_digits_same (suc k) (suc l) (suc a) b ak al =
    let halves = and_digits_same k l (suc a / 2) (b / 2) (omega arith) (omega arith) in
    omega (arith, halves)

zero-bit_and : (b : ℕ) → bit_and 0 b ≡ 0
zero-bit_and b = bit_and-bitwise 0 b

-- The last digit apart.
bit_and_halves : (a b : ℕ) → bit_and a b ≡ bit_and (a / 2) (b / 2) * 2 + min (a % 2) (b % 2)
bit_and_halves zero b = omega (arith, zero-bit_and b, zero-bit_and (b / 2))
bit_and_halves (suc a) b =
    let whole = bit_and-bitwise (suc a) b in
    let half = bit_and-bitwise (suc a / 2) (b / 2) in
    let fuel = and_digits_same (suc a / 2) a (suc a / 2) (b / 2) (omega arith) (omega arith) in
    omega (arith, whole, half, fuel)

bit_and-0 : (x : ℕ) → bit_and x 0 ≡ 0
bit_and-0 x = and_none x x (omega arith)
  where
    and_none : (k x : ℕ) → x ≤ k → bit_and x 0 ≡ 0
    and_none zero x h = ap (λ y. bit_and y 0) {y = 0} (omega arith) ∙ zero-bit_and 0
    and_none (suc k) zero h = zero-bit_and 0
    and_none (suc k) (suc x) h =
        omega (arith, bit_and_halves (suc x) 0, and_none k (suc x / 2) (omega arith))

bit_and-odd : (x m : ℕ) → bit_and x (m * 2 + 1) ≡ bit_and (x / 2) m * 2 + x % 2
bit_and-odd x m =
    let half : (m * 2 + 1) / 2 ≡ m = omega arith in
    let odd : (m * 2 + 1) % 2 ≡ 1 = omega arith in
    let inner : bit_and (x / 2) ((m * 2 + 1) / 2) ≡ bit_and (x / 2) m = ap (bit_and (x / 2)) half in
    omega (arith, bit_and_halves x (m * 2 + 1), odd, inner)

bit_and-even : (x m : ℕ) → bit_and x (m * 2) ≡ bit_and (x / 2) m * 2
bit_and-even x m =
    let half : m * 2 / 2 ≡ m = omega arith in
    let even : m * 2 % 2 ≡ 0 = omega arith in
    let inner : bit_and (x / 2) (m * 2 / 2) ≡ bit_and (x / 2) m = ap (bit_and (x / 2)) half in
    omega (arith, bit_and_halves x (m * 2), even, inner)

-- 2 ^ k - 1
abbrev low_mask : ℕ → ℕ
low_mask zero = 0
low_mask (suc k) = low_mask k * 2 + 1

bit_and-low_mask : (k x : ℕ) → bit_and x (low_mask k) ≡ x % 2 ^ k
bit_and-low_mask zero x = omega (arith, bit_and-0 x)
bit_and-low_mask (suc k) x =
    let (half, last) = half_mod k x in
    omega (arith, bit_and-odd x (low_mask k), bit_and-low_mask k (x / 2), half, last)

bit_and-power : (k x : ℕ) → bit_and x (2 ^ k) ≡ x / 2 ^ k % 2 * 2 ^ k
bit_and-power zero x = omega (arith, bit_and-odd x 0, bit_and-0 (x / 2))
bit_and-power (suc k) x =
    let p : ℕ = 2 ^ k in
    let double : 2 ^ suc k ≡ p * 2 = omega (arith, two-pow-succ k) in
    let whole : x / 2 / p ≡ x / 2 ^ suc k =
      div-div-eq-div-mul x 2 p ∙ ap (λ n. x / n) (sym (pow-succ' 2 k)) in
    let bit : x / 2 / p % 2 ≡ x / 2 ^ suc k % 2 = ap (λ n. n % 2) whole in
    ap (bit_and x) double
    ∙ bit_and-even x p
    ∙ ap (λ n. n * 2) (bit_and-power k (x / 2))
    ∙ mul_assoc (x / 2 / p % 2) p 2
    ∙ ap (◌*◌ (x / 2 / p % 2)) (sym double)
    ∙ ap (λ n. n * 2 ^ suc k) bit

pub bit_and-127 : (x : ℕ) → bit_and x 127 ≡ x % 128
bit_and-127 x = bit_and-low_mask 7 x

pub bit_and-128 : (x : ℕ) → bit_and x 128 ≡ x / 128 % 2 * 128
bit_and-128 x = bit_and-power 7 x

-- The second number stands above the first.
pub bit_or-high : (k a b : ℕ) → a < 2 ^ k → bit_or a (b * 2 ^ k) ≡ a + b * 2 ^ k
bit_or-high zero a b h =
    let none_low : a ≡ 0 = omega (arith, h) in
    ap (λ n. bit_or n (b * 2 ^ 0)) none_low ∙ omega (arith, none_low, zero-bit_or (b * 2 ^ 0))
bit_or-high (suc k) a b h =
    let whole : b * 2 ^ suc k ≡ 2 * (b * 2 ^ k) = halve b k in
    let double : 2 ^ suc k ≡ 2 ^ k + 2 ^ k = two-pow-succ k in
    let half : a / 2 < 2 ^ k = omega (arith, h, double) in
    let below = bit_or-high k (a / 2) b half in
    let above : b * 2 ^ suc k / 2 ≡ b * 2 ^ k = omega (arith, whole) in
    let inner : bit_or (a / 2) (b * 2 ^ suc k / 2) ≡ a / 2 + b * 2 ^ k =
      ap (bit_or (a / 2)) above ∙ below in
    omega (arith, bit_or_halves a (b * 2 ^ suc k), inner, whole)
