-- ===== src/Base/BitAt.antt =====
-- The binary digits of a number, through shifts, `|` and reductions modulo a power of two.
use Prim.Native.Nat.{
  ℕ, zero, suc, ◌+◌, ◌-◌, ◌*◌, ◌/◌, ◌%◌, ◌^◌, ◌≤◌, ◌<◌, max, bit_or, digits, bit_or-bitwise,
}
use mathlib.Core.Path.{◌≡◌, refl, sym, ap, ◌∙◌}
use mathlib.Core.Logic.{◌⊎◌, inl, inr}
use native.Mathlib.Omega.{arith}
use native.Mathlib.Nat.{
  two-pow-succ, mul-add, mod-add-div', add-mul-mod_self_right, mod-eq_of_lt, mod-lt, one-le-pow,
  div-div-eq-div-mul, pow-succ',
}

-- The digit of weight 2 ^ j.
abbrev pub bit_at : ℕ → ℕ → ℕ
bit_at zero x = x % 2
bit_at (suc j) x = bit_at j (x / 2)

pub bit_at-shift_right : (j x : ℕ) → bit_at j x ≡ x / 2 ^ j % 2
bit_at-shift_right zero x = omega arith
bit_at-shift_right (suc j) x =
    bit_at-shift_right j (x / 2)
    ∙ ap (λ k. k % 2) (div-div-eq-div-mul x 2 (2 ^ j) ∙ ap (λ k. x / k) (sym (pow-succ' 2 j)))

abbrev or_digits : ℕ → ℕ → ℕ → ℕ
or_digits fuel a b = digits (λ b. b) max fuel a b

or_digits-zero : (fuel b : ℕ) → or_digits fuel 0 b ≡ b
or_digits-zero zero b = refl
or_digits-zero (suc fuel) b = refl

-- Any fuel that suffices gives the same number.
or_digits_same : (k l a b : ℕ) → a ≤ k → a ≤ l → or_digits k a b ≡ or_digits l a b
or_digits_same k l zero b ak al = or_digits-zero k b ∙ sym (or_digits-zero l b)
or_digits_same zero l (suc a) b ak al = absurd (omega arith)
or_digits_same (suc k) zero (suc a) b ak al = absurd (omega arith)
or_digits_same (suc k) (suc l) (suc a) b ak al =
    let halves = or_digits_same k l (suc a / 2) (b / 2) (omega arith) (omega arith) in
    omega (arith, halves)

pub zero-bit_or : (b : ℕ) → bit_or 0 b ≡ b
zero-bit_or b = bit_or-bitwise 0 b

-- The last digit apart.
pub bit_or_halves : (a b : ℕ) → bit_or a b ≡ bit_or (a / 2) (b / 2) * 2 + max (a % 2) (b % 2)
bit_or_halves zero b = omega (arith, zero-bit_or b, zero-bit_or (b / 2))
bit_or_halves (suc a) b =
    let whole = bit_or-bitwise (suc a) b in
    let half = bit_or-bitwise (suc a / 2) (b / 2) in
    let fuel = or_digits_same (suc a / 2) a (suc a / 2) (b / 2) (omega arith) (omega arith) in
    omega (arith, whole, half, fuel)

-- A digit of `a | b`.
pub bit_at-bit_or : (j a b : ℕ) → bit_at j (bit_or a b) ≡ max (bit_at j a) (bit_at j b)
bit_at-bit_or zero a b = omega (arith, bit_or_halves a b)
bit_at-bit_or (suc j) a b =
    ap (bit_at j) (omega (arith, bit_or_halves a b)) ∙ bit_at-bit_or j (a / 2) (b / 2)

pub halve : (x d : ℕ) → x * 2 ^ suc d ≡ 2 * (x * 2 ^ d)
halve x d =
    let double = two-pow-succ d in
    let parts = mul-add x (2 ^ d) (2 ^ d) in
    let whole : x * 2 ^ suc d ≡ x * (2 ^ d + 2 ^ d) = ap (λ k. x * k) double in
    omega (arith, parts, whole)

-- The digits below a shift are 0, and those above are those of the number.
pub bit_at-shift_low : (j d x : ℕ) → j < d → bit_at j (x * 2 ^ d) ≡ 0
bit_at-shift_low j zero x h = absurd (omega arith)
bit_at-shift_low zero (suc d) x h = omega (arith, halve x d)
bit_at-shift_low (suc j) (suc d) x h =
    ap (bit_at j) (omega (arith, halve x d)) ∙ bit_at-shift_low j d x (omega arith)

pub bit_at-shift_high : (j d x : ℕ) → d ≤ j → bit_at j (x * 2 ^ d) ≡ bit_at (j - d) x
bit_at-shift_high j zero x h =
    let unshifted : x * 2 ^ 0 ≡ x = omega arith in
    let same : j ≡ j - 0 = omega arith in ap (bit_at j) unshifted ∙ ap (λ k. bit_at k x) same
bit_at-shift_high zero (suc d) x h = absurd (omega arith)
bit_at-shift_high (suc j) (suc d) x h =
    ap (bit_at j) (omega (arith, halve x d))
    ∙ bit_at-shift_high j d x (omega arith)
    ∙ ap (λ k. bit_at k x) {x = j - d} {y = suc j - suc d} (omega arith)

-- Half of a remainder is the remainder of the half.
pub half_mod : (k x : ℕ) → (x % 2 ^ suc k / 2 ≡ x / 2 % 2 ^ k) × (x % 2 ^ suc k % 2 ≡ x % 2)
half_mod k x =
    let p : ℕ = 2 ^ k in
    let q : ℕ = x / 2 ^ suc k in
    let r : ℕ = x % 2 ^ suc k in
    let split : r + q * 2 ^ suc k ≡ x = mod-add-div' x (2 ^ suc k) in
    let whole : q * 2 ^ suc k ≡ 2 * (q * p) = halve q k in
    let positive : 1 ≤ p = one-le-pow k 2 (omega arith) in
    let double : 2 ^ suc k ≡ p + p = two-pow-succ k in
    let bound : r < 2 ^ suc k = mod-lt x (omega (arith, double, positive)) in
    let small : r / 2 % p ≡ r / 2 = mod-eq_of_lt (omega (arith, bound, double)) in
    let half : x / 2 ≡ r / 2 + q * p = omega (arith, split, whole) in
    let reduced : x / 2 % p ≡ r / 2 % p =
      ap (λ n. n % p) half ∙ add-mul-mod_self_right (r / 2) q p in
    (sym (reduced ∙ small), omega (arith, split, whole))

-- A reduction keeps the digits below.
pub bit_at-mod : (j k x : ℕ) → j < k → bit_at j (x % 2 ^ k) ≡ bit_at j x
bit_at-mod j zero x h = absurd (omega arith)
bit_at-mod zero (suc k) x h = (half_mod k x).1
bit_at-mod (suc j) (suc k) x h =
    ap (bit_at j) (half_mod k x).0 ∙ bit_at-mod j k (x / 2) (omega arith)

pub bit_at-zero : (j : ℕ) → bit_at j 0 ≡ 0
bit_at-zero zero = refl
bit_at-zero (suc j) = bit_at-zero j

order : (j d : ℕ) → (j < d) ⊎ (d ≤ j)
order j d = omega arith

bit_at-one : (j : ℕ) → bit_at j 1 ≡ 1 → j ≡ 0
bit_at-one zero h = refl
bit_at-one (suc j) h = absurd (omega (arith, h, bit_at-zero j))

-- A single digit.
pub bit_at-power : (j d : ℕ) → bit_at j (2 ^ d) ≡ 1 → j ≡ d
bit_at-power j d h =
    let one_shifted : 2 ^ d ≡ 1 * 2 ^ d = omega arith in
    let there : bit_at j (1 * 2 ^ d) ≡ 1 = ap (bit_at j) (sym one_shifted) ∙ h in
    elim (order j d) [
      | inl low ↦ absurd (omega (arith, there, bit_at-shift_low j d 1 low))
      | inr high ↦
          let first = bit_at-one (j - d) (sym (bit_at-shift_high j d 1 high) ∙ there) in
          omega (arith, high, first)
    ]
