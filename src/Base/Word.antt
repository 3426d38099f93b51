-- ===== src/Base/Word.antt =====
-- Unsigned machine integers as native numbers. `saturating_sub` is the truncated `-` of ℕ.
use Prim.Native.Nat.{ℕ, ◌+◌, ◌-◌, ◌*◌, ◌%◌, ◌^◌, min}

abbrev pub u32_max : ℕ
u32_max = 2 ^ 32 - 1

abbrev pub u64_max : ℕ
u64_max = 2 ^ 64 - 1

-- u32::saturating_add and u64::saturating_add
abbrev pub sat_add32 : ℕ → ℕ → ℕ
sat_add32 a b = min (a + b) u32_max

abbrev pub sat_add64 : ℕ → ℕ → ℕ
sat_add64 a b = min (a + b) u64_max

-- u64::saturating_mul
abbrev pub sat_mul64 : ℕ → ℕ → ℕ
sat_mul64 a b = min (a * b) u64_max

-- `a + b` on u32 and u64 in a release build, which wraps.
abbrev pub wrap_add32 : ℕ → ℕ → ℕ
wrap_add32 a b = (a + b) % 2 ^ 32

abbrev pub wrap_add64 : ℕ → ℕ → ℕ
wrap_add64 a b = (a + b) % 2 ^ 64
