-- ===== src/Base/Wrap.antt =====
-- Indices that wrap at the capacity of a ring.
use Prim.Native.Nat.{ℕ, ◌+◌, ◌-◌, ◌%◌, ◌≤◌, ◌<◌}
use mathlib.Core.Path.{◌≡◌, ◌∙◌}
use mathlib.Core.Logic.{◌⊎◌}
use native.Mathlib.Omega.{arith}
use native.Mathlib.Nat.{mod-eq_of_lt, mod-eq-sub-mod}

pub mod_below : (x cap : ℕ) → x < cap → x % cap ≡ x
mod_below x cap h = mod-eq_of_lt h

pub mod_above : (x cap : ℕ) → cap ≤ x → x < cap + cap → x % cap ≡ x - cap
mod_above x cap h k = mod-eq-sub-mod h ∙ mod-eq_of_lt (omega arith)

pub below_or_above : (x cap : ℕ) → (x < cap) ⊎ (cap ≤ x)
below_or_above x cap = omega arith

-- One turn of the ring at most.
pub wrap_cases :
    (x cap : ℕ) → x < cap + cap → ((x % cap ≡ x) × (x < cap)) ⊎ ((x % cap + cap ≡ x) × (cap ≤ x))
wrap_cases x cap h = ground (arith, below_or_above x cap, mod_below x cap, mod_above x cap)
