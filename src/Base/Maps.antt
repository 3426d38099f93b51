-- ===== src/Base/Maps.antt =====
-- A hash map with number keys, as a function.
use Prim.Native.Nat.{ℕ}
use mathlib.Core.Option.{Option, some}
use eidolon.Base.Tests.{◌==◌, if◌then◌else◌}

-- `HashMap::insert`
abbrev pub insert {ℓ} : {A : Type ℓ} → (ℕ → Option A) → ℕ → A → ℕ → Option A
insert m k v j = if j == k then some v else m j
