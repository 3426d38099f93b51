-- ===== src/Base/Slots.antt =====
-- Fixed arrays of optional entries: the first empty slot, and sums over the occupied ones.
use Prim.Native.Nat.{ℕ, ◌+◌}
use mathlib.Core.Path.{◌≡◌, refl}
use mathlib.Core.Logic.{inl, inr}
use mathlib.Core.Option.{Option, none, some}
use mathlib.Core.List.{List, [], ◌∷◌}
use native.Mathlib.Omega.{arith}
use eidolon.Base.Lists.{length}
use eidolon.Base.Tests.{Option-cases}

-- The loops that fill the first empty slot.
unfoldable pub put_first {ℓ} : {A : Type ℓ} → A → List (Option A) → Option (List (Option A))
put_first a [] = none
put_first a (none ∷ slots) = some (some a ∷ slots)
put_first a (some b ∷ slots) = elim (put_first a slots) [
  | none ↦ none
  | some slots' ↦ some (some b ∷ slots')
]

-- The sum of a weight over the occupied slots, and their number.
abbrev pub sum_slots {ℓ} : {A : Type ℓ} → (A → ℕ) → List (Option A) → ℕ
sum_slots f [] = 0
sum_slots f (none ∷ slots) = sum_slots f slots
sum_slots f (some a ∷ slots) = f a + sum_slots f slots

abbrev pub occupied {ℓ} : {A : Type ℓ} → List (Option A) → ℕ
occupied = sum_slots (λ _. 1)

pub put_first-sum {ℓ} :
    {A : Type ℓ} (f : A → ℕ) (a : A) (slots slots' : List (Option A))
    → put_first a slots ≡ some slots'
    → (sum_slots f slots' ≡ f a + sum_slots f slots) × (length slots' ≡ length slots)
unfolding put_first
put_first-sum f a [] slots' h = absurd (ground (arith, h))
put_first-sum f a (none ∷ slots) slots' h =
    let same : some a ∷ slots ≡ slots' = ground (arith, h) in rw (← same) (refl, refl)
put_first-sum f a (some b ∷ slots) slots' h = elim (Option-cases (put_first a slots)) [
  | inl full ↦ absurd (ground (arith, h, full))
  | inr (rest, e) ↦
      let (sum, size) = put_first-sum f a slots rest e in
      let same : some b ∷ rest ≡ slots' = ground (arith, h, e) in
      rw (← same) (omega (arith, sum), omega (arith, size))
]
