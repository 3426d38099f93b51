-- ===== src/Market/Valid.antt =====
-- The invariant of the order book of crates/eidolon-core/src/market.rs, side by side.
use eidolon.Base.{
  ℕ, zero, suc, ◌-◌, ◌≤◌, ◌<◌, ◌≡◌, refl, ◌∙◌, inl, inr, Bool, [], ◌∷◌, Option, none, some, arith,
  ◌==◌, get_elem?, set, length, length-set, length-replicate, Bool-cases, replicate,
}
use eidolon.Market.{max_orders_per_side, MarketOrder, Side, partially_filled}
use eidolon.Market.Matching.{reduced, reduced_count}
use eidolon.Market.Sides.{total-set, resting, Every, Every-set, Every-at, Distinct, set-Distinct}

-- An order that may rest on a side.
abbrev pub Rests : Bool → MarketOrder → Type 0
Rests is_buy o = (0 < o.remaining_quantity) × (o.is_buy ≡ is_buy)

-- One side: 64 slots, the counter counts the resting orders, no two have the same identifier, and each
-- has something left and stands on the side of its direction.
pub record IsValidSide (is_buy : Bool) (side : Side) (count : ℕ) : Type 0 where
  pub sized : length side ≡ max_orders_per_side
  pub counted : count ≡ resting side
  pub distinct : Distinct side
  pub placed : Every (Rests is_buy) side

empty_slots :
    (n : ℕ) (is_buy : Bool)
    → (resting (replicate n none) ≡ 0)
      × Distinct (replicate n none)
      × Every (Rests is_buy) (replicate n none)
empty_slots zero is_buy = (refl, tt, tt)
empty_slots (suc n) is_buy = empty_slots n is_buy

pub empty-IsValidSide : (is_buy : Bool) → IsValidSide is_buy (replicate max_orders_per_side none) 0
empty-IsValidSide is_buy =
    let (c, d, p) = empty_slots max_orders_per_side is_buy in
    record {
      sized = length-replicate {A = Option MarketOrder} max_orders_per_side none;
      counted = omega (arith, c);
      distinct = d;
      placed = p;
    }

resting-at :
    (slots : Side) (i : ℕ) (m : MarketOrder) → get_elem? slots i ≡ some (some m) → 1 ≤ resting slots
resting-at [] i m h = cc
resting-at (none ∷ slots) zero m h = cc
resting-at (some o ∷ slots) zero m h = omega arith
resting-at (none ∷ slots) (suc i) m h = resting-at slots i m h
resting-at (some o ∷ slots) (suc i) m h = omega arith

-- A trade with the order in a slot keeps its side valid.
pub reduced-IsValidSide :
    (is_buy : Bool) (side : Side) (count i qty : ℕ) (m : MarketOrder)
    → IsValidSide is_buy side count
    → get_elem? side i ≡ some (some m)
    → IsValidSide is_buy (set side i (reduced m qty)) (reduced_count m qty count)
unfolding reduced reduced_count
reduced-IsValidSide is_buy side count i qty m v h =
    elim (Bool-cases (m.remaining_quantity - qty == 0)) [
      | inl e ↦ rw e (record {
        sized = length-set side i none ∙ v.sized;
        counted = omega (arith, v.counted, total-set (λ _. 1) side i m none h);
        distinct = set-Distinct side i m none h tt v.distinct;
        placed = Every-set (Rests is_buy) side i none v.placed tt;
      })
      | inr e ↦ rw e (record {
        sized = length-set side i (some left) ∙ v.sized;
        counted = omega (arith, v.counted, total-set (λ _. 1) side i m (some left) h);
        distinct = set-Distinct side i m (some left) h refl v.distinct;
        placed =
            Every-set (Rests is_buy) side i (some left) v.placed
              (ground arith, (Every-at (Rests is_buy) side i m h v.placed).1);
      })
    ]
  where
    left : MarketOrder
    left = record m { remaining_quantity = m.remaining_quantity - qty; status = partially_filled }

pub resting-le : (side : Side) → resting side ≤ length side
resting-le [] = omega arith
resting-le (none ∷ side) = omega (arith, resting-le side)
resting-le (some o ∷ side) = omega (arith, resting-le side)
