-- ===== src/Market/Insert.antt =====
-- `insert_resting_order` of crates/eidolon-core/src/market.rs.
use eidolon.Base.{
  ℕ, ◌+◌, ◌≡◌, refl, ◌∙◌, ◌⊎◌, inl, inr, Bool, true, false, [], ◌∷◌, none, some, arith, ◌==◌, leb,
  length, Option-cases, Bool-cases, ok, err, Result,
}
use eidolon.Market.{
  max_orders_per_side, MarketOrder, Side, MarketError, has_order, fill_slot, insert_side,
  order_book_full, duplicate_order_id,
}
use eidolon.Market.Sides.{total, volume, resting, Every, Distinct}
use eidolon.Market.Valid.{Rests, IsValidSide, resting-le}

fill_slot-none :
    (o : MarketOrder) (side : Side) → fill_slot o side ≡ none → resting side ≡ length side
unfolding fill_slot
fill_slot-none o [] h = refl
fill_slot-none o (none ∷ side) h = cc
fill_slot-none o (some x ∷ side) h = ground (arith, fill_slot-none o side)

-- What a filled slot adds to a side.
fill_slot-adds :
    (o : MarketOrder) (side side' : Side)
    → fill_slot o side ≡ some side'
    → (length side' ≡ length side) × ((f : MarketOrder → ℕ) → total f side' ≡ total f side + f o)
unfolding fill_slot
fill_slot-adds o [] side' h = cc
fill_slot-adds o (none ∷ side) side' h =
    let e : side' ≡ some o ∷ side = cc in rw e (refl, λ f. omega arith)
fill_slot-adds o (some x ∷ side) side' h = elim (Option-cases (fill_slot o side)) [
  | inl e ↦ absurd (ground (arith, e))
  | inr (r, e) ↦
      let same : side' ≡ some x ∷ r = ground (arith, e) in
      let rest = fill_slot-adds o side r e in
      rw same (ground (arith, rest.0), λ f. omega (arith, rest.1 f))
]

has_order-fill_slot :
    (id : ℕ) (o : MarketOrder) (side side' : Side)
    → fill_slot o side ≡ some side'
    → has_order id side ≡ false
    → (o.order_id == id) ≡ false
    → has_order id side' ≡ false
unfolding fill_slot has_order
has_order-fill_slot id o [] side' h f g = cc
has_order-fill_slot id o (none ∷ side) side' h f g =
    let e : side' ≡ some o ∷ side = cc in rw e (ground arith)
has_order-fill_slot id o (some x ∷ side) side' h f g = elim (Option-cases (fill_slot o side)) [
  | inl e ↦ absurd (ground (arith, e))
  | inr (r, e) ↦
      let same : side' ≡ some x ∷ r = ground (arith, e) in
      rw same (ground (arith, has_order-fill_slot id o side r e))
]

fill_slot-Distinct :
    (o : MarketOrder) (side side' : Side)
    → fill_slot o side ≡ some side'
    → has_order o.order_id side ≡ false
    → Distinct side
    → Distinct side'
unfolding fill_slot has_order
fill_slot-Distinct o [] side' h f d = cc
fill_slot-Distinct o (none ∷ side) side' h f d = let e : side' ≡ some o ∷ side = cc in rw e (f, d)
fill_slot-Distinct o (some x ∷ side) side' h f d = elim (Option-cases (fill_slot o side)) [
  | inl e ↦ absurd (ground (arith, e))
  | inr (r, e) ↦
      let same : side' ≡ some x ∷ r = ground (arith, e) in
      rw same (
        has_order-fill_slot x.order_id o side r e d.0 (ground arith),
        fill_slot-Distinct o side r e (ground arith) d.1,
      )
]

fill_slot-Every :
    (P : MarketOrder → Type 0) (o : MarketOrder) (side side' : Side)
    → fill_slot o side ≡ some side'
    → P o
    → Every P side
    → Every P side'
unfolding fill_slot
fill_slot-Every P o [] side' h p v = cc
fill_slot-Every P o (none ∷ side) side' h p v = let e : side' ≡ some o ∷ side = cc in rw e (p, v)
fill_slot-Every P o (some x ∷ side) side' h p v = elim (Option-cases (fill_slot o side)) [
  | inl e ↦ absurd (ground (arith, e))
  | inr (r, e) ↦
      let same : side' ≡ some x ∷ r = ground (arith, e) in
      rw same (v.0, fill_slot-Every P o side r e p v.1)
]

-- What `insert_resting_order` does on a valid side: it refuses a full side and a known identifier, and
-- else adds the order to a side that stays valid.
abbrev pub Inserts : Bool → MarketOrder → Side → ℕ → Result MarketError (Side × ℕ) → Type 0
Inserts is_buy o side count (err e) =
    ((e ≡ order_book_full) × (count ≡ max_orders_per_side))
    ⊎ ((e ≡ duplicate_order_id) × (has_order o.order_id side ≡ true))
Inserts is_buy o side count (ok (side', count')) =
    IsValidSide is_buy side' count'
    × (volume side' ≡ volume side + o.remaining_quantity)
    × (has_order o.order_id side ≡ false)

pub insert_side-Inserts :
    (is_buy : Bool) (o : MarketOrder) (side : Side) (count : ℕ)
    → IsValidSide is_buy side count
    → Rests is_buy o
    → Inserts is_buy o side count (insert_side o side count)
unfolding insert_side
insert_side-Inserts is_buy o side count v r = elim (Bool-cases (leb max_orders_per_side count)) [
  | inl full ↦ rw full (inl (refl, ground (arith, v.counted, v.sized, resting-le side)))
  | inr room ↦ rw room (elim (Bool-cases (has_order o.order_id side)) [
    | inl known ↦ rw known (inr (refl, known))
    | inr fresh ↦ rw fresh (elim (Option-cases (fill_slot o side)) [
      | inl full ↦ absurd (ground (arith, room, fill_slot-none o side full, v.counted, v.sized))
      | inr (side', e) ↦
          let (len, adds) = fill_slot-adds o side side' e in
          rw e (
            record {
              sized = len ∙ v.sized;
              counted = omega (arith, v.counted, adds (λ _. 1));
              distinct = fill_slot-Distinct o side side' e fresh v.distinct;
              placed = fill_slot-Every (Rests is_buy) o side side' e r v.placed;
            },
            adds (λ x. x.remaining_quantity),
            fresh,
          )
    ])
  ])
]
