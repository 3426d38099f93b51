-- ===== src/Market/Cancel.antt =====
-- `cancel_order` of crates/eidolon-core/src/market.rs.
use eidolon.Base.{
  ℕ, ◌+◌, ◌-◌, ◌≡◌, refl, ◌∙◌, inl, inr, Bool, false, [], ◌∷◌, Option, none, some, arith,
  if◌then◌else◌, ◌==◌, ◌≢◌, length, Option-cases, Bool-cases, ok, err, Result,
}
use eidolon.Market.{
  MarketOrder, Side, MarketError, has_order, cancel_side, cancelled, unauthorized_cancellation,
}
use eidolon.Market.Sides.{total, volume, Every, Distinct}
use eidolon.Market.Valid.{Rests, IsValidSide}

-- The resting order with an identifier, and the side without it.
pub find_order : ℕ → Side → Option MarketOrder
find_order id [] = none
find_order id (none ∷ slots) = find_order id slots
find_order id (some o ∷ slots) = if o.order_id == id then some o else find_order id slots

pub clear_order : ℕ → Side → Side
clear_order id [] = []
clear_order id (none ∷ slots) = none ∷ clear_order id slots
clear_order id (some o ∷ slots) =
    if o.order_id == id then none ∷ slots else some o ∷ clear_order id slots

cancel_side-find :
    (id account : ℕ) (side : Side)
    → cancel_side id account side ≡ (elim (find_order id side) [
      | none ↦ none
      | some o ↦
          (if o.account_id == account
            then some (ok (clear_order id side, record o { status = cancelled }))
            else some (err unauthorized_cancellation))
    ])
unfolding cancel_side find_order clear_order
cancel_side-find id account [] = refl
cancel_side-find id account (none ∷ side) = ground (arith, cancel_side-find id account side)
cancel_side-find id account (some o ∷ side) = ground (arith, cancel_side-find id account side)

clear_order-length : (id : ℕ) (side : Side) → length (clear_order id side) ≡ length side
unfolding clear_order
clear_order-length id [] = refl
clear_order-length id (none ∷ side) = omega (arith, clear_order-length id side)
clear_order-length id (some o ∷ side) = ground (arith, clear_order-length id side)

total-clear_order :
    (f : MarketOrder → ℕ) (id : ℕ) (o : MarketOrder) (side : Side)
    → find_order id side ≡ some o
    → total f (clear_order id side) + f o ≡ total f side
unfolding find_order clear_order
total-clear_order f id o [] h = cc
total-clear_order f id o (none ∷ side) h = total-clear_order f id o side h
total-clear_order f id o (some x ∷ side) h = elim (Bool-cases (x.order_id == id)) [
  | inl e ↦ let same : x ≡ o = ground arith in rw (e, same) (omega arith)
  | inr e ↦ rw e (omega (arith, total-clear_order f id o side (rw e at h)))
]

has_order-clear :
    (i id : ℕ) (side : Side) → has_order i side ≡ false → has_order i (clear_order id side) ≡ false
unfolding has_order clear_order
has_order-clear i id [] h = refl
has_order-clear i id (none ∷ side) h = has_order-clear i id side h
has_order-clear i id (some o ∷ side) h = ground (arith, has_order-clear i id side)

clear_order-Distinct : (id : ℕ) (side : Side) → Distinct side → Distinct (clear_order id side)
unfolding clear_order
clear_order-Distinct id [] d = tt
clear_order-Distinct id (none ∷ side) d = clear_order-Distinct id side d
clear_order-Distinct id (some o ∷ side) d =
    ground (arith, clear_order-Distinct id side d.1, has_order-clear o.order_id id side)

-- In a side without duplicates the cleared identifier is gone.
clear_order-gone :
    (id : ℕ) (side : Side) → Distinct side → has_order id (clear_order id side) ≡ false
unfolding has_order clear_order
clear_order-gone id [] d = refl
clear_order-gone id (none ∷ side) d = clear_order-gone id side d
clear_order-gone id (some o ∷ side) d = ground (arith, clear_order-gone id side d.1)

clear_order-Every :
    (P : MarketOrder → Type 0) (id : ℕ) (side : Side) → Every P side → Every P (clear_order id side)
unfolding clear_order
clear_order-Every P id [] v = tt
clear_order-Every P id (none ∷ side) v = clear_order-Every P id side v
clear_order-Every P id (some o ∷ side) v = elim (Bool-cases (o.order_id == id)) [
  | inl e ↦ rw e (v.1)
  | inr e ↦ rw e (v.0, clear_order-Every P id side v.1)
]

clear_order-IsValidSide :
    (is_buy : Bool) (side : Side) (count id : ℕ) (o : MarketOrder)
    → IsValidSide is_buy side count
    → find_order id side ≡ some o
    → IsValidSide is_buy (clear_order id side) (count - 1)
clear_order-IsValidSide is_buy side count id o v h = record {
  sized = clear_order-length id side ∙ v.sized;
  counted = omega (arith, v.counted, total-clear_order (λ _. 1) id o side h);
  distinct = clear_order-Distinct id side v.distinct;
  placed = clear_order-Every (Rests is_buy) id side v.placed;
}

-- One side of `cancel_order`, on a valid side: the identifier is unknown; or the order with it belongs
-- to another account; or it is taken out, with its volume, and the side stays valid.
abbrev pub Cancels :
    Bool → ℕ → ℕ → Side → ℕ → Option (Result MarketError (Side × MarketOrder)) → Type 0
Cancels is_buy id account side count none = find_order id side ≡ none
Cancels is_buy id account side count (some (err e)) =
    (o : MarketOrder) × (find_order id side ≡ some o)
    × (o.account_id ≢ account)
    × (e ≡ unauthorized_cancellation)
Cancels is_buy id account side count (some (ok (side', c))) =
    (o : MarketOrder) × (find_order id side ≡ some o)
    × (o.account_id ≡ account)
    × (c ≡ record o { status = cancelled })
    × IsValidSide is_buy side' (count - 1)
    × (has_order id side' ≡ false)
    × (volume side' + o.remaining_quantity ≡ volume side)

pub cancel_side-Cancels :
    (is_buy : Bool) (id account : ℕ) (side : Side) (count : ℕ)
    → IsValidSide is_buy side count
    → Cancels is_buy id account side count (cancel_side id account side)
cancel_side-Cancels is_buy id account side count v = elim (Option-cases (find_order id side)) [
  | inl e ↦ rw (cancel_side-find id account side, e) e
  | inr (o, e) ↦
      rw (cancel_side-find id account side, e)
        (elim (Bool-cases (o.account_id == account)) [
          | inr other ↦ rw other (o, e, ground arith, refl)
          | inl own ↦ rw own (
            o,
            e,
            ground arith,
            refl,
            clear_order-IsValidSide is_buy side count id o v e,
            clear_order-gone id side v.distinct,
            total-clear_order (λ x. x.remaining_quantity) id o side e,
          )
        ])
]
