-- ===== src/Market/Sides.antt =====
-- Sums and predicates over the slots of one side of the book of crates/eidolon-core/src/market.rs.
use eidolon.Base.{ℕ, zero, suc, ◌+◌, ◌≡◌, false, [], ◌∷◌, Option, none, some, arith, get_elem?, set}
use eidolon.Market.{MarketOrder, Side, has_order}

-- The sum of a quantity of the resting orders.
abbrev pub total : (MarketOrder → ℕ) → Side → ℕ
total f [] = 0
total f (none ∷ slots) = total f slots
total f (some o ∷ slots) = f o + total f slots

-- What a slot adds to the sum.
abbrev pub weight : (MarketOrder → ℕ) → Option MarketOrder → ℕ
weight f none = 0
weight f (some o) = f o

abbrev pub volume : Side → ℕ
volume = total (λ o. o.remaining_quantity)

abbrev pub resting : Side → ℕ
resting = total (λ _. 1)

pub total-set :
    (f : MarketOrder → ℕ) (slots : Side) (i : ℕ) (m : MarketOrder) (x : Option MarketOrder)
    → get_elem? slots i ≡ some (some m)
    → total f (set slots i x) + f m ≡ total f slots + weight f x
total-set f [] i m x h = ground arith
total-set f (none ∷ slots) zero m x h = ground arith
total-set f (some o ∷ slots) zero m none h = ground arith
total-set f (some o ∷ slots) zero m (some x) h = ground arith
total-set f (none ∷ slots) (suc i) m x h = total-set f slots i m x h
total-set f (some o ∷ slots) (suc i) m x h = omega (arith, total-set f slots i m x h)

-- A predicate of every resting order.
abbrev pub Every {ℓ} : (MarketOrder → Type ℓ) → Side → Type ℓ
Every P [] = Unit
Every P (none ∷ slots) = Every P slots
Every P (some o ∷ slots) = P o × Every P slots

-- A predicate of what a slot may hold.
abbrev pub Holds {ℓ} : (MarketOrder → Type ℓ) → Option MarketOrder → Type ℓ
Holds P none = Unit
Holds P (some o) = P o

pub Every-at {ℓ} :
    (P : MarketOrder → Type ℓ) (slots : Side) (i : ℕ) (m : MarketOrder)
    → get_elem? slots i ≡ some (some m)
    → Every P slots
    → P m
Every-at P [] i m h v = cc
Every-at P (none ∷ slots) zero m h v = cc
Every-at P (some o ∷ slots) zero m h v = let e : o ≡ m = ground arith in rw e at (v.0)
Every-at P (none ∷ slots) (suc i) m h v = Every-at P slots i m h v
Every-at P (some o ∷ slots) (suc i) m h v = Every-at P slots i m h v.1

pub Every-set {ℓ} :
    (P : MarketOrder → Type ℓ) (slots : Side) (i : ℕ) (x : Option MarketOrder)
    → Every P slots
    → Holds P x
    → Every P (set slots i x)
Every-set P [] i x v h = v
Every-set P (none ∷ slots) zero none v h = v
Every-set P (none ∷ slots) zero (some x) v h = (h, v)
Every-set P (some o ∷ slots) zero none v h = v.1
Every-set P (some o ∷ slots) zero (some x) v h = (h, v.1)
Every-set P (none ∷ slots) (suc i) x v h = Every-set P slots i x v h
Every-set P (some o ∷ slots) (suc i) x v h = (v.0, Every-set P slots i x v.1 h)

-- No two resting orders of a side have the same identifier.
abbrev pub Distinct : Side → Type 0
Distinct [] = Unit {0}
Distinct (none ∷ slots) = Distinct slots
Distinct (some o ∷ slots) = (has_order o.order_id slots ≡ false) × Distinct slots

has_order-set :
    (id : ℕ) (slots : Side) (i : ℕ) (m : MarketOrder) (x : Option MarketOrder)
    → get_elem? slots i ≡ some (some m)
    → Holds (λ o. o.order_id ≡ m.order_id) x
    → has_order id slots ≡ false
    → has_order id (set slots i x) ≡ false
unfolding has_order
has_order-set id [] i m x h e f = f
has_order-set id (none ∷ slots) zero m x h e f = cc
has_order-set id (some o ∷ slots) zero m none h e f = ground arith
has_order-set id (some o ∷ slots) zero m (some x) h e f = ground arith
has_order-set id (none ∷ slots) (suc i) m x h e f = has_order-set id slots i m x h e f
has_order-set id (some o ∷ slots) (suc i) m x h e f =
    ground (arith, has_order-set id slots i m x h e)

pub set-Distinct :
    (slots : Side) (i : ℕ) (m : MarketOrder) (x : Option MarketOrder)
    → get_elem? slots i ≡ some (some m)
    → Holds (λ o. o.order_id ≡ m.order_id) x
    → Distinct slots
    → Distinct (set slots i x)
set-Distinct [] i m x h e d = d
set-Distinct (none ∷ slots) zero m x h e d = cc
set-Distinct (some o ∷ slots) zero m none h e d = d.1
set-Distinct (some o ∷ slots) zero m (some x) h e d =
    let id : x.order_id ≡ o.order_id = ground arith in (rw id d.0, d.1)
set-Distinct (none ∷ slots) (suc i) m x h e d = set-Distinct slots i m x h e d
set-Distinct (some o ∷ slots) (suc i) m x h e d =
    (has_order-set o.order_id slots i m x h e d.0, set-Distinct slots i m x h e d.1)
