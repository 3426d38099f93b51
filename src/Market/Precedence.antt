-- ===== src/Market/Precedence.antt =====
-- Price-time priority of `place_order` (crates/eidolon-core/src/market.rs), said with the order of the
-- numbers rather than with the tests of the scan.
use eidolon.Base.{
  ℕ, ◌≤◌, ◌<◌, ◌≡◌, ◌⊎◌, Bool, true, false, ◌&&◌, [], ◌∷◌, none, some, arith, get_elem?,
}
use eidolon.Market.{MarketOrder, OrderBook, Side}
use eidolon.Market.Matching.{crosses, beats, opposite, best_order}
use eidolon.Market.Priority.{Unbeaten, best_order-Unbeaten}

-- A price within a limit: at most it for a buyer, at least it for a seller.
abbrev pub Within : Bool → ℕ → ℕ → Type 0
Within is_buy price p = ((is_buy ≡ true) × (p ≤ price)) ⊎ ((is_buy ≡ false) × (price ≤ p))

-- A resting order comes before another: at a better price, or at the same price and not later.
abbrev pub Precedes : Bool → MarketOrder → MarketOrder → Type 0
Precedes is_buy m n =
    ((is_buy ≡ true) × (m.unit_price < n.unit_price))
    ⊎ ((is_buy ≡ false) × (n.unit_price < m.unit_price))
    ⊎ ((m.unit_price ≡ n.unit_price) × (m.placed_tick ≤ n.placed_tick))

-- A price beyond a limit.
abbrev pub Beyond : Bool → ℕ → ℕ → Type 0
Beyond is_buy price p = ((is_buy ≡ true) × (price < p)) ⊎ ((is_buy ≡ false) × (p < price))

-- An order comes before every resting order whose price is not beyond the limit.
abbrev pub PrecedesAll : Bool → ℕ → MarketOrder → Side → Type 0
PrecedesAll is_buy price m [] = Unit {0}
PrecedesAll is_buy price m (none ∷ slots) = PrecedesAll is_buy price m slots
PrecedesAll is_buy price m (some n ∷ slots) =
    (Beyond is_buy price n.unit_price ⊎ Precedes is_buy m n) × PrecedesAll is_buy price m slots

crosses-Within :
    (is_buy : Bool) (price : ℕ) (m : MarketOrder)
    → crosses is_buy price m ≡ true
    → Within is_buy price m.unit_price
unfolding crosses
crosses-Within is_buy price m h = ground arith

unbeaten-Precedes :
    (is_buy : Bool) (price : ℕ) (m n : MarketOrder)
    → (crosses is_buy price n && beats is_buy n.unit_price n.placed_tick m.unit_price m.placed_tick)
      ≡ false
    → Beyond is_buy price n.unit_price ⊎ Precedes is_buy m n
unfolding crosses beats
unbeaten-Precedes true price m n h = ground arith
unbeaten-Precedes false price m n h = ground arith

Unbeaten-PrecedesAll :
    (is_buy : Bool) (price : ℕ) (m : MarketOrder) (slots : Side)
    → Unbeaten is_buy price m.unit_price m.placed_tick slots
    → PrecedesAll is_buy price m slots
Unbeaten-PrecedesAll is_buy price m [] u = tt
Unbeaten-PrecedesAll is_buy price m (none ∷ slots) u = Unbeaten-PrecedesAll is_buy price m slots u
Unbeaten-PrecedesAll is_buy price m (some n ∷ slots) (u, us) =
    (unbeaten-Precedes is_buy price m n u, Unbeaten-PrecedesAll is_buy price m slots us)

-- The match that `place_order` picks for an incoming order is the resting order of the other side in
-- the slot that it names, its price is within the limit, and it precedes every resting order of that
-- side whose price is not beyond the limit: its price is better, or the same and it was not placed later.
pub best_order-Precedes :
    (b : OrderBook) (o maker : MarketOrder) (idx : ℕ)
    → best_order b o ≡ some (idx, maker)
    → (get_elem? (opposite b o.is_buy) idx ≡ some (some maker))
      × Within o.is_buy o.unit_price maker.unit_price
      × PrecedesAll o.is_buy o.unit_price maker (opposite b o.is_buy)
best_order-Precedes b o maker idx best =
    let (here, c, u) = best_order-Unbeaten b o maker idx best in
    (
      here,
      crosses-Within o.is_buy o.unit_price maker c,
      Unbeaten-PrecedesAll o.is_buy o.unit_price maker (opposite b o.is_buy) u,
    )
