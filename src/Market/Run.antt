-- ===== src/Market/Run.antt =====
-- The matching loop of `place_order` in crates/eidolon-core/src/market.rs as a derivation: a trade with
-- the best match after the other, until it stops.
use eidolon.Base.{
  ℕ, zero, suc, ◌+◌, ◌-◌, ◌<◌, ◌≡◌, refl, ◌⊎◌, inl, inr, min, Bool, true, false, List, [], ◌∷◌,
  some, arith, ◌==◌, set, length, Option-cases, Bool-cases,
}
use eidolon.Market.{MarketOrder, OrderBook, TradeExecution}
use eidolon.Market.Matching.{opposite, execution, reduced, settle, best_order, match_loop}
use eidolon.Market.Priority.{NoneCross, best_order-NoneCross}

-- The units of a trade, and the incoming order after it.
abbrev pub matched : MarketOrder → MarketOrder → ℕ
matched o maker = min o.remaining_quantity maker.remaining_quantity

abbrev pub left_of : MarketOrder → MarketOrder → MarketOrder
left_of o maker = record o { remaining_quantity = o.remaining_quantity - matched o maker }

-- Why the loop stops: the order is filled, the output slice is full, or nothing crosses.
abbrev pub Stops : ℕ → OrderBook → MarketOrder → Type 0
Stops room b o =
    (o.remaining_quantity ≡ 0) ⊎ (room ≡ 0) ⊎ NoneCross o.is_buy o.unit_price (opposite b o.is_buy)

pub data Run (tick : ℕ)
    : ℕ → OrderBook → MarketOrder → OrderBook → MarketOrder → List TradeExecution → Type 0 where
  stop : {room : ℕ} {b : OrderBook} {o : MarketOrder} → Stops room b o → Run tick room b o b o []
  trade :
      {room : ℕ} {b b' : OrderBook} {o o' : MarketOrder} {ts : List TradeExecution} (idx : ℕ)
      (maker : MarketOrder)
      → 0 < o.remaining_quantity
      → best_order b o ≡ some (idx, maker)
      → Run tick room (settle b o.is_buy idx maker (matched o maker)) (left_of o maker) b' o' ts
      → Run tick
          (suc room)
          b
          o
          b'
          o'
          (execution b.next_trade_id tick o maker (matched o maker) ∷ ts)

pub match_loop-Run :
    (tick room : ℕ) (b : OrderBook) (o : MarketOrder)
    → let (b', o', ts) = match_loop tick room b o in Run tick room b o b' o' ts
unfolding match_loop
match_loop-Run tick zero b o = stop (inr (inl refl))
match_loop-Run tick (suc room) b o = elim (Bool-cases (o.remaining_quantity == 0)) [
  | inl e ↦ rw (e, match_loop) (stop (inl (ground arith)))
  | inr e ↦ elim (Option-cases (best_order b o)) [
    | inl f ↦ rw (e, match_loop, f) (stop (inr (inr (best_order-NoneCross b o f))))
    | inr ((idx, maker), f) ↦
        rw (e, match_loop, f)
          (trade idx maker (ground arith) f (
            match_loop-Run tick room (settle b o.is_buy idx maker (matched o maker))
              (left_of o maker)))
  ]
]

-- The units of a list of trades.
abbrev pub traded : List TradeExecution → ℕ
traded [] = 0
traded (t ∷ ts) = t.quantity + traded ts

pub opposite-settle :
    (b : OrderBook) (is_buy : Bool) (idx : ℕ) (maker : MarketOrder) (qty : ℕ)
    → opposite (settle b is_buy idx maker qty) is_buy
      ≡ set (opposite b is_buy) idx (reduced maker qty)
unfolding settle
opposite-settle b true idx maker qty = refl
opposite-settle b false idx maker qty = refl

-- Where a run ends.
pub Run-Stops :
    {tick room : ℕ} {b b' : OrderBook} {o o' : MarketOrder} {ts : List TradeExecution}
    → Run tick room b o b' o' ts
    → (o'.remaining_quantity ≡ 0)
      ⊎ (length ts ≡ room)
      ⊎ NoneCross o.is_buy o.unit_price (opposite b' o.is_buy)
Run-Stops (stop (inl done)) = inl done
Run-Stops (stop (inr (inl full))) = inr (inl (omega arith))
Run-Stops (stop (inr (inr none_cross))) = inr (inr none_cross)
Run-Stops (trade idx maker pos best rest) = elim (Run-Stops rest) [
  | inl done ↦ inl done
  | inr (inl full) ↦ inr (inl (omega arith))
  | inr (inr none_cross) ↦ inr (inr none_cross)
]
