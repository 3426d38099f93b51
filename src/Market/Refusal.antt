-- ===== src/Market/Refusal.antt =====
-- The errors of `place_order` in crates/eidolon-core/src/market.rs.
use eidolon.Base.{ℕ, ◌<◌, ◌≡◌, ◌⊎◌, [], arith, if◌then◌else◌, err}
use eidolon.Market.{
  max_orders_per_side, MarketOrder, OrderBook, MarketError, limit, insert_side,
  insert_resting_order, order_book_full, duplicate_order_id, invalid_order_parameters,
  fill_or_kill_unfulfilled,
}
use eidolon.Market.Matching.{finalize, unfulfilled, place_order}
use eidolon.Market.Trading.{Run-order, Run-own_side}
use eidolon.Market.Run.{match_loop-Run}
use eidolon.Market.Book.{IsValid, Run-IsValid}
use eidolon.Market.Orders.{Outcome, book_after, order_after, trades_of}

module _ (b : OrderBook) (o : MarketOrder) (room tick : ℕ) where
  -- The two kinds of errors.
  abbrev pub ErrEnds : MarketError → Outcome → Type 0
  ErrEnds e p =
      (((e ≡ invalid_order_parameters) ⊎ (e ≡ fill_or_kill_unfulfilled)) × (p.0 ≡ b) × (p.1 ≡ []))
      ⊎ (((e ≡ order_book_full) ⊎ (e ≡ duplicate_order_id))
          × (o.order_type ≡ limit)
          × (p.0 ≡ book_after b o room tick)
          × (p.1 ≡ trades_of b o room tick))

  -- The number of resting orders on the side of the order.
  abbrev pub own_count : OrderBook → ℕ
  own_count x = if o.is_buy then x.bid_count else x.ask_count

  Run-own_count : IsValid b → own_count (book_after b o room tick) ≡ own_count b
  Run-own_count v =
      let v' = Run-IsValid (match_loop-Run tick room b o) v in
      ground (
        arith,
        Run-own_side (match_loop-Run tick room b o),
        v.bid_side.counted,
        v.ask_side.counted,
        v'.bid_side.counted,
        v'.ask_side.counted,
      )

  -- On a valid book, a limit order of positive price and quantity whose own side is full, and which its
  -- trades do not fill, is answered with `OrderBookFull`, while all its trades stand in the book and in
  -- the output slice.
  pub place_order_full :
      IsValid b
      → o.order_type ≡ limit
      → 0 < o.unit_price
      → 0 < o.initial_quantity
      → own_count b ≡ max_orders_per_side
      → 0 < (order_after b o room tick).remaining_quantity
      → place_order b o room tick
        ≡ (book_after b o room tick, trades_of b o room tick, err order_book_full)
  unfolding place_order unfulfilled finalize insert_resting_order insert_side
  place_order_full v kind price qty full left =
      ground (arith, Run-own_count v, Run-order (match_loop-Run tick room b o))
