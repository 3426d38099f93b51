-- ===== src/Market/Book.antt =====
-- The order book of crates/eidolon-core/src/market.rs as a whole: its invariant over any history of
-- orders and cancellations, and what one order does to both sides.
use eidolon.Base.{
  ℕ, ◌+◌, ◌<◌, ◌≡◌, inl, inr, Bool, true, false, not, List, some, arith, get_elem?, Bool-cases,
  Result-cases, ok, err, Result,
}
use eidolon.Market.{
  MarketOrder, OrderBook, Side, MarketError, TradeExecution, insert_side, insert_resting_order,
  new_book,
}
use eidolon.Market.Matching.{opposite, settle}
use eidolon.Market.Priority.{best_order-Unbeaten}
use eidolon.Market.Sides.{volume}
use eidolon.Market.Run.{Run, stop, trade, matched}
use eidolon.Market.Valid.{IsValidSide, empty-IsValidSide, reduced-IsValidSide}
use eidolon.Market.Insert.{Inserts, insert_side-Inserts}

pub record IsValid (b : OrderBook) : Type 0 where
  pub bid_side : IsValidSide true b.bids b.bid_count
  pub ask_side : IsValidSide false b.asks b.ask_count

pub new_book-IsValid : (item : ℕ) → IsValid (new_book item)
unfolding new_book
new_book-IsValid item = record {
  bid_side = empty-IsValidSide true;
  ask_side = empty-IsValidSide false;
}

settle-IsValid :
    (b : OrderBook) (is_buy : Bool) (idx qty : ℕ) (maker : MarketOrder)
    → IsValid b
    → get_elem? (opposite b is_buy) idx ≡ some (some maker)
    → IsValid (settle b is_buy idx maker qty)
unfolding settle
settle-IsValid b true idx qty maker v h = record {
  bid_side = v.bid_side;
  ask_side = reduced-IsValidSide false b.asks b.ask_count idx qty maker v.ask_side h;
}
settle-IsValid b false idx qty maker v h = record {
  bid_side = reduced-IsValidSide true b.bids b.bid_count idx qty maker v.bid_side h;
  ask_side = v.ask_side;
}

pub Run-IsValid :
    {tick room : ℕ} {b b' : OrderBook} {o o' : MarketOrder} {ts : List TradeExecution}
    → Run tick room b o b' o' ts
    → IsValid b
    → IsValid b'
Run-IsValid (stop s) v = v
Run-IsValid (trade {b = b} {o = o} idx maker pos best rest) v = Run-IsValid rest (
    settle-IsValid b o.is_buy idx (matched o maker) maker v
      (best_order-Unbeaten b o maker idx best).0)

-- What resting an order does to a valid book.
abbrev pub Rested : OrderBook → MarketOrder → Result MarketError OrderBook → Type 0
Rested b o (err e) = Unit {0}
Rested b o (ok b') =
    IsValid b'
    × (opposite b' o.is_buy ≡ opposite b o.is_buy)
    × (volume (opposite b' (not o.is_buy))
        ≡ volume (opposite b (not o.is_buy)) + o.remaining_quantity)

insert_buy :
    (b : OrderBook) (o : MarketOrder) (side : Side) (count : ℕ)
    → o.is_buy ≡ true
    → insert_side o b.bids b.bid_count ≡ ok (side, count)
    → insert_resting_order b o ≡ ok (record b { bids = side; bid_count = count })
unfolding insert_resting_order
insert_buy b o side count d h = ground arith

insert_sell :
    (b : OrderBook) (o : MarketOrder) (side : Side) (count : ℕ)
    → o.is_buy ≡ false
    → insert_side o b.asks b.ask_count ≡ ok (side, count)
    → insert_resting_order b o ≡ ok (record b { asks = side; ask_count = count })
unfolding insert_resting_order
insert_sell b o side count d h = ground arith

insert_buy_err :
    (b : OrderBook) (o : MarketOrder) (e : MarketError)
    → o.is_buy ≡ true
    → insert_side o b.bids b.bid_count ≡ err e
    → insert_resting_order b o ≡ err e
unfolding insert_resting_order
insert_buy_err b o e d h = ground arith

insert_sell_err :
    (b : OrderBook) (o : MarketOrder) (e : MarketError)
    → o.is_buy ≡ false
    → insert_side o b.asks b.ask_count ≡ err e
    → insert_resting_order b o ≡ err e
unfolding insert_resting_order
insert_sell_err b o e d h = ground arith

pub insert_resting_order-Rested :
    (b : OrderBook) (o : MarketOrder)
    → IsValid b
    → 0 < o.remaining_quantity
    → Rested b o (insert_resting_order b o)
insert_resting_order-Rested b o v pos = elim (Bool-cases o.is_buy) [
  | inl d ↦ elim (Result-cases (insert_side o b.bids b.bid_count)) [
    | inr (e, h) ↦ rw (insert_buy_err b o e d h) tt
    | inl ((side, count), h) ↦
        let done : Inserts true o b.bids b.bid_count (ok (side, count)) =
          rw h at (insert_side-Inserts true o b.bids b.bid_count v.bid_side (pos, d)) in
        rw (insert_buy b o side count d h) (
          record { bid_side = done.0; ask_side = v.ask_side },
          ground arith,
          ground (arith, done.1),
        )
  ]
  | inr d ↦ elim (Result-cases (insert_side o b.asks b.ask_count)) [
    | inr (e, h) ↦ rw (insert_sell_err b o e d h) tt
    | inl ((side, count), h) ↦
        let done : Inserts false o b.asks b.ask_count (ok (side, count)) =
          rw h at (insert_side-Inserts false o b.asks b.ask_count v.ask_side (pos, d)) in
        rw (insert_sell b o side count d h) (
          record { bid_side = v.bid_side; ask_side = done.0 },
          ground arith,
          ground (arith, done.1),
        )
  ]
]
