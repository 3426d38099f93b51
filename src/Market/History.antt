-- ===== src/Market/History.antt =====
-- Cancellation, refusals and whole histories of the order book of crates/eidolon-core/src/market.rs.
use eidolon.Base.{
  ℕ, ◌+◌, ◌-◌, ◌≡◌, ◌≢◌, refl, ◌⊎◌, inl, inr, true, false, List, [], ◌∷◌, none, some, arith,
  Option-cases, ok, err, Result,
}
use eidolon.Market.{
  MarketOrder, OrderBook, Side, MarketError, cancel_side, cancel_order, cancelled, order_not_found,
  unauthorized_cancellation, new_book,
}
use eidolon.Market.Matching.{place_order}
use eidolon.Market.Sides.{volume}
use eidolon.Market.Cancel.{find_order, Cancels, cancel_side-Cancels}
use eidolon.Market.Book.{IsValid, new_book-IsValid}
use eidolon.Market.Orders.{place_order-IsValid}

-- The order that a cancellation finds: on the bid side first, then on the ask side.
abbrev pub IsListed : OrderBook → ℕ → MarketOrder → Type 0
IsListed b id o =
    (find_order id b.bids ≡ some o)
    ⊎ ((find_order id b.bids ≡ none) × (find_order id b.asks ≡ some o))

-- The three ends of a cancellation.
abbrev pub CancelEnds : OrderBook → ℕ → ℕ → OrderBook × Result MarketError MarketOrder → Type 0
CancelEnds b id account p =
    ((o : MarketOrder) × IsListed b id o
      × (o.account_id ≡ account)
      × (p.1 ≡ ok (record o { status = cancelled }))
      × IsValid p.0
      × (volume p.0.bids + volume p.0.asks + o.remaining_quantity ≡ volume b.bids + volume b.asks))
    ⊎ ((o : MarketOrder) × IsListed b id o
        × (o.account_id ≢ account)
        × (p.1 ≡ err unauthorized_cancellation)
        × (p.0 ≡ b))
    ⊎ ((find_order id b.bids ≡ none)
        × (find_order id b.asks ≡ none)
        × (p.1 ≡ err order_not_found)
        × (p.0 ≡ b))

module _ (b : OrderBook) (id account : ℕ) where
  -- The three results, by what the two loops find.
  absent :
      cancel_side id account b.bids ≡ none
      → cancel_side id account b.asks ≡ none
      → cancel_order b id account ≡ (b, err order_not_found)
  unfolding cancel_order
  absent h e = ground arith

  refused :
      (x : MarketError)
      → (cancel_side id account b.bids ≡ some (err x))
        ⊎ ((cancel_side id account b.bids ≡ none) × (cancel_side id account b.asks ≡ some (err x)))
      → cancel_order b id account ≡ (b, err x)
  unfolding cancel_order
  refused x h = ground arith

  bid_gone :
      (side : Side) (c : MarketOrder)
      → cancel_side id account b.bids ≡ some (ok (side, c))
      → cancel_order b id account ≡ (record b { bids = side; bid_count = b.bid_count - 1 }, ok c)
  unfolding cancel_order
  bid_gone side c h = ground arith

  ask_gone :
      (side : Side) (c : MarketOrder)
      → cancel_side id account b.bids ≡ none
      → cancel_side id account b.asks ≡ some (ok (side, c))
      → cancel_order b id account ≡ (record b { asks = side; ask_count = b.ask_count - 1 }, ok c)
  unfolding cancel_order
  ask_gone side c h e = ground arith

module _ (b : OrderBook) (id account : ℕ) (v : IsValid b) where
  bids_cancel : Cancels true id account b.bids b.bid_count (cancel_side id account b.bids)
  bids_cancel = cancel_side-Cancels true id account b.bids b.bid_count v.bid_side

  asks_cancel : Cancels false id account b.asks b.ask_count (cancel_side id account b.asks)
  asks_cancel = cancel_side-Cancels false id account b.asks b.ask_count v.ask_side

  cancel_asks :
      cancel_side id account b.bids ≡ none
      → find_order id b.bids ≡ none
      → CancelEnds b id account (cancel_order b id account)
  cancel_asks h no_bid = elim (Option-cases (cancel_side id account b.asks)) [
    | inl e ↦
        let gone : Cancels false id account b.asks b.ask_count none = rw e at asks_cancel in
        rw (absent b id account h e) (inr (inr (no_bid, gone, refl, refl)))
    | inr (err x, e) ↦
        let (o, found, other, same) : Cancels false id account b.asks b.ask_count (some (err x)) =
          rw e at asks_cancel in
        rw (refused b id account x (inr (h, e)))
          (inr (inl (o, inr (no_bid, found), other, rw same refl, refl)))
    | inr (ok (side, c), e) ↦
        let (o, found, own, same, valid, _, vol) : Cancels false id account b.asks b.ask_count
            (some (ok (side, c))) =
          rw e at asks_cancel in
        rw (ask_gone b id account side c h e) (
          inl (
            o,
            inr (no_bid, found),
            own,
            rw same refl,
            record { bid_side = v.bid_side; ask_side = valid },
            omega arith,
          ))
  ]

  -- A cancellation on a valid book has three ends. If the listed order with the identifier (a bid before
  -- an ask) belongs to the caller, it comes back as cancelled, the book stays valid, and exactly its
  -- remaining volume has left it. If it belongs to another account, or no order has the identifier, the
  -- call reports that and the book is unchanged.
  pub cancel_order-CancelEnds : CancelEnds b id account (cancel_order b id account)
  cancel_order-CancelEnds = elim (Option-cases (cancel_side id account b.bids)) [
    | inl e ↦
        let gone : Cancels true id account b.bids b.bid_count none = rw e at bids_cancel in
        cancel_asks e gone
    | inr (err x, e) ↦
        let (o, found, other, same) : Cancels true id account b.bids b.bid_count (some (err x)) =
          rw e at bids_cancel in
        rw (refused b id account x (inl e)) (inr (inl (o, inl found, other, rw same refl, refl)))
    | inr (ok (side, c), e) ↦
        let (o, found, own, same, valid, _, vol) : Cancels true id account b.bids b.bid_count
            (some (ok (side, c))) =
          rw e at bids_cancel in
        rw (bid_gone b id account side c e) (
          inl (
            o,
            inl found,
            own,
            rw same refl,
            record { bid_side = valid; ask_side = v.ask_side },
            omega arith,
          ))
  ]

-- The calls that change a book.
pub data Call : Type 0 where
  place : MarketOrder → ℕ → ℕ → Call
  cancel : ℕ → ℕ → Call

pub step : OrderBook → Call → OrderBook
step b (place o room tick) = (place_order b o room tick).0
step b (cancel id account) = (cancel_order b id account).0

pub run : OrderBook → List Call → OrderBook
run b [] = b
run b (c ∷ cs) = run (step b c) cs

step-IsValid : (b : OrderBook) (c : Call) → IsValid b → IsValid (step b c)
unfolding step
step-IsValid b (place o room tick) v = place_order-IsValid b o room tick v
step-IsValid b (cancel id account) v = elim (cancel_order-CancelEnds b id account v) [
  | inl (o, _, _, _, valid, _) ↦ valid
  | inr (inl (o, _, _, _, same)) ↦ rw same v
  | inr (inr (_, _, _, same)) ↦ rw same v
]

run-IsValid : (b : OrderBook) (cs : List Call) → IsValid b → IsValid (run b cs)
unfolding run
run-IsValid b [] v = v
run-IsValid b (c ∷ cs) v = run-IsValid (step b c) cs (step-IsValid b c v)

-- After any history of orders and cancellations on a new book, each side has 64 slots, its counter
-- counts the resting orders, no two of them have the same identifier, and each has something left and
-- stands on the side of its direction.
pub run-new_book-IsValid : (item : ℕ) (cs : List Call) → IsValid (run (new_book item) cs)
run-new_book-IsValid item cs = run-IsValid (new_book item) cs (new_book-IsValid item)
