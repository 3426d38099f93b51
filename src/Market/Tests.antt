-- ===== src/Market/Tests.antt =====
-- Tests of the order book, and its theorems at concrete books.
use eidolon.Base.{
  get_elem?, ℕ, zero, suc, ◌+◌, ◌≤◌, ◌<◌, ◌≡◌, refl, ap, ◌⊎◌, Bool, true, false, [], ◌∷◌, none,
  some, arith, length, ok, err, replicate,
}
use eidolon.Market.{
  MarketOrder, OrderBook, OrderType, Side, limit, fill_or_kill, active, filled, has_order,
  order_book_full, new_book, cancel_order, fill_or_kill_unfulfilled, cancel_side,
  unauthorized_cancellation,
}
use eidolon.Market.Matching.{
  match_loop, place_order, crosses, best_order, best_match, scan, consider, beats, settle, reduced,
  reduced_count, execution, finalize, unfulfilled, available_qty,
}
use eidolon.Market.Precedence.{Within, PrecedesAll, best_order-Precedes}
use eidolon.Market.Sides.{resting, Distinct, Every}
use eidolon.Market.Valid.{Rests}
use eidolon.Market.Run.{traded}
use eidolon.Market.Trading.{AllTerms}
use eidolon.Market.FillOrKill.{liquidity, place_order_fill_or_kill}
use eidolon.Market.Book.{IsValid}
use eidolon.Market.Orders.{
  Accounts, Uncrossed, place_order-Accounts, place_order-AllTerms, place_order-Uncrossed,
}
use eidolon.Market.History.{
  CancelEnds, cancel_order-CancelEnds, place, cancel, run, run-new_book-IsValid,
}
use eidolon.Market.Refusal.{place_order_full}

abbrev order : Bool → ℕ → ℕ → ℕ → OrderType → MarketOrder
order is_buy id price qty kind = record {
  order_id = id;
  account_id = 10 + id;
  item_type_id = 5;
  is_buy = is_buy;
  unit_price = price;
  initial_quantity = qty;
  remaining_quantity = qty;
  station_id = 1;
  order_type = kind;
  status = active;
  placed_tick = id;
  expiration_tick = 1000;
}

-- Two asks: 5 units at 100 and 3 at 90.
abbrev asks_only : OrderBook
asks_only = record {
  item_type_id = 5;
  bids = replicate 64 none;
  bid_count = 0;
  asks = some (order false 1 100 5 limit) ∷ some (order false 2 90 3 limit) ∷ replicate 62 none;
  ask_count = 2;
  next_trade_id = 1;
}

asks_only-IsValid : IsValid asks_only
unfolding has_order
asks_only-IsValid = record {
  bid_side = record { sized = refl; counted = refl; distinct = tt; placed = tt };
  ask_side = record {
    sized = refl;
    counted = refl;
    distinct = (refl, (refl, tt));
    placed = ((omega arith, refl), ((omega arith, refl), tt));
  };
}

abbrev buy : MarketOrder
buy = order true 3 100 6 limit

-- The cheaper ask goes first, at its own price.
buy_trades :
    let (b, ts, r) = place_order asks_only buy 8 50 in
    (traded ts ≡ 6) × (r ≡ ok (2, record buy { remaining_quantity = 0; status = filled }))
unfolding place_order match_loop crosses best_order best_match scan consider beats settle reduced
    reduced_count execution finalize unfulfilled
buy_trades = (refl, refl)

best_order-Precedes_example :
    (get_elem? asks_only.asks 1 ≡ some (some (order false 2 90 3 limit)))
    × Within true 100 90
    × PrecedesAll true 100 (order false 2 90 3 limit) asks_only.asks
unfolding best_order best_match scan consider crosses beats
best_order-Precedes_example = best_order-Precedes asks_only buy (order false 2 90 3 limit) 1 refl

place_order-Accounts_example : Accounts asks_only buy 8 50 (place_order asks_only buy 8 50)
place_order-Accounts_example = place_order-Accounts asks_only buy 8 50 asks_only-IsValid

place_order-AllTerms_example :
    AllTerms buy (place_order asks_only buy 8 50).1
    × (length (place_order asks_only buy 8 50).1 ≤ 8)
place_order-AllTerms_example = place_order-AllTerms asks_only buy 8 50 asks_only-IsValid

place_order-Uncrossed_example : Uncrossed asks_only buy 8 50 (place_order asks_only buy 8 50)
place_order-Uncrossed_example = place_order-Uncrossed asks_only buy 8 50 asks_only-IsValid

-- Eight units are there: an order for nine is killed, and one for eight is filled.
abbrev fok : MarketOrder
fok = order true 4 100 8 fill_or_kill

nine_killed :
    (place_order asks_only (order true 4 100 9 fill_or_kill) 64 50).2 ≡ err fill_or_kill_unfulfilled
unfolding place_order unfulfilled available_qty crosses
nine_killed = refl

place_order_fill_or_kill_example :
    let (b', ts, answer) = place_order asks_only fok 64 50 in
    ((liquidity asks_only fok 64 50 < 8)
      × (answer ≡ err fill_or_kill_unfulfilled)
      × (ts ≡ [])
      × (b' ≡ asks_only))
    ⊎ ((8 ≤ liquidity asks_only fok 64 50)
        × (answer ≡ ok (length ts, record fok { remaining_quantity = 0; status = filled }))
        × (traded ts ≡ 8))
unfolding crosses
place_order_fill_or_kill_example =
    place_order_fill_or_kill asks_only fok 64 50 refl (omega arith) (omega arith) refl (omega arith)
      (omega arith)

cancel_order-CancelEnds_example : CancelEnds asks_only 2 12 (cancel_order asks_only 2 12)
cancel_order-CancelEnds_example = cancel_order-CancelEnds asks_only 2 12 asks_only-IsValid

foreign_cancel : (cancel_order asks_only 2 99).1 ≡ err unauthorized_cancellation
unfolding cancel_order cancel_side
foreign_cancel = refl

run-new_book-IsValid_example : IsValid (run (new_book 5) (place buy 8 50 ∷ cancel 3 13 ∷ []))
run-new_book-IsValid_example = run-new_book-IsValid 5 (place buy 8 50 ∷ cancel 3 13 ∷ [])

-- A valid book whose bid side is full: 64 bids below every ask.
bid_list : ℕ → Side
bid_list zero = []
bid_list (suc n) = some (order true (100 + n) 10 1 limit) ∷ bid_list n

bid_list-Distinct : (n id : ℕ) → 100 + n ≤ id → has_order id (bid_list n) ≡ false
unfolding bid_list has_order
bid_list-Distinct zero id h = refl
bid_list-Distinct (suc n) id h = ground (arith, bid_list-Distinct n id)

bid_list-IsValid :
    (n : ℕ)
    → (length (bid_list n) ≡ n)
      × (resting (bid_list n) ≡ n)
      × Distinct (bid_list n)
      × Every (Rests true) (bid_list n)
unfolding bid_list
bid_list-IsValid zero = (refl, refl, tt, tt)
bid_list-IsValid (suc n) =
    let (l, r, d, p) = bid_list-IsValid n in
    (
      omega (arith, l),
      omega (arith, r),
      (bid_list-Distinct n (100 + n) (omega arith), d),
      ((omega arith, refl), p),
    )

abbrev full_bids : OrderBook
full_bids = record asks_only { bids = bid_list 64; bid_count = 64 }

full_bids-IsValid : IsValid full_bids
full_bids-IsValid =
    let (l, r, d, p) = bid_list-IsValid 64 in
    record {
      bid_side = record { sized = l; counted = omega (arith, r); distinct = d; placed = p };
      ask_side = asks_only-IsValid.ask_side;
    }

abbrev big_buy : MarketOrder
big_buy = order true 3 100 9 limit

place_order_full_example : (place_order full_bids big_buy 8 50).2 ≡ err order_book_full
unfolding match_loop crosses best_order best_match scan consider beats settle reduced reduced_count
    execution
place_order_full_example =
    ap (λ p. p.2)
      (place_order_full full_bids big_buy 8 50 full_bids-IsValid refl (omega arith) (omega arith)
        refl (omega arith))

-- A fill-or-kill order with too short an output slice is accepted, and comes back neither filled nor
-- killed.
short_slice :
    let (b, ts, r) = place_order asks_only fok 1 50 in
    r ≡ ok (1, record fok { remaining_quantity = 5 })
unfolding place_order match_loop crosses best_order best_match scan consider beats settle reduced
    reduced_count execution finalize unfulfilled available_qty
short_slice = refl

-- The volume of a fill-or-kill check wraps in u32: two asks of 2^31 units count as nothing.
wrapped_volume :
    available_qty true 100
      (some (order false 1 100 0x8000_0000 limit) ∷ some (order false 2 90 0x8000_0000 limit) ∷ [])
      0
    ≡ 0
unfolding available_qty crosses
wrapped_volume = refl
