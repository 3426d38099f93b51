-- ===== src/Escrow/Tests.antt =====
-- Runs of the escrow of crates/eidolon-world/src/market_coordinator.rs, and its theorems at concrete calls.
use eidolon.Base.{
  put_first, ℕ, ◌≡◌, refl, Bool, true, false, [], ◌∷◌, some, none, arith, ok, err, replicate, ◌+◌,
  ◌*◌,
}
use eidolon.Market.{
  MarketOrder, OrderBook, TradeExecution, limit, active, partially_filled, has_order,
  duplicate_order_id, insert_resting_order, insert_side, fill_slot,
}
use eidolon.Market.Matching.{
  place_order, match_loop, crosses, best_order, best_match, scan, consider, beats, settle, reduced,
  reduced_count, execution, finalize, unfulfilled,
}
use eidolon.Market.Book.{IsValid}
use eidolon.Escrow.{
  MarketStation, escrow_not_found, market_failure, MarketEscrowCoordinator, new_escrow, abs_diff32,
  sector_distance_to, calculate_freight_fee, find_station, get_station, lock_escrow, buy_holding,
  lock_buy_escrow, free_holding, cancel_and_refund_escrow,
}
use eidolon.Escrow.Settle.{
  holds_for, lowered, deduct, tax_bps, tax_of, settle_trade, fund, settle_all, submit_and_match,
}
use eidolon.Escrow.Slots.{held}
use eidolon.Escrow.History.{
  IsValid as IsValidEscrow, register, submit, cancel, run, run-new_escrow-IsValid,
}
use eidolon.Escrow.Funds.{submit_and_match-held, submit_and_match_refused}
use eidolon.Escrow.Balance.{settle_trade_balances, cancel_and_refund_escrow-lock_escrow}

abbrev station : ℕ → ℕ → ℕ → ℕ → ℕ → MarketStation
station id x z tax freight = record {
  station_id = id;
  sector_x = x;
  sector_z = z;
  sales_tax_bps = tax;
  freight_per_sector = freight;
}

-- Seven sectors, ten coins and five units; the second coordinate is below zero.
freight : calculate_freight_fee (station 1 0 0 200 10) (station 2 3 4294967292 100 15) 5 ≡ 350
unfolding calculate_freight_fee sector_distance_to abs_diff32
freight = refl

abbrev order : Bool → ℕ → ℕ → ℕ → MarketOrder
order is_buy id price qty = record {
  order_id = id;
  account_id = 10 + id;
  item_type_id = 5;
  is_buy = is_buy;
  unit_price = price;
  initial_quantity = qty;
  remaining_quantity = qty;
  station_id = 1;
  order_type = limit;
  status = active;
  placed_tick = id;
  expiration_tick = 1000;
}

-- One ask: 3 units at 90.
abbrev one_ask : OrderBook
one_ask = record {
  item_type_id = 5;
  bids = replicate 64 none;
  bid_count = 0;
  asks = some (order false 2 90 3) ∷ replicate 63 none;
  ask_count = 1;
  next_trade_id = 1;
}

one_ask-IsValid : IsValid one_ask
unfolding has_order
one_ask-IsValid = record {
  bid_side = record { sized = refl; counted = refl; distinct = tt; placed = tt };
  ask_side = record {
    sized = refl;
    counted = refl;
    distinct = (refl, tt);
    placed = ((omega arith, refl), tt);
  };
}

abbrev bid : MarketOrder
bid = order true 3 100 5

-- Three of five units are bought at 90, and the rest rests.
abbrev rested : MarketOrder
rested = record bid { remaining_quantity = 2; status = partially_filled }

bought : (submit_and_match new_escrow bid one_ask 8 50).3 ≡ ok (1, rested)
unfolding submit_and_match fund lock_buy_escrow lock_escrow put_first new_escrow place_order
    match_loop crosses best_order best_match scan consider beats settle reduced reduced_count
    execution finalize unfulfilled insert_resting_order insert_side has_order fill_slot
bought = refl

-- Two units at 100 are in escrow.
in_escrow : held 3 (submit_and_match new_escrow bid one_ask 8 50).0.holdings ≡ 200
unfolding submit_and_match fund lock_buy_escrow lock_escrow put_first new_escrow place_order
    match_loop crosses best_order best_match scan consider beats settle reduced reduced_count
    execution finalize unfulfilled insert_resting_order insert_side has_order fill_slot settle_all
    settle_trade deduct lowered holds_for tax_of tax_bps get_station find_station
in_escrow = refl

submit_and_match-held_example :
    held 3 (submit_and_match new_escrow bid one_ask 8 50).0.holdings ≡ 2 * 100
unfolding new_escrow
submit_and_match-held_example =
    submit_and_match-held new_escrow bid rested one_ask 8 50 1 one_ask-IsValid refl refl refl
      (omega arith) refl bought

-- A resting bid has the id of the order.
abbrev taken_id : OrderBook
taken_id = record one_ask { bids = some (order true 3 50 1) ∷ replicate 63 none; bid_count = 1 }

abbrev low_bid : MarketOrder
low_bid = order true 3 60 2

abbrev funded : MarketEscrowCoordinator
funded = record new_escrow {
  holdings = some (buy_holding 3 13 120 1) ∷ replicate 255 none;
  holding_count = 1;
}

funded_ok : fund new_escrow low_bid ≡ ok funded
unfolding fund lock_buy_escrow lock_escrow put_first new_escrow
funded_ok = refl

refused : (place_order taken_id low_bid 8 50).2 ≡ err duplicate_order_id
unfolding place_order match_loop crosses best_order best_match scan consider beats settle reduced
    reduced_count execution finalize unfulfilled insert_resting_order insert_side has_order
    fill_slot
refused = refl

submit_and_match_refused_example :
    ((submit_and_match new_escrow low_bid taken_id 8 50).3
      ≡ err (market_failure duplicate_order_id))
    × (held 3 (submit_and_match new_escrow low_bid taken_id 8 50).0.holdings
        ≡ held 3 new_escrow.holdings + 120)
submit_and_match_refused_example =
    submit_and_match_refused new_escrow low_bid low_bid taken_id 8 50 0 funded duplicate_order_id
      refl refl funded_ok refused

abbrev trade : TradeExecution
trade = record {
  trade_id = 1;
  buy_order_id = 3;
  sell_order_id = 2;
  buyer_account_id = 13;
  seller_account_id = 12;
  item_type_id = 5;
  quantity = 3;
  unit_price = 90;
  total_price = 270;
  station_id = 1;
  tick = 50;
}

no_tax_rate : tax_bps funded 1 ≡ 100
unfolding tax_bps get_station find_station new_escrow
no_tax_rate = refl

-- One unit at 90 under a limit of 100, of the 120 coins that are held.
abbrev one_unit : TradeExecution
one_unit = record trade { quantity = 1; total_price = 90 }

settle_trade_balances_example :
    let (m', payout, tax, refund) = settle_trade funded one_unit 100 in
    (held 3 m'.holdings + payout + tax + refund ≡ held 3 funded.holdings)
    × (payout + tax + refund ≡ 100)
unfolding new_escrow
settle_trade_balances_example =
    settle_trade_balances funded one_unit 100 (omega (arith, no_tax_rate)) refl (omega arith)
      (omega arith) (omega arith) (omega arith)

none_under : cancel_and_refund_escrow new_escrow 3 13 ≡ err escrow_not_found
unfolding cancel_and_refund_escrow free_holding new_escrow
none_under = refl

one_locked : lock_escrow new_escrow (buy_holding 3 13 120 1) ≡ ok funded
unfolding lock_escrow put_first new_escrow
one_locked = refl

cancel_and_refund_escrow-lock_escrow_example :
    cancel_and_refund_escrow funded 3 13 ≡ ok (new_escrow, buy_holding 3 13 120 1)
cancel_and_refund_escrow-lock_escrow_example =
    cancel_and_refund_escrow-lock_escrow new_escrow funded (buy_holding 3 13 120 1) one_locked
      none_under

run-new_escrow-IsValid_example :
    IsValidEscrow (
      run new_escrow (register (station 1 0 0 200 10) ∷ submit bid one_ask 8 50 ∷ cancel 3 13 ∷ []))
run-new_escrow-IsValid_example =
    run-new_escrow-IsValid
      (register (station 1 0 0 200 10) ∷ submit bid one_ask 8 50 ∷ cancel 3 13 ∷ [])
