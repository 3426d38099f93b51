-- ===== src/Escrow.antt =====
-- Escrow around the regional market: MarketEscrowCoordinator of
-- crates/eidolon-world/src/market_coordinator.rs. The two arrays of slots are lists of fixed length, and
-- a sector coordinate, an i32, is its bit pattern. The children have what the operations keep.
pub mod Settle
pub mod Slots
pub mod History
pub mod Funds
pub mod Balance
mod Tests
use eidolon.Base.{
  put_first, ℕ, ◌+◌, ◌-◌, ◌*◌, ◌/◌, ◌%◌, ◌^◌, Bool, true, false, ◌&&◌, not, List, [], ◌∷◌, Option,
  none, some, Result, ok, err, ◌==◌, leb, ltb, if◌then◌else◌, sat_add32, sat_add64, sat_mul64,
  replicate, length,
}
use eidolon.Market.{
  OrderType, limit, immediate_or_cancel, fill_or_kill, MarketOrder, OrderBook, TradeExecution,
  MarketError,
}
use eidolon.Market.Matching.{place_order}

abbrev pub max_escrow_orders : ℕ
max_escrow_orders = 256

pub record MarketStation : Type 0 where
  pub station_id : ℕ
  pub sector_x : ℕ
  pub sector_z : ℕ
  pub sales_tax_bps : ℕ
  pub freight_per_sector : ℕ

-- `(a - b).unsigned_abs()` on i32, of bit patterns, in a release build.
unfoldable pub abs_diff32 : ℕ → ℕ → ℕ
abs_diff32 a b = let d : ℕ = (a + (2 ^ 32 - b)) % 2 ^ 32 in if ltb d (2 ^ 31) then d else 2 ^ 32 - d

unfoldable pub sector_distance_to : MarketStation → MarketStation → ℕ
sector_distance_to s other =
    sat_add32 (abs_diff32 s.sector_x other.sector_x) (abs_diff32 s.sector_z other.sector_z)

unfoldable pub calculate_freight_fee : MarketStation → MarketStation → ℕ → ℕ
calculate_freight_fee s destination quantity =
    sat_mul64 (sat_mul64 (sector_distance_to s destination) s.freight_per_sector) quantity

pub record EscrowHolding : Type 0 where
  pub order_id : ℕ
  pub account_id : ℕ
  pub is_currency : Bool
  pub locked_currency : ℕ
  pub locked_item_id : ℕ
  pub locked_quantity : ℕ
  pub station_id : ℕ

pub data EscrowError : Type 0 where
  escrow_capacity_exceeded escrow_not_found insufficient_funds insufficient_items : EscrowError
  unauthorized_account : EscrowError
  market_failure : MarketError → EscrowError

abbrev pub Holdings : Type 0
Holdings = List (Option EscrowHolding)

pub record MarketEscrowCoordinator : Type 0 where
  pub stations : List (Option MarketStation)
  pub station_count : ℕ
  pub holdings : Holdings
  pub holding_count : ℕ
  pub total_tax_revenue : ℕ
  pub total_volume_settled : ℕ

unfoldable pub new_escrow : MarketEscrowCoordinator
new_escrow = record {
  stations = replicate 16 none;
  station_count = 0;
  holdings = replicate max_escrow_orders none;
  holding_count = 0;
  total_tax_revenue = 0;
  total_volume_settled = 0;
}

-- The coordinator afterwards, and whether the station is registered.
unfoldable pub register_station :
    MarketEscrowCoordinator → MarketStation → MarketEscrowCoordinator × Bool
register_station m station =
    if leb (length m.stations) m.station_count
    then (m, false)
    else elim (put_first station m.stations) [
      | none ↦ (m, false)
      | some stations ↦
          (record m { stations = stations; station_count = m.station_count + 1 }, true)
    ]

unfoldable pub find_station : ℕ → List (Option MarketStation) → Option MarketStation
find_station station_id [] = none
find_station station_id (none ∷ slots) = find_station station_id slots
find_station station_id (some s ∷ slots) =
    if s.station_id == station_id then some s else find_station station_id slots

unfoldable pub get_station : MarketEscrowCoordinator → ℕ → Option MarketStation
get_station m station_id = find_station station_id m.stations

-- A holding takes the first empty slot.
unfoldable pub lock_escrow :
    MarketEscrowCoordinator → EscrowHolding → Result EscrowError MarketEscrowCoordinator
lock_escrow m h =
    if leb max_escrow_orders m.holding_count
    then err escrow_capacity_exceeded
    else elim (put_first h m.holdings) [
      | none ↦ err escrow_capacity_exceeded
      | some holdings ↦ ok (record m { holdings = holdings; holding_count = m.holding_count + 1 })
    ]

-- What a buy order and a sell order lock.
abbrev pub buy_holding : ℕ → ℕ → ℕ → ℕ → EscrowHolding
buy_holding order_id account_id total_escrow_currency station_id = record {
  order_id = order_id;
  account_id = account_id;
  is_currency = true;
  locked_currency = total_escrow_currency;
  locked_item_id = 0;
  locked_quantity = 0;
  station_id = station_id;
}

abbrev pub sell_holding : ℕ → ℕ → ℕ → ℕ → ℕ → EscrowHolding
sell_holding order_id account_id item_id quantity station_id = record {
  order_id = order_id;
  account_id = account_id;
  is_currency = false;
  locked_currency = 0;
  locked_item_id = item_id;
  locked_quantity = quantity;
  station_id = station_id;
}

unfoldable pub lock_buy_escrow :
    MarketEscrowCoordinator → ℕ → ℕ → ℕ → ℕ → Result EscrowError MarketEscrowCoordinator
lock_buy_escrow m order_id account_id total_escrow_currency station_id =
    lock_escrow m (buy_holding order_id account_id total_escrow_currency station_id)

unfoldable pub lock_sell_escrow :
    MarketEscrowCoordinator → ℕ → ℕ → ℕ → ℕ → ℕ → Result EscrowError MarketEscrowCoordinator
lock_sell_escrow m order_id account_id item_id quantity station_id =
    lock_escrow m (sell_holding order_id account_id item_id quantity station_id)

-- The loop of `cancel_and_refund_escrow`: the slots afterwards and the holding that was there.
unfoldable pub free_holding : ℕ → ℕ → Holdings → Result EscrowError (Holdings × EscrowHolding)
free_holding order_id account_id [] = err escrow_not_found
free_holding order_id account_id (slot ∷ slots) =
    let rest : Result EscrowError (Holdings × EscrowHolding) =
      elim (free_holding order_id account_id slots) [
        | err e ↦ err e
        | ok (slots', h) ↦ ok (slot ∷ slots', h)
      ] in
    elim slot [
      | none ↦ rest
      | some h ↦
          if not (h.order_id == order_id)
          then rest
          else if not (h.account_id == account_id)
          then err unauthorized_account
          else ok (none ∷ slots, h)
    ]

unfoldable pub cancel_and_refund_escrow :
    MarketEscrowCoordinator → ℕ → ℕ → Result EscrowError (MarketEscrowCoordinator × EscrowHolding)
cancel_and_refund_escrow m order_id account_id =
    elim (free_holding order_id account_id m.holdings) [
      | err e ↦ err e
      | ok (holdings, h) ↦
          ok (record m { holdings = holdings; holding_count = m.holding_count - 1 }, h)
    ]
