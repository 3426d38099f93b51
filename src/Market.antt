-- ===== src/Market.antt =====
-- crates/eidolon-core/src/market.rs: the order book of one commodity. The two arrays of slots are
-- lists of fixed length; the output slice of `place_order` is its length on the way in and the list
-- of the trades written on the way out. Matching is in the child `Matching`.
pub mod Matching
pub mod Sides
pub mod Priority
pub mod Precedence
pub mod Run
pub mod Trading
pub mod FillOrKill
pub mod Valid
pub mod Insert
pub mod Cancel
pub mod Book
pub mod Orders
pub mod History
pub mod Refusal
mod Tests
use eidolon.Base.{
  ℕ, zero, suc, ◌+◌, ◌-◌, min, Bool, true, false, ◌&&◌, ◌||◌, List, [], ◌∷◌, Option, none, some,
  Result, ok, err, ltb, leb, ◌==◌, if◌then◌else◌, sat_add64, sat_mul64, wrap_add32, wrap_add64,
  replicate, get_elem?, set, length,
}
use Prim.Native.Nat.{max}

abbrev pub max_orders_per_side : ℕ
max_orders_per_side = 64

pub data OrderType : Type 0 where
  limit immediate_or_cancel fill_or_kill : OrderType

pub data OrderStatus : Type 0 where
  active partially_filled filled cancelled rejected : OrderStatus

pub record MarketOrder : Type 0 where
  pub order_id : ℕ
  pub account_id : ℕ
  pub item_type_id : ℕ
  pub is_buy : Bool
  pub unit_price : ℕ
  pub initial_quantity : ℕ
  pub remaining_quantity : ℕ
  pub station_id : ℕ
  pub order_type : OrderType
  pub status : OrderStatus
  pub placed_tick : ℕ
  pub expiration_tick : ℕ

-- `MarketOrder::new`
unfoldable pub new_order : ℕ → ℕ → ℕ → Bool → ℕ → ℕ → ℕ → OrderType → ℕ → ℕ → MarketOrder
new_order order_id account_id item_type_id is_buy unit_price quantity station_id order_type
      placed_tick duration_ticks =
    record {
      order_id = order_id;
      account_id = account_id;
      item_type_id = item_type_id;
      is_buy = is_buy;
      unit_price = unit_price;
      initial_quantity = quantity;
      remaining_quantity = quantity;
      station_id = station_id;
      order_type = order_type;
      status = active;
      placed_tick = placed_tick;
      expiration_tick = sat_add64 placed_tick duration_ticks;
    }

pub record TradeExecution : Type 0 where
  pub trade_id : ℕ
  pub buy_order_id : ℕ
  pub sell_order_id : ℕ
  pub buyer_account_id : ℕ
  pub seller_account_id : ℕ
  pub item_type_id : ℕ
  pub quantity : ℕ
  pub unit_price : ℕ
  pub total_price : ℕ
  pub station_id : ℕ
  pub tick : ℕ

pub data MarketError : Type 0 where
  order_book_full duplicate_order_id order_not_found unauthorized_cancellation : MarketError
  invalid_order_parameters fill_or_kill_unfulfilled order_not_active : MarketError

abbrev pub Side : Type 0
Side = List (Option MarketOrder)

pub record OrderBook : Type 0 where
  pub item_type_id : ℕ
  pub bids : Side
  pub bid_count : ℕ
  pub asks : Side
  pub ask_count : ℕ
  pub next_trade_id : ℕ

unfoldable pub new_book : ℕ → OrderBook
new_book item_type_id = record {
  item_type_id = item_type_id;
  bids = replicate max_orders_per_side none;
  bid_count = 0;
  asks = replicate max_orders_per_side none;
  ask_count = 0;
  next_trade_id = 1;
}

highest_price : Side → Option ℕ
highest_price [] = none
highest_price (none ∷ slots) = highest_price slots
highest_price (some o ∷ slots) = elim (highest_price slots) [
  | none ↦ some o.unit_price
  | some p ↦ some (max o.unit_price p)
]

lowest_price : Side → Option ℕ
lowest_price [] = none
lowest_price (none ∷ slots) = lowest_price slots
lowest_price (some o ∷ slots) = elim (lowest_price slots) [
  | none ↦ some o.unit_price
  | some p ↦ some (min o.unit_price p)
]

pub best_bid_price : OrderBook → Option ℕ
best_bid_price b = highest_price b.bids

pub best_ask_price : OrderBook → Option ℕ
best_ask_price b = lowest_price b.asks

-- The duplicate check of `insert_resting_order`.
unfoldable pub has_order : ℕ → Side → Bool
has_order id [] = false
has_order id (none ∷ slots) = has_order id slots
has_order id (some o ∷ slots) = o.order_id == id || has_order id slots

-- Its search for an empty slot.
unfoldable pub fill_slot : MarketOrder → Side → Option Side
fill_slot order [] = none
fill_slot order (none ∷ slots) = some (some order ∷ slots)
fill_slot order (some o ∷ slots) = elim (fill_slot order slots) [
  | none ↦ none
  | some slots' ↦ some (some o ∷ slots')
]

unfoldable pub insert_side : MarketOrder → Side → ℕ → Result MarketError (Side × ℕ)
insert_side order side count =
    if leb max_orders_per_side count
    then err order_book_full
    else if has_order order.order_id side
    then err duplicate_order_id
    else elim (fill_slot order side) [
      | none ↦ err order_book_full
      | some side' ↦ ok (side', count + 1)
    ]

unfoldable pub insert_resting_order : OrderBook → MarketOrder → Result MarketError OrderBook
insert_resting_order b order =
    if order.is_buy
    then (elim (insert_side order b.bids b.bid_count) [
      | ok (side, count) ↦ ok (record b { bids = side; bid_count = count })
      | err e ↦ err e
    ])
    else (elim (insert_side order b.asks b.ask_count) [
      | ok (side, count) ↦ ok (record b { asks = side; ask_count = count })
      | err e ↦ err e
    ])

-- One loop of `cancel_order`: `none` if no slot has the order.
unfoldable pub cancel_side : ℕ → ℕ → Side → Option (Result MarketError (Side × MarketOrder))
cancel_side order_id account_id [] = none
cancel_side order_id account_id (none ∷ slots) = elim (cancel_side order_id account_id slots) [
  | none ↦ none
  | some (ok (slots', o)) ↦ some (ok (none ∷ slots', o))
  | some (err e) ↦ some (err e)
]
cancel_side order_id account_id (some o ∷ slots) =
    let rest : Option (Result MarketError (Side × MarketOrder)) =
      elim (cancel_side order_id account_id slots) [
        | none ↦ none
        | some (ok (slots', o')) ↦ some (ok (some o ∷ slots', o'))
        | some (err e) ↦ some (err e)
      ] in
    let mine : Result MarketError (Side × MarketOrder) =
      if o.account_id == account_id
      then ok (none ∷ slots, record o { status = cancelled })
      else err unauthorized_cancellation in
    if o.order_id == order_id then some mine else rest

-- `bid_count` and `ask_count` count the slots, so the subtractions do not underflow.
unfoldable pub cancel_order : OrderBook → ℕ → ℕ → OrderBook × Result MarketError MarketOrder
cancel_order b order_id account_id = elim (cancel_side order_id account_id b.bids) [
  | some (ok (side, o)) ↦ (record b { bids = side; bid_count = b.bid_count - 1 }, ok o)
  | some (err e) ↦ (b, err e)
  | none ↦ elim (cancel_side order_id account_id b.asks) [
    | some (ok (side, o)) ↦ (record b { asks = side; ask_count = b.ask_count - 1 }, ok o)
    | some (err e) ↦ (b, err e)
    | none ↦ (b, err order_not_found)
  ]
]
