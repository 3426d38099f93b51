-- ===== src/Market/Matching.antt =====
-- `place_order` of crates/eidolon-core/src/market.rs. The buy and the sell branch of each loop differ
-- in the side and in the direction of the comparisons, which `is_buy` selects.
use eidolon.Base.{
  ℕ, zero, suc, ◌+◌, ◌-◌, min, Bool, true, false, ◌&&◌, ◌||◌, List, [], ◌∷◌, Option, none, some,
  Result, ok, err, ltb, leb, ◌==◌, if◌then◌else◌, sat_mul64, wrap_add32, wrap_add64, get_elem?, set,
  length,
}
use eidolon.Market.{
  limit, immediate_or_cancel, fill_or_kill, active, partially_filled, filled, cancelled,
  MarketOrder, TradeExecution, MarketError, invalid_order_parameters, fill_or_kill_unfulfilled,
  Side, OrderBook, insert_resting_order,
}

-- Does a resting order cross the limit of an incoming one?
unfoldable pub crosses : Bool → ℕ → MarketOrder → Bool
crosses is_buy price o = if is_buy then leb o.unit_price price else leb price o.unit_price

-- The volume that a fill-or-kill order sums up, in u32.
unfoldable pub available_qty : Bool → ℕ → Side → ℕ → ℕ
available_qty is_buy price [] sum = sum
available_qty is_buy price (none ∷ slots) sum = available_qty is_buy price slots sum
available_qty is_buy price (some o ∷ slots) sum =
    available_qty is_buy price slots
      (if crosses is_buy price o then wrap_add32 sum o.remaining_quantity else sum)

-- Does price `p` at tick `t` beat the best match so far?
unfoldable pub beats : Bool → ℕ → ℕ → ℕ → ℕ → Bool
beats is_buy p t best_p best_t =
    (if is_buy then ltb p best_p else ltb best_p p) || (p == best_p && ltb t best_t)

-- The best match so far: its slot, price and tick.
abbrev pub Best : Type 0
Best = Option (ℕ × ℕ × ℕ)

unfoldable pub consider : Bool → ℕ → ℕ → MarketOrder → Best → Best
consider is_buy price i o none =
    if crosses is_buy price o then some (i, o.unit_price, o.placed_tick) else none
consider is_buy price i o (some (j, best_p, best_t)) =
    if crosses is_buy price o && beats is_buy o.unit_price o.placed_tick best_p best_t
    then some (i, o.unit_price, o.placed_tick)
    else some (j, best_p, best_t)

unfoldable pub scan : Bool → ℕ → ℕ → Side → Best → Best
scan is_buy price i [] best = best
scan is_buy price i (none ∷ slots) best = scan is_buy price (i + 1) slots best
scan is_buy price i (some o ∷ slots) best =
    scan is_buy price (i + 1) slots (consider is_buy price i o best)

unfoldable pub best_match : Bool → ℕ → Side → Option ℕ
best_match is_buy price slots = elim (scan is_buy price 0 slots none) [
  | none ↦ none
  | some (i, _, _) ↦ some i
]

-- The side that an incoming order is matched against.
abbrev pub opposite : OrderBook → Bool → Side
opposite b is_buy = if is_buy then b.asks else b.bids

-- A trade of `qty` units between an incoming order and a resting one, at the resting price.
unfoldable pub execution : ℕ → ℕ → MarketOrder → MarketOrder → ℕ → TradeExecution
execution trade_id tick incoming maker qty = record {
  trade_id = trade_id;
  buy_order_id = if incoming.is_buy then incoming.order_id else maker.order_id;
  sell_order_id = if incoming.is_buy then maker.order_id else incoming.order_id;
  buyer_account_id = if incoming.is_buy then incoming.account_id else maker.account_id;
  seller_account_id = if incoming.is_buy then maker.account_id else incoming.account_id;
  item_type_id = incoming.item_type_id;
  quantity = qty;
  unit_price = maker.unit_price;
  total_price = sat_mul64 qty maker.unit_price;
  station_id = if incoming.is_buy then maker.station_id else incoming.station_id;
  tick = tick;
}

-- The resting order after a trade: gone once it is used up.
unfoldable pub reduced : MarketOrder → ℕ → Option MarketOrder
reduced maker qty =
    if maker.remaining_quantity - qty == 0
    then none
    else some (record maker {
      remaining_quantity = maker.remaining_quantity - qty;
      status = partially_filled;
    })

-- The counter of the side whose slot `idx` holds `maker`, after a trade of `qty` units.
unfoldable pub reduced_count : MarketOrder → ℕ → ℕ → ℕ
reduced_count maker qty count = if maker.remaining_quantity - qty == 0 then count - 1 else count

unfoldable pub settle : OrderBook → Bool → ℕ → MarketOrder → ℕ → OrderBook
settle b is_buy idx maker qty =
    if is_buy
    then record b {
      asks = set b.asks idx (reduced maker qty);
      ask_count = reduced_count maker qty b.ask_count;
      next_trade_id = wrap_add64 b.next_trade_id 1;
    }
    else record b {
      bids = set b.bids idx (reduced maker qty);
      bid_count = reduced_count maker qty b.bid_count;
      next_trade_id = wrap_add64 b.next_trade_id 1;
    }

-- What the loop finds in the book: the slot of the best match and the order in it.
unfoldable pub best_order : OrderBook → MarketOrder → Option (ℕ × MarketOrder)
best_order b incoming =
    elim (best_match incoming.is_buy incoming.unit_price (opposite b incoming.is_buy)) [
      | none ↦ none
      | some idx ↦ elim (get_elem? (opposite b incoming.is_buy) idx) [
        | none ↦ none
        | some none ↦ none
        | some (some maker) ↦ some (idx, maker)
      ]
    ]

-- The matching loop with `room` free places in the output slice.
unfoldable pub match_loop :
    ℕ → ℕ → OrderBook → MarketOrder → OrderBook × MarketOrder × List TradeExecution
match_loop tick zero b incoming = (b, incoming, [])
match_loop tick (suc room) b incoming = elim (incoming.remaining_quantity == 0) [
  | true ↦ (b, incoming, [])
  | false ↦ elim (best_order b incoming) [
    | none ↦ (b, incoming, [])
    | some (idx, maker) ↦
        let qty = min incoming.remaining_quantity maker.remaining_quantity in
        let trade = execution b.next_trade_id tick incoming maker qty in
        let left = record incoming { remaining_quantity = incoming.remaining_quantity - qty } in
        let (b', left', trades) =
          match_loop tick room (settle b incoming.is_buy idx maker qty) left in
        (b', left', trade ∷ trades)
  ]
]

-- The status of the incoming order after matching, and whether it is to rest.
unfoldable pub finalize : MarketOrder → ℕ → MarketOrder × Bool
finalize o trade_count =
    if o.remaining_quantity == 0 then (record o { status = filled }, false) else elim o.order_type [
      | immediate_or_cancel ↦
          (record o { status = if ltb 0 trade_count then partially_filled else cancelled }, false)
      | limit ↦ (record o { status = if ltb 0 trade_count then partially_filled else active }, true)
      | fill_or_kill ↦ (o, false)
    ]

-- The volume check of a fill-or-kill order fails.
unfoldable pub unfulfilled : OrderBook → MarketOrder → Bool
unfulfilled b o = elim o.order_type [
  | fill_or_kill ↦
      ltb (available_qty o.is_buy o.unit_price (opposite b o.is_buy) 0) o.initial_quantity
  | limit ↦ false
  | immediate_or_cancel ↦ false
]

-- `place_order` with an output slice of `room` places: the book afterwards, the trades written, and
-- the answer. What was matched stays matched when resting the rest of the order fails.
unfoldable pub place_order :
    OrderBook
    → MarketOrder
    → ℕ
    → ℕ
    → OrderBook × List TradeExecution × Result MarketError (ℕ × MarketOrder)
place_order b incoming room tick =
    if incoming.unit_price == 0 || incoming.initial_quantity == 0
    then (b, [], err invalid_order_parameters)
    else if unfulfilled b incoming
    then (b, [], err fill_or_kill_unfulfilled)
    else (let (b', left, trades) = match_loop tick room b incoming in
        let (done, rests) = finalize left (length trades) in
        if rests
        then (elim (insert_resting_order b' done) [
          | ok b'' ↦ (b'', trades, ok (length trades, done))
          | err e ↦ (b', trades, err e)
        ])
        else (b', trades, ok (length trades, done)))
