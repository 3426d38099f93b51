-- ===== src/Escrow/Settle.antt =====
-- Settlement and submission: settle_trade and submit_and_match of
-- crates/eidolon-world/src/market_coordinator.rs.
use eidolon.Base.{
  ℕ, ◌-◌, ◌/◌, Bool, true, false, ◌&&◌, not, List, [], ◌∷◌, none, some, Result, ok, err, ◌==◌,
  if◌then◌else◌, sat_add64, sat_mul64,
}
use eidolon.Market.{
  limit, immediate_or_cancel, fill_or_kill, MarketOrder, OrderBook, TradeExecution,
}
use eidolon.Market.Matching.{place_order}
use eidolon.Escrow.{
  EscrowHolding, EscrowError, market_failure, Holdings, MarketEscrowCoordinator, get_station,
  lock_buy_escrow, lock_sell_escrow,
}

-- The holding of a buyer, or of a seller, for an order.
unfoldable pub holds_for : Bool → ℕ → EscrowHolding → Bool
holds_for is_currency order_id h =
    h.order_id == order_id && (if is_currency then h.is_currency else not h.is_currency)

-- A holding that is lowered, and whether nothing is left in it.
unfoldable pub lowered : Bool → ℕ → EscrowHolding → EscrowHolding × Bool
lowered true amount h =
    (record h { locked_currency = h.locked_currency - amount }, h.locked_currency - amount == 0)
lowered false amount h =
    (record h { locked_quantity = h.locked_quantity - amount }, h.locked_quantity - amount == 0)

-- The two loops of `settle_trade`: the first holding for the order is lowered, and its slot is freed if
-- nothing is left. The slots afterwards, and how many were freed.
unfoldable pub deduct : Bool → ℕ → ℕ → Holdings → Holdings × ℕ
deduct is_currency order_id amount [] = ([], 0)
deduct is_currency order_id amount (none ∷ slots) =
    let (slots', freed) = deduct is_currency order_id amount slots in (none ∷ slots', freed)
deduct is_currency order_id amount (some h ∷ slots) =
    let (slots', freed) = deduct is_currency order_id amount slots in
    let (h', used_up) = lowered is_currency amount h in
    if holds_for is_currency order_id h
    then (if used_up then (none ∷ slots, 1) else (some h' ∷ slots, 0))
    else (some h ∷ slots', freed)

abbrev pub deduct_from : MarketEscrowCoordinator → Bool → ℕ → ℕ → MarketEscrowCoordinator
deduct_from m is_currency order_id amount =
    let (holdings, freed) = deduct is_currency order_id amount m.holdings in
    record m { holdings = holdings; holding_count = m.holding_count - freed }

unfoldable pub tax_bps : MarketEscrowCoordinator → ℕ → ℕ
tax_bps m station_id = elim (get_station m station_id) [ none ↦ 100 | some s ↦ s.sales_tax_bps ]

unfoldable pub tax_of : MarketEscrowCoordinator → TradeExecution → ℕ
tax_of m trade = sat_mul64 trade.total_price (tax_bps m trade.station_id) / 10000

-- `settle_trade`, which does not fail: the coordinator, and the payout of the seller, the tax and the
-- refund of the buyer.
unfoldable pub settle_trade :
    MarketEscrowCoordinator → TradeExecution → ℕ → MarketEscrowCoordinator × ℕ × ℕ × ℕ
settle_trade m trade buyer_limit_price =
    let tax_collected : ℕ = tax_of m trade in
    let buyer_refund : ℕ = sat_mul64 trade.quantity (buyer_limit_price - trade.unit_price) in
    let bought =
      deduct_from m true trade.buy_order_id (sat_mul64 trade.quantity buyer_limit_price) in
    let sold = deduct_from bought false trade.sell_order_id trade.quantity in
    (
      record sold {
        total_tax_revenue = sat_add64 m.total_tax_revenue tax_collected;
        total_volume_settled = sat_add64 m.total_volume_settled trade.total_price;
      },
      trade.total_price - tax_collected,
      tax_collected,
      buyer_refund,
    )

-- The first step of `submit_and_match`: a limit order locks what it may spend or sell.
unfoldable pub fund :
    MarketEscrowCoordinator → MarketOrder → Result EscrowError MarketEscrowCoordinator
fund m o = elim o.order_type [
  | immediate_or_cancel ↦ ok m
  | fill_or_kill ↦ ok m
  | limit ↦
      if o.is_buy
      then lock_buy_escrow m o.order_id o.account_id (sat_mul64 o.initial_quantity o.unit_price)
          o.station_id
      else lock_sell_escrow m o.order_id o.account_id o.item_type_id o.initial_quantity o.station_id
]

-- The last: the trades are settled in their order, and the amounts are dropped.
unfoldable pub settle_all :
    MarketOrder → List TradeExecution → MarketEscrowCoordinator → MarketEscrowCoordinator
settle_all o [] m = m
settle_all o (t ∷ trades) m =
    settle_all o trades (settle_trade m t (if o.is_buy then o.unit_price else t.unit_price)).0

-- With an output slice of `room` places: the coordinator, the book, the trades written and the answer.
unfoldable pub submit_and_match :
    MarketEscrowCoordinator
    → MarketOrder
    → OrderBook
    → ℕ
    → ℕ
    → MarketEscrowCoordinator
      × OrderBook
      × List TradeExecution
      × Result EscrowError (ℕ × MarketOrder)
submit_and_match m o book room current_tick = elim (fund m o) [
  | err e ↦ (m, book, [], err e)
  | ok m' ↦
      let (book', trades, answer) = place_order book o room current_tick in
      elim answer [
        | err e ↦ (m', book', trades, err (market_failure e))
        | ok (trade_count, final_order) ↦
            (settle_all o trades m', book', trades, ok (trade_count, final_order))
      ]
]
