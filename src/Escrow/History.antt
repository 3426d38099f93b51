-- ===== src/Escrow/History.antt =====
-- Histories of calls on the coordinator of crates/eidolon-world/src/market_coordinator.rs.
use eidolon.Base.{
  put_first, occupied, put_first-sum, ℕ, ◌+◌, ◌-◌, ◌≡◌, refl, ◌∙◌, ◌⊎◌, inl, inr, Bool, true, false,
  List, [], ◌∷◌, Result, ok, err, arith, leb, sat_mul64, if◌then◌else◌, length, Bool-cases,
  Option-cases, Result-cases,
}
use eidolon.Market.{
  OrderType, limit, immediate_or_cancel, fill_or_kill, MarketOrder, OrderBook, TradeExecution,
}
use eidolon.Market.Matching.{place_order}
use eidolon.Escrow.{
  MarketStation, EscrowHolding, EscrowError, MarketEscrowCoordinator, new_escrow, register_station,
  lock_escrow, buy_holding, sell_holding, lock_buy_escrow, lock_sell_escrow, free_holding,
  cancel_and_refund_escrow,
}
use eidolon.Escrow.Settle.{deduct_from, settle_trade, fund, settle_all, submit_and_match}
use eidolon.Escrow.Slots.{free_holding-sum, deduct-occupied}

-- Arrays of their length, with counters that are right.
pub record IsValid (m : MarketEscrowCoordinator) : Type 0 where
  pub stations_sized : length m.stations ≡ 16
  pub stations_counted : m.station_count ≡ occupied m.stations
  pub holdings_sized : length m.holdings ≡ 256
  pub holdings_counted : m.holding_count ≡ occupied m.holdings

pub new_escrow-IsValid : IsValid new_escrow
unfolding new_escrow
new_escrow-IsValid = record {
  stations_sized = refl;
  stations_counted = refl;
  holdings_sized = refl;
  holdings_counted = refl;
}

pub lock_escrow-IsValid :
    (m m' : MarketEscrowCoordinator) (h : EscrowHolding)
    → IsValid m
    → lock_escrow m h ≡ ok m'
    → IsValid m'
unfolding lock_escrow
lock_escrow-IsValid m m' h v e = elim (Bool-cases (leb 256 m.holding_count)) [
  | inl full ↦ absurd (ground (arith, e, full))
  | inr room ↦ elim (Option-cases (put_first h m.holdings)) [
    | inl gone ↦ absurd (ground (arith, e, room, gone))
    | inr (slots, put) ↦
        let (sum, size) = put_first-sum (λ _. 1) h m.holdings slots put in
        let same : record m { holdings = slots; holding_count = m.holding_count + 1 } ≡ m' =
          ground (arith, e, room, put) in
        rw (← same) (record {
          stations_sized = v.stations_sized;
          stations_counted = v.stations_counted;
          holdings_sized = size ∙ v.holdings_sized;
          holdings_counted = omega (arith, sum, v.holdings_counted);
        })
  ]
]

register_station-IsValid :
    (m : MarketEscrowCoordinator) (s : MarketStation) → IsValid m → IsValid (register_station m s).0
unfolding register_station
register_station-IsValid m s v = elim (Bool-cases (leb (length m.stations) m.station_count)) [
  | inl full ↦ rw full v
  | inr room ↦ rw room (elim (Option-cases (put_first s m.stations)) [
    | inl gone ↦ rw gone v
    | inr (slots, put) ↦
        let (sum, size) = put_first-sum (λ _. 1) s m.stations slots put in
        rw put (record {
          stations_sized = size ∙ v.stations_sized;
          stations_counted = omega (arith, sum, v.stations_counted);
          holdings_sized = v.holdings_sized;
          holdings_counted = v.holdings_counted;
        })
  ])
]

cancel_and_refund_escrow-IsValid :
    (m m' : MarketEscrowCoordinator) (order_id account_id : ℕ) (h : EscrowHolding)
    → IsValid m
    → cancel_and_refund_escrow m order_id account_id ≡ ok (m', h)
    → IsValid m'
unfolding cancel_and_refund_escrow
cancel_and_refund_escrow-IsValid m m' o a h v e =
    elim (Result-cases (free_holding o a m.holdings)) [
      | inr (x, failed) ↦ absurd (ground (arith, e, failed))
      | inl ((slots, k), done) ↦
          let (sum, size, _, _) = free_holding-sum (λ _. 1) o a m.holdings slots k done in
          let same : record m { holdings = slots; holding_count = m.holding_count - 1 } ≡ m' =
            ground (arith, e, done) in
          rw (← same) (record {
            stations_sized = v.stations_sized;
            stations_counted = v.stations_counted;
            holdings_sized = size ∙ v.holdings_sized;
            holdings_counted = omega (arith, sum, v.holdings_counted);
          })
    ]

deduct_from-IsValid :
    (m : MarketEscrowCoordinator) (c : Bool) (o n : ℕ) → IsValid m → IsValid (deduct_from m c o n)
deduct_from-IsValid m c o n v =
    let (count, size) = deduct-occupied c o n m.holdings in
    record {
      stations_sized = v.stations_sized;
      stations_counted = v.stations_counted;
      holdings_sized = size ∙ v.holdings_sized;
      holdings_counted = omega (arith, count, v.holdings_counted);
    }

settle_trade-IsValid :
    (m : MarketEscrowCoordinator) (t : TradeExecution) (price : ℕ)
    → IsValid m
    → IsValid (settle_trade m t price).0
unfolding settle_trade
settle_trade-IsValid m t price v =
    let n : ℕ = sat_mul64 t.quantity price in
    let bought = deduct_from-IsValid m true t.buy_order_id n v in
    let sold =
      deduct_from-IsValid (deduct_from m true t.buy_order_id n) false t.sell_order_id t.quantity
        bought in
    record {
      stations_sized = sold.stations_sized;
      stations_counted = sold.stations_counted;
      holdings_sized = sold.holdings_sized;
      holdings_counted = sold.holdings_counted;
    }

settle_all-IsValid :
    (o : MarketOrder) (ts : List TradeExecution) (m : MarketEscrowCoordinator)
    → IsValid m
    → IsValid (settle_all o ts m)
unfolding settle_all
settle_all-IsValid o [] m v = v
settle_all-IsValid o (t ∷ ts) m v =
    let price : ℕ = if o.is_buy then o.unit_price else t.unit_price in
    settle_all-IsValid o ts (settle_trade m t price).0 (settle_trade-IsValid m t price v)

-- An order that is funded locks nothing, coins or items.
abbrev pub Funded : MarketEscrowCoordinator → MarketEscrowCoordinator → MarketOrder → Type 0
Funded m m' o =
    (m ≡ m')
    ⊎ (lock_escrow m (
          buy_holding o.order_id o.account_id (sat_mul64 o.initial_quantity o.unit_price)
            o.station_id)
        ≡ ok m')
    ⊎ (lock_escrow m
          (sell_holding o.order_id o.account_id o.item_type_id o.initial_quantity o.station_id)
        ≡ ok m')

fund-Funded :
    (m m' : MarketEscrowCoordinator) (o : MarketOrder) (t : OrderType)
    → o.order_type ≡ t
    → fund m o ≡ ok m'
    → Funded m m' o
unfolding fund lock_buy_escrow lock_sell_escrow
fund-Funded m m' o immediate_or_cancel e h = inl (ground (arith, h, e))
fund-Funded m m' o fill_or_kill e h = inl (ground (arith, h, e))
fund-Funded m m' o limit e h = elim (Bool-cases o.is_buy) [
  | inl buy ↦ inr (inl (ground (arith, h, e, buy)))
  | inr sell ↦ inr (inr (ground (arith, h, e, sell)))
]

fund-IsValid :
    (m m' : MarketEscrowCoordinator) (o : MarketOrder) → IsValid m → fund m o ≡ ok m' → IsValid m'
fund-IsValid m m' o v h =
    let bought =
      lock_escrow-IsValid m m'
        (buy_holding o.order_id o.account_id (sat_mul64 o.initial_quantity o.unit_price)
          o.station_id)
        v in
    let sold =
      lock_escrow-IsValid m m'
        (sell_holding o.order_id o.account_id o.item_type_id o.initial_quantity o.station_id) v in
    elim (fund-Funded m m' o o.order_type refl h) [
      | inl same ↦ rw (← same) v
      | inr (inl e) ↦ bought e
      | inr (inr e) ↦ sold e
    ]

submit_and_match-IsValid :
    (m : MarketEscrowCoordinator) (o : MarketOrder) (b : OrderBook) (room tick : ℕ)
    → IsValid m
    → IsValid (submit_and_match m o b room tick).0
unfolding submit_and_match
submit_and_match-IsValid m o b room tick v = elim (Result-cases (fund m o)) [
  | inr (e, failed) ↦
      let same : m ≡ (submit_and_match m o b room tick).0 = ground (arith, failed) in rw (← same) v
  | inl (m', funded) ↦
      let v' = fund-IsValid m m' o v funded in
      let trades = (place_order b o room tick).1 in
      elim (Result-cases (place_order b o room tick).2) [
        | inr (e, failed) ↦
            let same : m' ≡ (submit_and_match m o b room tick).0 = ground (arith, funded, failed) in
            rw (← same) v'
        | inl (x, done) ↦
            let same : settle_all o trades m' ≡ (submit_and_match m o b room tick).0 =
              ground (arith, funded, done) in
            rw (← same) (settle_all-IsValid o trades m' v')
      ]
]

pub data Call : Type 0 where
  register : MarketStation → Call
  lock_buy : ℕ → ℕ → ℕ → ℕ → Call
  lock_sell : ℕ → ℕ → ℕ → ℕ → ℕ → Call
  cancel : ℕ → ℕ → Call
  settle : TradeExecution → ℕ → Call
  submit : MarketOrder → OrderBook → ℕ → ℕ → Call

abbrev or_same :
    MarketEscrowCoordinator → Result EscrowError MarketEscrowCoordinator → MarketEscrowCoordinator
or_same m (ok m') = m'
or_same m (err e) = m

abbrev refunded :
    MarketEscrowCoordinator
    → Result EscrowError (MarketEscrowCoordinator × EscrowHolding)
    → MarketEscrowCoordinator
refunded m (ok (m', h)) = m'
refunded m (err e) = m

unfoldable pub perform : MarketEscrowCoordinator → Call → MarketEscrowCoordinator
perform m (register s) = (register_station m s).0
perform m (lock_buy o a n s) = or_same m (lock_buy_escrow m o a n s)
perform m (lock_sell o a i n s) = or_same m (lock_sell_escrow m o a i n s)
perform m (cancel o a) = refunded m (cancel_and_refund_escrow m o a)
perform m (settle t price) = (settle_trade m t price).0
perform m (submit o b room tick) = (submit_and_match m o b room tick).0

unfoldable pub run : MarketEscrowCoordinator → List Call → MarketEscrowCoordinator
run m [] = m
run m (x ∷ calls) = run (perform m x) calls

perform-IsValid : (m : MarketEscrowCoordinator) (x : Call) → IsValid m → IsValid (perform m x)
unfolding perform lock_buy_escrow lock_sell_escrow
perform-IsValid m (register s) v = register_station-IsValid m s v
perform-IsValid m (lock_buy o a n s) v = elim (Result-cases (lock_buy_escrow m o a n s)) [
  | inr (e, h) ↦ rw h v
  | inl (m', h) ↦ rw h (lock_escrow-IsValid m m' (buy_holding o a n s) v h)
]
perform-IsValid m (lock_sell o a i n s) v = elim (Result-cases (lock_sell_escrow m o a i n s)) [
  | inr (e, h) ↦ rw h v
  | inl (m', h) ↦ rw h (lock_escrow-IsValid m m' (sell_holding o a i n s) v h)
]
perform-IsValid m (cancel o a) v = elim (Result-cases (cancel_and_refund_escrow m o a)) [
  | inr (e, h) ↦ rw h v
  | inl ((m', k), h) ↦ rw h (cancel_and_refund_escrow-IsValid m m' o a k v h)
]
perform-IsValid m (settle t price) v = settle_trade-IsValid m t price v
perform-IsValid m (submit o b room tick) v = submit_and_match-IsValid m o b room tick v

run-IsValid : (m : MarketEscrowCoordinator) (calls : List Call) → IsValid m → IsValid (run m calls)
unfolding run
run-IsValid m [] v = v
run-IsValid m (x ∷ calls) v = run-IsValid (perform m x) calls (perform-IsValid m x v)

-- Whatever calls are made on a new coordinator, its arrays keep their 16 and 256 slots, and each counter
-- is the number of slots in use.
pub run-new_escrow-IsValid : (calls : List Call) → IsValid (run new_escrow calls)
run-new_escrow-IsValid calls = run-IsValid new_escrow calls new_escrow-IsValid
