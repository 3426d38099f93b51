-- ===== src/Escrow/Funds.antt =====
-- The coins in escrow for a buy order, from its submission on: settle_trade and submit_and_match of
-- crates/eidolon-world/src/market_coordinator.rs.
use native.Mathlib.Nat.{add-mul, zero-mul}
use eidolon.Base.{
  put_first, put_first-sum, ℕ, ◌+◌, ◌-◌, ◌*◌, ◌^◌, ◌≤◌, ◌<◌, ◌≡◌, ap, ◌∙◌, inl, inr, true, List, [],
  ◌∷◌, ok, err, arith, leb, sat_mul64, if◌then◌else◌, Bool-cases, Option-cases, Result-cases,
}
use eidolon.Market.{limit, MarketOrder, OrderBook, TradeExecution, MarketError}
use eidolon.Market.Matching.{place_order}
use eidolon.Market.Run.{traded}
use eidolon.Market.Trading.{AllTerms}
use eidolon.Market.Book.{IsValid}
use eidolon.Market.Orders.{Answers, place_order-Accounts, place_order-AllTerms}
use eidolon.Escrow.{
  EscrowHolding, market_failure, MarketEscrowCoordinator, lock_escrow, buy_holding, lock_buy_escrow,
}
use eidolon.Escrow.Settle.{deduct, settle_trade, fund, settle_all, submit_and_match}
use eidolon.Escrow.Slots.{coins_in, held, buys_in, buys, held_none, deduct-held, deduct-sold}

pub settle_trade-held :
    (m : MarketEscrowCoordinator) (t : TradeExecution) (price o : ℕ)
    → t.buy_order_id ≡ o
    → buys o m.holdings ≤ 1
    → (held o (settle_trade m t price).0.holdings ≡ held o m.holdings - sat_mul64 t.quantity price)
      × (buys o (settle_trade m t price).0.holdings ≤ 1)
unfolding settle_trade
settle_trade-held m t price o e one =
    let n : ℕ = sat_mul64 t.quantity price in
    let bought = deduct-held o n m.holdings one in
    let sold = deduct-sold o t.sell_order_id t.quantity (deduct true o n m.holdings).0 in
    rw e (sold.0 ∙ bought.0, omega (arith, sold.1, bought.1))

-- The trades of a buy order, settled one after the other.
settle_all-held :
    (o : MarketOrder) (ts : List TradeExecution) (m : MarketEscrowCoordinator)
    → o.is_buy ≡ true
    → AllTerms o ts
    → buys o.order_id m.holdings ≤ 1
    → traded ts * o.unit_price < 2 ^ 64
    → held o.order_id (settle_all o ts m).holdings
      ≡ held o.order_id m.holdings - traded ts * o.unit_price
unfolding settle_all
settle_all-held o [] m buy terms one small = omega (arith, zero-mul o.unit_price)
settle_all-held o (t ∷ ts) m buy (term, terms) one small =
    let price : ℕ = if o.is_buy then o.unit_price else t.unit_price in
    let limit_price : price ≡ o.unit_price = ground (arith, buy) in
    let mine : t.buy_order_id ≡ o.order_id = ground (arith, term.order, buy) in
    let first = settle_trade-held m t price o.order_id mine one in
    let sum = add-mul t.quantity (traded ts) o.unit_price in
    let rest =
      settle_all-held o ts (settle_trade m t price).0 buy terms first.1
        (omega (arith, sum, small)) in
    let exact : sat_mul64 t.quantity price ≡ t.quantity * o.unit_price =
      ap (sat_mul64 t.quantity) limit_price ∙ omega (arith, sum, small) in
    omega (arith, rest, first.0, exact, sum)

lock_escrow-held :
    (m m' : MarketEscrowCoordinator) (h : EscrowHolding) (o : ℕ)
    → lock_escrow m h ≡ ok m'
    → (held o m'.holdings ≡ coins_in o h + held o m.holdings)
      × (buys o m'.holdings ≡ buys_in o h + buys o m.holdings)
unfolding lock_escrow
lock_escrow-held m m' h o e = elim (Bool-cases (leb 256 m.holding_count)) [
  | inl full ↦ absurd (ground (arith, e, full))
  | inr room ↦ elim (Option-cases (put_first h m.holdings)) [
    | inl gone ↦ absurd (ground (arith, e, room, gone))
    | inr (slots, put) ↦
        let same : slots ≡ m'.holdings = ground (arith, e, room, put) in
        rw (← same) (
          (put_first-sum (coins_in o) h m.holdings slots put).0,
          (put_first-sum (buys_in o) h m.holdings slots put).0,
        )
  ]
]

-- What a limit buy order locks.
fund-buy :
    (m m' : MarketEscrowCoordinator) (o : MarketOrder)
    → o.order_type ≡ limit
    → o.is_buy ≡ true
    → fund m o ≡ ok m'
    → lock_escrow m (
        buy_holding o.order_id o.account_id
          (sat_mul64 o.initial_quantity o.unit_price)
          o.station_id)
      ≡ ok m'
unfolding fund lock_buy_escrow
fund-buy m m' o l buy h = ground (arith, h, l, buy)

module _ (m m' : MarketEscrowCoordinator) (o : MarketOrder) (is_limit : o.order_type ≡ limit)
    (buy : o.is_buy ≡ true) (funded : fund m o ≡ ok m') where
  fund-held :
      (held o.order_id m'.holdings
        ≡ sat_mul64 o.initial_quantity o.unit_price + held o.order_id m.holdings)
      × (buys o.order_id m'.holdings ≡ 1 + buys o.order_id m.holdings)
  fund-held =
      let there =
        lock_escrow-held m m'
          (buy_holding o.order_id o.account_id (sat_mul64 o.initial_quantity o.unit_price)
            o.station_id)
          o.order_id (fund-buy m m' o is_limit buy funded) in
      ground (arith, there)

-- The units traded and those left are the units of the order.
place_order_left :
    (b : OrderBook) (o final : MarketOrder) (room tick n : ℕ)
    → IsValid b
    → (place_order b o room tick).2 ≡ ok (n, final)
    → final.remaining_quantity + traded (place_order b o room tick).1 ≡ o.remaining_quantity
unfolding Answers
place_order_left b o final room tick n v done =
    let answers : Answers b o room tick (place_order b o room tick).0 (place_order b o room tick).1
        (ok (n, final)) =
      rw done at (place_order-Accounts b o room tick v).1 in
    answers.1

module _ (m : MarketEscrowCoordinator) (o final : MarketOrder) (b : OrderBook)
    (room tick n : ℕ) where
  -- A new limit order to buy, of a cost within a u64 and with no coins in escrow under its id, that is
  -- accepted on a valid book: after its trades are settled, the escrow holds for it exactly what the rest of
  -- the order may still cost.
  pub submit_and_match-held :
      IsValid b
      → o.order_type ≡ limit
      → o.is_buy ≡ true
      → o.remaining_quantity ≡ o.initial_quantity
      → o.initial_quantity * o.unit_price < 2 ^ 64
      → buys o.order_id m.holdings ≡ 0
      → (submit_and_match m o b room tick).3 ≡ ok (n, final)
      → held o.order_id (submit_and_match m o b room tick).0.holdings
        ≡ final.remaining_quantity * o.unit_price
  unfolding submit_and_match
  submit_and_match-held v is_limit buy fresh small unused done =
      let trades = (place_order b o room tick).1 in
      elim (Result-cases (fund m o)) [
        | inr (e, failed) ↦ absurd (ground (arith, done, failed))
        | inl (m', funded) ↦ elim (Result-cases (place_order b o room tick).2) [
          | inr (e, failed) ↦ absurd (ground (arith, done, funded, failed))
          | inl ((k, left), placed) ↦
              let same : left ≡ final = ground (arith, done, funded, placed) in
              let units = place_order_left b o left room tick k v placed in
              let (coins, one) = fund-held m m' o is_limit buy funded in
              let empty = held_none o.order_id m.holdings unused in
              let sum = add-mul left.remaining_quantity (traded trades) o.unit_price in
              let whole : (left.remaining_quantity + traded trades) * o.unit_price
                  ≡ o.initial_quantity * o.unit_price =
                ap (λ k. k * o.unit_price) (units ∙ fresh) in
              let settled =
                settle_all-held o trades m' buy (place_order-AllTerms b o room tick v).0
                  (omega (arith, one, unused)) (omega (arith, sum, whole, small)) in
              let end : (submit_and_match m o b room tick).0 ≡ settle_all o trades m' =
                ground (arith, funded, placed) in
              rw (end, ← same) (omega (arith, settled, coins, empty, sum, whole, small))
        ]
      ]

  -- A limit order to buy that is funded, and that the book then refuses, leaves its coins in escrow: the
  -- escrow under its id has grown by its whole cost, capped at the largest u64.
  pub submit_and_match_refused :
      (m' : MarketEscrowCoordinator) (e : MarketError)
      → o.order_type ≡ limit
      → o.is_buy ≡ true
      → fund m o ≡ ok m'
      → (place_order b o room tick).2 ≡ err e
      → ((submit_and_match m o b room tick).3 ≡ err (market_failure e))
        × (held o.order_id (submit_and_match m o b room tick).0.holdings
            ≡ held o.order_id m.holdings + sat_mul64 o.initial_quantity o.unit_price)
  unfolding submit_and_match
  submit_and_match_refused m' e is_limit buy funded failed =
      let (coins, _) = fund-held m m' o is_limit buy funded in ground (arith, funded, failed, coins)
