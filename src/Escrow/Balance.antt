-- ===== src/Escrow/Balance.antt =====
-- What a settlement pays out, and refunds of what was locked: settle_trade and
-- cancel_and_refund_escrow of crates/eidolon-world/src/market_coordinator.rs.
use native.Mathlib.Nat.{mul-add, mul_comm, mul-le-mul_left, div-le_of_le-mul}
use eidolon.Base.{
  put_first, ℕ, ◌+◌, ◌-◌, ◌*◌, ◌^◌, ◌≤◌, ◌<◌, ◌≡◌, refl, ap, inl, inr, [], ◌∷◌, none, some, ok, err,
  arith, ◌==◌, leb, Bool-cases, Option-cases, Result-cases,
}
use eidolon.Market.{TradeExecution}
use eidolon.Escrow.{
  EscrowHolding, escrow_not_found, Holdings, MarketEscrowCoordinator, lock_escrow, free_holding,
  cancel_and_refund_escrow,
}
use eidolon.Escrow.Slots.{held, buys}
use eidolon.Escrow.Funds.{settle_trade-held}
use eidolon.Escrow.Settle.{tax_bps, tax_of, settle_trade}

tax_of-le :
    (m : MarketEscrowCoordinator) (t : TradeExecution)
    → tax_bps m t.station_id ≤ 10000
    → tax_of m t ≤ t.total_price
unfolding tax_of
tax_of-le m t small =
    let bps : ℕ = tax_bps m t.station_id in
    let scaled : t.total_price * bps ≤ t.total_price * 10000 =
      mul-le-mul_left t.total_price small in
    let turned = mul_comm t.total_price 10000 in
    div-le_of_le-mul 10000 (omega (arith, scaled, turned))

-- What the seller is paid, the tax and the refund are together the cost at the limit of the buyer.
paid_out :
    (m : MarketEscrowCoordinator) (t : TradeExecution) (buyer_limit : ℕ)
    → tax_bps m t.station_id ≤ 10000
    → t.total_price ≡ t.quantity * t.unit_price
    → t.unit_price ≤ buyer_limit
    → t.quantity * buyer_limit < 2 ^ 64
    → (settle_trade m t buyer_limit).1
        + (settle_trade m t buyer_limit).2
        + (settle_trade m t buyer_limit).3
      ≡ t.quantity * buyer_limit
unfolding settle_trade
paid_out m t buyer_limit rate total within small =
    let tax = tax_of-le m t rate in
    let parts = mul-add t.quantity t.unit_price (buyer_limit - t.unit_price) in
    let whole : t.quantity * (t.unit_price + (buyer_limit - t.unit_price))
        ≡ t.quantity * buyer_limit =
      ap (λ k. t.quantity * k) (omega arith) in
    omega (arith, tax, total, parts, whole, small)

-- No coins are made or lost by a settlement, where the tax rate is at most 100 per cent, the total is the
-- quantity times the price, the price is within the limit of the buyer, the cost at that limit is within a u64,
-- and the order of the buyer has at most one holding of coins, with that cost in it at least: the coins in
-- escrow for the order before are those in escrow for it afterwards, what the seller is paid, the tax and the
-- refund to the buyer; and the last three are together the cost at the limit.
pub settle_trade_balances :
    (m : MarketEscrowCoordinator) (t : TradeExecution) (buyer_limit : ℕ)
    → tax_bps m t.station_id ≤ 10000
    → t.total_price ≡ t.quantity * t.unit_price
    → t.unit_price ≤ buyer_limit
    → t.quantity * buyer_limit < 2 ^ 64
    → buys t.buy_order_id m.holdings ≤ 1
    → t.quantity * buyer_limit ≤ held t.buy_order_id m.holdings
    → let (m', payout, tax, refund) = settle_trade m t buyer_limit in
      (held t.buy_order_id m'.holdings + payout + tax + refund ≡ held t.buy_order_id m.holdings)
      × (payout + tax + refund ≡ t.quantity * buyer_limit)
settle_trade_balances m t buyer_limit rate total within small one covered =
    let paid = paid_out m t buyer_limit rate total within small in
    let left = settle_trade-held m t buyer_limit t.buy_order_id refl one in
    (omega (arith, paid, left.0, small, covered), paid)

free_holding-put_first :
    (h : EscrowHolding) (slots slots' : Holdings)
    → put_first h slots ≡ some slots'
    → free_holding h.order_id h.account_id slots ≡ err escrow_not_found
    → free_holding h.order_id h.account_id slots' ≡ ok (slots, h)
unfolding put_first free_holding
free_holding-put_first h [] slots' put unused = absurd (ground (arith, put))
free_holding-put_first h (none ∷ slots) slots' put unused =
    let same : some h ∷ slots ≡ slots' = ground (arith, put) in rw (← same) (ground arith)
free_holding-put_first h (some k ∷ slots) slots' put unused =
    elim (Option-cases (put_first h slots)) [
      | inl full ↦ absurd (ground (arith, put, full))
      | inr (rest, e) ↦ elim (Bool-cases (k.order_id == h.order_id)) [
        | inl mine ↦ elim (Bool-cases (k.account_id == h.account_id)) [
          | inl owner ↦ absurd (ground (arith, unused, mine, owner))
          | inr stranger ↦ absurd (ground (arith, unused, mine, stranger))
        ]
        | inr other ↦ elim (Result-cases (free_holding h.order_id h.account_id slots)) [
          | inl (x, found) ↦ absurd (ground (arith, unused, other, found))
          | inr (x, absent) ↦
              let same : some k ∷ rest ≡ slots' = ground (arith, put, e) in
              let last : free_holding h.order_id h.account_id slots ≡ err escrow_not_found =
                ground (arith, unused, other, absent) in
              let ih = free_holding-put_first h slots rest e last in
              rw (← same) (ground (arith, other, ih))
        ]
      ]
    ]

-- A holding that is locked under an id that has none can be cancelled by its account: the refund is the
-- whole holding, and the coordinator is as it was before the lock.
pub cancel_and_refund_escrow-lock_escrow :
    (m m' : MarketEscrowCoordinator) (h : EscrowHolding)
    → lock_escrow m h ≡ ok m'
    → cancel_and_refund_escrow m h.order_id h.account_id ≡ err escrow_not_found
    → cancel_and_refund_escrow m' h.order_id h.account_id ≡ ok (m, h)
unfolding lock_escrow cancel_and_refund_escrow
cancel_and_refund_escrow-lock_escrow m m' h locked unused =
    elim (Bool-cases (leb 256 m.holding_count)) [
      | inl full ↦ absurd (ground (arith, locked, full))
      | inr room ↦ elim (Option-cases (put_first h m.holdings)) [
        | inl gone ↦ absurd (ground (arith, locked, room, gone))
        | inr (slots, put) ↦ elim (Result-cases (free_holding h.order_id h.account_id m.holdings)) [
          | inl (x, found) ↦ absurd (ground (arith, unused, found))
          | inr (e, absent) ↦
              let none_there : free_holding h.order_id h.account_id m.holdings
                  ≡ err escrow_not_found =
                ground (arith, unused, absent) in
              let back = free_holding-put_first h m.holdings slots put none_there in
              let same : record m { holdings = slots; holding_count = m.holding_count + 1 } ≡ m' =
                ground (arith, locked, room, put) in
              let count : m.holding_count + 1 - 1 ≡ m.holding_count = omega arith in
              rw (← same) (ground (arith, back, count))
        ]
      ]
    ]
