-- ===== src/Market/FillOrKill.antt =====
-- Fill-or-kill orders of crates/eidolon-core/src/market.rs: the volume check against what the matching
-- loop then trades.
use eidolon.Base.{
  ℕ, ◌+◌, ◌^◌, ◌≤◌, ◌<◌, ◌≡◌, refl, ◌⊎◌, inl, inr, Bool, true, false, List, [], ◌∷◌, none, some,
  arith, if◌then◌else◌, length, Bool-cases, ok, err,
}
use native.Mathlib.Decide.{dec_lt}
use eidolon.Market.{
  fill_or_kill_unfulfilled, MarketOrder, OrderBook, Side, TradeExecution, fill_or_kill, filled,
}
use eidolon.Market.Matching.{
  opposite, execution, reduced, settle, best_order, match_loop, crosses, available_qty, place_order,
  unfulfilled, finalize,
}
use eidolon.Market.Priority.{NoneCross, best_order-Unbeaten}
use eidolon.Market.Sides.{total, weight, total-set, resting}
use eidolon.Market.Run.{Run, stop, trade, matched, traded, match_loop-Run, opposite-settle}
use eidolon.Market.Trading.{Run-conserves, Run-order}

module _ (is_buy : Bool) (price : ℕ) where
  -- The volume that crosses a limit, and the number of orders that do, with no overflow.
  abbrev pub crossing : MarketOrder → ℕ
  crossing o = if crosses is_buy price o then o.remaining_quantity else 0

  abbrev pub crosser : MarketOrder → ℕ
  crosser o = if crosses is_buy price o then 1 else 0

  available-total :
      (slots : Side) (sum : ℕ)
      → sum + total crossing slots < 2 ^ 32
      → available_qty is_buy price slots sum ≡ sum + total crossing slots
  unfolding available_qty
  available-total [] sum h = omega arith
  available-total (none ∷ slots) sum h = available-total slots sum h
  available-total (some o ∷ slots) sum h = elim (Bool-cases (crosses is_buy price o)) [
    | inl e ↦ ground (arith, available-total slots (sum + o.remaining_quantity))
    | inr e ↦ ground (arith, available-total slots sum)
  ]

  NoneCross-crossing : (slots : Side) → NoneCross is_buy price slots → total crossing slots ≡ 0
  NoneCross-crossing [] h = refl
  NoneCross-crossing (none ∷ slots) h = NoneCross-crossing slots h
  NoneCross-crossing (some o ∷ slots) h = ground (arith, NoneCross-crossing slots h.1)

  crosser-le : (slots : Side) → total crosser slots ≤ resting slots
  crosser-le [] = omega arith
  crosser-le (none ∷ slots) = crosser-le slots
  crosser-le (some o ∷ slots) = ground (arith, crosser-le slots)

  crosser-zero : (slots : Side) → total crosser slots ≡ 0 → total crossing slots ≡ 0
  crosser-zero [] h = refl
  crosser-zero (none ∷ slots) h = crosser-zero slots h
  crosser-zero (some o ∷ slots) h = ground (arith, crosser-zero slots)

  reduced-crossing :
      (maker : MarketOrder) (qty : ℕ)
      → crosses is_buy price maker ≡ true
      → qty ≤ maker.remaining_quantity
      → (weight crossing (reduced maker qty) + qty ≡ maker.remaining_quantity)
        × (weight crosser (reduced maker qty) ≤ 1)
        × ((weight crosser (reduced maker qty) ≡ 0) ⊎ (qty < maker.remaining_quantity))
  unfolding reduced crosses
  reduced-crossing maker qty c h = ground arith

settle-crossing :
    (b : OrderBook) (o maker : MarketOrder) (idx : ℕ)
    → best_order b o ≡ some (idx, maker)
    → let before = opposite b o.is_buy in
      let after = opposite (settle b o.is_buy idx maker (matched o maker)) o.is_buy in
      (total (crossing o.is_buy o.unit_price) after + matched o maker
        ≡ total (crossing o.is_buy o.unit_price) before)
      × ((total (crosser o.is_buy o.unit_price) after + 1
            ≤ total (crosser o.is_buy o.unit_price) before)
          ⊎ (o.remaining_quantity ≤ matched o maker))
settle-crossing b o maker idx best = rw (opposite-settle b o.is_buy idx maker (matched o maker)) (
    ground (
      arith,
      best_order-Unbeaten b o maker idx best,
      total-set (crossing o.is_buy o.unit_price) (opposite b o.is_buy) idx maker
          (reduced maker (matched o maker)),
      total-set (crosser o.is_buy o.unit_price) (opposite b o.is_buy) idx maker
          (reduced maker (matched o maker)),
      reduced-crossing o.is_buy o.unit_price maker (matched o maker),
    ))

-- A run takes its trades from the volume that crosses.
Run-crossing :
    {tick room : ℕ} {b b' : OrderBook} {o o' : MarketOrder} {ts : List TradeExecution}
    → Run tick room b o b' o' ts
    → total (crossing o.is_buy o.unit_price) (opposite b' o.is_buy) + traded ts
      ≡ total (crossing o.is_buy o.unit_price) (opposite b o.is_buy)
unfolding execution
Run-crossing (stop s) = omega arith
Run-crossing (trade {b = b} {o = o} idx maker pos best rest) =
    omega (arith, Run-crossing rest, settle-crossing b o maker idx best)

-- With room for a trade with every order that crosses, a run ends with the order filled or with no
-- crossing volume left.
Run-fills :
    {tick room : ℕ} {b b' : OrderBook} {o o' : MarketOrder} {ts : List TradeExecution}
    → Run tick room b o b' o' ts
    → total (crosser o.is_buy o.unit_price) (opposite b o.is_buy) ≤ room
    → (o'.remaining_quantity ≡ 0)
      ⊎ (total (crossing o.is_buy o.unit_price) (opposite b' o.is_buy) ≡ 0)
Run-fills (stop (inl done)) h = inl done
Run-fills (stop {b = b} {o = o} (inr (inl no_room))) h =
    inr (crosser-zero o.is_buy o.unit_price (opposite b o.is_buy) (omega arith))
Run-fills (stop {b = b} {o = o} (inr (inr none_cross))) h =
    inr (NoneCross-crossing o.is_buy o.unit_price (opposite b o.is_buy) none_cross)
Run-fills (trade {b = b} {o = o} idx maker pos best rest) h =
    elim ((settle-crossing b o maker idx best).1) [
      | inl fewer ↦ Run-fills rest (omega arith)
      | inr last ↦ inl (omega (arith, (Run-conserves rest).1))
    ]

module _ (b : OrderBook) (o : MarketOrder) (room tick : ℕ) where
  -- What crosses the limit of the order, in exact arithmetic.
  abbrev pub liquidity : ℕ
  liquidity = total (crossing o.is_buy o.unit_price) (opposite b o.is_buy)

  killed :
      o.order_type ≡ fill_or_kill
      → liquidity < 2 ^ 32
      → liquidity < o.initial_quantity
      → unfulfilled b o ≡ true
  unfolding unfulfilled
  killed kind small short =
      ground (arith, available-total o.is_buy o.unit_price (opposite b o.is_buy) 0)

  accepted :
      o.order_type ≡ fill_or_kill
      → liquidity < 2 ^ 32
      → o.initial_quantity ≤ liquidity
      → unfulfilled b o ≡ false
  unfolding unfulfilled
  accepted kind small enough =
      ground (arith, available-total o.is_buy o.unit_price (opposite b o.is_buy) 0)

  loop_fills :
      o.remaining_quantity ≤ liquidity
      → resting (opposite b o.is_buy) ≤ room
      → let (b', o', ts) = match_loop tick room b o in
        (o' ≡ record o { remaining_quantity = 0 }) × (traded ts ≡ o.remaining_quantity)
  loop_fills enough wide =
      let run = match_loop-Run tick room b o in
      let few = crosser-le o.is_buy o.unit_price (opposite b o.is_buy) in
      let filled : (match_loop tick room b o).1.remaining_quantity ≡ 0 =
        ground (arith, Run-fills run (omega (arith, few)), Run-crossing run, Run-conserves run) in
      (ground (arith, Run-order run, filled), omega (arith, Run-conserves run, filled))

  -- All or nothing. Take a fill-or-kill order of positive price and quantity, a volume that crosses
  -- its limit below 2^32, and an output slice with a place for each resting order of the other side.
  -- If that volume is short of the quantity, the call is refused, writes no trade and leaves the book
  -- alone; otherwise it succeeds, the order comes back filled with nothing remaining, and the trades
  -- sum up to its quantity.
  pub place_order_fill_or_kill :
      o.order_type ≡ fill_or_kill
      → 0 < o.unit_price
      → 0 < o.initial_quantity
      → o.remaining_quantity ≡ o.initial_quantity
      → liquidity < 2 ^ 32
      → resting (opposite b o.is_buy) ≤ room
      → let (b', ts, answer) = place_order b o room tick in
        ((liquidity < o.initial_quantity)
          × (answer ≡ err fill_or_kill_unfulfilled)
          × (ts ≡ [])
          × (b' ≡ b))
        ⊎ ((o.initial_quantity ≤ liquidity)
            × (answer ≡ ok (length ts, record o { remaining_quantity = 0; status = filled }))
            × (traded ts ≡ o.initial_quantity))
  unfolding place_order finalize
  place_order_fill_or_kill kind price qty whole small wide =
      elim (dec_lt liquidity o.initial_quantity) [
        | yes short ↦ inl (
          short,
          ground (arith, killed kind small short),
          ground (arith, killed kind small short),
          ground (arith, killed kind small short),
        )
        | no enough ↦ inr (
          omega arith,
          ground (arith, accepted kind small, loop_fills),
          ground (arith, accepted kind small, loop_fills),
        )
      ]
