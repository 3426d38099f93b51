-- ===== src/Market/Orders.antt =====
-- One call of `place_order` or `cancel_order` (crates/eidolon-core/src/market.rs), on every path.
use eidolon.Base.{
  ℕ, ◌+◌, ◌≤◌, ◌<◌, ◌≡◌, ◌≢◌, refl, ◌⊎◌, inl, inr, Bool, true, false, not, ◌||◌, List, [], ◌∷◌,
  none, some, arith, ◌==◌, length, Bool-cases, Result-cases, ok, err, Result,
}
use eidolon.Market.{
  MarketOrder, OrderBook, Side, MarketError, TradeExecution, limit, immediate_or_cancel,
  fill_or_kill, insert_resting_order, invalid_order_parameters, fill_or_kill_unfulfilled,
}
use eidolon.Market.Matching.{opposite, match_loop, finalize, unfulfilled, place_order}
use eidolon.Market.Priority.{NoneCross}
use eidolon.Market.Sides.{volume, Every}
use eidolon.Market.Run.{Run, Run-Stops, traded, match_loop-Run}
use eidolon.Market.Trading.{
  Run-conserves, Run-order, Run-own_side, Run-AllTerms, AllTerms, Positive,
}
use eidolon.Market.Valid.{Rests}
use eidolon.Market.Book.{IsValid, Run-IsValid, Rested, insert_resting_order-Rested}

-- The results of a call: the book, the trades written and the answer.
abbrev pub Outcome : Type 0
Outcome = OrderBook × List TradeExecution × Result MarketError (ℕ × MarketOrder)

-- What `finalize` changes is the status; what rests is a limit order with something left.
finalize-keeps :
    (o : MarketOrder) (n : ℕ) → (finalize o n).0 ≡ record o { status = (finalize o n).0.status }
unfolding finalize
finalize-keeps o n = ground arith

pub finalize-rests :
    (o : MarketOrder) (n : ℕ)
    → (finalize o n).1 ≡ true
    → (o.order_type ≡ limit) × (0 < o.remaining_quantity)
unfolding finalize
finalize-rests o n h = ground arith

finalize-not :
    (o : MarketOrder) (n : ℕ)
    → (finalize o n).1 ≡ false
    → (o.remaining_quantity ≡ 0) ⊎ (o.order_type ≢ limit)
unfolding finalize
finalize-not o n h = ground arith

-- The units of an order that stay on the book.
pub rested_units : MarketOrder → ℕ
rested_units x = elim x.order_type [
  | limit ↦ x.remaining_quantity
  | immediate_or_cancel ↦ 0
  | fill_or_kill ↦ 0
]

placed-Positive : (is_buy : Bool) (side : Side) → Every (Rests is_buy) side → Positive side
placed-Positive is_buy [] v = tt
placed-Positive is_buy (none ∷ side) v = placed-Positive is_buy side v
placed-Positive is_buy (some o ∷ side) v = (v.0.0, placed-Positive is_buy side v.1)

IsValid-Positive : (b : OrderBook) (is_buy : Bool) → IsValid b → Positive (opposite b is_buy)
IsValid-Positive b true v = placed-Positive false b.asks v.ask_side.placed
IsValid-Positive b false v = placed-Positive true b.bids v.bid_side.placed

module _ (b : OrderBook) (o : MarketOrder) (room tick : ℕ) where
  -- The book, the order and the trades after matching, and the order with its final status.
  abbrev pub book_after : OrderBook
  book_after = (match_loop tick room b o).0

  abbrev pub order_after : MarketOrder
  order_after = (match_loop tick room b o).1

  abbrev pub trades_of : List TradeExecution
  trades_of = (match_loop tick room b o).2

  abbrev pub done_order : MarketOrder
  done_order = (finalize order_after (length trades_of)).0

  -- The case rule of `place_order`.
  pub place_order_cases {ℓ} :
      (P : Outcome → Type ℓ)
      → ((e : MarketError)
          → (e ≡ invalid_order_parameters) ⊎ (e ≡ fill_or_kill_unfulfilled)
          → P (b, [], err e))
      → ((finalize order_after (length trades_of)).1 ≡ false
          → P (book_after, trades_of, ok (length trades_of, done_order)))
      → ((e : MarketError)
          → (finalize order_after (length trades_of)).1 ≡ true
          → insert_resting_order book_after done_order ≡ err e
          → P (book_after, trades_of, err e))
      → ((b' : OrderBook)
          → (finalize order_after (length trades_of)).1 ≡ true
          → insert_resting_order book_after done_order ≡ ok b'
          → P (b', trades_of, ok (length trades_of, done_order)))
      → P (place_order b o room tick)
  unfolding place_order
  place_order_cases P refused gone unrested rested =
      elim (Bool-cases (o.unit_price == 0 || o.initial_quantity == 0)) [
        | inl bad ↦ rw bad (refused invalid_order_parameters (inl refl))
        | inr good ↦ rw good (elim (Bool-cases (unfulfilled b o)) [
          | inl short ↦ rw short (refused fill_or_kill_unfulfilled (inr refl))
          | inr enough ↦
              rw enough (elim (Bool-cases ((finalize order_after (length trades_of)).1)) [
                | inr no_rest ↦ rw no_rest (gone no_rest)
                | inl rests ↦
                    rw rests (elim (Result-cases (insert_resting_order book_after done_order)) [
                      | inl (b', e) ↦ rw e (rested b' rests e)
                      | inr (x, e) ↦ rw e (unrested x rests e)
                    ])
              ])
        ])
      ]

  run : Run tick room b o book_after order_after trades_of
  run = match_loop-Run tick room b o

  done_facts :
      (done_order.is_buy ≡ o.is_buy)
      × (done_order.order_type ≡ o.order_type)
      × (done_order.remaining_quantity ≡ order_after.remaining_quantity)
      × (order_after.order_type ≡ o.order_type)
  done_facts = ground (arith, finalize-keeps order_after (length trades_of), Run-order run)

  -- What a call does to the units of the incoming order: those that leave it are those of the trades,
  -- and what remains of a limit order rests on its own side.
  unfoldable pub Answers :
      OrderBook → List TradeExecution → Result MarketError (ℕ × MarketOrder) → Type 0
  Answers b' ts (err e) = volume (opposite b' (not o.is_buy)) ≡ volume (opposite b (not o.is_buy))
  Answers b' ts (ok (n, o')) =
      (n ≡ length ts)
      × (o'.remaining_quantity + traded ts ≡ o.remaining_quantity)
      × (volume (opposite b' (not o.is_buy)) ≡ volume (opposite b (not o.is_buy)) + rested_units o')

  abbrev pub Accounts : Outcome → Type 0
  Accounts p =
      (volume (opposite p.0 o.is_buy) + traded p.1 ≡ volume (opposite b o.is_buy))
      × Answers p.0 p.1 p.2

  rests_done :
      (finalize order_after (length trades_of)).1 ≡ true
      → (rested_units done_order ≡ done_order.remaining_quantity)
        × (0 < done_order.remaining_quantity)
  unfolding rested_units
  rests_done h = ground (arith, done_facts, finalize-rests order_after (length trades_of) h)

  gone_done : (finalize order_after (length trades_of)).1 ≡ false → rested_units done_order ≡ 0
  unfolding rested_units
  gone_done h = ground (arith, done_facts, finalize-not order_after (length trades_of) h)

  -- Units are conserved, on every path. The other side loses exactly the units traded. On success the
  -- answer counts the trades, the order has lost the units traded, and its own side gains what remains
  -- of a limit order and nothing else; on an error its own side keeps its volume.
  pub place_order-Accounts : IsValid b → Accounts (place_order b o room tick)
  unfolding Answers
  place_order-Accounts v =
      place_order_cases Accounts (λ e _. (omega arith, refl))
        (λ h. (
          (Run-conserves run).0,
          (
            refl,
            omega (arith, (Run-conserves run).1, done_facts.2),
            ground (arith, Run-own_side run, gone_done h),
          ),
        ))
        (λ e h failed. ((Run-conserves run).0, ground (arith, Run-own_side run)))
        (λ b' h done.
          let rested : Rested book_after done_order (ok b') = rw done at (
            insert_resting_order-Rested book_after done_order (Run-IsValid run v)
              (rests_done h).1) in
          (
            ground (arith, rested, done_facts, Run-conserves run),
            (
              refl,
              omega (arith, (Run-conserves run).1, done_facts.2),
              ground (arith, rested, done_facts, Run-own_side run, rests_done h),
            ),
          ))

  -- Every path keeps the book valid.
  pub place_order-IsValid : IsValid b → IsValid (place_order b o room tick).0
  place_order-IsValid v =
      place_order_cases (λ p. IsValid p.0) (λ e _. v) (λ h. Run-IsValid run v)
        (λ e h failed. Run-IsValid run v)
        (λ b' h done.
          let rested : Rested book_after done_order (ok b') = rw done at (
            insert_resting_order-Rested book_after done_order (Run-IsValid run v)
              (rests_done h).1) in
          rested.0)

  -- On a valid book, every trade of a call, whatever its answer, is for the commodity of the order, of
  -- at least one unit, at a price within its limit, with the order and its account on their side and the
  -- total capped at the largest u64; and there are no more of them than the output slice has places.
  pub place_order-AllTerms :
      IsValid b
      → AllTerms o (place_order b o room tick).1 × (length (place_order b o room tick).1 ≤ room)
  place_order-AllTerms v =
      place_order_cases (λ p. AllTerms o p.1 × (length p.1 ≤ room)) (λ e _. (tt, omega arith))
        (λ h. (terms, (Run-own_side run).1)) (λ e h failed. (terms, (Run-own_side run).1))
        (λ b' h done. (terms, (Run-own_side run).1))
    where
      terms : AllTerms o trades_of
      terms = (Run-AllTerms run (IsValid-Positive b o.is_buy v)).0

  -- Why the order does not trade on, once the call succeeds.
  unfoldable pub Uncrossed : Outcome → Type 0
  Uncrossed p = elim p.2 [
    | err e ↦ Unit {0}
    | ok (n, o') ↦
        (o'.remaining_quantity ≡ 0)
        ⊎ (n ≡ room)
        ⊎ NoneCross o.is_buy o.unit_price (opposite p.0 o.is_buy)
  ]

  -- An accepted order has nothing left, or has filled the output slice, or no resting order of the other
  -- side crosses its limit any more.
  pub place_order-Uncrossed : IsValid b → Uncrossed (place_order b o room tick)
  unfolding Uncrossed
  place_order-Uncrossed v =
      place_order_cases Uncrossed (λ e _. tt) (λ h. stops book_after (λ c. c)) (λ e h failed. tt)
        (λ b' h done.
          let rested : Rested book_after done_order (ok b') = rw done at (
            insert_resting_order-Rested book_after done_order (Run-IsValid run v)
              (rests_done h).1) in
          stops b' (λ c. rw (crossed rested) c))
    where
      stops :
          (b' : OrderBook)
          → (NoneCross o.is_buy o.unit_price (opposite book_after o.is_buy)
              → NoneCross o.is_buy o.unit_price (opposite b' o.is_buy))
          → (done_order.remaining_quantity ≡ 0)
            ⊎ (length trades_of ≡ room)
            ⊎ NoneCross o.is_buy o.unit_price (opposite b' o.is_buy)
      stops b' same = elim (Run-Stops run) [
        | inl none_left ↦ inl (omega (arith, done_facts.2, none_left))
        | inr (inl full) ↦ inr (inl full)
        | inr (inr none_cross) ↦ inr (inr (same none_cross))
      ]

      crossed :
          {b' : OrderBook}
          → Rested book_after done_order (ok b')
          → opposite b' o.is_buy ≡ opposite book_after o.is_buy
      crossed rested = ground (arith, rested, done_facts)
