-- ===== src/Market/Priority.antt =====
-- Price-time priority: what the scan of `place_order` in crates/eidolon-core/src/market.rs finds.
use eidolon.Base.{
  ℕ, suc, ◌+◌, ◌-◌, ◌≤◌, ◌≡◌, refl, ◌∙◌, ◌⊎◌, inl, inr, Bool, true, false, ◌&&◌, [], ◌∷◌, Option,
  none, some, arith, get_elem?, Option-cases, Bool-cases,
}
use eidolon.Market.{MarketOrder, OrderBook, Side}
use eidolon.Market.Matching.{crosses, beats, Best, consider, scan, best_match, opposite, best_order}

module _ (is_buy : Bool) (price : ℕ) where
  -- No resting order crosses the limit.
  abbrev pub NoneCross : Side → Type 0
  NoneCross [] = Unit {0}
  NoneCross (none ∷ slots) = NoneCross slots
  NoneCross (some o ∷ slots) = (crosses is_buy price o ≡ false) × NoneCross slots

  -- No resting order that crosses the limit beats the price and tick.
  abbrev pub Unbeaten : ℕ → ℕ → Side → Type 0
  Unbeaten p t [] = Unit {0}
  Unbeaten p t (none ∷ slots) = Unbeaten p t slots
  Unbeaten p t (some o ∷ slots) =
      ((crosses is_buy price o && beats is_buy o.unit_price o.placed_tick p t) ≡ false)
      × Unbeaten p t slots

  beats_trans :
      (p t p' t' q u : ℕ)
      → beats is_buy p t p' t' ≡ false
      → beats is_buy p' t' q u ≡ false
      → beats is_buy p t q u ≡ false
  unfolding beats
  beats_trans p t p' t' q u h k = ground arith

  beats_asym : (p t q u : ℕ) → beats is_buy p t q u ≡ true → beats is_buy q u p t ≡ false
  unfolding beats
  beats_asym p t q u h = ground arith

  beats_irrefl : (p t : ℕ) → beats is_buy p t p t ≡ false
  unfolding beats
  beats_irrefl p t = ground arith

  scan-some :
      (i : ℕ) (slots : Side) (best : ℕ × ℕ × ℕ)
      → (r : ℕ × ℕ × ℕ) × (scan is_buy price i slots (some best) ≡ some r)
  unfolding scan consider
  scan-some i [] best = (best, refl)
  scan-some i (none ∷ slots) best = scan-some (i + 1) slots best
  scan-some i (some o ∷ slots) (j, p, t) =
      elim (Bool-cases (crosses is_buy price o && beats is_buy o.unit_price o.placed_tick p t)) [
        | inl e ↦ rw e (scan-some (i + 1) slots (i, o.unit_price, o.placed_tick))
        | inr e ↦ rw e (scan-some (i + 1) slots (j, p, t))
      ]

  -- What is known of the result of a scan: the order in its slot.
  abbrev Found : ℕ → Side → Best → ℕ → ℕ → ℕ → Type 0
  Found i slots best k p t =
      (best ≡ some (k, p, t))
      ⊎ ((o : MarketOrder) × (get_elem? slots (k - i) ≡ some (some o))
          × (i ≤ k)
          × (crosses is_buy price o ≡ true)
          × (o.unit_price ≡ p)
          × (o.placed_tick ≡ t))

  consider_cases :
      (i : ℕ) (o : MarketOrder) (best : Best) (k p t : ℕ)
      → consider is_buy price i o best ≡ some (k, p, t)
      → (best ≡ some (k, p, t))
        ⊎ ((k ≡ i) × (crosses is_buy price o ≡ true) × (o.unit_price ≡ p) × (o.placed_tick ≡ t))
  unfolding consider
  consider_cases i o none k p t h = ground arith
  consider_cases i o (some (j, q, u)) k p t h = ground arith

  shift :
      (x : Option MarketOrder) (slots : Side) (k i : ℕ)
      → i + 1 ≤ k
      → get_elem? (x ∷ slots) (k - i) ≡ get_elem? slots (k - (i + 1))
  shift x slots k i h = let e : k - i ≡ suc (k - (i + 1)) = omega arith in rw e

  here : (x : Option MarketOrder) (slots : Side) (i : ℕ) → get_elem? (x ∷ slots) (i - i) ≡ some x
  here x slots i = let e : i - i ≡ 0 = omega arith in rw e

  scan-Found :
      (i : ℕ) (slots : Side) (best : Best) (k p t : ℕ)
      → scan is_buy price i slots best ≡ some (k, p, t)
      → Found i slots best k p t
  unfolding scan
  scan-Found i [] best k p t h = inl h
  scan-Found i (none ∷ slots) best k p t h = elim (scan-Found (i + 1) slots best k p t h) [
    | inl e ↦ inl e
    | inr (o, at, le, c, ep, et) ↦ inr (o, shift none slots k i le ∙ at, omega arith, c, ep, et)
  ]
  scan-Found i (some x ∷ slots) best k p t h =
      elim (scan-Found (i + 1) slots (consider is_buy price i x best) k p t h) [
        | inr (o, at, le, c, ep, et) ↦
            inr (o, shift (some x) slots k i le ∙ at, omega arith, c, ep, et)
        | inl e ↦ elim (consider_cases i x best k p t e) [
          | inl e' ↦ inl e'
          | inr (ek, c, ep, et) ↦ inr (x, rw ek (here (some x) slots i), omega arith, c, ep, et)
        ]
      ]

  -- The scan never ends with something that the best so far, or a slot, beats.
  scan-Unbeaten :
      (i : ℕ) (slots : Side) (j q u k p t : ℕ)
      → scan is_buy price i slots (some (j, q, u)) ≡ some (k, p, t)
      → (beats is_buy q u p t ≡ false) × Unbeaten p t slots
  unfolding scan consider
  scan-Unbeaten i [] j q u k p t h = ground (arith, beats_irrefl q u)
  scan-Unbeaten i (none ∷ slots) j q u k p t h = scan-Unbeaten (i + 1) slots j q u k p t h
  scan-Unbeaten i (some o ∷ slots) j q u k p t h = ground (
    arith,
    scan-Unbeaten (i + 1) slots i o.unit_price o.placed_tick k p t,
    scan-Unbeaten (i + 1) slots j q u k p t,
    beats_asym o.unit_price o.placed_tick q u,
    beats_trans q u o.unit_price o.placed_tick p t,
    beats_trans o.unit_price o.placed_tick q u p t,
  )

  scan_first :
      (i : ℕ) (slots : Side) (k p t : ℕ)
      → scan is_buy price i slots none ≡ some (k, p, t)
      → Unbeaten p t slots
  unfolding scan consider
  scan_first i [] k p t h = tt
  scan_first i (none ∷ slots) k p t h = scan_first (i + 1) slots k p t h
  scan_first i (some o ∷ slots) k p t h = ground (
    arith,
    scan_first (i + 1) slots k p t,
    scan-Unbeaten (i + 1) slots i o.unit_price o.placed_tick k p t,
  )

  scan-NoneCross : (i : ℕ) (slots : Side) → scan is_buy price i slots none ≡ none → NoneCross slots
  unfolding scan consider
  scan-NoneCross i [] h = tt
  scan-NoneCross i (none ∷ slots) h = scan-NoneCross (i + 1) slots h
  scan-NoneCross i (some o ∷ slots) h = elim (Bool-cases (crosses is_buy price o)) [
    | inr e ↦ (e, scan-NoneCross (i + 1) slots (rw e at h))
    | inl e ↦
        let (r, found) = scan-some (i + 1) slots (i, o.unit_price, o.placed_tick) in
        absurd (ground (arith, found))
  ]

  best_match-Unbeaten :
      (slots : Side) (k : ℕ)
      → best_match is_buy price slots ≡ some k
      → (o : MarketOrder) × (get_elem? slots k ≡ some (some o))
        × (crosses is_buy price o ≡ true)
        × Unbeaten o.unit_price o.placed_tick slots
  unfolding best_match
  best_match-Unbeaten slots k h = elim (Option-cases (scan is_buy price 0 slots none)) [
    | inl e ↦ absurd (ground (arith, e))
    | inr ((j, p, t), e) ↦ elim (scan-Found 0 slots none j p t e) [
      | inl absent ↦ absurd (ground (arith, absent))
      | inr (o, at, le, c, ep, et) ↦
          let same : j ≡ k = ground (arith, e) in
          let zero_off : j - 0 ≡ k = omega arith in
          (o, rw zero_off at at, c, rw (ep, et) (scan_first 0 slots j p t e))
    ]
  ]

  best_match-NoneCross : (slots : Side) → best_match is_buy price slots ≡ none → NoneCross slots
  unfolding best_match
  best_match-NoneCross slots h = scan-NoneCross 0 slots (ground arith)

-- The match stands in the slot that it names, crosses the limit, and is not beaten.
pub best_order-Unbeaten :
    (b : OrderBook) (o maker : MarketOrder) (idx : ℕ)
    → best_order b o ≡ some (idx, maker)
    → (get_elem? (opposite b o.is_buy) idx ≡ some (some maker))
      × (crosses o.is_buy o.unit_price maker ≡ true)
      × Unbeaten o.is_buy o.unit_price maker.unit_price maker.placed_tick (opposite b o.is_buy)
unfolding best_order
best_order-Unbeaten b o maker idx h =
    elim (Option-cases (best_match o.is_buy o.unit_price (opposite b o.is_buy))) [
      | inl e ↦ absurd (ground (arith, e))
      | inr (k, e) ↦
          let (m, at, c, u) = best_match-Unbeaten o.is_buy o.unit_price (opposite b o.is_buy) k e in
          let same : (k ≡ idx) × (m ≡ maker) = ground (arith, e, at) in
          (rw (← same.0, ← same.1) at, rw (← same.1) c, rw (← same.1) u)
    ]

-- If it picks none, no resting order of the other side crosses the limit.
pub best_order-NoneCross :
    (b : OrderBook) (o : MarketOrder)
    → best_order b o ≡ none
    → NoneCross o.is_buy o.unit_price (opposite b o.is_buy)
unfolding best_order
best_order-NoneCross b o h =
    elim (Option-cases (best_match o.is_buy o.unit_price (opposite b o.is_buy))) [
      | inl e ↦ best_match-NoneCross o.is_buy o.unit_price (opposite b o.is_buy) e
      | inr (k, e) ↦
          let (m, at, _, _) = best_match-Unbeaten o.is_buy o.unit_price (opposite b o.is_buy) k e in
          absurd (ground (arith, e, at))
    ]
