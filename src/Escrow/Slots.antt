-- ===== src/Escrow/Slots.antt =====
-- The slots of the escrow of crates/eidolon-world/src/market_coordinator.rs, and what its loops change.
use eidolon.Base.{
  sum_slots, occupied, ℕ, ◌+◌, ◌-◌, ◌≤◌, ◌≡◌, refl, ap, ◌∙◌, inl, inr, Bool, true, false, ◌&&◌, not,
  [], ◌∷◌, none, some, ok, arith, ◌==◌, if◌then◌else◌, length, Bool-cases, Result-cases,
}
use eidolon.Escrow.{EscrowHolding, Holdings, free_holding}
use eidolon.Escrow.Settle.{holds_for, lowered, deduct}

-- A holding that is freed is for the order and the account.
pub free_holding-sum :
    (f : EscrowHolding → ℕ) (order_id account_id : ℕ) (slots slots' : Holdings) (h : EscrowHolding)
    → free_holding order_id account_id slots ≡ ok (slots', h)
    → (f h + sum_slots f slots' ≡ sum_slots f slots)
      × (length slots' ≡ length slots)
      × (h.order_id ≡ order_id)
      × (h.account_id ≡ account_id)
unfolding free_holding
free_holding-sum f o a [] slots' h e = absurd (ground (arith, e))
free_holding-sum f o a (none ∷ slots) slots' h e = elim (Result-cases (free_holding o a slots)) [
  | inr (x, failed) ↦ absurd (ground (arith, e, failed))
  | inl ((rest, k), done) ↦
      let both : (none ∷ rest ≡ slots') × (k ≡ h) = ground (arith, e, done) in
      let (sum, size, id, owner) =
        free_holding-sum f o a slots rest h (done ∙ ap (λ k. ok (rest, k)) both.1) in
      rw (← both.0) (sum, omega (arith, size), id, owner)
]
free_holding-sum f o a (some k ∷ slots) slots' h e = elim (Bool-cases (k.order_id == o)) [
  | inl mine ↦ elim (Bool-cases (k.account_id == a)) [
    | inr stranger ↦ absurd (ground (arith, e, mine, stranger))
    | inl owner ↦
        let both : (none ∷ slots ≡ slots') × (k ≡ h) = ground (arith, e, mine, owner) in
        rw (← both.0, ← both.1) (refl, refl, ground (arith, mine), ground (arith, owner))
  ]
  | inr other ↦ elim (Result-cases (free_holding o a slots)) [
    | inr (x, failed) ↦ absurd (ground (arith, e, other, failed))
    | inl ((rest, l), done) ↦
        let both : (some k ∷ rest ≡ slots') × (l ≡ h) = ground (arith, e, other, done) in
        let (sum, size, id, owner) =
          free_holding-sum f o a slots rest h (done ∙ ap (λ l. ok (rest, l)) both.1) in
        rw (← both.0) (omega (arith, sum), omega (arith, size), id, owner)
  ]
]

pub deduct-occupied :
    (c : Bool) (o n : ℕ) (slots : Holdings)
    → (occupied (deduct c o n slots).0 + (deduct c o n slots).1 ≡ occupied slots)
      × (length (deduct c o n slots).0 ≡ length slots)
unfolding deduct
deduct-occupied c o n [] = (refl, refl)
deduct-occupied c o n (none ∷ slots) =
    let (count, size) = deduct-occupied c o n slots in (count, omega (arith, size))
deduct-occupied c o n (some h ∷ slots) =
    let (count, size) = deduct-occupied c o n slots in
    elim (Bool-cases (holds_for c o h)) [
      | inr other ↦ ground (arith, other, count, size)
      | inl mine ↦ elim (Bool-cases (lowered c n h).1) [
        | inl used_up ↦ ground (arith, mine, used_up)
        | inr more ↦ ground (arith, mine, more)
      ]
    ]

-- The coins that are held for an order, and the number of its holdings of coins.
abbrev pub coins_in : ℕ → EscrowHolding → ℕ
coins_in o h = if h.order_id == o && h.is_currency then h.locked_currency else 0

abbrev pub held : ℕ → Holdings → ℕ
held o = sum_slots (coins_in o)

abbrev pub buys_in : ℕ → EscrowHolding → ℕ
buys_in o h = if h.order_id == o && h.is_currency then 1 else 0

abbrev pub buys : ℕ → Holdings → ℕ
buys o = sum_slots (buys_in o)

pub held_none : (o : ℕ) (slots : Holdings) → buys o slots ≡ 0 → held o slots ≡ 0
held_none o [] h = refl
held_none o (none ∷ slots) h = held_none o slots h
held_none o (some k ∷ slots) h = elim (Bool-cases (k.order_id == o && k.is_currency)) [
  | inl mine ↦ absurd (ground (arith, h, mine))
  | inr other ↦ ground (arith, h, other, held_none o slots)
]

-- A deduction for a buyer with one holding at most takes the coins out of it, as far as they go.
pub deduct-held :
    (o n : ℕ) (slots : Holdings)
    → buys o slots ≤ 1
    → (held o (deduct true o n slots).0 ≡ held o slots - n) × (buys o (deduct true o n slots).0 ≤ 1)
unfolding deduct lowered holds_for
deduct-held o n [] h = (omega arith, h)
deduct-held o n (none ∷ slots) h = deduct-held o n slots h
deduct-held o n (some k ∷ slots) h = elim (Bool-cases (k.order_id == o && k.is_currency)) [
  | inr other ↦
      let rest = deduct-held o n slots (ground (arith, h, other)) in ground (arith, other, rest)
  | inl mine ↦
      let last : buys o slots ≡ 0 = ground (arith, h, mine) in
      let none_left = held_none o slots last in
      elim (Bool-cases (k.locked_currency - n == 0)) [
        | inl used_up ↦ ground (arith, mine, used_up, last, none_left)
        | inr more ↦ ground (arith, mine, more, last, none_left)
      ]
]

-- A deduction for a seller leaves the coins alone.
pub deduct-sold :
    (o s n : ℕ) (slots : Holdings)
    → (held o (deduct false s n slots).0 ≡ held o slots)
      × (buys o (deduct false s n slots).0 ≡ buys o slots)
unfolding deduct lowered holds_for
deduct-sold o s n [] = (refl, refl)
deduct-sold o s n (none ∷ slots) = deduct-sold o s n slots
deduct-sold o s n (some k ∷ slots) =
    let rest = deduct-sold o s n slots in
    elim (Bool-cases (k.order_id == s && not k.is_currency)) [
      | inr other ↦ ground (arith, other, rest)
      | inl mine ↦
          let goods : k.is_currency ≡ false = ground (arith, mine) in
          elim (Bool-cases (k.locked_quantity - n == 0)) [
            | inl used_up ↦ ground (arith, mine, used_up, goods)
            | inr more ↦ ground (arith, mine, more, goods)
          ]
    ]
