-- ===== src/Account/Stacks.antt =====
-- Item quantities in the inventory of an account (crates/eidolon-world/src/transaction.rs).
use eidolon.Base.{
  ℕ, ◌+◌, ◌-◌, ◌^◌, ◌<◌, ◌≡◌, ◌≢◌, inl, inr, [], ◌∷◌, Option, none, some, ok, arith, ◌==◌, ltb,
  if◌then◌else◌, sat_add32, sum_by, Option-cases, Result-cases, Bool-cases,
}
use eidolon.Account.{InventoryItem, Inventory, stack_item, place_item, take_item}

-- The units of an item in a slot, and in an inventory.
abbrev pub units : ℕ → Option InventoryItem → ℕ
units id none = 0
units id (some i) = if i.item_id == id then i.quantity else 0

abbrev pub quantity : ℕ → Inventory → ℕ
quantity id = sum_by (units id)

pub stack_item-quantity :
    (id n : ℕ) (slots slots' : Inventory)
    → stack_item id n slots ≡ some slots'
    → quantity id slots + n < 2 ^ 32
    → (quantity id slots' ≡ quantity id slots + n)
      × ((k : ℕ) → k ≢ id → quantity k slots' ≡ quantity k slots)
unfolding stack_item
stack_item-quantity id n [] slots' h small = absurd (ground (arith, h))
stack_item-quantity id n (none ∷ slots) slots' h small =
    elim (Option-cases (stack_item id n slots)) [
      | inl gone ↦ absurd (ground (arith, h, gone))
      | inr (rest, e) ↦
          let (grown, others) = stack_item-quantity id n slots rest e (omega arith) in
          let same : none ∷ rest ≡ slots' = ground (arith, h, e) in
          rw (← same) (omega (arith, grown), λ k ne. omega (arith, others k ne))
    ]
stack_item-quantity id n (some i ∷ slots) slots' h small = elim (Bool-cases (i.item_id == id)) [
  | inl mine ↦
      let same : some (record i { quantity = sat_add32 i.quantity n }) ∷ slots ≡ slots' =
        ground (arith, h, mine) in
      rw (← same) (ground (arith, mine), λ k ne. ground (arith, mine, ne))
  | inr other ↦ elim (Option-cases (stack_item id n slots)) [
    | inl gone ↦ absurd (ground (arith, h, other, gone))
    | inr (rest, e) ↦
        let (grown, others) =
          stack_item-quantity id n slots rest e (ground (arith, small, other)) in
        let same : some i ∷ rest ≡ slots' = ground (arith, h, other, e) in
        rw (← same) (omega (arith, grown), λ k ne. omega (arith, others k ne))
  ]
]

pub place_item-quantity :
    (id n : ℕ) (slots slots' : Inventory)
    → place_item id n slots ≡ some slots'
    → (quantity id slots' ≡ quantity id slots + n)
      × ((k : ℕ) → k ≢ id → quantity k slots' ≡ quantity k slots)
unfolding place_item
place_item-quantity id n [] slots' h = absurd (ground (arith, h))
place_item-quantity id n (none ∷ slots) slots' h =
    let same : some (record { item_id = id; quantity = n }) ∷ slots ≡ slots' = ground (arith, h) in
    rw (← same) (ground arith, λ k ne. ground (arith, ne))
place_item-quantity id n (some i ∷ slots) slots' h = elim (Option-cases (place_item id n slots)) [
  | inl gone ↦ absurd (ground (arith, h, gone))
  | inr (rest, e) ↦
      let (grown, others) = place_item-quantity id n slots rest e in
      let same : some i ∷ rest ≡ slots' = ground (arith, h, e) in
      rw (← same) (omega (arith, grown), λ k ne. omega (arith, others k ne))
]

pub take_item-quantity :
    (id n : ℕ) (slots slots' : Inventory)
    → take_item id n slots ≡ ok slots'
    → (quantity id slots' + n ≡ quantity id slots)
      × ((k : ℕ) → k ≢ id → quantity k slots' ≡ quantity k slots)
unfolding take_item
take_item-quantity id n [] slots' h = absurd (ground (arith, h))
take_item-quantity id n (none ∷ slots) slots' h = elim (Result-cases (take_item id n slots)) [
  | inr (x, gone) ↦ absurd (ground (arith, h, gone))
  | inl (rest, e) ↦
      let (less, others) = take_item-quantity id n slots rest e in
      let same : none ∷ rest ≡ slots' = ground (arith, h, e) in
      rw (← same) (omega (arith, less), λ k ne. omega (arith, others k ne))
]
take_item-quantity id n (some i ∷ slots) slots' h = elim (Bool-cases (i.item_id == id)) [
  | inr other ↦ elim (Result-cases (take_item id n slots)) [
    | inr (x, gone) ↦ absurd (ground (arith, h, other, gone))
    | inl (rest, e) ↦
        let (less, others) = take_item-quantity id n slots rest e in
        let same : some i ∷ rest ≡ slots' = ground (arith, h, other, e) in
        rw (← same) (omega (arith, less), λ k ne. omega (arith, others k ne))
  ]
  | inl mine ↦ elim (Bool-cases (ltb i.quantity n)) [
    | inl few ↦ absurd (ground (arith, h, mine, few))
    | inr many ↦ elim (Bool-cases (i.quantity - n == 0)) [
      | inl last ↦
          let same : none ∷ slots ≡ slots' = ground (arith, h, mine, many, last) in
          rw (← same) (ground (arith, mine, many, last), λ k ne. ground (arith, mine, ne))
      | inr more ↦
          let same : some (record i { quantity = i.quantity - n }) ∷ slots ≡ slots' =
            ground (arith, h, mine, many, more) in
          rw (← same) (ground (arith, mine, many), λ k ne. ground (arith, mine, ne))
    ]
  ]
]
