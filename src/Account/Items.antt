-- ===== src/Account/Items.antt =====
-- Items that accounts gain, lose and wear (crates/eidolon-world/src/transaction.rs and
-- crates/eidolon-world/src/equipment.rs).
use eidolon.Base.{
  ℕ, ◌+◌, ◌^◌, ◌<◌, ◌≡◌, ◌≢◌, refl, sym, ap, ◌∙◌, ◌⊎◌, true, inl, inr, get_elem?-set_self,
  get_elem?-set_ne, get_elem?_within, List, Option, none, some, ok, arith, ◌==◌, leb, if◌then◌else◌,
  get_elem?, set, length, get_elem?-lt, sum_by, sum_by-set, Option-cases, Result-cases, Bool-cases,
}
use eidolon.Item.{EquipmentSlot, ring1, ring2, as_u8}
use eidolon.Account.{
  InventoryItem, EquipmentContainer, AccountState, bumped, stack_item, place_item, add_item,
  take_item, remove_item, slot_at, equip_slot_of, compatible, equip, equip_item,
  max_inventory_slots,
}
use eidolon.Account.Stacks.{
  units, quantity, stack_item-quantity, place_item-quantity, take_item-quantity,
}

-- An addition that succeeds adds the units to the inventory, if they and those already there are fewer
-- than 2^32, and touches no other item, balance or gear.
pub add_item-quantity :
    (a a' : AccountState) (id n : ℕ)
    → add_item a id n ≡ ok a'
    → quantity id a.inventory + n < 2 ^ 32
    → (quantity id a'.inventory ≡ quantity id a.inventory + n)
      × ((k : ℕ) → k ≢ id → quantity k a'.inventory ≡ quantity k a.inventory)
      × (a'.equipment ≡ a.equipment)
      × (a'.premium_currency ≡ a.premium_currency)
      × (a'.free_currency ≡ a.free_currency)
unfolding add_item
add_item-quantity a a' id n h small = elim (Option-cases (stack_item id n a.inventory)) [
  | inr (slots, e) ↦
      let (grown, others) = stack_item-quantity id n a.inventory slots e small in
      let same : bumped (record a { inventory = slots }) ≡ a' = ground (arith, h, e) in
      rw (← same) (grown, others, refl, refl, refl)
  | inl absent ↦ elim (Option-cases (place_item id n a.inventory)) [
    | inl full ↦ absurd (ground (arith, h, absent, full))
    | inr (slots, e) ↦
        let (grown, others) = place_item-quantity id n a.inventory slots e in
        let same : bumped (record a { inventory = slots }) ≡ a' = ground (arith, h, absent, e) in
        rw (← same) (grown, others, refl, refl, refl)
  ]
]

-- A removal that succeeds takes the units out of the inventory, which had them, and touches no other
-- item, balance or gear.
pub remove_item-quantity :
    (a a' : AccountState) (id n : ℕ)
    → remove_item a id n ≡ ok a'
    → (quantity id a'.inventory + n ≡ quantity id a.inventory)
      × ((k : ℕ) → k ≢ id → quantity k a'.inventory ≡ quantity k a.inventory)
      × (a'.equipment ≡ a.equipment)
      × (a'.premium_currency ≡ a.premium_currency)
      × (a'.free_currency ≡ a.free_currency)
unfolding remove_item
remove_item-quantity a a' id n h = elim (Result-cases (take_item id n a.inventory)) [
  | inr (x, gone) ↦ absurd (ground (arith, h, gone))
  | inl (slots, e) ↦
      let (less, others) = take_item-quantity id n a.inventory slots e in
      let same : bumped (record a { inventory = slots }) ≡ a' = ground (arith, h, e) in
      rw (← same) (less, others, refl, refl, refl)
]

-- Is the item worn in a slot?
abbrev pub worn_in : ℕ → Option ℕ → ℕ
worn_in id none = 0
worn_in id (some k) = if k == id then 1 else 0

-- The units of an item that an account has, carried and worn.
abbrev pub owned : ℕ → AccountState → ℕ
owned id a = quantity id a.inventory + sum_by (worn_in id) a.equipment

slot_at-some :
    {A : Type 0} (slots : List (Option A)) (i : ℕ) (x : A)
    → slot_at slots i ≡ some x
    → get_elem? slots i ≡ some (some x)
slot_at-some slots i x h = elim (Option-cases (get_elem? slots i)) [
  | inl out ↦ absurd (ground (arith, h, out))
  | inr (y, e) ↦ ground (arith, h, e)
]

-- What `equip` leaves in the container, by item.
equip-worn :
    (c c' : EquipmentContainer) (slot : EquipmentSlot) (id : ℕ) (prev : Option ℕ) (k : ℕ)
    → as_u8 slot < length c
    → equip c slot id ≡ ok (c', prev)
    → sum_by (worn_in k) c' + worn_in k prev ≡ sum_by (worn_in k) c + worn_in k (some id)
unfolding equip
equip-worn c c' slot id prev k inside h = elim (Option-cases (equip_slot_of id)) [
  | inl unknown ↦ absurd (ground (arith, h, unknown))
  | inr (allowed, known) ↦ elim (Option-cases allowed) [
    | inl unfit ↦ absurd (ground (arith, h, known, unfit))
    | inr (allowed_slot, fit) ↦ elim (Bool-cases (compatible slot allowed_slot)) [
      | inr clash ↦ absurd (ground (arith, h, known, fit, clash))
      | inl fits ↦
          let (x, at) = get_elem?-lt c (as_u8 slot) inside in
          let old : slot_at c (as_u8 slot) ≡ x = ground (arith, at) in
          let made : EquipmentContainer × Option ℕ =
            (set c (as_u8 slot) (some id), slot_at c (as_u8 slot)) in
          let same : made ≡ (c', prev) = ground (arith, h, known, fit, fits) in
          let container : set c (as_u8 slot) (some id) ≡ c' = ap (λ p. p.0) same in
          let previous : x ≡ prev = sym old ∙ ap (λ p. p.1) same in
          rw (← container, ← previous) (sum_by-set (worn_in k) c (as_u8 slot) x (some id) at)
    ]
  ]
]

-- The slot of the inventory after its item was put on.
abbrev pub returned : Option ℕ → Option InventoryItem
returned none = none
returned (some id) = some (record { item_id = id; quantity = 1 })

returned-units : (k : ℕ) (prev : Option ℕ) → units k (returned prev) ≡ worn_in k prev
returned-units k none = refl
returned-units k (some id) = refl

-- A slot takes what is made for it, and either ring slot takes a ring.
abbrev pub Fits : EquipmentSlot → EquipmentSlot → Type 0
Fits slot allowed =
    (as_u8 slot ≡ as_u8 allowed)
    ⊎ ((slot ≡ ring1) × (allowed ≡ ring2))
    ⊎ ((slot ≡ ring2) × (allowed ≡ ring1))

compatible-Fits :
    (slot allowed : EquipmentSlot) → compatible slot allowed ≡ true → Fits slot allowed
unfolding compatible
compatible-Fits ring1 ring2 h = inr (inl (refl, refl))
compatible-Fits ring2 ring1 h = inr (inr (refl, refl))
compatible-Fits slot allowed h = inl (ground (arith, h))

-- Equipping that succeeds: the item has a blueprint for a slot that fits, and is in the slot, where what
-- is returned was before; the other slots are as they were.
equip-Equipped :
    (c c' : EquipmentContainer) (slot : EquipmentSlot) (id : ℕ) (prev : Option ℕ)
    → as_u8 slot < length c
    → equip c slot id ≡ ok (c', prev)
    → ((allowed : EquipmentSlot) × (equip_slot_of id ≡ some (some allowed)) × Fits slot allowed)
      × (get_elem? c (as_u8 slot) ≡ some prev)
      × (get_elem? c' (as_u8 slot) ≡ some (some id))
      × ((i : ℕ) → as_u8 slot ≢ i → get_elem? c' i ≡ get_elem? c i)
unfolding equip
equip-Equipped c c' slot id prev inside h = elim (Option-cases (equip_slot_of id)) [
  | inl unknown ↦ absurd (ground (arith, h, unknown))
  | inr (allowed, known) ↦ elim (Option-cases allowed) [
    | inl unfit ↦ absurd (ground (arith, h, known, unfit))
    | inr (allowed_slot, fit) ↦ elim (Bool-cases (compatible slot allowed_slot)) [
      | inr clash ↦ absurd (ground (arith, h, known, fit, clash))
      | inl fits ↦
          let (x, at) = get_elem?-lt c (as_u8 slot) inside in
          let old : slot_at c (as_u8 slot) ≡ x = ground (arith, at) in
          let made : EquipmentContainer × Option ℕ =
            (set c (as_u8 slot) (some id), slot_at c (as_u8 slot)) in
          let same : made ≡ (c', prev) = ground (arith, h, known, fit, fits) in
          let container : set c (as_u8 slot) (some id) ≡ c' = ap (λ p. p.0) same in
          let previous : x ≡ prev = sym old ∙ ap (λ p. p.1) same in
          rw (← container, ← previous)
            (
              (allowed_slot, known ∙ ap some fit, compatible-Fits slot allowed_slot fits),
              at,
              get_elem?-set_self c (as_u8 slot) (some id) inside,
              λ i ne. get_elem?-set_ne c (as_u8 slot) i (some id) ne,
            )
    ]
  ]
]

-- Putting on the item of an inventory slot, when it succeeds on an account whose container has the
-- equipment slot: the inventory slot held a stack, the item has a blueprint for that slot (or for the other
-- ring slot) and is now worn in it, every other equipment slot is as before, what was worn there is in the
-- inventory slot, and the account has one unit of the item left of those in the stack, and as many units as
-- before of every other item, carried and worn.
pub equip_item-owned :
    (a a' : AccountState) (idx : ℕ) (slot : EquipmentSlot)
    → as_u8 slot < length a.equipment
    → equip_item a idx slot ≡ ok a'
    → (item : InventoryItem) × (get_elem? a.inventory idx ≡ some (some item))
      × ((allowed : EquipmentSlot) × (equip_slot_of item.item_id ≡ some (some allowed))
          × Fits slot allowed)
      × (get_elem? a'.equipment (as_u8 slot) ≡ some (some item.item_id))
      × ((i : ℕ) → as_u8 slot ≢ i → get_elem? a'.equipment i ≡ get_elem? a.equipment i)
      × ((prev : Option ℕ) × (get_elem? a.equipment (as_u8 slot) ≡ some prev)
          × (get_elem? a'.inventory idx ≡ some (returned prev)))
      × (owned item.item_id a' + item.quantity ≡ owned item.item_id a + 1)
      × ((k : ℕ) → k ≢ item.item_id → owned k a' ≡ owned k a)
unfolding equip_item
equip_item-owned a a' idx slot inside h = elim (Bool-cases (leb max_inventory_slots idx)) [
  | inl far ↦ absurd (ground (arith, h, far))
  | inr near ↦ elim (Option-cases (slot_at a.inventory idx)) [
    | inl empty ↦ absurd (ground (arith, h, near, empty))
    | inr (item, held) ↦ elim (Result-cases (equip a.equipment slot item.item_id)) [
      | inr (e, failed) ↦ absurd (ground (arith, h, near, held, failed))
      | inl ((c', prev), worn) ↦
          let at = slot_at-some a.inventory idx item held in
          let a'' =
            bumped (record a { inventory = set a.inventory idx (returned prev); equipment = c' }) in
          let same : a'' ≡ a' = ground (arith, h, near, held, worn) in
          let (fits, before, here, others) =
            equip-Equipped a.equipment c' slot item.item_id prev inside worn in
          (
            item,
            at,
            fits,
            rw (← same) here,
            λ i ne. rw (← same) (others i ne),
            (
              prev,
              before,
              rw (← same) (
                  get_elem?-set_self a.inventory idx (returned prev)
                    (get_elem?_within a.inventory idx (some item) at)),
            ),
            rw (← same) (
                ground (
                  arith,
                  equip-worn a.equipment c' slot item.item_id prev item.item_id inside worn,
                  sum_by-set (units item.item_id) a.inventory idx (some item) (returned prev) at,
                  returned-units item.item_id prev,
                )),
            λ k ne. rw (← same) (
                ground (
                  arith,
                  equip-worn a.equipment c' slot item.item_id prev k inside worn,
                  sum_by-set (units k) a.inventory idx (some item) (returned prev) at,
                  returned-units k prev,
                  ne,
                )),
          )
    ]
  ]
]
