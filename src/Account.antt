-- ===== src/Account.antt =====
-- The account of a player: `AccountState` of crates/eidolon-world/src/transaction.rs and
-- `EquipmentContainer` of crates/eidolon-world/src/equipment.rs. The inventory is a list of 64 slots,
-- the equipment a list of 9.
pub mod Stacks
pub mod Items
mod Tests
use eidolon.Base.{
  ℕ, zero, suc, ◌+◌, ◌-◌, Bool, true, false, List, [], ◌∷◌, Option, none, some, Result, ok, err,
  ltb, leb, ◌==◌, ◌||◌, not, if◌then◌else◌, sat_add32, sat_add64, wrap_add64, get_elem?, set,
  replicate,
}
use eidolon.Error.{WorldError, transaction_aborted, insufficient_balance, item_not_found}
use eidolon.Item.{EquipmentSlot, ring1, ring2, as_u8, ItemDefinition, get_item_definition}

abbrev pub max_inventory_slots : ℕ
max_inventory_slots = 64

abbrev pub num_equipment_slots : ℕ
num_equipment_slots = 9

pub record InventoryItem : Type 0 where
  pub item_id : ℕ
  pub quantity : ℕ

abbrev pub Inventory : Type 0
Inventory = List (Option InventoryItem)

abbrev pub EquipmentContainer : Type 0
EquipmentContainer = List (Option ℕ)

pub record AccountState : Type 0 where
  pub account_id : ℕ
  pub premium_currency : ℕ
  pub free_currency : ℕ
  pub inventory : Inventory
  pub equipment : EquipmentContainer
  pub state_version : ℕ

unfoldable pub new_account : ℕ → AccountState
new_account account_id = record {
  account_id = account_id;
  premium_currency = 0;
  free_currency = 0;
  inventory = replicate max_inventory_slots none;
  equipment = replicate num_equipment_slots none;
  state_version = 1;
}

-- The balance that a transaction is about.
unfoldable pub balance : Bool → AccountState → ℕ
balance is_premium a = if is_premium then a.premium_currency else a.free_currency

-- `state_version += 1`
abbrev pub bumped : AccountState → AccountState
bumped a = record a { state_version = wrap_add64 a.state_version 1 }

unfoldable pub credit_currency : AccountState → ℕ → Bool → AccountState
credit_currency a amount is_premium =
    if is_premium
    then bumped (record a { premium_currency = sat_add64 a.premium_currency amount })
    else bumped (record a { free_currency = sat_add64 a.free_currency amount })

unfoldable pub debit_currency : AccountState → ℕ → Bool → Result WorldError AccountState
debit_currency a amount is_premium =
    if is_premium
    then (if ltb a.premium_currency amount
        then err (insufficient_balance amount a.premium_currency)
        else ok (bumped (record a { premium_currency = a.premium_currency - amount })))
    else (if ltb a.free_currency amount
        then err (insufficient_balance amount a.free_currency)
        else ok (bumped (record a { free_currency = a.free_currency - amount })))

-- The first loop of `add_item`: a stack of the item grows.
unfoldable pub stack_item : ℕ → ℕ → Inventory → Option Inventory
stack_item item_id quantity [] = none
stack_item item_id quantity (slot ∷ slots) =
    let rest : Option Inventory = elim (stack_item item_id quantity slots) [
      | none ↦ none
      | some slots' ↦ some (slot ∷ slots')
    ] in
    elim slot [
      | none ↦ rest
      | some i ↦
          if i.item_id == item_id
          then some (some (record i { quantity = sat_add32 i.quantity quantity }) ∷ slots)
          else rest
    ]

-- The second one: the first empty slot is filled.
unfoldable pub place_item : ℕ → ℕ → Inventory → Option Inventory
place_item item_id quantity [] = none
place_item item_id quantity (none ∷ slots) =
    some (some (record { item_id = item_id; quantity = quantity }) ∷ slots)
place_item item_id quantity (some i ∷ slots) = elim (place_item item_id quantity slots) [
  | none ↦ none
  | some slots' ↦ some (some i ∷ slots')
]

unfoldable pub add_item : AccountState → ℕ → ℕ → Result WorldError AccountState
add_item a item_id quantity = elim (stack_item item_id quantity a.inventory) [
  | some slots ↦ ok (bumped (record a { inventory = slots }))
  | none ↦ elim (place_item item_id quantity a.inventory) [
    | some slots ↦ ok (bumped (record a { inventory = slots }))
    | none ↦ err (transaction_aborted "Inventory is full")
  ]
]

-- The loop of `remove_item`.
unfoldable pub take_item : ℕ → ℕ → Inventory → Result WorldError Inventory
take_item item_id quantity [] = err (item_not_found item_id)
take_item item_id quantity (slot ∷ slots) =
    let rest : Result WorldError Inventory = elim (take_item item_id quantity slots) [
      | err e ↦ err e
      | ok slots' ↦ ok (slot ∷ slots')
    ] in
    elim slot [
      | none ↦ rest
      | some i ↦
          if not (i.item_id == item_id)
          then rest
          else if ltb i.quantity quantity
          then err (insufficient_balance quantity i.quantity)
          else if i.quantity - quantity == 0
          then ok (none ∷ slots)
          else ok (some (record i { quantity = i.quantity - quantity }) ∷ slots)
    ]

unfoldable pub remove_item : AccountState → ℕ → ℕ → Result WorldError AccountState
remove_item a item_id quantity = elim (take_item item_id quantity a.inventory) [
  | err e ↦ err e
  | ok slots ↦ ok (bumped (record a { inventory = slots }))
]

-- A read of a slot that may be out of range.
abbrev pub slot_at {ℓ} : {A : Type ℓ} → List (Option A) → ℕ → Option A
slot_at slots i = elim (get_elem? slots i) [ none ↦ none | some s ↦ s ]

-- The slot of an item's blueprint: `none` if there is no blueprint, `some none` if it cannot be worn.
unfoldable pub equip_slot_of : ℕ → Option (Option EquipmentSlot)
equip_slot_of item_id = elim (get_item_definition item_id) [
  | none ↦ none
  | some def ↦ some def.equip_slot
]

-- Either ring slot takes a ring; any other slot takes what is made for it.
unfoldable pub compatible : EquipmentSlot → EquipmentSlot → Bool
compatible ring1 ring2 = true
compatible ring2 ring1 = true
compatible a b = as_u8 a == as_u8 b

-- `EquipmentContainer::equip`: the container afterwards, and the item that was there.
unfoldable pub equip :
    EquipmentContainer → EquipmentSlot → ℕ → Result WorldError (EquipmentContainer × Option ℕ)
equip c slot item_id = elim (equip_slot_of item_id) [
  | none ↦ err (item_not_found item_id)
  | some none ↦ err (transaction_aborted "Item cannot be equipped")
  | some (some allowed_slot) ↦
      if not (compatible slot allowed_slot)
      then err (transaction_aborted "Incompatible equipment slot")
      else ok (set c (as_u8 slot) (some item_id), slot_at c (as_u8 slot))
]

unfoldable pub unequip :
    EquipmentContainer → EquipmentSlot → Result WorldError (EquipmentContainer × Option ℕ)
unequip c slot =
    if leb num_equipment_slots (as_u8 slot)
    then err (transaction_aborted "Invalid equipment slot")
    else ok (set c (as_u8 slot) none, slot_at c (as_u8 slot))

unfoldable pub equip_item : AccountState → ℕ → EquipmentSlot → Result WorldError AccountState
equip_item a inventory_slot_idx slot =
    if leb max_inventory_slots inventory_slot_idx
    then err (transaction_aborted "Invalid inventory slot")
    else elim (slot_at a.inventory inventory_slot_idx) [
      | none ↦ err (transaction_aborted "No item in inventory slot")
      | some item ↦ elim (equip a.equipment slot item.item_id) [
        | err e ↦ err e
        | ok (equipment, prev) ↦
            let back : Option InventoryItem = elim prev [
              | none ↦ none
              | some prev_id ↦ some (record { item_id = prev_id; quantity = 1 })
            ] in
            ok (
              bumped (record a {
                inventory = set a.inventory inventory_slot_idx back;
                equipment = equipment;
              }))
      ]
    ]

-- `unequip_item`: an account that has changed may come with an error, after the rollback.
unfoldable pub unequip_item : AccountState → EquipmentSlot → AccountState × Result WorldError ℕ
unequip_item a slot = elim (unequip a.equipment slot) [
  | err e ↦ (a, err e)
  | ok (equipment, none) ↦
      (record a { equipment = equipment }, err (transaction_aborted "No item equipped in slot"))
  | ok (equipment, some item_id) ↦
      let bare : AccountState = record a { equipment = equipment } in
      elim (add_item bare item_id 1) [
        | ok a' ↦ (bumped a', ok item_id)
        | err e ↦ elim (equip equipment slot item_id) [
          | err _ ↦ (bare, err e)
          | ok (restored, _) ↦ (record bare { equipment = restored }, err e)
        ]
      ]
]
