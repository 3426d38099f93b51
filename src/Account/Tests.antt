-- ===== src/Account/Tests.antt =====
-- The theorems on items at a concrete account.
use eidolon.Base.{Option, ℕ, ◌+◌, ◌≡◌, ◌≢◌, refl, ◌∷◌, some, none, arith, replicate, get_elem?}
use eidolon.Item.{EquipmentSlot, main_hand, as_u8, get_item_definition}
use eidolon.Account.{InventoryItem, AccountState, equip_slot_of, compatible, equip, equip_item}
use eidolon.Account.Items.{Fits, returned, owned, equip_item-owned}

-- Two swords in one slot.
abbrev swords : InventoryItem
swords = record { item_id = 1001; quantity = 2 }

abbrev armed : AccountState
armed = record {
  account_id = 7;
  premium_currency = 0;
  free_currency = 500;
  inventory = some swords ∷ replicate 63 none;
  equipment = replicate 9 none;
  state_version = 1;
}

abbrev with_swords : ℕ → AccountState
with_swords n = record armed {
  inventory = some (record swords { quantity = n }) ∷ replicate 63 none;
  state_version = 2;
}

-- One of the two swords is worn, and the other one is gone.
abbrev wearing : AccountState
wearing = record armed {
  inventory = replicate 64 none;
  equipment = none ∷ none ∷ some 1001 ∷ replicate 6 none;
  state_version = 2;
}

equip_item-owned_example :
    (item : InventoryItem) × (get_elem? armed.inventory 0 ≡ some (some item))
    × ((allowed : EquipmentSlot) × (equip_slot_of item.item_id ≡ some (some allowed))
        × Fits main_hand allowed)
    × (get_elem? wearing.equipment (as_u8 main_hand) ≡ some (some item.item_id))
    × ((i : ℕ) → as_u8 main_hand ≢ i → get_elem? wearing.equipment i ≡ get_elem? armed.equipment i)
    × ((prev : Option ℕ) × (get_elem? armed.equipment (as_u8 main_hand) ≡ some prev)
        × (get_elem? wearing.inventory 0 ≡ some (returned prev)))
    × (owned item.item_id wearing + item.quantity ≡ owned item.item_id armed + 1)
    × ((k : ℕ) → k ≢ item.item_id → owned k wearing ≡ owned k armed)
unfolding get_item_definition equip_item equip equip_slot_of compatible as_u8
equip_item-owned_example = equip_item-owned armed wearing 0 main_hand (omega arith) refl

sword_lost : (owned 1001 armed ≡ 2) × (owned 1001 wearing ≡ 1)
sword_lost = (refl, refl)
