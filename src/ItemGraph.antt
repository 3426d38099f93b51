-- ===== src/ItemGraph.antt =====
-- Items and containers: crates/eidolon-core/src/item_graph.rs. A container is a list of slots, and the
-- operations give the container back. The children have the moves of items and what they keep.
pub mod Moves
pub mod Shape
pub mod Units
pub mod Stacks
pub mod History
pub mod RoundTrip
mod Tests
use Prim.Native.Nat.{bit_and, bit_or}
use eidolon.Base.{
  ℕ, zero, suc, ◌+◌, ◌-◌, Bool, true, false, ◌&&◌, not, List, [], ◌∷◌, Option, none, some, Result,
  ok, err, ◌==◌, ltb, if◌then◌else◌, min, length, get_elem?, set,
}

abbrev pub item_flag_soulbound : ℕ
item_flag_soulbound = 1

abbrev pub item_flag_damaged : ℕ
item_flag_damaged = 2

abbrev pub item_flag_container : ℕ
item_flag_container = 8

pub data ContainerError : Type 0 where
  slot_out_of_range : ContainerError
  slot_not_empty : ContainerError
  slot_empty : ContainerError
  slot_locked : ContainerError
  capacity_full : ContainerError
  weight_limit_exceeded : ContainerError
  item_type_mismatch : ContainerError
  stack_limit_exceeded : ContainerError
  invalid_quantity : ContainerError
  item_not_found : ContainerError
  recursive_nesting_not_allowed : ContainerError

pub record ItemInstance : Type 0 where
  pub instance_id : ℕ
  pub type_id : ℕ
  pub quantity : ℕ
  pub durability : ℕ
  pub max_durability : ℕ
  pub flags : ℕ
  pub creator_id : Option ℕ
  pub nested_container_id : Option ℕ

-- `quantity.max(1)`
abbrev at_least_one : ℕ → ℕ
at_least_one zero = 1
at_least_one (suc n) = suc n

unfoldable pub new_item : ℕ → ℕ → ℕ → ℕ → ItemInstance
new_item instance_id type_id quantity max_durability = record {
  instance_id = instance_id;
  type_id = type_id;
  quantity = at_least_one quantity;
  durability = max_durability;
  max_durability = max_durability;
  flags = 0;
  creator_id = none;
  nested_container_id = none;
}

unfoldable pub new_crafted : ℕ → ℕ → ℕ → ℕ → ℕ → ItemInstance
new_crafted instance_id type_id quantity max_durability creator_id = record {
  instance_id = instance_id;
  type_id = type_id;
  quantity = at_least_one quantity;
  durability = max_durability;
  max_durability = max_durability;
  flags = 0;
  creator_id = some creator_id;
  nested_container_id = none;
}

unfoldable pub new_container_item : ℕ → ℕ → ℕ → ℕ → ItemInstance
new_container_item instance_id type_id max_durability nested_container_id = record {
  instance_id = instance_id;
  type_id = type_id;
  quantity = 1;
  durability = max_durability;
  max_durability = max_durability;
  flags = item_flag_container;
  creator_id = none;
  nested_container_id = some nested_container_id;
}

-- The item afterwards, and whether it is broken.
unfoldable pub apply_wear : ItemInstance → ℕ → ItemInstance × Bool
apply_wear i wear_points =
    if i.durability - wear_points == 0
    then (record i { durability = 0; flags = bit_or i.flags item_flag_damaged }, true)
    else (record i { durability = i.durability - wear_points }, false)

-- `durability.saturating_add(repair_points).min(max_durability)`, all on 16 bits; the mask is
-- `!ITEM_FLAG_DAMAGED`.
unfoldable pub repair : ItemInstance → ℕ → ItemInstance
repair i repair_points =
    let repaired : ℕ = min (min (i.durability + repair_points) 65535) i.max_durability in
    if ltb 0 repaired
    then record i { durability = repaired; flags = bit_and i.flags 65533 }
    else record i { durability = repaired }

unfoldable pub is_broken : ItemInstance → Bool
is_broken i = i.durability == 0

pub data ContainerType : Type 0 where
  player_inventory : ContainerType
  player_equipment : ContainerType
  nested_bag : ContainerType
  bank_vault : ContainerType
  structure_chest : ContainerType
  vendor_kiosk : ContainerType
  corpse_loot : ContainerType

pub record ContainerSlot : Type 0 where
  pub slot_index : ℕ
  pub item : Option ItemInstance
  pub is_locked : Bool

abbrev pub new_slot : ℕ → ContainerSlot
new_slot i = record { slot_index = i; item = none; is_locked = false }

pub record Container : Type 0 where
  pub container_id : ℕ
  pub owner_id : ℕ
  pub container_type : ContainerType
  pub capacity : ℕ
  pub max_weight_grams : ℕ
  pub current_weight_grams : ℕ
  pub slots : List ContainerSlot

-- The loop of `Container::new`, with `n` slots to make from an index on.
unfoldable pub new_slots : ℕ → ℕ → List ContainerSlot
new_slots i zero = []
new_slots i (suc n) = new_slot i ∷ new_slots (suc i) n

unfoldable pub new_container : ℕ → ℕ → ContainerType → ℕ → ℕ → Container
new_container container_id owner_id container_type capacity max_weight_grams = record {
  container_id = container_id;
  owner_id = owner_id;
  container_type = container_type;
  capacity = capacity;
  max_weight_grams = max_weight_grams;
  current_weight_grams = 0;
  slots = new_slots 0 capacity;
}

abbrev pub is_some {ℓ} : {A : Type ℓ} → Option A → Bool
is_some none = false
is_some (some a) = true

-- The slots that a test holds of.
abbrev pub count_slots : (ContainerSlot → Bool) → List ContainerSlot → ℕ
count_slots p [] = 0
count_slots p (s ∷ slots) = (if p s then 1 else 0) + count_slots p slots

unfoldable pub occupied_count : Container → ℕ
occupied_count c = count_slots (λ s. is_some s.item) c.slots

unfoldable pub free_slot_count : Container → ℕ
free_slot_count c = count_slots (λ s. not (is_some s.item)) c.slots

unfoldable pub first_empty : List ContainerSlot → Option ℕ
first_empty [] = none
first_empty (s ∷ slots) =
    if not (is_some s.item) && not s.is_locked then some s.slot_index else first_empty slots

unfoldable pub find_first_empty_slot : Container → Option ℕ
find_first_empty_slot c = first_empty c.slots

unfoldable pub get_slot : Container → ℕ → Option ContainerSlot
get_slot c slot_idx = get_elem? c.slots slot_idx

unfoldable pub find_in : ℕ → List ContainerSlot → Option (ℕ × ItemInstance)
find_in instance_id [] = none
find_in instance_id (s ∷ slots) = elim s.item [
  | none ↦ find_in instance_id slots
  | some i ↦
      if i.instance_id == instance_id then some (s.slot_index, i) else find_in instance_id slots
]

unfoldable pub find_item : Container → ℕ → Option (ℕ × ItemInstance)
find_item c instance_id = find_in instance_id c.slots

-- A slot is written back.
abbrev pub put_slot : Container → ℕ → ContainerSlot → Container
put_slot c slot_idx s = record c { slots = set c.slots slot_idx s }

unfoldable pub lock_slot : Container → ℕ → Result ContainerError Container
lock_slot c slot_idx = elim (get_elem? c.slots slot_idx) [
  | none ↦ err slot_out_of_range
  | some s ↦
      if s.is_locked
      then err slot_locked
      else ok (put_slot c slot_idx (record s { is_locked = true }))
]

unfoldable pub unlock_slot : Container → ℕ → Container
unlock_slot c slot_idx = elim (get_elem? c.slots slot_idx) [
  | none ↦ c
  | some s ↦ put_slot c slot_idx (record s { is_locked = false })
]
