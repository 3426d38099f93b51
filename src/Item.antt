-- ===== src/Item.antt =====
-- crates/eidolon-core/src/item.rs: equipment slots and the blueprints of the built-in items.
use Prim.Native.String.{String}
use eidolon.Base.{◌^◌, ◌-◌, ℕ, Option, none, some, ◌==◌, if◌then◌else◌}

pub data EquipmentSlot : Type 0 where
  head chest main_hand off_hand legs feet ring1 ring2 amulet : EquipmentSlot

unfoldable pub from_u8 : ℕ → Option EquipmentSlot
from_u8 val =
    if val == 0
    then some head
    else if val == 1
    then some chest
    else if val == 2
    then some main_hand
    else if val == 3
    then some off_hand
    else if val == 4
    then some legs
    else if val == 5
    then some feet
    else if val == 6
    then some ring1
    else if val == 7
    then some ring2
    else if val == 8
    then some amulet
    else none

unfoldable pub as_u8 : EquipmentSlot → ℕ
as_u8 head = 0
as_u8 chest = 1
as_u8 main_hand = 2
as_u8 off_hand = 3
as_u8 legs = 4
as_u8 feet = 5
as_u8 ring1 = 6
as_u8 ring2 = 7
as_u8 amulet = 8

-- `speed_bonus`, an i32, is its bit pattern.
pub record StatBlock : Type 0 where
  pub health_bonus : ℕ
  pub mana_bonus : ℕ
  pub attack_power : ℕ
  pub armor : ℕ
  pub speed_bonus : ℕ

pub record ItemDefinition : Type 0 where
  pub item_id : ℕ
  pub name : String
  pub equip_slot : Option EquipmentSlot
  pub stack_limit : ℕ
  pub stats : StatBlock
  pub required_level : ℕ

-- The two records by their fields, in this order.
abbrev stats_of : ℕ → ℕ → ℕ → ℕ → ℕ → StatBlock
stats_of health mana attack armor speed = record {
  health_bonus = health;
  mana_bonus = mana;
  attack_power = attack;
  armor = armor;
  speed_bonus = speed;
}

-- `StatBlock::ZERO`
abbrev zero_stats : StatBlock
zero_stats = stats_of 0 0 0 0 0

abbrev definition : ℕ → String → Option EquipmentSlot → ℕ → StatBlock → ℕ → ItemDefinition
definition item_id name equip_slot stack_limit stats required_level = record {
  item_id = item_id;
  name = name;
  equip_slot = equip_slot;
  stack_limit = stack_limit;
  stats = stats;
  required_level = required_level;
}

unfoldable pub get_item_definition : ℕ → Option ItemDefinition
get_item_definition item_id =
    if item_id == 1001
    then some (definition 1001 "Steel Longsword" (some main_hand) 1 (stats_of 0 0 25 0 0) 1)
    else if item_id == 1002
    then some
        (definition 1002 "Iron Kite Shield" (some off_hand) 1 (stats_of 50 0 0 30 (2 ^ 32 - 5)) 1)
    else if item_id == 2001
    then some (definition 2001 "Knight's Great Helm" (some head) 1 (stats_of 40 0 0 20 0) 1)
    else if item_id == 2002
    then some (definition 2002 "Paladin's Plate Cuirass" (some chest) 1 (stats_of 100 20 5 50 0) 1)
    else if item_id == 2003
    then some (definition 2003 "Reinforced Greaves" (some legs) 1 (stats_of 35 0 0 25 0) 1)
    else if item_id == 2004
    then some (definition 2004 "Boots of Swiftness" (some feet) 1 (stats_of 15 0 0 10 15) 1)
    else if item_id == 3001
    then some (definition 3001 "Ring of Greater Power" (some ring1) 1 (stats_of 10 25 15 0 0) 1)
    else if item_id == 3002
    then some (definition 3002 "Amulet of Vitality" (some amulet) 1 (stats_of 80 10 0 5 0) 1)
    else if item_id == 4001
    then some (definition 4001 "Greater Health Potion" none 20 zero_stats 1)
    else if item_id == 4002
    then some (definition 4002 "Greater Mana Potion" none 20 zero_stats 1)
    else none
