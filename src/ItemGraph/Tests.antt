-- ===== src/ItemGraph/Tests.antt =====
-- Runs of the containers of crates/eidolon-core/src/item_graph.rs, and its theorems at concrete calls.
use eidolon.Base.{ℕ, ◌≡◌, refl, true, false, [], ◌∷◌, List, some, none, arith, ok}
use eidolon.ItemGraph.{
  ItemInstance, player_inventory, Container, new_crafted, apply_wear, repair, new_slots,
  new_container, first_empty, find_first_empty_slot, lock_slot, unlock_slot,
}
use eidolon.ItemGraph.Moves.{
  nests, overweight, choose_slot, fill, insert_item, remove_item, split_stack, commit_split_stack,
  merge_pair, merge_units, merge_stack,
}
use eidolon.ItemGraph.Shape.{new_container-IsValid}
use eidolon.ItemGraph.Units.{units}
use eidolon.ItemGraph.RoundTrip.{remove_item-insert_item}
use eidolon.ItemGraph.History.{
  Call, lock, insert, remove, split, commit_split, merge, perform, run, fresh, IsBalanced,
  run-new_container-IsBalanced,
}

abbrev potions : ItemInstance
potions = record {
  instance_id = 6001;
  type_id = 2001;
  quantity = 20;
  durability = 0;
  max_durability = 0;
  flags = 0;
  creator_id = none;
  nested_container_id = none;
}

-- Twenty potions go in, five are split off and come back, and the two stacks are merged.
abbrev calls : List Call
calls =
    insert potions (some 0) 100
    ∷ split 0 5 6002
    ∷ insert (record potions { instance_id = 6002; quantity = 5 }) none 0
    ∷ merge 1 0 50
    ∷ lock 0
    ∷ remove 0 100
    ∷ commit_split 0 3 6003
    ∷ []

merged : units 2001 (run (fresh (new_container 101 1 player_inventory 8 0)) calls).container ≡ 17
unfolding run perform new_container new_slots insert_item nests overweight choose_slot fill
    split_stack find_first_empty_slot first_empty merge_stack merge_pair merge_units lock_slot
    unlock_slot remove_item commit_split_stack
merged = refl

worn :
    apply_wear (new_crafted 8001 4001 1 100 9999) 100
    ≡ (record (new_crafted 8001 4001 1 100 9999) { durability = 0; flags = 2 }, true)
unfolding apply_wear new_crafted
worn = refl

repaired :
    repair (record (new_crafted 8001 4001 1 100 9999) { durability = 0; flags = 2 }) 50
    ≡ record (new_crafted 8001 4001 1 100 9999) { durability = 50 }
unfolding repair new_crafted
repaired = refl

run-new_container-IsBalanced_example :
    IsBalanced (run (fresh (new_container 101 1 player_inventory 8 0)) calls)
run-new_container-IsBalanced_example =
    run-new_container-IsBalanced 101 1 player_inventory 8 0 calls (
      omega arith,
      (
        omega arith,
        (omega arith, (omega arith, (omega arith, (omega arith, (omega arith, omega arith))))),
      ),
    )

abbrev bag : Container
bag = new_container 102 1 player_inventory 2 1000

abbrev filled : Container × ℕ
filled = (
  record bag {
    current_weight_grams = 600;
    slots =
        record { slot_index = 0; item = some potions; is_locked = false }
        ∷ record { slot_index = 1; item = none; is_locked = false }
        ∷ [];
  },
  0,
)

filled_ok : insert_item bag potions none 600 ≡ ok filled
unfolding new_container new_slots insert_item nests overweight choose_slot fill
    find_first_empty_slot first_empty
filled_ok = refl

remove_item-insert_item_example : remove_item filled.0 0 600 ≡ ok (bag, potions)
unfolding new_container
remove_item-insert_item_example =
    remove_item-insert_item bag filled.0 potions none 600 0
      (new_container-IsValid 102 1 player_inventory 2 1000) (omega arith) filled_ok
