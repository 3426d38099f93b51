-- ===== src/ItemTransfer/Tests.antt =====
-- Runs of the coordinator of crates/eidolon-world/src/item_transaction.rs, and its theorems at concrete
-- calls.
use eidolon.Base.{
  ℕ, zero, suc, get_elem?, ◌≡◌, refl, Bool, true, false, [], ◌∷◌, List, Option, some, none, arith,
  ok, err, insert, inl, inr, ◌⊎◌, ◌==◌, Bool-cases,
}
use eidolon.ItemGraph.{
  ItemInstance, ContainerSlot, player_inventory, bank_vault, Container, first_empty,
  find_first_empty_slot, get_slot, free_slot_count, lock_slot, unlock_slot,
}
use eidolon.ItemGraph.Moves.{
  nests, overweight, choose_slot, fill, insert_item, remove_item, split_stack, commit_remove_item,
  commit_split_stack,
}
use eidolon.ItemGraph.Shape.{IsValid}
use eidolon.ItemTransfer.{
  target_container_full, duplicate_transaction_id, from_container_error, ItemTransferIntent,
  ItemTransferResult, ItemTransactionCoordinator, new_coordinator, allocate_instance_id,
  is_transaction_processed, record_transaction, item_refusal, source_refusal, target_refusal,
  prepare,
}
use eidolon.ItemTransfer.Commit.{
  take_out, transfer_result, source_item, commit_within, put_back, deliver, commit_between,
  commit_transfer, release_source, conclude, execute_transfer,
}
use eidolon.ItemTransfer.Transfers.{AllValid, Transferred, execute_transfer-Transferred}
use eidolon.ItemTransfer.Atomic.{Keyed, named, execute_transfer_atomic}
use eidolon.ItemTransfer.History.{
  Call, transfer, run, successes, HasRing, new_coordinator-HasRing, execute_transfer_once,
}

abbrev potions : ℕ → ItemInstance
potions n = record {
  instance_id = 500;
  type_id = 2001;
  quantity = n;
  durability = 0;
  max_durability = 0;
  flags = 0;
  creator_id = none;
  nested_container_id = none;
}

abbrev place : ℕ → Option ItemInstance → Bool → ContainerSlot
place i item locked = record { slot_index = i; item = item; is_locked = locked }

-- A bag of one slot with five potions, and a vault of two empty slots.
abbrev bag : Container
bag = record {
  container_id = 1;
  owner_id = 7;
  container_type = player_inventory;
  capacity = 1;
  max_weight_grams = 0;
  current_weight_grams = 100;
  slots = place 0 (some (potions 5)) false ∷ [];
}

abbrev vault : Bool → Container
vault locked = record {
  container_id = 2;
  owner_id = 7;
  container_type = bank_vault;
  capacity = 2;
  max_weight_grams = 1000;
  current_weight_grams = 0;
  slots = place 0 none locked ∷ place 1 none locked ∷ [];
}

-- The ring is of no account here.
abbrev coordinator : Bool → ItemTransactionCoordinator
coordinator locked = record new_coordinator {
  containers = insert (insert (λ k. none) 1 bag) 2 (vault locked);
  processed_transactions = [];
}

abbrev intent : ℕ → Option ℕ → ℕ → ItemTransferIntent
intent target slot n = record {
  transaction_id = 9;
  source_container_id = 1;
  source_slot = 0;
  item_instance_id = 500;
  target_container_id = target;
  target_slot = slot;
  quantity = n;
  item_weight_grams = 20;
}

abbrev bag_units : ItemTransactionCoordinator → ℕ → Option (List ContainerSlot)
bag_units m id = elim (m.containers id) [ none ↦ none | some c ↦ some c.slots ]

-- Two of five potions, within the full bag: the transfer fails, and the bag has three.
lost_within :
    ((execute_transfer (coordinator false) (intent 1 none 2)).1 ≡ err target_container_full)
    × (bag_units (execute_transfer (coordinator false) (intent 1 none 2)).0 1
        ≡ some (place 0 (some (potions 3)) false ∷ []))
unfolding execute_transfer is_transaction_processed prepare source_refusal item_refusal
    target_refusal get_slot free_slot_count nests overweight lock_slot unlock_slot commit_transfer
    allocate_instance_id commit_within source_item take_out commit_remove_item commit_split_stack
    split_stack remove_item insert_item choose_slot find_first_empty_slot first_empty fill conclude
    release_source from_container_error new_coordinator
lost_within = (refl, refl)

-- Two of five potions, to a vault whose empty slots are locked: the same.
lost_between :
    ((execute_transfer (coordinator true) (intent 2 none 2)).1 ≡ err target_container_full)
    × (bag_units (execute_transfer (coordinator true) (intent 2 none 2)).0 1
        ≡ some (place 0 (some (potions 3)) false ∷ []))
    × (bag_units (execute_transfer (coordinator true) (intent 2 none 2)).0 2
        ≡ some (place 0 none true ∷ place 1 none true ∷ []))
unfolding execute_transfer is_transaction_processed prepare source_refusal item_refusal
    target_refusal get_slot free_slot_count nests overweight lock_slot unlock_slot commit_transfer
    allocate_instance_id commit_between deliver put_back source_item take_out commit_remove_item
    commit_split_stack split_stack remove_item insert_item choose_slot find_first_empty_slot
    first_empty fill conclude release_source from_container_error new_coordinator
lost_between = (refl, refl, refl)

bag_indexed : (k : ℕ) (s : ContainerSlot) → get_elem? bag.slots k ≡ some s → s.slot_index ≡ k
bag_indexed zero s h = ground (arith, h)
bag_indexed (suc k) s h = absurd (ground (arith, h))

vault_indexed :
    (k : ℕ) (s : ContainerSlot) → get_elem? (vault false).slots k ≡ some s → s.slot_index ≡ k
vault_indexed zero s h = ground (arith, h)
vault_indexed (suc zero) s h = ground (arith, h)
vault_indexed (suc (suc k)) s h = absurd (ground (arith, h))

bag-IsValid : IsValid bag
bag-IsValid = record { sized = refl; indexed = bag_indexed; light = inl refl }

vault-IsValid : IsValid (vault false)
vault-IsValid = record { sized = refl; indexed = vault_indexed; light = inr (omega arith) }

abbrev held : ℕ → Option Container
held = insert (insert (λ k. none) 1 bag) 2 (vault false)

-- Either of the two containers.
held_cases :
    (k : ℕ) (c : Container)
    → held k ≡ some c
    → ((k ≡ 1) × (bag ≡ c)) ⊎ ((k ≡ 2) × (vault false ≡ c))
held_cases k c h = elim (Bool-cases (k == 2)) [
  | inl second ↦ inr (ground (arith, second), ground (arith, h, second))
  | inr other ↦ elim (Bool-cases (k == 1)) [
    | inl first ↦ inl (ground (arith, first), ground (arith, h, other, first))
    | inr neither ↦ absurd (ground (arith, h, other, neither))
  ]
]

valid : AllValid held
valid k c h = elim (held_cases k c h) [
  | inl (e, same) ↦ rw (← same) bag-IsValid
  | inr (e, same) ↦ rw (← same) vault-IsValid
]

keyed : Keyed held
keyed k c h = elim (held_cases k c h) [
  | inl (e, same) ↦ ground (arith, e, same)
  | inr (e, same) ↦ ground (arith, e, same)
]

abbrev receipt : ℕ → ℕ → ℕ → ItemTransferResult
receipt target slot n = record {
  transaction_id = 9;
  source_container_id = 1;
  target_container_id = target;
  target_slot = slot;
  item_instance_id = 500;
  quantity = n;
}

delivered : (execute_transfer (coordinator false) (intent 2 none 2)).1 ≡ ok (receipt 2 0 2)
unfolding execute_transfer is_transaction_processed prepare source_refusal item_refusal
    target_refusal get_slot free_slot_count nests overweight lock_slot unlock_slot commit_transfer
    allocate_instance_id commit_between deliver source_item take_out commit_remove_item
    commit_split_stack split_stack remove_item insert_item choose_slot find_first_empty_slot
    first_empty fill conclude release_source transfer_result record_transaction new_coordinator
delivered = refl

moved : (execute_transfer (coordinator false) (intent 1 none 5)).1 ≡ ok (receipt 1 0 5)
unfolding execute_transfer is_transaction_processed prepare source_refusal item_refusal
    target_refusal get_slot free_slot_count nests overweight lock_slot unlock_slot commit_transfer
    allocate_instance_id commit_within source_item take_out commit_remove_item commit_split_stack
    split_stack remove_item insert_item choose_slot find_first_empty_slot first_empty fill conclude
    release_source transfer_result record_transaction new_coordinator
moved = refl

execute_transfer-Transferred_example :
    Transferred held
      (execute_transfer (coordinator false) (intent 2 none 2)).0.containers
      (intent 2 none 2)
unfolding new_coordinator
execute_transfer-Transferred_example =
    execute_transfer-Transferred (coordinator false) (intent 2 none 2) (receipt 2 0 2) valid
      (omega arith) delivered

execute_transfer_atomic_example :
    ((res : ItemTransferResult) × ((execute_transfer (coordinator false) (intent 2 (some 1) 2)).1
        ≡ ok res))
    ⊎ ((execute_transfer (coordinator false) (intent 2 (some 1) 2)).0 ≡ coordinator false)
unfolding new_coordinator
execute_transfer_atomic_example =
    execute_transfer_atomic (coordinator false) (intent 2 (some 1) 2) keyed (named 1 refl)

abbrev remembering : ItemTransactionCoordinator
remembering = record new_coordinator { containers = held }

remembering-HasRing : HasRing remembering
remembering-HasRing = record {
  full_ring = new_coordinator-HasRing.full_ring;
  in_ring = new_coordinator-HasRing.in_ring;
}

abbrev later : List Call
later = transfer (record (intent 2 (some 1) 1) { transaction_id = 10 }) ∷ []

once : (execute_transfer remembering (intent 2 none 2)).1 ≡ ok (receipt 2 0 2)
unfolding execute_transfer is_transaction_processed prepare source_refusal item_refusal
    target_refusal get_slot free_slot_count nests overweight lock_slot unlock_slot commit_transfer
    allocate_instance_id commit_between deliver source_item take_out commit_remove_item
    commit_split_stack split_stack remove_item insert_item choose_slot find_first_empty_slot
    first_empty fill conclude release_source transfer_result record_transaction new_coordinator
once = refl

one_more : successes (execute_transfer remembering (intent 2 none 2)).0 later ≡ 1
unfolding execute_transfer is_transaction_processed prepare source_refusal item_refusal
    target_refusal get_slot free_slot_count nests overweight lock_slot unlock_slot commit_transfer
    allocate_instance_id commit_between deliver source_item take_out commit_remove_item
    commit_split_stack split_stack remove_item insert_item choose_slot find_first_empty_slot
    first_empty fill conclude release_source transfer_result record_transaction new_coordinator
    successes
one_more = refl

execute_transfer_once_example :
    execute_transfer
      (run (execute_transfer remembering (intent 2 none 2)).0 later)
      (intent 1 none 1)
    ≡ (run (execute_transfer remembering (intent 2 none 2)).0 later, err duplicate_transaction_id)
execute_transfer_once_example =
    execute_transfer_once remembering (intent 2 none 2) (intent 1 none 1) (receipt 2 0 2) later
      remembering-HasRing once (omega (arith, one_more)) refl
