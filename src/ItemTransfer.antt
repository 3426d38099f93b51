-- ===== src/ItemTransfer.antt =====
-- Transfers of items between containers: ItemTransactionCoordinator of
-- crates/eidolon-world/src/item_transaction.rs. The map of the containers is a function; an operation
-- that may fail after a change gives the coordinator back next to the answer.
pub mod Commit
pub mod Prepare
pub mod Take
pub mod Ends
pub mod Transfers
pub mod Atomic
pub mod Dedup
pub mod History
mod Tests
use Prim.Native.Nat.{bit_and}
use eidolon.Base.{
  ℕ, ◌+◌, ◌%◌, Bool, true, false, ◌&&◌, ◌||◌, not, List, [], ◌∷◌, Option, none, some, Result, ok,
  err, ◌==◌, ltb, if◌then◌else◌, sat_add64, get_elem?, set, replicate, insert,
}
use eidolon.ItemGraph.{
  ContainerError, slot_locked, capacity_full, weight_limit_exceeded, slot_not_empty,
  item_type_mismatch, recursive_nesting_not_allowed, ItemInstance, ContainerSlot, Container,
  item_flag_soulbound, is_some, get_slot, free_slot_count, lock_slot, unlock_slot,
}
use eidolon.ItemGraph.Moves.{nests, overweight, insert_item, commit_remove_item, commit_split_stack}

abbrev pub max_tx_dedup_capacity : ℕ
max_tx_dedup_capacity = 2048

pub data ItemTransactionError : Type 0 where
  source_container_not_found : ItemTransactionError
  target_container_not_found : ItemTransactionError
  tx_item_not_found : ItemTransactionError
  tx_slot_locked : ItemTransactionError
  insufficient_quantity : ItemTransactionError
  target_container_full : ItemTransactionError
  target_weight_limit_exceeded : ItemTransactionError
  soulbound_item_untransferable : ItemTransactionError
  tx_recursive_nesting_not_allowed : ItemTransactionError
  duplicate_transaction_id : ItemTransactionError
  target_slot_not_empty : ItemTransactionError
  tx_item_type_mismatch : ItemTransactionError

-- `From<ContainerError>`
unfoldable pub from_container_error : ContainerError → ItemTransactionError
from_container_error slot_locked = tx_slot_locked
from_container_error capacity_full = target_container_full
from_container_error weight_limit_exceeded = target_weight_limit_exceeded
from_container_error slot_not_empty = target_slot_not_empty
from_container_error item_type_mismatch = tx_item_type_mismatch
from_container_error recursive_nesting_not_allowed = tx_recursive_nesting_not_allowed
from_container_error _ = tx_item_not_found

pub record ItemTransferIntent : Type 0 where
  pub transaction_id : ℕ
  pub source_container_id : ℕ
  pub source_slot : ℕ
  pub item_instance_id : ℕ
  pub target_container_id : ℕ
  pub target_slot : Option ℕ
  pub quantity : ℕ
  pub item_weight_grams : ℕ

pub record ItemTransferResult : Type 0 where
  pub transaction_id : ℕ
  pub source_container_id : ℕ
  pub target_container_id : ℕ
  pub target_slot : ℕ
  pub item_instance_id : ℕ
  pub quantity : ℕ

pub record ItemTransactionCoordinator : Type 0 where
  pub containers : ℕ → Option Container
  pub processed_transactions : List ℕ
  pub dedup_cursor : ℕ
  pub next_instance_id : ℕ

unfoldable pub new_coordinator : ItemTransactionCoordinator
new_coordinator = record {
  containers = λ k. none;
  processed_transactions = replicate max_tx_dedup_capacity 0;
  dedup_cursor = 0;
  next_instance_id = 100000;
}

unfoldable pub allocate_instance_id : ItemTransactionCoordinator → ItemTransactionCoordinator × ℕ
allocate_instance_id m =
    (record m { next_instance_id = sat_add64 m.next_instance_id 1 }, m.next_instance_id)

-- A container is written back under an id.
abbrev pub put_container : ItemTransactionCoordinator → ℕ → Container → ItemTransactionCoordinator
put_container m id c = record m { containers = insert m.containers id c }

unfoldable pub register_container :
    ItemTransactionCoordinator → Container → ItemTransactionCoordinator
register_container m c = put_container m c.container_id c

abbrev pub contains : List ℕ → ℕ → Bool
contains [] x = false
contains (y ∷ ys) x = (y == x) || contains ys x

unfoldable pub is_transaction_processed : ItemTransactionCoordinator → ℕ → Bool
is_transaction_processed m tx_id = contains m.processed_transactions tx_id

unfoldable pub record_transaction : ItemTransactionCoordinator → ℕ → ItemTransactionCoordinator
record_transaction m tx_id = record m {
  processed_transactions = set m.processed_transactions m.dedup_cursor tx_id;
  dedup_cursor = (m.dedup_cursor + 1) % max_tx_dedup_capacity;
}

-- Why the item in the source slot cannot go, if it cannot.
unfoldable pub item_refusal : ItemTransferIntent → ItemInstance → Bool → Option ItemTransactionError
item_refusal intent item same_owner =
    if not (item.instance_id == intent.item_instance_id)
    then some tx_item_not_found
    else if intent.quantity == 0 || ltb item.quantity intent.quantity
    then some insufficient_quantity
    else if not (bit_and item.flags item_flag_soulbound == 0) && not same_owner
    then some soulbound_item_untransferable
    else if nests item intent.target_container_id
    then some tx_recursive_nesting_not_allowed
    else none

unfoldable pub source_refusal :
    ItemTransferIntent → Container → Container → Option ItemTransactionError
source_refusal intent src dst = elim (get_slot src intent.source_slot) [
  | none ↦ some tx_item_not_found
  | some slot ↦ if slot.is_locked then some tx_slot_locked else elim slot.item [
    | none ↦ some tx_item_not_found
    | some item ↦ item_refusal intent item (src.owner_id == dst.owner_id)
  ]
]

-- Why the target cannot take a weight more, or has no place, if so.
unfoldable pub target_refusal : ItemTransferIntent → Container → Option ItemTransactionError
target_refusal intent dst =
    if overweight dst intent.item_weight_grams
    then some target_weight_limit_exceeded
    else elim intent.target_slot [
      | some target_slot ↦ elim (get_slot dst target_slot) [
        | none ↦ some target_slot_not_empty
        | some slot ↦
            if slot.is_locked
            then some tx_slot_locked
            else if is_some slot.item
            then some target_slot_not_empty
            else none
      ]
      | none ↦
          if free_slot_count dst == 0
            && not (intent.source_container_id == intent.target_container_id)
          then some target_container_full
          else none
    ]

-- Phase 1 without the lock: the source container, if nothing stands against the transfer.
unfoldable pub prepare :
    ItemTransactionCoordinator → ItemTransferIntent → Result ItemTransactionError Container
prepare m intent = elim (m.containers intent.source_container_id) [
  | none ↦ err source_container_not_found
  | some src ↦ elim (m.containers intent.target_container_id) [
    | none ↦ err target_container_not_found
    | some dst ↦ elim (source_refusal intent src dst) [
      | some e ↦ err e
      | none ↦ elim (target_refusal intent dst) [ some e ↦ err e | none ↦ ok src ]
    ]
  ]
]
