-- ===== src/ItemTransfer/Commit.antt =====
-- The commit of a transfer, and the whole of it: commit_transfer and execute_transfer of
-- crates/eidolon-world/src/item_transaction.rs.
use eidolon.Base.{ℕ, Option, none, some, Result, ok, err, ◌==◌, if◌then◌else◌}
use eidolon.ItemGraph.{ContainerError, ItemInstance, Container, get_slot, lock_slot, unlock_slot}
use eidolon.ItemGraph.Moves.{insert_item, commit_remove_item, commit_split_stack}
use eidolon.ItemTransfer.{
  ItemTransactionError, source_container_not_found, target_container_not_found, tx_item_not_found,
  duplicate_transaction_id, from_container_error, ItemTransferIntent, ItemTransferResult,
  ItemTransactionCoordinator, allocate_instance_id, put_container, is_transaction_processed,
  record_transaction, prepare,
}

-- The units to move leave the source: a whole stack is removed, a part of one is split off.
unfoldable pub take_out :
    Container
    → ItemTransferIntent
    → ℕ
    → ℕ
    → ItemInstance
    → Container × Result ContainerError ItemInstance
take_out src intent weight new_split_id item =
    if item.quantity == intent.quantity
    then commit_remove_item src intent.source_slot weight
    else commit_split_stack src intent.source_slot intent.quantity new_split_id

unfoldable pub transfer_result : ItemTransferIntent → ℕ → ItemTransferResult
transfer_result intent slot = record {
  transaction_id = intent.transaction_id;
  source_container_id = intent.source_container_id;
  target_container_id = intent.target_container_id;
  target_slot = slot;
  item_instance_id = intent.item_instance_id;
  quantity = intent.quantity;
}

-- The occupant of the source slot.
unfoldable pub source_item : Container → ℕ → Option ItemInstance
source_item src slot_idx = elim (get_slot src slot_idx) [ none ↦ none | some slot ↦ slot.item ]

-- The two branches of `commit_transfer`: within a container, and between two.
unfoldable pub commit_within :
    ItemTransactionCoordinator
    → ItemTransferIntent
    → ℕ
    → ItemTransactionCoordinator × Result ItemTransactionError ItemTransferResult
commit_within m intent new_split_id = elim (m.containers intent.source_container_id) [
  | none ↦ (m, err source_container_not_found)
  | some src ↦ elim (source_item src intent.source_slot) [
    | none ↦ (m, err tx_item_not_found)
    | some item ↦
        let (src', taken) = take_out src intent 0 new_split_id item in
        elim taken [
          | err e ↦ (put_container m intent.source_container_id src', err (from_container_error e))
          | ok moved ↦ elim (insert_item src' moved intent.target_slot 0) [
            | err e ↦
                (put_container m intent.source_container_id src', err (from_container_error e))
            | ok (src'', slot) ↦
                (put_container m intent.source_container_id src'', ok (transfer_result intent slot))
          ]
        ]
  ]
]

-- The rollback: what was taken goes back to the source slot, if it can.
unfoldable pub put_back :
    ItemTransactionCoordinator → ItemTransferIntent → ItemInstance → ItemTransactionCoordinator
put_back m intent moved = elim (m.containers intent.source_container_id) [
  | none ↦ m
  | some src ↦ elim (insert_item src moved (some intent.source_slot) intent.item_weight_grams) [
    | err e ↦ m
    | ok (src', slot) ↦ put_container m intent.source_container_id src'
  ]
]

unfoldable pub deliver :
    ItemTransactionCoordinator
    → ItemTransferIntent
    → ItemInstance
    → ItemTransactionCoordinator × Result ItemTransactionError ItemTransferResult
deliver m intent moved = elim (m.containers intent.target_container_id) [
  | none ↦ (m, err target_container_not_found)
  | some dst ↦ elim (insert_item dst moved intent.target_slot intent.item_weight_grams) [
    | err e ↦ (put_back m intent moved, err (from_container_error e))
    | ok (dst', slot) ↦
        (put_container m intent.target_container_id dst', ok (transfer_result intent slot))
  ]
]

unfoldable pub commit_between :
    ItemTransactionCoordinator
    → ItemTransferIntent
    → ℕ
    → ItemTransactionCoordinator × Result ItemTransactionError ItemTransferResult
commit_between m intent new_split_id = elim (m.containers intent.source_container_id) [
  | none ↦ (m, err source_container_not_found)
  | some src ↦ elim (source_item src intent.source_slot) [
    | none ↦ (m, err tx_item_not_found)
    | some item ↦
        let (src', taken) = take_out src intent intent.item_weight_grams new_split_id item in
        elim taken [
          | err e ↦ (put_container m intent.source_container_id src', err (from_container_error e))
          | ok moved ↦ deliver (put_container m intent.source_container_id src') intent moved
        ]
  ]
]

unfoldable pub commit_transfer :
    ItemTransactionCoordinator
    → ItemTransferIntent
    → ItemTransactionCoordinator × Result ItemTransactionError ItemTransferResult
commit_transfer m intent =
    let (m', new_split_id) = allocate_instance_id m in
    if intent.source_container_id == intent.target_container_id
    then commit_within m' intent new_split_id
    else commit_between m' intent new_split_id

-- "Unlock source slot regardless of commit outcome"
unfoldable pub release_source :
    ItemTransactionCoordinator → ItemTransferIntent → ItemTransactionCoordinator
release_source m intent = elim (m.containers intent.source_container_id) [
  | none ↦ m
  | some src ↦ put_container m intent.source_container_id (unlock_slot src intent.source_slot)
]

-- The end of `execute_transfer`: a transaction that was committed is remembered.
unfoldable pub conclude :
    ItemTransferIntent
    → ItemTransactionCoordinator × Result ItemTransactionError ItemTransferResult
    → ItemTransactionCoordinator × Result ItemTransactionError ItemTransferResult
conclude intent (m, err e) = (release_source m intent, err e)
conclude intent (m, ok res) =
    (record_transaction (release_source m intent) intent.transaction_id, ok res)

unfoldable pub execute_transfer :
    ItemTransactionCoordinator
    → ItemTransferIntent
    → ItemTransactionCoordinator × Result ItemTransactionError ItemTransferResult
execute_transfer m intent =
    if is_transaction_processed m intent.transaction_id
    then (m, err duplicate_transaction_id)
    else elim (prepare m intent) [
      | err e ↦ (m, err e)
      | ok src ↦ elim (lock_slot src intent.source_slot) [
        | err e ↦ (m, err (from_container_error e))
        | ok locked ↦
            conclude intent
              (commit_transfer (put_container m intent.source_container_id locked) intent)
      ]
    ]
