-- ===== src/ItemTransfer/Ends.antt =====
-- How a prepared transfer ends, by the answer of the insertion: execute_transfer and commit_transfer of
-- crates/eidolon-world/src/item_transaction.rs.
use eidolon.Base.{ℕ, ◌≡◌, ◌≢◌, ◌∙◌, false, Option, some, ok, err, arith, sat_add32, sat_add64}
use eidolon.ItemGraph.{ContainerError, ItemInstance, Container, unlock_slot}
use eidolon.ItemGraph.Moves.{nests, overweight, choose_slot, fill, insert_item}
use eidolon.ItemTransfer.{
  from_container_error, ItemTransferIntent, ItemTransactionCoordinator, allocate_instance_id,
  put_container, is_transaction_processed, record_transaction, prepare,
}
use eidolon.ItemTransfer.Commit.{
  take_out, transfer_result, commit_within, put_back, deliver, commit_between, commit_transfer,
  release_source, conclude, execute_transfer,
}
use eidolon.ItemTransfer.Prepare.{Prepared}
use eidolon.ItemTransfer.Take.{
  TakenOut, unlock_slot-unlocked, locked, lock_slot-locked, source_item-locked,
}

-- An insertion with nothing against it.
pub insert_item_fits :
    (c : Container) (i : ItemInstance) (t : Option ℕ) (w j : ℕ)
    → nests i c.container_id ≡ false
    → overweight c w ≡ false
    → choose_slot c t ≡ ok j
    → (c' : Container) × (insert_item c i t w ≡ ok (c', j))
unfolding insert_item
insert_item_fits c i t w j flat light place = (
  record (fill c j (some i)) { current_weight_grams = sat_add32 c.current_weight_grams w },
  ground (arith, flat, light, place),
)

module _ (m : ItemTransactionCoordinator) (intent : ItemTransferIntent) (src dst : Container)
    (fresh_id : is_transaction_processed m intent.transaction_id ≡ false)
    (ready : prepare m intent ≡ ok src) (p : Prepared m intent src dst) where
  -- The source container while its slot is locked.
  abbrev held : Container
  held = locked src intent.source_slot p.slot p.in_slot p.unlocked

  -- The coordinator with the slot locked and an instance id allocated.
  abbrev pub started : ItemTransactionCoordinator
  started = record (put_container m intent.source_container_id held) {
    next_instance_id = sat_add64 m.next_instance_id 1;
  }

  module _ (between : intent.source_container_id ≢ intent.target_container_id) (src' : Container)
      (moved : ItemInstance)
      (out : take_out held intent intent.item_weight_grams m.next_instance_id p.item
        ≡ (src', ok moved))
      (o : TakenOut src src' intent.source_slot intent.quantity p.item moved) where
    abbrev taken : ItemTransactionCoordinator
    taken = put_container started intent.source_container_id src'

    execute_transfer-deliver :
        execute_transfer m intent ≡ conclude intent (deliver taken intent moved)
    unfolding execute_transfer commit_transfer allocate_instance_id commit_between
    execute_transfer-deliver =
        let lock = lock_slot-locked src intent.source_slot p.slot p.in_slot p.unlocked in
        let there = source_item-locked src intent.source_slot p.slot p.in_slot p.unlocked in
        let holds = p.holds in ground (arith, fresh_id, ready, lock, there, holds, between, out)

    pub execute_transfer-delivered :
        (dst' : Container) (j : ℕ)
        → insert_item dst moved intent.target_slot intent.item_weight_grams ≡ ok (dst', j)
        → execute_transfer m intent ≡ (
          record_transaction
              (put_container
                (put_container taken intent.target_container_id dst')
                intent.source_container_id
                src')
              intent.transaction_id,
          ok (transfer_result intent j),
        )
    unfolding deliver conclude release_source
    execute_transfer-delivered dst' j done =
        let at_target = p.at_target in
        let free = unlock_slot-unlocked src' intent.source_slot o.slot o.in_slot o.unlocked in
        execute_transfer-deliver ∙ ground (arith, between, at_target, done, free)

    pub execute_transfer-undelivered :
        (e : ContainerError)
        → insert_item dst moved intent.target_slot intent.item_weight_grams ≡ err e
        → execute_transfer m intent
          ≡ conclude intent (put_back taken intent moved, err (from_container_error e))
    unfolding deliver
    execute_transfer-undelivered e failed =
        let at_target = p.at_target in
        execute_transfer-deliver ∙ ground (arith, between, at_target, failed)

  module _ (within : intent.source_container_id ≡ intent.target_container_id) (src' : Container)
      (moved : ItemInstance)
      (out : take_out held intent 0 m.next_instance_id p.item ≡ (src', ok moved)) where
    pub execute_transfer-within :
        (src'' : Container) (j : ℕ)
        → insert_item src' moved intent.target_slot 0 ≡ ok (src'', j)
        → execute_transfer m intent ≡ (
          record_transaction
              (put_container
                (put_container started intent.source_container_id src'')
                intent.source_container_id
                (unlock_slot src'' intent.source_slot))
              intent.transaction_id,
          ok (transfer_result intent j),
        )
    unfolding execute_transfer commit_transfer allocate_instance_id commit_within conclude
        release_source
    execute_transfer-within src'' j done =
        let lock = lock_slot-locked src intent.source_slot p.slot p.in_slot p.unlocked in
        let there = source_item-locked src intent.source_slot p.slot p.in_slot p.unlocked in
        let holds = p.holds in
        ground (arith, fresh_id, ready, lock, there, holds, within, out, done)

    pub execute_transfer-unplaced :
        (e : ContainerError)
        → insert_item src' moved intent.target_slot 0 ≡ err e
        → execute_transfer m intent
          ≡ conclude intent
              (put_container started intent.source_container_id src', err (from_container_error e))
    unfolding execute_transfer commit_transfer allocate_instance_id commit_within
    execute_transfer-unplaced e failed =
        let lock = lock_slot-locked src intent.source_slot p.slot p.in_slot p.unlocked in
        let there = source_item-locked src intent.source_slot p.slot p.in_slot p.unlocked in
        let holds = p.holds in
        ground (arith, fresh_id, ready, lock, there, holds, within, out, failed)
