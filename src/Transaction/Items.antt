-- ===== src/Transaction/Items.antt =====
-- The item operations of `execute_transaction` in crates/eidolon-world/src/transaction.rs.
use eidolon.Base.{ℕ, not, [], ◌∷◌, ◌++◌, none, some, Result, ok, err, ◌==◌, if◌then◌else◌, to_be}
use eidolon.Error.{WorldError, transaction_aborted, item_not_found}
use eidolon.Lock.{LockToken}
use eidolon.Item.{from_u8}
use eidolon.Account.{AccountState, add_item, remove_item, equip_item, unequip_item}
use eidolon.Wal.Journal.{WriteAheadJournal}
use eidolon.Transaction.{
  TransactionManager, lock_inventory, op_inventory_mutation, put_account, locks, has_item,
  log_change,
}

module _ {S : Type 0} (cap : ℕ) where
  -- The removal, the addition and the record of a transfer whose source passed the checks. When the
  -- target has no room, the source gets its items back as far as it has.
  unfoldable pub move_item :
      TransactionManager
      → WriteAheadJournal S
      → ℕ
      → ℕ
      → ℕ
      → ℕ
      → ℕ
      → AccountState
      → TransactionManager × WriteAheadJournal S × Result WorldError ℕ
  move_item m j tick from_account to_account item_id quantity from =
      elim (remove_item from item_id quantity) [
        | err e ↦ (m, j, err e)
        | ok from' ↦
            let m' = put_account m from_account from' in
            elim (m'.accounts to_account) [
              | none ↦ (m', j, err (transaction_aborted "Target account not registered"))
              | some to ↦ elim (add_item to item_id quantity) [
                | ok to' ↦
                    log_change cap (put_account m' to_account to') j tick from_account
                      op_inventory_mutation
                      (to_be 8 to_account ++ (to_be 4 item_id ++ to_be 4 quantity))
                | err e ↦ elim (add_item from' item_id quantity) [
                  | ok restored ↦ (put_account m' from_account restored, j, err e)
                  | err _ ↦ (m', j, err e)
                ]
              ]
            ]
      ]

  unfoldable pub transfer_item :
      TransactionManager
      → WriteAheadJournal S
      → LockToken
      → ℕ
      → ℕ
      → ℕ
      → ℕ
      → ℕ
      → TransactionManager × WriteAheadJournal S × Result WorldError ℕ
  transfer_item m j token tick from_account to_account item_id quantity =
      if not (locks token from_account lock_inventory)
      then (m, j, err (transaction_aborted "Invalid inventory lock token"))
      else if from_account == to_account
      then (m, j, err (transaction_aborted "Cannot transfer to self"))
      else elim (m.accounts from_account) [
        | none ↦ (m, j, err (transaction_aborted "Source account not found"))
        | some from ↦
            if not (has_item item_id quantity from.inventory)
            then (m, j, err (item_not_found item_id))
            else elim (m.accounts to_account) [
              | none ↦ (m, j, err (transaction_aborted "Target account not registered"))
              | some _ ↦ move_item m j tick from_account to_account item_id quantity from
            ]
      ]

  unfoldable pub equip_op :
      TransactionManager
      → WriteAheadJournal S
      → LockToken
      → ℕ
      → ℕ
      → ℕ
      → ℕ
      → TransactionManager × WriteAheadJournal S × Result WorldError ℕ
  equip_op m j token tick account_id inventory_slot equip_slot =
      if not (locks token account_id lock_inventory)
      then (m, j, err (transaction_aborted "Invalid inventory lock token"))
      else elim (from_u8 equip_slot) [
        | none ↦ (m, j, err (transaction_aborted "Invalid equipment slot"))
        | some slot ↦ elim (m.accounts account_id) [
          | none ↦ (m, j, err (transaction_aborted "Account not found"))
          | some a ↦ elim (equip_item a inventory_slot slot) [
            | err e ↦ (m, j, err e)
            | ok a' ↦
                log_change cap (put_account m account_id a') j tick account_id op_inventory_mutation
                  (1 ∷ inventory_slot ∷ equip_slot ∷ [])
          ]
        ]
      ]

  unfoldable pub unequip_op :
      TransactionManager
      → WriteAheadJournal S
      → LockToken
      → ℕ
      → ℕ
      → ℕ
      → TransactionManager × WriteAheadJournal S × Result WorldError ℕ
  unequip_op m j token tick account_id equip_slot =
      if not (locks token account_id lock_inventory)
      then (m, j, err (transaction_aborted "Invalid inventory lock token"))
      else elim (from_u8 equip_slot) [
        | none ↦ (m, j, err (transaction_aborted "Invalid equipment slot"))
        | some slot ↦ elim (m.accounts account_id) [
          | none ↦ (m, j, err (transaction_aborted "Account not found"))
          | some a ↦
              let (a', answer) = unequip_item a slot in
              elim answer [
                | err e ↦ (put_account m account_id a', j, err e)
                | ok item_id ↦
                    log_change cap (put_account m account_id a') j tick account_id
                      op_inventory_mutation (2 ∷ equip_slot ∷ to_be 4 item_id)
              ]
        ]
      ]
