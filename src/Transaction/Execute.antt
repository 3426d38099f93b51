-- ===== src/Transaction/Execute.antt =====
-- `execute_transaction` and what rests on it in crates/eidolon-world/src/transaction.rs.
use eidolon.Base.{insert, ℕ, Bool, false, none, some, Result, ok, err}
use eidolon.Error.{WorldError, duplicate_transaction}
use eidolon.Lock.{LockToken, validate_mutation}
use eidolon.Wal.Journal.{DurableWalSink, WriteAheadJournal, is_flushed, flush_pending}
use eidolon.Transaction.{
  TransactionManager, TransactionOp, currency_spend, currency_transfer, item_transfer, equip,
  unequip, committed, aborted, stale_error, spend, transfer,
}
use eidolon.Transaction.Items.{transfer_item, equip_op, unequip_op}

-- crates/eidolon-world/src/durable_journal.rs
pub data CommitDurability : Type 0 where
  in_memory_buffered local_disk_fsync distributed_quorum : CommitDurability

unfoldable pub is_transaction_durable :
    {S : Type 0} → TransactionManager → ℕ → WriteAheadJournal S → Bool
is_transaction_durable m tx_id j = elim (m.executed_txs tx_id) [
  | some (committed lsn) ↦ is_flushed j lsn
  | some aborted ↦ false
  | none ↦ false
]

module _ {S : Type 0} (cap : ℕ) where
  -- The operation itself, once the transaction is admitted.
  unfoldable pub perform :
      TransactionManager
      → WriteAheadJournal S
      → TransactionOp
      → LockToken
      → ℕ
      → TransactionManager × WriteAheadJournal S × Result WorldError ℕ
  perform m j (currency_spend account_id amount is_premium) token tick =
      spend cap m j token tick account_id amount is_premium
  perform m j (currency_transfer from_account to_account amount is_premium) token tick =
      transfer cap m j token tick from_account to_account amount is_premium
  perform m j (item_transfer from_account to_account item_id quantity) token tick =
      transfer_item cap m j token tick from_account to_account item_id quantity
  perform m j (equip account_id inventory_slot equip_slot) token tick =
      equip_op cap m j token tick account_id inventory_slot equip_slot
  perform m j (unequip account_id equip_slot) token tick =
      unequip_op cap m j token tick account_id equip_slot

  unfoldable pub execute_transaction :
      TransactionManager
      → WriteAheadJournal S
      → ℕ
      → TransactionOp
      → ℕ
      → LockToken
      → ℕ
      → TransactionManager × WriteAheadJournal S × Result WorldError ℕ
  execute_transaction m j tx_id op caller_session_id source_token current_tick =
      let (m', j', performed) = perform m j op source_token current_tick in
      elim (m.executed_txs tx_id) [
        | some _ ↦ (m, j, err (duplicate_transaction tx_id))
        | none ↦
            elim (validate_mutation m.lock_registry source_token caller_session_id current_tick) [
              | err e ↦ (m, j, err (stale_error e caller_session_id))
              | ok _ ↦ elim performed [
                | err e ↦ (m', j', err e)
                | ok lsn ↦ (
                  record m' { executed_txs = insert m'.executed_txs tx_id (committed lsn) },
                  j',
                  ok lsn,
                )
              ]
            ]
      ]

  unfoldable pub execute_transaction_with_durability :
      DurableWalSink S
      → TransactionManager
      → WriteAheadJournal S
      → ℕ
      → TransactionOp
      → ℕ
      → LockToken
      → ℕ
      → CommitDurability
      → TransactionManager × WriteAheadJournal S × Result WorldError ℕ
  execute_transaction_with_durability ops m j tx_id op session token tick durability =
      let (m', j', executed) = execute_transaction m j tx_id op session token tick in
      let (j'', flushed) = flush_pending cap ops j' in
      let synced : TransactionManager × WriteAheadJournal S × Result WorldError ℕ = elim flushed [
        | err e ↦ (m', j'', err e)
        | ok _ ↦ (m', j'', executed)
      ] in
      elim executed [
        | err e ↦ (m', j', err e)
        | ok lsn ↦ elim durability [
          | in_memory_buffered ↦ (m', j', ok lsn)
          | local_disk_fsync ↦ synced
          | distributed_quorum ↦ synced
        ]
      ]
