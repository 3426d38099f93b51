-- ===== src/Transaction/ItemTests.antt =====
-- The theorem on item transfers at a concrete call.
use eidolon.Base.{
  insert, ℕ, ◌≡◌, refl, true, [], ◌∷◌, some, none, arith, replicate, ok, Result, to_be,
}
use eidolon.Error.{WorldError}
use eidolon.Lock.{
  LockToken, is_for, is_valid_at, expires_at, validate_mutation, validate_in, validate_slot,
}
use eidolon.Account.{AccountState, stack_item, add_item, take_item, remove_item}
use eidolon.Wal.Record.{empty_record, new_record}
use eidolon.Wal.Ring.{try_push}
use eidolon.Wal.Journal.{WriteAheadJournal, append}
use eidolon.Wal.Storage.{MockDurableStorage, new_storage}
use eidolon.Transaction.{
  TransactionManager, item_transfer, put_account, locks, has_item, log_change,
}
use eidolon.Transaction.Items.{transfer_item, move_item}
use eidolon.Transaction.Execute.{perform, execute_transaction}
use eidolon.Transaction.ItemMoves.{MovedItem, execute_transaction-MovedItem}

-- Account 7 holds its inventory lock in session 100 from tick 10 on, for 50 ticks.
abbrev bag : LockToken
bag = record {
  account_id = 7;
  lock_id = 1;
  generation = 1;
  holder_session_id = 100;
  granted_tick = 10;
  lease_duration_ticks = 50;
}

abbrev account : ℕ → ℕ → AccountState
account id potions = record {
  account_id = id;
  premium_currency = 0;
  free_currency = 0;
  inventory = some (record { item_id = 4001; quantity = potions }) ∷ replicate 63 none;
  equipment = replicate 9 none;
  state_version = 1;
}

-- Accounts 7 and 8 have 5 and 2 potions.
abbrev manager : TransactionManager
manager = record {
  lock_registry = record { entries = record { token = bag; is_occupied = true } ∷ []; count = 1 };
  accounts = insert (insert (λ k. none) 7 (account 7 5)) 8 (account 8 2);
  executed_txs = λ k. none;
}

abbrev journal : WriteAheadJournal MockDurableStorage
journal = record {
  current_lsn = 0;
  durable_lsn = 0;
  ring_buffer = record { slots = replicate 2 empty_record; head = 0; tail = 0; len = 0 };
  sink = new_storage;
  drain_scratch = replicate 128 empty_record;
}

abbrev given : TransactionManager × WriteAheadJournal MockDurableStorage × Result WorldError ℕ
given = execute_transaction 2 manager journal 9 (item_transfer 7 8 4001 3) 100 bag 20

given_ok : given.2 ≡ ok 1
unfolding to_be execute_transaction perform transfer_item move_item locks has_item remove_item
    take_item add_item stack_item put_account log_change append new_record try_push
    validate_mutation validate_in validate_slot is_for is_valid_at expires_at
given_ok = refl

execute_transaction-MovedItem_example : MovedItem manager.accounts given.0.accounts 7 8 4001 3
execute_transaction-MovedItem_example =
    execute_transaction-MovedItem 2 manager journal bag 20 7 8 4001 3 1 9 100 (account 8 2) refl
      (omega arith) given_ok
