-- ===== src/Transaction/Tests.antt =====
-- Tests of the transaction manager, and its theorems at concrete calls.
use eidolon.Base.{
  insert, ℕ, ◌+◌, ◌≡◌, refl, inl, inr, true, false, [], ◌∷◌, some, none, arith, replicate, ok, err,
  Result, to_be,
}
use eidolon.Error.{WorldError, duplicate_transaction, stale_session_mutation, wal_buffer_full}
use eidolon.Lock.{
  LockToken, GenerationLockRegistry, is_for, is_valid_at, expires_at, validate_mutation,
  validate_in, validate_slot,
}
use eidolon.Lock.Table.{find}
use eidolon.Lock.Registry.{IsValid as IsValidRegistry}
use eidolon.Account.{AccountState, balance, debit_currency, credit_currency}
use eidolon.Wal.Record.{WalRecord, empty_record, new_record}
use eidolon.Wal.Ring.{try_push}
use eidolon.Wal.Journal.{WriteAheadJournal, append}
use eidolon.Wal.Pipeline.{IsValid}
use eidolon.Wal.Storage.{MockDurableStorage, new_storage, storage, stored}
use eidolon.Transaction.{
  TransactionManager, TransactionOp, currency_spend, currency_transfer, put_account, lock, locks,
  log_change, transfer, move_currency,
}
use eidolon.Transaction.Execute.{perform, execute_transaction}
use eidolon.Transaction.Admission.{execute_transaction_once, takeover_stops_transactions}
use eidolon.Transaction.Currency.{SameBut, TransferEnds, execute_transaction-TransferEnds}
use eidolon.Transaction.Backpressure.{spend_charges_unlogged}

-- Account 7 holds its wallet lock in session 100 from tick 10 on, for 50 ticks.
abbrev pub wallet : LockToken
wallet = record {
  account_id = 7;
  lock_id = 0;
  generation = 1;
  holder_session_id = 100;
  granted_tick = 10;
  lease_duration_ticks = 50;
}

abbrev locked : GenerationLockRegistry
locked = record { entries = record { token = wallet; is_occupied = true } ∷ []; count = 1 }

locked-IsValid : IsValidRegistry 1 locked
unfolding find is_for
locked-IsValid = record { sized = refl; counted = refl; distinct = (inr refl, tt) }

abbrev account : ℕ → ℕ → AccountState
account id free = record {
  account_id = id;
  premium_currency = 0;
  free_currency = free;
  inventory = replicate 64 none;
  equipment = replicate 9 none;
  state_version = 1;
}

-- Accounts 7 and 8 have 500 and 20.
abbrev pub manager : TransactionManager
manager = record {
  lock_registry = locked;
  accounts = insert (insert (λ k. none) 7 (account 7 500)) 8 (account 8 20);
  executed_txs = λ k. none;
}

-- An empty journal, with room for so many records.
abbrev journal : ℕ → WriteAheadJournal MockDurableStorage
journal cap = record {
  current_lsn = 0;
  durable_lsn = 0;
  ring_buffer = record { slots = replicate cap empty_record; head = 0; tail = 0; len = 0 };
  sink = new_storage;
  drain_scratch = replicate 128 empty_record;
}

journal-IsValid : IsValid 2 storage stored [] (journal 2) []
unfolding new_storage
journal-IsValid = record {
  ring = record {
    sized = refl;
    head = omega arith;
    tail = refl;
    counted = refl;
    within = omega arith;
    stored = tt;
  };
  queued = refl;
  scratch = refl;
  fresh = [];
  logged = refl;
  numbered = refl;
}

abbrev pub pay : TransactionOp
pay = currency_transfer 7 8 100 false

abbrev paid : TransactionManager × WriteAheadJournal MockDurableStorage × Result WorldError ℕ
paid = execute_transaction 2 manager (journal 2) 9 pay 100 wallet 20

paid_ok : paid.2 ≡ ok 1
unfolding to_be execute_transaction perform transfer move_currency locks balance debit_currency
    credit_currency put_account log_change append new_record try_push validate_mutation validate_in
    validate_slot is_for is_valid_at expires_at
paid_ok = refl

execute_transaction_once_example :
    execute_transaction 2 paid.0 (journal 2) 9 pay 100 wallet 21
    ≡ (paid.0, journal 2, err (duplicate_transaction 9))
execute_transaction_once_example =
    execute_transaction_once 2 manager paid.0 (journal 2) paid.1 (journal 2) 9 pay pay 100 100
      wallet wallet 20 21 1 (λ i. (paid.0, paid.1, paid_ok i))

takeover_stops_transactions_example :
    let m = (lock manager 7 0 200 20 50 true).0 in
    execute_transaction 2 m (journal 2) 9 pay 100 wallet 21
    ≡ (m, journal 2, err (stale_session_mutation 200 100))
unfolding find is_for
takeover_stops_transactions_example =
    (takeover_stops_transactions 2 1 manager (journal 2) wallet 200 20 50 21 true 9 pay
      locked-IsValid refl (omega arith) (inl refl) (omega arith) refl).0

execute_transaction-TransferEnds_example :
    TransferEnds 2 manager (journal 2) wallet 20 7 8 100 false paid
execute_transaction-TransferEnds_example =
    execute_transaction-TransferEnds 2 manager (journal 2) wallet 20 7 8 100 false 9 100

-- A journal without room.
abbrev waiting : WalRecord
waiting = record {
  lsn = 1;
  tick = 3;
  account_id = 8;
  entity_id = 0;
  opcode = 4;
  payload_len = 0;
  payload = replicate 128 0;
  checksum = 0;
}

abbrev full : WriteAheadJournal MockDurableStorage
full = record {
  current_lsn = 1;
  durable_lsn = 0;
  ring_buffer = record { slots = waiting ∷ []; head = 0; tail = 0; len = 1 };
  sink = new_storage;
  drain_scratch = replicate 128 empty_record;
}

full-IsValid : IsValid 1 storage stored [] full (waiting ∷ [])
unfolding new_storage
full-IsValid = record {
  ring = record {
    sized = refl;
    head = omega arith;
    tail = refl;
    counted = refl;
    within = omega arith;
    stored = (refl, tt);
  };
  queued = (refl, refl);
  scratch = refl;
  fresh = [];
  logged = refl;
  numbered = refl;
}

spend_charges_unlogged_example :
    let (m, j, answer) =
      execute_transaction 1 manager full 9 (currency_spend 7 100 false) 100 wallet 20 in
    (a' : AccountState) × (answer ≡ err wal_buffer_full)
    × (j ≡ full)
    × (m.accounts 7 ≡ some a')
    × (balance false a' + 100 ≡ balance false (account 7 500))
    × SameBut false a' (account 7 500)
    × (m.executed_txs 9 ≡ none)
unfolding validate_mutation validate_in validate_slot is_for is_valid_at expires_at locks balance
spend_charges_unlogged_example =
    spend_charges_unlogged 1 storage stored [] (waiting ∷ []) manager full 9 7 100 false 100 wallet
      20 (account 7 500) full-IsValid (omega arith) (omega arith) refl refl refl refl (omega arith)
