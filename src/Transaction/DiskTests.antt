-- ===== src/Transaction/DiskTests.antt =====
-- A synced transaction over a sink with a disk, for the durability of crates/eidolon-world/src/transaction.rs.
use eidolon.Base.{List, ◌++◌, ℕ, ◌≡◌, refl, true, [], ◌∷◌, arith, replicate, ok, Result, to_be}
use eidolon.Error.{WorldError}
use eidolon.Lock.{is_for, is_valid_at, expires_at, validate_mutation, validate_in, validate_slot}
use eidolon.Account.{balance, debit_currency, credit_currency}
use eidolon.Wal.Record.{WalRecord, empty_record, new_record}
use eidolon.Wal.Ring.{try_push, peek_batch, peek_items, advance_head}
use eidolon.Wal.Journal.{
  DurableWalSink, WriteAheadJournal, append, raised, flush_loop, finish, flush_pending,
}
use eidolon.Wal.Pipeline.{LogLaws, DiskLaws, IsValid}
use eidolon.Transaction.{
  TransactionManager, put_account, locks, log_change, transfer, move_currency,
}
use eidolon.Transaction.Execute.{
  local_disk_fsync, is_transaction_durable, perform, execute_transaction,
  execute_transaction_with_durability,
}
use eidolon.Transaction.Durability.{synced_transaction_durable}
use eidolon.Transaction.Tests.{wallet, manager, pay}

-- A file: what has been written to it, and what of that is on the disk.
abbrev File : Type 0
File = List WalRecord × List WalRecord

abbrev file : DurableWalSink File
file = record {
  write_batch = λ s batch. ((s.0 ++ batch, s.1), ok tt);
  flush = λ s. ((s.0, s.0), ok tt);
}

abbrev written : File → List WalRecord
written s = s.0

abbrev on_disk : File → List WalRecord
on_disk s = s.1

file-LogLaws : LogLaws file written
file-LogLaws = record {
  accepted = λ s batch h. refl;
  refused = λ s batch e h. absurd (ground (arith, h));
  synced = λ s. refl;
}

file-DiskLaws : DiskLaws file written on_disk
file-DiskLaws = record { flushed = λ s h. refl }

abbrev file_journal : WriteAheadJournal File
file_journal = record {
  current_lsn = 0;
  durable_lsn = 0;
  ring_buffer = record { slots = replicate 2 empty_record; head = 0; tail = 0; len = 0 };
  sink = ([], []);
  drain_scratch = replicate 128 empty_record;
}

file_journal-IsValid : IsValid 2 file written [] file_journal []
file_journal-IsValid = record {
  ring = record {
    sized = refl;
    head = omega arith;
    tail = refl;
    counted = refl;
    within = omega arith;
    stored = tt;
  };
  queued = refl;
  scratch = refl;
  fresh = [];
  logged = refl;
  numbered = refl;
}

abbrev synced : TransactionManager × WriteAheadJournal File × Result WorldError ℕ
synced =
    execute_transaction_with_durability 2 file manager file_journal 9 pay 100 wallet 20
      local_disk_fsync

synced_ok : synced.2 ≡ ok 1
unfolding to_be execute_transaction_with_durability execute_transaction perform transfer
    move_currency locks balance debit_currency credit_currency put_account log_change append
    new_record try_push validate_mutation validate_in validate_slot is_for is_valid_at expires_at
    flush_pending finish flush_loop peek_batch peek_items advance_head raised
synced_ok = refl

synced_transaction_durable_example :
    (is_transaction_durable synced.0 9 synced.1 ≡ true)
    × (synced.1.ring_buffer.len ≡ 0)
    × ((r : WalRecord) × (written synced.1.sink ≡ [] ++ ([] ++ (r ∷ [])))
        × (on_disk synced.1.sink ≡ [] ++ ([] ++ (r ∷ []))))
synced_transaction_durable_example =
    synced_transaction_durable 2 file written [] [] manager synced.0 file_journal synced.1 9 pay 100
      wallet 20 1 local_disk_fsync on_disk file-LogLaws file-DiskLaws file_journal-IsValid
      (omega arith) (λ h. absurd (ground (arith, h))) (λ i. (synced.0, synced.1, synced_ok i))
