-- ===== src/Wal/Tests.antt =====
-- Tests of the write-ahead journal, and its theorems at concrete journals.
use eidolon.Base.{
  ℕ, ◌≡◌, refl, true, false, List, [], ◌∷◌, ◌++◌, arith, ok, err, replicate, length, take, drop,
  to_be, from_be, from_be_acc,
}
use eidolon.Error.{wal_storage_unavailable, wal_checksum_mismatch}
use eidolon.Wal.Record.{
  WalRecord, empty_record, compute_adler32, adler_loop, compute_checksum, header_bytes,
  record_bytes, encode, decode, parsed,
}
use eidolon.Wal.WellFormed.{IsWellFormed}
use eidolon.Wal.RoundTrip.{decode-encode}
use eidolon.Wal.Ring.{RingState, peek_batch, peek_items}
use eidolon.Wal.Queue.{Represents}
use eidolon.Wal.Journal.{
  DurableWalSink, WriteAheadJournal, new_journal, flush_loop, finish, flush_pending, is_flushed,
}
use eidolon.Wal.Pipeline.{LogLaws, IsValid}
use eidolon.Wal.Flush.{Flushed, flush_pending-Flushed}
use eidolon.Wal.Fsync.{flush_pending_fsync}
use eidolon.Wal.Storage.{
  MockDurableStorage, new_storage, set_available, storage, stored, storage-LogLaws, write_batch,
}
use eidolon.Wal.History.{Numbered, appends, flushes, outage, run, run-new_journal-Numbered}

-- The checksum of "Wikipedia" that the literature gives.
adler_test : compute_adler32 (87 ∷ 105 ∷ 107 ∷ 105 ∷ 112 ∷ 101 ∷ 100 ∷ 105 ∷ 97 ∷ []) ≡ 0x11E60398
unfolding compute_adler32 adler_loop
adler_test = refl

-- A record of five bytes.
abbrev five : List ℕ
five = 0xAA ∷ 0xBB ∷ 0xCC ∷ 0xDD ∷ 0xEE ∷ []

abbrev spawn : WalRecord
spawn = record {
  lsn = 1;
  tick = 10;
  account_id = 100;
  entity_id = 5;
  opcode = 1;
  payload_len = 4;
  payload = 1 ∷ 2 ∷ 3 ∷ 4 ∷ replicate 124 0;
  checksum = 58982513;
}

spawn-IsWellFormed : IsWellFormed spawn
unfolding compute_checksum compute_adler32 adler_loop header_bytes to_be
spawn-IsWellFormed = record {
  lsn = omega arith;
  tick = omega arith;
  account_id = omega arith;
  entity_id = omega arith;
  payload_len = omega arith;
  padded = refl;
  sized = refl;
  checked = refl;
  checksum = omega arith;
}

decode-encode_example :
    (out' : List ℕ) × (encode spawn (replicate 128 0) ≡ ok (out', 38))
    × (length out' ≡ 128)
    × (decode out' ≡ ok (spawn, 38))
decode-encode_example = decode-encode spawn (replicate 128 0) spawn-IsWellFormed (omega arith)

-- A byte changed on the way.
corrupted :
    decode (take 30 (record_bytes spawn) ++ (0xFE ∷ drop 31 (record_bytes spawn)))
    ≡ err (wal_checksum_mismatch 58982513 126878066)
unfolding decode parsed record_bytes compute_checksum compute_adler32 adler_loop header_bytes to_be
    from_be from_be_acc
corrupted = refl

abbrev numbered : ℕ → WalRecord
numbered n = record {
  lsn = n;
  tick = n;
  account_id = 100;
  entity_id = 5;
  opcode = 1;
  payload_len = 0;
  payload = replicate 128 0;
  checksum = 0;
}

-- A full ring of two records whose head is its second slot.
abbrev full_ring : RingState
full_ring = record { slots = numbered 2 ∷ numbered 1 ∷ []; head = 1; tail = 1; len = 2 }

abbrev both : List WalRecord
both = numbered 1 ∷ numbered 2 ∷ []

full_ring-Represents : Represents 2 full_ring both
full_ring-Represents = record {
  sized = refl;
  head = omega arith;
  tail = refl;
  counted = refl;
  within = omega arith;
  stored = (refl, (refl, tt));
}

-- A journal with these two records in its queue.
abbrev waiting : (S : Type 0) → S → WriteAheadJournal S
waiting S sink = record {
  current_lsn = 2;
  durable_lsn = 0;
  ring_buffer = full_ring;
  sink = sink;
  drain_scratch = replicate 128 empty_record;
}

waiting-IsValid :
    (S : Type 0) (ops : DurableWalSink S) (log : S → List WalRecord) (s : S)
    → log s ≡ []
    → IsValid 2 ops log [] (waiting S s) both
waiting-IsValid S ops log s h = record {
  ring = full_ring-Represents;
  queued = (refl, (refl, refl));
  scratch = refl;
  fresh = [];
  logged = h;
  numbered = refl;
}

flush_pending-Flushed_example :
    Flushed 2 storage stored []
      (waiting MockDurableStorage new_storage)
      both
      0
      (flush_pending 2 storage (waiting MockDurableStorage new_storage))
unfolding new_storage
flush_pending-Flushed_example =
    flush_pending-Flushed 2 storage stored [] storage-LogLaws
      (waiting MockDurableStorage new_storage) both
      (waiting-IsValid MockDurableStorage storage stored new_storage refl)

-- During an outage nothing is written and the records stay.
outage_keeps :
    let (j, answer) =
      flush_pending 2 storage (waiting MockDurableStorage (set_available new_storage false)) in
    (answer ≡ err wal_storage_unavailable) × (j.ring_buffer ≡ full_ring) × (j.durable_lsn ≡ 0)
unfolding flush_pending finish flush_loop peek_batch peek_items write_batch set_available
    new_storage
outage_keeps = (refl, refl, refl)

-- A sink that takes every batch and whose fsync fails.
abbrev no_fsync : DurableWalSink (List WalRecord)
no_fsync = record {
  write_batch = λ s batch. (s ++ batch, ok tt);
  flush = λ s. (s, err wal_storage_unavailable);
}

no_fsync-LogLaws : LogLaws no_fsync (λ s. s)
no_fsync-LogLaws = record {
  accepted = λ s batch h. refl;
  refused = λ s batch e h. absurd (ground (arith, h));
  synced = λ s. refl;
}

flush_pending_fsync_example :
    let (j, answer) = flush_pending 2 no_fsync (waiting (List WalRecord) []) in
    (answer ≡ err wal_storage_unavailable) × (j.ring_buffer.len ≡ 0) × (is_flushed j 2 ≡ true)
flush_pending_fsync_example =
    flush_pending_fsync 2 no_fsync (λ s. s) [] no_fsync-LogLaws (waiting (List WalRecord) []) both
      wal_storage_unavailable (waiting-IsValid (List WalRecord) no_fsync (λ s. s) [] refl)
      (omega arith) (λ s batch. refl) (λ s. refl)

run-new_journal-Numbered_example : Numbered 2 (
    run 2
      (new_journal 2 new_storage)
      (appends 1 100 5 1 five ∷ outage false ∷ flushes ∷ outage true ∷ flushes ∷ []))
run-new_journal-Numbered_example =
    run-new_journal-Numbered 2
      (appends 1 100 5 1 five ∷ outage false ∷ flushes ∷ outage true ∷ flushes ∷ []) (omega arith)
      (omega arith)
