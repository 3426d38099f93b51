-- ===== src/Wal/Journal.antt =====
-- `DurableWalSink` and `WriteAheadJournal` of crates/eidolon-world/src/wal.rs. The trait's two
-- operations on a sink's state are a record; the floating-point watermark is left out.
use eidolon.Base.{
  ℕ, zero, suc, ◌+◌, Bool, true, false, List, [], ◌∷◌, Option, none, some, Result, ok, err, ltb,
  leb, ◌==◌, if◌then◌else◌, take, replicate, sat_add64,
}
use eidolon.Error.{WorldError}
use eidolon.Wal.Record.{WalRecord, empty_record, new_record}
use eidolon.Wal.Ring.{RingState, new_ring, try_push, peek_batch, advance_head}

pub record DurableWalSink (S : Type 0) : Type 0 where
  pub write_batch : S → List WalRecord → S × Result WorldError (Unit {0})
  pub flush : S → S × Result WorldError (Unit {0})

pub record WriteAheadJournal (S : Type 0) : Type 0 where
  pub current_lsn : ℕ
  pub durable_lsn : ℕ
  pub ring_buffer : RingState
  pub sink : S
  pub drain_scratch : List WalRecord

-- `batch.last()`
abbrev pub last : List WalRecord → Option WalRecord
last [] = none
last (r ∷ []) = some r
last (r ∷ r' ∷ rs) = last (r' ∷ rs)

-- `durable_lsn` after a batch was written.
unfoldable pub raised : ℕ → List WalRecord → ℕ
raised durable_lsn batch = elim (last batch) [
  | none ↦ durable_lsn
  | some r ↦ if ltb durable_lsn r.lsn then r.lsn else durable_lsn
]

unfoldable pub is_flushed : {S : Type 0} → WriteAheadJournal S → ℕ → Bool
is_flushed j lsn = leb lsn j.durable_lsn

module _ {S : Type 0} (cap : ℕ) where
  unfoldable pub new_journal : S → WriteAheadJournal S
  new_journal sink = record {
    current_lsn = 0;
    durable_lsn = 0;
    ring_buffer = new_ring cap;
    sink = sink;
    drain_scratch = replicate 128 empty_record;
  }

  unfoldable pub append :
      WriteAheadJournal S → ℕ → ℕ → ℕ → ℕ → List ℕ → WriteAheadJournal S × Result WorldError ℕ
  append j tick account_id entity_id opcode payload_data =
      let next_lsn = sat_add64 j.current_lsn 1 in
      elim (new_record next_lsn tick account_id entity_id opcode payload_data) [
        | err e ↦ (j, err e)
        | ok r ↦
            let (s, pushed) = try_push cap j.ring_buffer r in
            elim pushed [
              | err e ↦ (record j { ring_buffer = s }, err e)
              | ok _ ↦ (record j { ring_buffer = s; current_lsn = next_lsn }, ok next_lsn)
            ]
      ]

  module _ (ops : DurableWalSink S) where
    -- The loop of `flush_pending`, on fuel; `total` is `total_flushed`.
    unfoldable pub flush_loop :
        ℕ → WriteAheadJournal S → ℕ → WriteAheadJournal S × Result WorldError ℕ
    flush_loop zero j total = (j, ok total)
    flush_loop (suc fuel) j total =
        let (scratch, count) = peek_batch cap j.ring_buffer j.drain_scratch in
        let batch = take count scratch in
        let (sink, written) = ops.write_batch j.sink batch in
        elim (count == 0) [
          | true ↦ (record j { drain_scratch = scratch }, ok total)
          | false ↦ elim written [
            | err e ↦ (record j { drain_scratch = scratch; sink = sink }, err e)
            | ok _ ↦
                flush_loop fuel
                  (record j {
                    drain_scratch = scratch;
                    sink = sink;
                    ring_buffer = advance_head cap j.ring_buffer count;
                    durable_lsn = raised j.durable_lsn batch;
                  })
                  (total + count)
          ]
        ]

    -- The end of `flush_pending`: the sink is flushed if something was written.
    unfoldable pub finish :
        WriteAheadJournal S → Result WorldError ℕ → WriteAheadJournal S × Result WorldError ℕ
    finish j (err e) = (j, err e)
    finish j (ok total) =
        let (sink, synced) = ops.flush j.sink in
        elim (ltb 0 total) [
          | false ↦ (j, ok total)
          | true ↦ elim synced [
            | err e ↦ (record j { sink = sink }, err e)
            | ok _ ↦ (record j { sink = sink }, ok total)
          ]
        ]

    -- Each turn of the loop takes a record at least, and one more turn sees the empty buffer.
    unfoldable pub flush_pending : WriteAheadJournal S → WriteAheadJournal S × Result WorldError ℕ
    flush_pending j =
        let (j', drained) = flush_loop (suc j.ring_buffer.len) j 0 in finish j' drained
