-- ===== src/Wal/History.antt =====
-- Histories of a journal of crates/eidolon-world/src/wal.rs over the mock storage, with outages.
use eidolon.Base.{
  ℕ, suc, ◌+◌, ◌≤◌, ◌<◌, refl, ap, inl, inr, Bool, List, [], ◌∷◌, ◌++◌, arith, length, drop,
  length-replicate, u64_max,
}
use eidolon.Wal.Record.{WalRecord, empty_record}
use eidolon.Wal.Queue.{Represents, new_ring-Represents}
use eidolon.Wal.Journal.{WriteAheadJournal, new_journal, append, flush_pending}
use eidolon.Wal.Lsns.{Lsns, Lsns-append}
use eidolon.Wal.Pipeline.{IsValid}
use eidolon.Wal.Flush.{flush_pending-Flushed, stalled-IsValid}
use eidolon.Wal.Append.{append-Appended}
use eidolon.Wal.Storage.{
  MockDurableStorage, new_storage, set_available, storage, stored, storage-LogLaws,
}

pub data Call : Type 0 where
  -- tick, account_id, entity_id, opcode, payload
  appends : ℕ → ℕ → ℕ → ℕ → List ℕ → Call
  flushes : Call
  outage : Bool → Call

abbrev pub Journal : Type 0
Journal = WriteAheadJournal MockDurableStorage

module _ (cap : ℕ) where
  unfoldable pub step : Journal → Call → Journal
  step j (appends tick account_id entity_id opcode payload) =
      (append cap j tick account_id entity_id opcode payload).0
  step j flushes = (flush_pending cap storage j).0
  step j (outage available) = record j { sink = set_available j.sink available }

  unfoldable pub run : Journal → List Call → Journal
  run j [] = j
  run j (c ∷ cs) = run (step j c) cs

  -- What a journal and its storage are at any time: the stored records and those in the queue carry the
  -- numbers from 1 to `current_lsn` in this order, and the stored ones are those up to `durable_lsn`.
  pub record Numbered (j : Journal) : Type 0 where
    pub queue : List WalRecord
    pub ring : Represents cap j.ring_buffer queue
    pub all : Lsns 0 (j.sink.records ++ queue) j.current_lsn
    pub durable : Lsns 0 j.sink.records j.durable_lsn

  new_journal-IsValid : 0 < cap → IsValid cap storage stored [] (new_journal cap new_storage) []
  unfolding new_journal new_storage
  new_journal-IsValid pos = record {
    ring = new_ring-Represents cap pos;
    queued = refl;
    scratch = length-replicate 128 empty_record;
    fresh = [];
    logged = refl;
    numbered = refl;
  }

  new_journal_lsn : (new_journal cap new_storage).current_lsn ≤ 0
  unfolding new_journal
  new_journal_lsn = omega arith

  step-IsValid :
      (j : Journal) (c : Call) (q : List WalRecord) (n : ℕ)
      → IsValid cap storage stored [] j q
      → j.current_lsn ≤ n
      → n < u64_max
      → (q' : List WalRecord) × IsValid cap storage stored [] (step j c) q'
        × ((step j c).current_lsn ≤ suc n)
  unfolding step set_available
  step-IsValid j (appends tick account_id entity_id opcode payload) q n v small more =
      elim (append-Appended cap storage stored [] j q tick account_id entity_id opcode payload v
        (omega arith)) [
          | inl (r, made, room, fine, next, kept, v') ↦ (q ++ (r ∷ []), v', omega (arith, next))
          | inr (inl (long, same)) ↦
              (q, rw (same, step) v, omega (arith, ap (λ x. x.0.current_lsn) same))
          | inr (inr (full, same)) ↦
              (q, rw (same, step) v, omega (arith, ap (λ x. x.0.current_lsn) same))
        ]
  step-IsValid j flushes q n v small more =
      let f = flush_pending-Flushed cap storage stored [] storage-LogLaws j q v in
      (drop f.count q, f.valid, omega (arith, f.current))
  step-IsValid j (outage available) q n v small more = (
    q,
    stalled-IsValid cap storage stored [] j q j.drain_scratch (set_available j.sink available) v
        refl v.scratch,
    omega arith,
  )

  run-IsValid :
      (cs : List Call) (j : Journal) (q : List WalRecord) (n : ℕ)
      → IsValid cap storage stored [] j q
      → j.current_lsn ≤ n
      → n + length cs ≤ u64_max
      → (q' : List WalRecord) × IsValid cap storage stored [] (run j cs) q'
  unfolding run
  run-IsValid [] j q n v small fits = (q, v)
  run-IsValid (c ∷ cs) j q n v small fits =
      let (q', v', small') = step-IsValid j c q n v small (omega arith) in
      run-IsValid cs (step j c) q' (suc n) v' small' (omega arith)

  -- After any history of appends, flushes and outages, of at most as many calls as there are numbers,
  -- on a new journal of positive capacity over a new storage: the ring buffer holds a queue, the stored
  -- records followed by the queue carry the numbers from 1 to `current_lsn` without a gap, and the
  -- stored ones alone those up to `durable_lsn`.
  pub run-new_journal-Numbered :
      (cs : List Call)
      → 0 < cap
      → length cs ≤ u64_max
      → Numbered (run (new_journal cap new_storage) cs)
  run-new_journal-Numbered cs pos fits =
      let (q, v) =
        run-IsValid cs (new_journal cap new_storage) [] 0 (new_journal-IsValid pos) new_journal_lsn
          (omega arith) in
      record {
        queue = q;
        ring = v.ring;
        all = rw v.logged (
            Lsns-append 0 (run (new_journal cap new_storage) cs).durable_lsn v.fresh q
              (run (new_journal cap new_storage) cs).current_lsn v.numbered v.queued);
        durable = rw v.logged v.numbered;
      }
