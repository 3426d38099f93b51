-- ===== src/Wal/Pipeline.antt =====
-- The journal of crates/eidolon-world/src/wal.rs over a sink that keeps a log, and one turn of the loop
-- of `flush_pending`.
use eidolon.Base.{
  ℕ, ◌+◌, ◌≡◌, ap, ◌∙◌, min, List, ◌++◌, ok, err, arith, length, take, drop, length-drop,
  length-take, take-append, append_assoc, length-append,
}
use eidolon.Error.{WorldError}
use eidolon.Wal.Record.{WalRecord}
use eidolon.Wal.Ring.{peek_batch, advance_head}
use eidolon.Wal.Queue.{Represents, peek_batch-take, advance_head-Represents}
use eidolon.Wal.Lsns.{Lsns, Lsns-split, Lsns-append, raised-Lsns}
use eidolon.Wal.Journal.{DurableWalSink, WriteAheadJournal, raised}

module _ {S : Type 0} (ops : DurableWalSink S) where
  -- What the journal relies on of a sink: its log grows by a batch that it accepts, and by nothing else.
  pub record LogLaws (log : S → List WalRecord) : Type 0 where
    pub accepted :
        (s : S) (batch : List WalRecord)
        → (ops.write_batch s batch).1 ≡ ok tt
        → log (ops.write_batch s batch).0 ≡ log s ++ batch
    pub refused :
        (s : S) (batch : List WalRecord) (e : WorldError)
        → (ops.write_batch s batch).1 ≡ err e
        → log (ops.write_batch s batch).0 ≡ log s
    pub synced : (s : S) → log (ops.flush s).0 ≡ log s

  -- What a caller relies on of `flush`, the fsync: when it succeeds, all of the log is on the disk.
  pub record DiskLaws (log disk : S → List WalRecord) : Type 0 where
    pub flushed : (s : S) → (ops.flush s).1 ≡ ok tt → disk (ops.flush s).0 ≡ log s

module _ {S : Type 0} (cap : ℕ) (ops : DurableWalSink S) (log : S → List WalRecord)
    (base : List WalRecord) where
  -- A journal over a sink whose log was `base` at the start, with the queue that it holds: the log has
  -- the records numbered from 1 to `durable_lsn` after `base`, the queue those up to `current_lsn`.
  pub record IsValid (j : WriteAheadJournal S) (q : List WalRecord) : Type 0 where
    pub ring : Represents cap j.ring_buffer q
    pub queued : Lsns j.durable_lsn q j.current_lsn
    pub scratch : length j.drain_scratch ≡ 128
    pub fresh : List WalRecord
    pub logged : log j.sink ≡ base ++ fresh
    pub numbered : Lsns 0 fresh j.durable_lsn

  -- The batch that a turn of the loop reads.
  pub turn_batch :
      (j : WriteAheadJournal S) (q : List WalRecord)
      → IsValid j q
      → let n = min 128 (length q) in
        (peek_batch cap j.ring_buffer j.drain_scratch ≡ (take n q ++ drop n j.drain_scratch, n))
        × (take n (take n q ++ drop n j.drain_scratch) ≡ take n q)
        × (length (take n q ++ drop n j.drain_scratch) ≡ 128)
  turn_batch j q v =
      let n = min 128 (length q) in
      (
        peek_batch-take cap j.ring_buffer q j.drain_scratch v.ring
            ∙ ap (λ m. (take m q ++ drop m j.drain_scratch, m)) {y = n} (omega (arith, v.scratch)),
        take-append n (take n q) (drop n j.drain_scratch) (omega (arith, length-take n q)),
        omega (
          arith,
          v.scratch,
          length-append (take n q) (drop n j.drain_scratch),
          length-take n q,
          length-drop n j.drain_scratch,
        ),
      )

  -- The journal after a turn whose batch was written.
  abbrev pub advanced : WriteAheadJournal S → List WalRecord → S → WriteAheadJournal S
  advanced j q s =
      let n = min 128 (length q) in
      record j {
        drain_scratch = take n q ++ drop n j.drain_scratch;
        sink = s;
        ring_buffer = advance_head cap j.ring_buffer n;
        durable_lsn = raised j.durable_lsn (take n q);
      }

  pub advanced-IsValid :
      (j : WriteAheadJournal S) (q : List WalRecord) (s : S)
      → IsValid j q
      → log s ≡ log j.sink ++ take (min 128 (length q)) q
      → IsValid (advanced j q s) (drop (min 128 (length q)) q)
  advanced-IsValid j q s v grown =
      let n = min 128 (length q) in
      let (front, back) = Lsns-split j.durable_lsn n q j.current_lsn v.queued (omega arith) in
      let raised_to = raised-Lsns j.durable_lsn (take n q) (j.durable_lsn + n) front in
      let same : min n (length q) ≡ n = omega arith in
      record {
        ring = rw same at (advance_head-Represents cap j.ring_buffer n q v.ring);
        queued = rw raised_to back;
        scratch = (turn_batch j q v).2;
        fresh = v.fresh ++ take n q;
        logged = grown ∙ ap (λ l. l ++ take n q) v.logged ∙ append_assoc base v.fresh (take n q);
        numbered =
            rw raised_to
              (Lsns-append 0 j.durable_lsn v.fresh (take n q) (j.durable_lsn + n) v.numbered front);
      }
