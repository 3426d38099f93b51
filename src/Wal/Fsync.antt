-- ===== src/Wal/Fsync.antt =====
-- `flush_pending` of crates/eidolon-world/src/wal.rs over a sink whose `flush` fails: the records count
-- as flushed all the same.
use eidolon.Base.{
  ℕ, zero, suc, ◌+◌, ◌<◌, ◌≡◌, ap, ◌∙◌, inl, inr, min, true, List, [], ◌∷◌, ok, err, arith, length,
  take, drop, length-drop,
}
use eidolon.Error.{WorldError}
use eidolon.Wal.Record.{WalRecord}
use eidolon.Wal.Journal.{
  DurableWalSink, WriteAheadJournal, is_flushed, flush_loop, finish, flush_pending,
}
use eidolon.Wal.Lsns.{Lsns-length}
use eidolon.Wal.Pipeline.{LogLaws, IsValid, advanced, advanced-IsValid}
use eidolon.Wal.Flush.{turn_end, turn_ok, flush_loop-Flushed}

module _ {S : Type 0} (cap : ℕ) (ops : DurableWalSink S) (log : S → List WalRecord)
    (base : List WalRecord) (laws : LogLaws ops log) where
  -- The loop never fails over a sink that takes every batch.
  loop_ok :
      (accepts : (s : S) (batch : List WalRecord) → (ops.write_batch s batch).1 ≡ ok tt) (fuel : ℕ)
      (j : WriteAheadJournal S) (total : ℕ) (q : List WalRecord)
      → IsValid cap ops log base j q
      → length q < fuel
      → (flush_loop cap ops fuel j total).1 ≡ ok (total + length q)
  loop_ok accepts zero j total q v lt = absurd (omega arith)
  loop_ok accepts (suc fuel) j total [] v lt =
      rw (turn_end cap ops log base fuel j total v) (ap ok (omega arith))
  loop_ok accepts (suc fuel) j total (r ∷ rs) v lt =
      let q = r ∷ rs in
      let n = min 128 (length q) in
      let s = (ops.write_batch j.sink (take n q)).0 in
      let written = accepts j.sink (take n q) in
      let v' =
        advanced-IsValid cap ops log base j q s v (laws.accepted j.sink (take n q) written) in
      rw (turn_ok cap ops log base fuel j total q s v (omega arith) (ap (λ w. (s, w)) written)) (
        loop_ok accepts fuel (advanced cap ops log base j q s) (total + n) (drop n q) v'
          (omega (arith, length-drop n q, lt))
        ∙ ap ok (omega (arith, length-drop n q)))

  -- Over a sink with a log that obeys the laws, which takes every batch and whose `flush` fails, a flush of
  -- a valid journal with
  -- records in its queue reports the failure, but the queue is empty afterwards, and every number
  -- assigned so far counts as flushed.
  pub flush_pending_fsync :
      (j : WriteAheadJournal S) (q : List WalRecord) (e : WorldError)
      → IsValid cap ops log base j q
      → 0 < length q
      → ((s : S) (batch : List WalRecord) → (ops.write_batch s batch).1 ≡ ok tt)
      → ((s : S) → (ops.flush s).1 ≡ err e)
      → let (j', answer) = flush_pending cap ops j in
        (answer ≡ err e) × (j'.ring_buffer.len ≡ 0) × (is_flushed j' j.current_lsn ≡ true)
  unfolding flush_pending finish is_flushed
  flush_pending_fsync j q e v pos accepts fails =
      let fuel = suc j.ring_buffer.len in
      let f =
        flush_loop-Flushed cap ops log base laws fuel j 0 q v (omega (arith, v.ring.counted)) in
      let done = loop_ok accepts fuel j 0 q v (omega (arith, v.ring.counted)) in
      let j' = (flush_loop cap ops fuel j 0).0 in
      let all : f.count ≡ length q = elim f.answer [
        | inl (fine, all) ↦ all
        | inr (x, failed) ↦ absurd (ground (arith, done, failed))
      ] in
      let empty = f.valid.ring.counted in
      ground (
        arith,
        done,
        fails j'.sink,
        all,
        empty,
        f.current,
        length-drop f.count q,
        Lsns-length j'.durable_lsn (drop f.count q) j'.current_lsn f.valid.queued,
      )
