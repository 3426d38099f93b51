-- ===== src/Wal/Flush.antt =====
-- `flush_pending` of crates/eidolon-world/src/wal.rs: no record is lost, none is written twice, and
-- their order is kept, on every path.
use eidolon.Base.{
  ℕ, zero, suc, ◌+◌, ◌≤◌, ◌<◌, ◌≡◌, refl, sym, ap, ◌∙◌, ◌⊎◌, inl, inr, min, List, [], ◌∷◌, ◌++◌,
  Result, ok, err, arith, length, take, drop, Bool-cases, Result-cases, ltb, length-drop,
  append_assoc, append_nil, drop-drop, take-add,
}
use eidolon.Error.{WorldError}
use eidolon.Wal.Record.{WalRecord}
use eidolon.Wal.Journal.{DurableWalSink, WriteAheadJournal, finish, flush_loop, flush_pending}
use eidolon.Wal.Pipeline.{LogLaws, IsValid, turn_batch, advanced, advanced-IsValid}

module _ {S : Type 0} (cap : ℕ) (ops : DurableWalSink S) where
  -- The turns of the loop: the last one, one that fails, and one that goes on.
  pub turn_end :
      (log : S → List WalRecord) (base : List WalRecord) (fuel : ℕ) (j : WriteAheadJournal S)
      (total : ℕ)
      → IsValid cap ops log base j []
      → flush_loop cap ops (suc fuel) j total ≡ (j, ok total)
  unfolding flush_loop
  turn_end log base fuel j total v =
      let (peeked, _, _) = turn_batch cap ops log base j [] v in ground (arith, peeked)

  turn_err :
      (log : S → List WalRecord) (base : List WalRecord) (fuel : ℕ) (j : WriteAheadJournal S)
      (total : ℕ) (q : List WalRecord) (s : S) (e : WorldError)
      → IsValid cap ops log base j q
      → 0 < length q
      → ops.write_batch j.sink (take (min 128 (length q)) q) ≡ (s, err e)
      → let n = min 128 (length q) in
        flush_loop cap ops (suc fuel) j total
        ≡ (record j { drain_scratch = take n q ++ drop n j.drain_scratch; sink = s }, err e)
  unfolding flush_loop
  turn_err log base fuel j total q s e v pos written =
      let (peeked, same, _) = turn_batch cap ops log base j q v in
      ground (arith, peeked, same, written)

  pub turn_ok :
      (log : S → List WalRecord) (base : List WalRecord) (fuel : ℕ) (j : WriteAheadJournal S)
      (total : ℕ) (q : List WalRecord) (s : S)
      → IsValid cap ops log base j q
      → 0 < length q
      → ops.write_batch j.sink (take (min 128 (length q)) q) ≡ (s, ok tt)
      → flush_loop cap ops (suc fuel) j total
        ≡ flush_loop cap ops fuel (advanced cap ops log base j q s) (total + min 128 (length q))
  unfolding flush_loop
  turn_ok log base fuel j total q s v pos written =
      let (peeked, same, _) = turn_batch cap ops log base j q v in
      ground (arith, peeked, same, written)

module _ {S : Type 0} (cap : ℕ) (ops : DurableWalSink S) (log : S → List WalRecord)
    (base : List WalRecord) where
  -- The outcome of a flush of a journal that holds a queue, with `total` records flushed before: some
  -- records from the front of the queue were added to the log, and the rest is the queue of a valid
  -- journal. On success these are all, and the answer is their number.
  pub record Flushed (j : WriteAheadJournal S) (q : List WalRecord) (total : ℕ)
      (r : WriteAheadJournal S × Result WorldError ℕ) : Type 0 where
    pub count : ℕ
    pub within : count ≤ length q
    pub valid : IsValid cap ops log base r.0 (drop count q)
    pub grown : log r.0.sink ≡ log j.sink ++ take count q
    pub current : r.0.current_lsn ≡ j.current_lsn
    pub answer :
        ((r.1 ≡ ok (total + count)) × (count ≡ length q)) ⊎ ((e : WorldError) × (r.1 ≡ err e))

  -- A change of the sink alone, with its log kept, and of the scratch space.
  pub stalled-IsValid :
      (j : WriteAheadJournal S) (q rs : List WalRecord) (s : S)
      → IsValid cap ops log base j q
      → log s ≡ log j.sink
      → length rs ≡ 128
      → IsValid cap ops log base (record j { sink = s; drain_scratch = rs }) q
  stalled-IsValid j q rs s v same size = record {
    ring = v.ring;
    queued = v.queued;
    scratch = size;
    fresh = v.fresh;
    logged = same ∙ v.logged;
    numbered = v.numbered;
  }

  module _ (laws : LogLaws ops log) where
    pub flush_loop-Flushed :
        (fuel : ℕ) (j : WriteAheadJournal S) (total : ℕ) (q : List WalRecord)
        → IsValid cap ops log base j q
        → length q < fuel
        → Flushed j q total (flush_loop cap ops fuel j total)
    flush_loop-Flushed zero j total q v lt = absurd (omega arith)
    flush_loop-Flushed (suc fuel) j total [] v lt =
        rw (turn_end cap ops log base fuel j total v) (record {
          count = 0;
          within = omega arith;
          valid = v;
          grown = sym (append_nil (log j.sink));
          current = refl;
          answer = inl (ap ok (omega arith), refl);
        })
    flush_loop-Flushed (suc fuel) j total (r ∷ rs) v lt =
        let q = r ∷ rs in
        let n = min 128 (length q) in
        let s = (ops.write_batch j.sink (take n q)).0 in
        elim (Result-cases (ops.write_batch j.sink (take n q)).1) [
          | inr (e, failed) ↦
              rw
                (turn_err cap ops log base fuel j total q s e v (omega arith)
                  (ap (λ w. (s, w)) failed))
                (record {
                  count = 0;
                  within = omega arith;
                  valid =
                      stalled-IsValid j q (take n q ++ drop n j.drain_scratch) s v
                        (laws.refused j.sink (take n q) e failed)
                        (turn_batch cap ops log base j q v).2;
                  grown = laws.refused j.sink (take n q) e failed ∙ sym (append_nil (log j.sink));
                  current = refl;
                  answer = inr (e, refl);
                })
          | inl (u, written) ↦
              let grown = laws.accepted j.sink (take n q) written in
              let rest =
                flush_loop-Flushed fuel (advanced cap ops log base j q s) (total + n) (drop n q)
                  (advanced-IsValid cap ops log base j q s v grown)
                  (omega (arith, length-drop n q, lt)) in
              rw
                (turn_ok cap ops log base fuel j total q s v (omega arith)
                  (ap (λ w. (s, w)) written))
                (record {
                  count = n + rest.count;
                  within = omega (arith, rest.within, length-drop n q);
                  valid = rw (← drop-drop n rest.count q) rest.valid;
                  grown =
                      rest.grown
                      ∙ ap (λ l. l ++ take rest.count (drop n q)) grown
                      ∙ append_assoc (log j.sink) (take n q) (take rest.count (drop n q))
                      ∙ ap (λ l. log j.sink ++ l) (take-add n rest.count q);
                  current = rest.current;
                  answer = elim rest.answer [
                    | inl (fine, all) ↦
                        inl (fine ∙ ap ok (omega arith), omega (arith, all, length-drop n q))
                    | inr failed ↦ inr failed
                  ];
                })
        ]

    -- Flushing the sink changes neither log nor queue.
    synced-Flushed :
        (j : WriteAheadJournal S) (q : List WalRecord) (j' : WriteAheadJournal S) (total : ℕ)
        (r : Result WorldError ℕ)
        → (f : Flushed j q 0 (j', ok total)) → (r ≡ ok total) ⊎ ((e : WorldError) × (r ≡ err e))
        → Flushed j q 0 (record j' { sink = (ops.flush j'.sink).0 }, r)
    synced-Flushed j q j' total r f which = record {
      count = f.count;
      within = f.within;
      valid =
          stalled-IsValid j' (drop f.count q) j'.drain_scratch (ops.flush j'.sink).0 f.valid
            (laws.synced j'.sink) f.valid.scratch;
      grown = laws.synced j'.sink ∙ f.grown;
      current = f.current;
      answer = elim which [
        | inr failed ↦ inr failed
        | inl fine ↦ elim f.answer [
          | inl (same, all) ↦ inl (fine ∙ same, all)
          | inr (e, wrong) ↦ absurd (ground (arith, wrong))
        ]
      ];
    }

    finish-Flushed :
        (j : WriteAheadJournal S) (q : List WalRecord) (j' : WriteAheadJournal S)
        (r : Result WorldError ℕ)
        → Flushed j q 0 (j', r)
        → Flushed j q 0 (finish cap ops j' r)
    unfolding finish
    finish-Flushed j q j' (err e) f = f
    finish-Flushed j q j' (ok total) f =
        let synced = record j' { sink = (ops.flush j'.sink).0 } in
        elim (Bool-cases (ltb 0 total)) [
          | inr idle ↦
              let e : finish cap ops j' (ok total) ≡ (j', ok total) = ground (arith, idle) in rw e f
          | inl busy ↦ elim (Result-cases (ops.flush j'.sink).1) [
            | inl (u, fine) ↦
                let e : finish cap ops j' (ok total) ≡ (synced, ok total) =
                  ground (arith, busy, fine) in
                rw e (synced-Flushed j q j' total (ok total) f (inl refl))
            | inr (x, failed) ↦
                let e : finish cap ops j' (ok total) ≡ (synced, err x) =
                  ground (arith, busy, failed) in
                rw e (synced-Flushed j q j' total (err x) f (inr (x, refl)))
          ]
        ]

    -- A flush of a valid journal over a sink with a log that obeys the laws, whatever the sink answers:
    -- some records from the front of the queue are added to the log, in their order and none of them
    -- twice, and the rest is the queue of a valid journal with the same `current_lsn`. If the answer is a
    -- number, it is that of the records added, and these are all.
    pub flush_pending-Flushed :
        (j : WriteAheadJournal S) (q : List WalRecord)
        → IsValid cap ops log base j q
        → Flushed j q 0 (flush_pending cap ops j)
    unfolding flush_pending
    flush_pending-Flushed j q v =
        let drained =
          flush_loop-Flushed (suc j.ring_buffer.len) j 0 q v (omega (arith, v.ring.counted)) in
        finish-Flushed j q (flush_loop cap ops (suc j.ring_buffer.len) j 0).0
          (flush_loop cap ops (suc j.ring_buffer.len) j 0).1 drained
