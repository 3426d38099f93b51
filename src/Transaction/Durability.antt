-- ===== src/Transaction/Durability.antt =====
-- `execute_transaction_with_durability` of crates/eidolon-world/src/transaction.rs.
use eidolon.Base.{
  ℕ, ◌+◌, ◌≤◌, ◌<◌, ◌≡◌, ◌≢◌, take, take_all, sym, ap, ◌∙◌, inl, inr, true, List, [], ◌++◌, ◌∷◌, ok,
  arith, length, ltb, suc, Bool-cases, length-append, drop, length-drop, u64_max, Result-cases,
}
use eidolon.Lock.{LockToken}
use eidolon.Wal.Record.{WalRecord}
use eidolon.Wal.Journal.{
  DurableWalSink, WriteAheadJournal, flush_loop, finish, flush_pending, is_flushed,
}
use eidolon.Wal.Lsns.{Lsns-length}
use eidolon.Wal.Pipeline.{LogLaws, DiskLaws, IsValid}
use eidolon.Wal.Flush.{flush_pending-Flushed}
use eidolon.Wal.Append.{append-Appended}
use eidolon.Transaction.{TransactionManager, TransactionOp}
use eidolon.Transaction.Execute.{
  CommitDurability, in_memory_buffered, is_transaction_durable, perform, execute_transaction,
  execute_transaction_with_durability,
}
use eidolon.Transaction.Admission.{execute_transaction_cases, execute-entered}
use eidolon.Transaction.Logging.{fails, logged, perform-Logs}

module _ {S : Type 0} (cap : ℕ) (ops : DurableWalSink S) (log : S → List WalRecord)
    (base q : List WalRecord) where
  -- The journal of a transaction that succeeded is valid, and the answer is its newest number.
  execute-IsValid :
      (m m' : TransactionManager) (j j' : WriteAheadJournal S) (tx_id : ℕ) (op : TransactionOp)
      (session : ℕ) (token : LockToken) (tick lsn : ℕ)
      → IsValid cap ops log base j q
      → j.current_lsn < u64_max
      → execute_transaction cap m j tx_id op session token tick ≡ (m', j', ok lsn)
      → (r : WalRecord) × IsValid cap ops log base j' (q ++ (r ∷ []))
        × (j'.current_lsn ≡ lsn)
        × (j'.sink ≡ j.sink)
  execute-IsValid m m' j j' tx_id op session token tick lsn v more h =
      elim (execute_transaction_cases cap m j tx_id op session token tick) [
        | inl (r, _) ↦ absurd (ground (arith, h, r))
        | inr (inl (e, _, r, _)) ↦ absurd (ground (arith, h, r))
        | inr (inr (inl (e, _, r, _, _))) ↦ absurd (ground (arith, h, r))
        | inr (inr (inr (n, done, r, _, _))) ↦
            let same : (perform cap m j op token tick).1 ≡ j' = ap (λ x. x.1) (sym r ∙ h) in
            let lsn_same : n ≡ lsn = ground (arith, r, h) in
            elim (perform-Logs cap j m op token tick) [
              | fails e failed ↦ absurd (ground (arith, failed, done))
              | logged t account_id opcode payload journal answer ↦
                  elim (append-Appended cap ops log base j q t account_id 0 opcode payload v more) [
                    | inl (x, _, _, fine, next, kept, valid) ↦
                        let here = sym same ∙ journal in
                        let current = ap (λ k. k.current_lsn) here in
                        let number = sym done ∙ answer ∙ fine in
                        (
                          x,
                          rw (← journal, same) at valid,
                          ground (arith, current, next, number, lsn_same),
                          ap (λ k. k.sink) here ∙ kept,
                        )
                    | inr (inl (_, failed)) ↦ absurd (ground (arith, failed, answer, done))
                    | inr (inr (_, failed)) ↦ absurd (ground (arith, failed, answer, done))
                  ]
            ]
      ]

  -- What a call that syncs the journal is, when it succeeds.
  synced_cases :
      (m m' : TransactionManager) (j j' : WriteAheadJournal S) (tx_id : ℕ) (op : TransactionOp)
      (session : ℕ) (token : LockToken) (tick lsn : ℕ) (durability : CommitDurability)
      → durability ≢ in_memory_buffered
      → execute_transaction_with_durability cap ops m j tx_id op session token tick durability
        ≡ (m', j', ok lsn)
      → (k : WriteAheadJournal S) × (total : ℕ) × (execute_transaction cap m j tx_id op session
            token tick
          ≡ (m', k, ok lsn))
        × (flush_pending cap ops k ≡ (j', ok total))
  unfolding execute_transaction_with_durability
  synced_cases m m' j j' tx_id op session token tick lsn durability ne h =
      let (m1, k, executed) = execute_transaction cap m j tx_id op session token tick in
      elim (Result-cases (execute_transaction cap m j tx_id op session token tick).2) [
        | inr (e, failed) ↦ absurd (ground (arith, h, failed))
        | inl (n, done) ↦ elim (Result-cases (flush_pending cap ops k).1) [
          | inr (e, failed) ↦ absurd (ground (arith, h, done, failed, ne))
          | inl (total, fine) ↦
              (k, total, ground (arith, h, done, fine, ne), ground (arith, h, done, fine, ne))
        ]
      ]

  -- A flush of the journal that succeeds and has written something ends with one of the sink.
  flush_pending_last :
      (k j' : WriteAheadJournal S) (total : ℕ)
      → flush_pending cap ops k ≡ (j', ok total)
      → 0 < total
      → (s : S) × ((ops.flush s).1 ≡ ok tt) × ((ops.flush s).0 ≡ j'.sink)
  unfolding flush_pending finish
  flush_pending_last k j' total h pos =
      let (d, drained) = flush_loop cap ops (suc k.ring_buffer.len) k 0 in
      elim (Result-cases (flush_loop cap ops (suc k.ring_buffer.len) k 0).1) [
        | inr (e, failed) ↦ absurd (ground (arith, h, failed))
        | inl (n, done) ↦ elim (Bool-cases (ltb 0 n)) [
          | inr idle ↦ absurd (ground (arith, h, done, idle, pos))
          | inl busy ↦ elim (Result-cases (ops.flush d.sink).1) [
            | inr (e, failed) ↦ absurd (ground (arith, h, done, busy, failed))
            | inl (u, fine) ↦ (d.sink, fine, ground (arith, h, done, busy, fine))
          ]
        ]
      ]

  -- So that all of the log of the sink is then on its disk.
  flush_pending_on_disk :
      (disk : S → List WalRecord) (k j' : WriteAheadJournal S) (total : ℕ)
      → LogLaws ops log
      → DiskLaws ops log disk
      → flush_pending cap ops k ≡ (j', ok total)
      → 0 < total
      → disk j'.sink ≡ log j'.sink
  flush_pending_on_disk disk k j' total laws disk_laws h pos =
      let (s, fine, last) = flush_pending_last k j' total h pos in
      ap disk (sym last) ∙ disk_laws.flushed s fine ∙ sym (laws.synced s) ∙ ap log last

  -- A transaction with a durability other than in-memory that succeeds on a valid journal whose numbers
  -- are not used up, over a sink with a log and a disk that obey the laws, is durable at its return: the
  -- journal answers so, the queue is empty, the log of the sink has grown by the records that were waiting
  -- and one more, and all of that log is on the disk.
  pub synced_transaction_durable :
      (m m' : TransactionManager) (j j' : WriteAheadJournal S) (tx_id : ℕ) (op : TransactionOp)
      (session : ℕ) (token : LockToken) (tick lsn : ℕ) (durability : CommitDurability)
      (disk : S → List WalRecord)
      → LogLaws ops log
      → DiskLaws ops log disk
      → IsValid cap ops log base j q
      → j.current_lsn < u64_max
      → durability ≢ in_memory_buffered
      → execute_transaction_with_durability cap ops m j tx_id op session token tick durability
        ≡ (m', j', ok lsn)
      → (is_transaction_durable m' tx_id j' ≡ true)
        × (j'.ring_buffer.len ≡ 0)
        × ((r : WalRecord) × (log j'.sink ≡ log j.sink ++ (q ++ (r ∷ [])))
            × (disk j'.sink ≡ log j.sink ++ (q ++ (r ∷ []))))
  unfolding is_transaction_durable is_flushed
  synced_transaction_durable m m' j j' tx_id op session token tick lsn durability disk laws
        disk_laws v more ne h =
      let (k, total, executed, flushed) =
        synced_cases m m' j j' tx_id op session token tick lsn durability ne h in
      let (r, valid, newest, kept) =
        execute-IsValid m m' j k tx_id op session token tick lsn v more executed in
      let f = flush_pending-Flushed cap ops log base laws k (q ++ (r ∷ [])) valid in
      let entered = execute-entered cap m m' j k tx_id op session token tick lsn executed in
      let j1 = (flush_pending cap ops k).0 in
      let here : j1 ≡ j' = ap (λ x. x.0) flushed in
      let all : f.count ≡ length (q ++ (r ∷ [])) = elim f.answer [
        | inl (_, all) ↦ all
        | inr (e, failed) ↦ absurd (ground (arith, failed, flushed))
      ] in
      let empty = length-drop f.count (q ++ (r ∷ [])) in
      let lsns =
        Lsns-length j1.durable_lsn (drop f.count (q ++ (r ∷ []))) j1.current_lsn f.valid.queued in
      let durable : j1.durable_lsn ≡ j'.durable_lsn = ap (λ x. x.durable_lsn) here in
      let reached : lsn ≤ j'.durable_lsn =
        omega (arith, newest, f.current, lsns, empty, all, durable) in
      let grown =
        ap (λ x. log x.sink) (sym here)
        ∙ f.grown
        ∙ ap (λ s. log s ++ take f.count (q ++ (r ∷ []))) kept
        ∙ ap (λ l. log j.sink ++ l) (take_all f.count (q ++ (r ∷ [])) (omega (arith, all))) in
      let size = length-append q (r ∷ []) in
      let busy : 0 < total = elim f.answer [
        | inl (fine, _) ↦
            let counted : total ≡ 0 + f.count = ground (arith, flushed, fine) in
            omega (arith, counted, all, size)
        | inr (e, failed) ↦ absurd (ground (arith, failed, flushed))
      ] in
      (
        ground (arith, entered, reached),
        ap (λ x. x.ring_buffer.len) (sym here) ∙ omega (arith, f.valid.ring.counted, empty, all),
        (r, grown, flush_pending_on_disk disk k j' total laws disk_laws flushed busy ∙ grown),
      )
