-- ===== src/Wal/Append.antt =====
-- `append` of crates/eidolon-world/src/wal.rs.
use eidolon.Base.{
  ℕ, ◌+◌, ◌≤◌, ◌<◌, ◌≡◌, refl, ap, ◌⊎◌, inl, inr, List, [], ◌∷◌, ◌++◌, Result, ok, err, arith,
  length, u64_max, sat_add64, Result-cases,
}
use eidolon.Error.{WorldError, wal_buffer_full, wal_corrupted_record}
use eidolon.Wal.Record.{WalRecord, new_record}
use eidolon.Wal.Ring.{try_push}
use eidolon.Wal.Queue.{try_push-Represents}
use eidolon.Wal.Journal.{DurableWalSink, WriteAheadJournal, append}
use eidolon.Wal.Lsns.{Lsns-append}
use eidolon.Wal.Pipeline.{IsValid}

-- `WalRecord::new` refuses long payloads only, and numbers the record as it is told.
new_record_cases :
    (lsn tick account_id entity_id opcode : ℕ) (payload : List ℕ)
    → ((r : WalRecord) × (new_record lsn tick account_id entity_id opcode payload ≡ ok r)
        × (r.lsn ≡ lsn)
        × (length payload ≤ 128))
      ⊎ ((new_record lsn tick account_id entity_id opcode payload
            ≡ err (wal_corrupted_record "Payload exceeds maximum 128 bytes limit"))
          × (128 < length payload))
unfolding new_record
new_record_cases lsn tick account_id entity_id opcode payload =
    elim (Result-cases (new_record lsn tick account_id entity_id opcode payload)) [
      | inl (r, made) ↦ inl (r, made, ground (arith, made), ground (arith, made))
      | inr (e, failed) ↦ inr (ground (arith, failed), ground (arith, failed))
    ]

module _ {S : Type 0} (cap : ℕ) (ops : DurableWalSink S) (log : S → List WalRecord)
    (base : List WalRecord) where
  -- The outcomes of an append to a journal that holds a queue.
  abbrev pub Appended :
      WriteAheadJournal S
      → List WalRecord
      → (tick account_id entity_id opcode : ℕ) → List ℕ
      → WriteAheadJournal S × Result WorldError ℕ
      → Type 0
  Appended j q tick account_id entity_id opcode payload result =
      ((r : WalRecord) × (new_record (j.current_lsn + 1) tick account_id entity_id opcode payload
          ≡ ok r)
        × (length q < cap)
        × (result.1 ≡ ok (j.current_lsn + 1))
        × (result.0.current_lsn ≡ j.current_lsn + 1)
        × (result.0.sink ≡ j.sink)
        × IsValid cap ops log base result.0 (q ++ (r ∷ [])))
      ⊎ ((128 < length payload)
          × (result ≡ (j, err (wal_corrupted_record "Payload exceeds maximum 128 bytes limit"))))
      ⊎ ((cap ≤ length q) × (result ≡ (j, err wal_buffer_full)))

  -- An append to a valid journal whose numbers are not used up has three outcomes. If the payload has
  -- at most 128 bytes and the queue is shorter than the capacity, the answer is the next number, which
  -- is the new `current_lsn`, the sink is left alone, and the journal is valid with the record of that
  -- number behind its queue. A longer payload or a full queue is reported, and the journal is unchanged.
  pub append-Appended :
      (j : WriteAheadJournal S) (q : List WalRecord) (tick account_id entity_id opcode : ℕ)
      (payload : List ℕ)
      → IsValid cap ops log base j q
      → j.current_lsn < u64_max
      → Appended j q tick account_id entity_id opcode payload
          (append cap j tick account_id entity_id opcode payload)
  unfolding append
  append-Appended j q tick account_id entity_id opcode payload v more =
      let next : sat_add64 j.current_lsn 1 ≡ j.current_lsn + 1 = omega arith in
      elim (new_record_cases (j.current_lsn + 1) tick account_id entity_id opcode payload) [
        | inr (failed, long) ↦ inr (inl (long, ground (arith, next, failed)))
        | inl (r, made, numbered, short) ↦ elim (try_push-Represents cap j.ring_buffer r q v.ring) [
          | inr (full, failed) ↦ inr (inr (full, ground (arith, next, made, failed)))
          | inl (room, pushed, ring) ↦
              let e : append cap j tick account_id entity_id opcode payload ≡ (
                record j {
                  ring_buffer = (try_push cap j.ring_buffer r).0;
                  current_lsn = j.current_lsn + 1;
                },
                ok (j.current_lsn + 1),
              ) =
                ground (arith, next, made, pushed) in
              inl (
                r,
                made,
                room,
                ap (λ x. x.1) e,
                ap (λ x. x.0.current_lsn) e,
                ap (λ x. x.0.sink) e,
                rw e (record {
                  ring = ring;
                  queued =
                      Lsns-append j.durable_lsn j.current_lsn q (r ∷ []) (j.current_lsn + 1)
                        v.queued (numbered, refl);
                  scratch = v.scratch;
                  fresh = v.fresh;
                  logged = v.logged;
                  numbered = v.numbered;
                }),
              )
        ]
      ]
