-- ===== src/ItemTransfer/Dedup.antt =====
-- The ring of processed transaction ids: is_transaction_processed, record_transaction and
-- execute_transfer of crates/eidolon-world/src/item_transaction.rs.
use eidolon.Base.{
  ℕ, ◌+◌, ◌%◌, ◌≡◌, refl, ◌∙◌, inl, inr, some, Result, ok, err, arith, ◌==◌, set, Bool-cases,
  Option-cases, Result-cases,
}
use eidolon.ItemGraph.{ItemInstance, lock_slot}
use eidolon.ItemGraph.Moves.{insert_item}
use eidolon.ItemTransfer.{
  ItemTransactionError, duplicate_transaction_id, from_container_error, ItemTransferIntent,
  ItemTransferResult, ItemTransactionCoordinator, allocate_instance_id, put_container,
  is_transaction_processed, record_transaction, prepare,
}
use eidolon.ItemTransfer.Commit.{
  take_out, source_item, commit_within, put_back, deliver, commit_between, commit_transfer,
  release_source, conclude, execute_transfer,
}

-- Two coordinators with the same ring of processed ids.
SameRing : ItemTransactionCoordinator → ItemTransactionCoordinator → Type 0
SameRing m m' =
    (m'.processed_transactions ≡ m.processed_transactions) × (m'.dedup_cursor ≡ m.dedup_cursor)

put_back-SameRing :
    (m : ItemTransactionCoordinator) (intent : ItemTransferIntent) (i : ItemInstance)
    → SameRing m (put_back m intent i)
unfolding put_back SameRing
put_back-SameRing m intent i = elim (Option-cases (m.containers intent.source_container_id)) [
  | inl gone ↦ ground (arith, gone)
  | inr (src, e) ↦
      elim (Result-cases (insert_item src i (some intent.source_slot) intent.item_weight_grams)) [
        | inr (x, failed) ↦ ground (arith, e, failed)
        | inl ((src', j), done) ↦ ground (arith, e, done)
      ]
]

deliver-SameRing :
    (m : ItemTransactionCoordinator) (intent : ItemTransferIntent) (i : ItemInstance)
    → SameRing m (deliver m intent i).0
unfolding deliver SameRing
deliver-SameRing m intent i = elim (Option-cases (m.containers intent.target_container_id)) [
  | inl gone ↦ ground (arith, gone)
  | inr (dst, e) ↦
      elim (Result-cases (insert_item dst i intent.target_slot intent.item_weight_grams)) [
        | inr (x, failed) ↦ ground (arith, e, failed, put_back-SameRing m intent i)
        | inl ((dst', j), done) ↦ ground (arith, e, done)
      ]
]

commit_between-SameRing :
    (m : ItemTransactionCoordinator) (intent : ItemTransferIntent) (new_id : ℕ)
    → SameRing m (commit_between m intent new_id).0
unfolding commit_between SameRing
commit_between-SameRing m intent new_id =
    elim (Option-cases (m.containers intent.source_container_id)) [
      | inl gone ↦ ground (arith, gone)
      | inr (src, e) ↦ elim (Option-cases (source_item src intent.source_slot)) [
        | inl vacant ↦ ground (arith, e, vacant)
        | inr (i, there) ↦
            let out = take_out src intent intent.item_weight_grams new_id i in
            elim (Result-cases out.1) [
              | inr (x, failed) ↦ ground (arith, e, there, failed)
              | inl (moved, done) ↦
                  let next =
                    deliver-SameRing (put_container m intent.source_container_id out.0) intent
                      moved in
                  ground (arith, e, there, done, next)
            ]
      ]
    ]

commit_within-SameRing :
    (m : ItemTransactionCoordinator) (intent : ItemTransferIntent) (new_id : ℕ)
    → SameRing m (commit_within m intent new_id).0
unfolding commit_within SameRing
commit_within-SameRing m intent new_id =
    elim (Option-cases (m.containers intent.source_container_id)) [
      | inl gone ↦ ground (arith, gone)
      | inr (src, e) ↦ elim (Option-cases (source_item src intent.source_slot)) [
        | inl vacant ↦ ground (arith, e, vacant)
        | inr (i, there) ↦
            let out = take_out src intent 0 new_id i in
            elim (Result-cases out.1) [
              | inr (x, failed) ↦ ground (arith, e, there, failed)
              | inl (moved, done) ↦
                  elim (Result-cases (insert_item out.0 moved intent.target_slot 0)) [
                    | inr (x, failed) ↦ ground (arith, e, there, done, failed)
                    | inl ((src', j), placed) ↦ ground (arith, e, there, done, placed)
                  ]
            ]
      ]
    ]

commit_transfer-SameRing :
    (m : ItemTransactionCoordinator) (intent : ItemTransferIntent)
    → SameRing m (commit_transfer m intent).0
unfolding commit_transfer SameRing allocate_instance_id
commit_transfer-SameRing m intent =
    let m' = (allocate_instance_id m).0 in
    let w = commit_within-SameRing m' intent m.next_instance_id in
    let b = commit_between-SameRing m' intent m.next_instance_id in
    elim (Bool-cases (intent.source_container_id == intent.target_container_id)) [
      | inl e ↦ ground (arith, e, w)
      | inr e ↦ ground (arith, e, b)
    ]

release_source-SameRing :
    (m : ItemTransactionCoordinator) (intent : ItemTransferIntent)
    → SameRing m (release_source m intent)
unfolding release_source SameRing
release_source-SameRing m intent = elim (Option-cases (m.containers intent.source_container_id)) [
  | inl gone ↦ ground (arith, gone)
  | inr (src, e) ↦ ground (arith, e)
]

-- The ring after a transfer: as before if it failed, with its id at the cursor if not.
pub data Ends (m m' : ItemTransactionCoordinator) (tx_id : ℕ)
    : Result ItemTransactionError ItemTransferResult → Type 0 where
  failed :
      (e : ItemTransactionError)
      → m'.processed_transactions ≡ m.processed_transactions
      → m'.dedup_cursor ≡ m.dedup_cursor
      → Ends m m' tx_id (err e)
  done :
      (res : ItemTransferResult)
      → m'.processed_transactions ≡ set m.processed_transactions m.dedup_cursor tx_id
      → m'.dedup_cursor ≡ (m.dedup_cursor + 1) % 2048
      → Ends m m' tx_id (ok res)

conclude-Ends :
    (m m' : ItemTransactionCoordinator) (intent : ItemTransferIntent)
    (r : Result ItemTransactionError ItemTransferResult)
    → SameRing m m'
    → Ends m (conclude intent (m', r)).0 intent.transaction_id (conclude intent (m', r)).1
unfolding conclude SameRing record_transaction
conclude-Ends m m' intent (err e) s =
    let r = release_source-SameRing m' intent in failed e (r.0 ∙ s.0) (r.1 ∙ s.1)
conclude-Ends m m' intent (ok res) s =
    let r = release_source-SameRing m' intent in
    done res (ground (arith, r, s)) (ground (arith, r, s))

pub execute_transfer-Ends :
    (m : ItemTransactionCoordinator) (intent : ItemTransferIntent)
    → Ends m (execute_transfer m intent).0 intent.transaction_id (execute_transfer m intent).1
unfolding execute_transfer SameRing
execute_transfer-Ends m intent =
    elim (Bool-cases (is_transaction_processed m intent.transaction_id)) [
      | inl again ↦ rw again (failed duplicate_transaction_id refl refl)
      | inr fresh_id ↦ rw fresh_id (elim (Result-cases (prepare m intent)) [
        | inr (e, refused) ↦ rw refused (failed e refl refl)
        | inl (src, ready) ↦ rw ready (elim (Result-cases (lock_slot src intent.source_slot)) [
          | inr (e, busy) ↦ rw busy (failed (from_container_error e) refl refl)
          | inl (held, lock) ↦
              let started = put_container m intent.source_container_id held in
              let c = commit_transfer started intent in
              rw lock (conclude-Ends m c.0 intent c.1 (commit_transfer-SameRing started intent))
        ])
      ])
    ]
