-- ===== src/Transaction/Admission.antt =====
-- Who may execute a transaction, and how often (crates/eidolon-world/src/transaction.rs).
use eidolon.Base.{
  insert, ℕ, ◌≡◌, refl, sym, ap, ◌∙◌, ◌≢◌, ◌⊎◌, inl, inr, Bool, true, none, some, ok, err, arith,
  ◌+◌, ◌<◌, u64_max, Option-cases, Result-cases,
}
use eidolon.Error.{WorldError, duplicate_transaction, stale_session_mutation}
use eidolon.Lock.{LockToken, LockError, session_mismatch, stale_generation, validate_mutation}
use eidolon.Lock.Registry.{held, IsValid}
use eidolon.Lock.Fencing.{Covers, takeover_fences}
use eidolon.Wal.Journal.{WriteAheadJournal}
use eidolon.Transaction.{TransactionManager, TransactionOp, committed, stale_error, lock}
use eidolon.Transaction.Execute.{perform, execute_transaction}

module _ {S : Type 0} (cap : ℕ) where
  -- The ends of a call: a duplicate, a refused token, a failed operation, a success.
  pub execute_transaction_cases :
      (m : TransactionManager) (j : WriteAheadJournal S) (tx_id : ℕ) (op : TransactionOp)
      (session : ℕ) (token : LockToken) (tick : ℕ)
      → let p = perform cap m j op token tick in
        let r = execute_transaction cap m j tx_id op session token tick in
        ((r ≡ (m, j, err (duplicate_transaction tx_id))) × (m.executed_txs tx_id ≢ none))
        ⊎ ((e : LockError) × (validate_mutation m.lock_registry token session tick ≡ err e)
            × (r ≡ (m, j, err (stale_error e session)))
            × (m.executed_txs tx_id ≡ none))
        ⊎ ((e : WorldError) × (p.2 ≡ err e)
            × (r ≡ (p.0, p.1, err e))
            × (m.executed_txs tx_id ≡ none)
            × (validate_mutation m.lock_registry token session tick ≡ ok tt))
        ⊎ ((lsn : ℕ) × (p.2 ≡ ok lsn)
            × (r ≡ (
              record p.0 { executed_txs = insert p.0.executed_txs tx_id (committed lsn) },
              p.1,
              ok lsn,
            ))
            × (m.executed_txs tx_id ≡ none)
            × (validate_mutation m.lock_registry token session tick ≡ ok tt))
  unfolding execute_transaction
  execute_transaction_cases m j tx_id op session token tick =
      elim (Option-cases (m.executed_txs tx_id)) [
        | inr (s, known) ↦ inl (ground (arith, known), ground (arith, known))
        | inl fresh ↦ elim (Result-cases (validate_mutation m.lock_registry token session tick)) [
          | inr (e, refused) ↦ inr (inl (e, refused, ground (arith, fresh, refused), fresh))
          | inl (u, valid) ↦ elim (Result-cases (perform cap m j op token tick).2) [
            | inr (e, failed) ↦
                inr (inr (inl (e, failed, ground (arith, fresh, valid, failed), fresh, valid)))
            | inl (lsn, done) ↦
                inr (inr (inr (lsn, done, ground (arith, fresh, valid, done), fresh, valid)))
          ]
        ]
      ]

  -- A transaction that succeeded is entered with the number of its record.
  pub execute-entered :
      (m m' : TransactionManager) (j j' : WriteAheadJournal S) (tx_id : ℕ) (op : TransactionOp)
      (session : ℕ) (token : LockToken) (tick lsn : ℕ)
      → execute_transaction cap m j tx_id op session token tick ≡ (m', j', ok lsn)
      → m'.executed_txs tx_id ≡ some (committed lsn)
  unfolding execute_transaction
  execute-entered m m' j j' tx_id op session token tick lsn h =
      elim (execute_transaction_cases m j tx_id op session token tick) [
        | inl (r, _) ↦ absurd (ground (arith, h, r))
        | inr (inl (e, _, r, _)) ↦ absurd (ground (arith, h, r))
        | inr (inr (inl (e, _, r, _, _))) ↦ absurd (ground (arith, h, r))
        | inr (inr (inr (n, _, r, _, _))) ↦
            let e = ap (λ x. x.0.executed_txs tx_id) (sym h ∙ r) in
            let same = ap (λ x. x.2) (sym h ∙ r) in ground (arith, e, same)
      ]

  -- After a transaction succeeded, a second one with its identifier is refused as a duplicate, whatever
  -- its operation, session, token, tick and journal, and changes nothing.
  pub execute_transaction_once :
      (m m' : TransactionManager) (j j' k : WriteAheadJournal S) (tx_id : ℕ)
      (op op' : TransactionOp) (session session' : ℕ) (token token' : LockToken)
      (tick tick' lsn : ℕ)
      → execute_transaction cap m j tx_id op session token tick ≡ (m', j', ok lsn)
      → execute_transaction cap m' k tx_id op' session' token' tick'
        ≡ (m', k, err (duplicate_transaction tx_id))
  unfolding execute_transaction
  execute_transaction_once m m' j j' k tx_id op op' session session' token token' tick tick' lsn h =
      let e = execute-entered m m' j j' tx_id op session token tick lsn h in ground (arith, e)

  execute_refused :
      (m : TransactionManager) (j : WriteAheadJournal S) (tx_id : ℕ) (op : TransactionOp)
      (session : ℕ) (token : LockToken) (tick : ℕ) (e : LockError)
      → m.executed_txs tx_id ≡ none
      → validate_mutation m.lock_registry token session tick ≡ err e
      → execute_transaction cap m j tx_id op session token tick
        ≡ (m, j, err (stale_error e session))
  unfolding execute_transaction
  execute_refused m j tx_id op session token tick e fresh refused = ground (arith, fresh, refused)

module _ {S : Type 0} (cap locks_cap : ℕ) where
  -- A takeover by another session, forced or when the lease does not cover the tick, stops the old
  -- holder: on a valid registry, with a generation below the largest u64, any transaction that is not yet
  -- entered is then refused as stale under the old token, in the old session as in the new one, and
  -- neither accounts nor journal change.
  pub takeover_stops_transactions :
      (m : TransactionManager) (j : WriteAheadJournal S) (token : LockToken)
      (session now lease tick : ℕ) (force : Bool) (tx_id : ℕ) (op : TransactionOp)
      → IsValid locks_cap m.lock_registry
      → held m.lock_registry token.account_id token.lock_id ≡ some token
      → token.holder_session_id ≢ session
      → (force ≡ true) ⊎ (¬ Covers token now)
      → token.generation < u64_max
      → m.executed_txs tx_id ≡ none
      → let m' = (lock m token.account_id token.lock_id session now lease force).0 in
        (execute_transaction cap m' j tx_id op token.holder_session_id token tick
          ≡ (m', j, err (stale_session_mutation session token.holder_session_id)))
        × (execute_transaction cap m' j tx_id op session token tick
            ≡ (m', j, err (stale_session_mutation (token.generation + 1) token.generation)))
        × (m'.accounts ≡ m.accounts)
  unfolding lock stale_error
  takeover_stops_transactions m j token session now lease tick force tx_id op v h other free room
        fresh =
      let m' = (lock m token.account_id token.lock_id session now lease force).0 in
      let fenced =
        takeover_fences locks_cap token.account_id token.lock_id session now lease m.lock_registry v
          token force h other token token.holder_session_id tick free refl refl other room in
      (
        execute_refused cap m' j tx_id op token.holder_session_id token tick
            (session_mismatch session token.holder_session_id) fresh fenced.1,
        execute_refused cap m' j tx_id op session token tick
            (stale_generation (token.generation + 1) token.generation) fresh fenced.2,
        refl,
      )
