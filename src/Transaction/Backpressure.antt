-- ===== src/Transaction/Backpressure.antt =====
-- Transactions over a journal whose buffer is full (crates/eidolon-world/src/transaction.rs).
use eidolon.Base.{
  insert, ℕ, ◌+◌, ◌≤◌, ◌<◌, ◌≡◌, ap, ◌∙◌, inl, inr, Bool, true, List, [], ◌∷◌, ◌++◌, none, some, ok,
  err, arith, length, length-append, length-to_be, to_be, u64_max,
}
use eidolon.Error.{wal_buffer_full}
use eidolon.Lock.{LockToken, validate_mutation}
use eidolon.Account.{AccountState, balance}
use eidolon.Wal.Record.{WalRecord}
use eidolon.Wal.Journal.{DurableWalSink, WriteAheadJournal, append}
use eidolon.Wal.Pipeline.{IsValid}
use eidolon.Wal.Append.{append-Appended}
use eidolon.Transaction.{
  TransactionManager, currency_spend, put_account, locks, log_change, spend, lock_wallet,
  op_currency_delta, flag,
}
use eidolon.Transaction.Execute.{perform, execute_transaction}
use eidolon.Transaction.Currency.{SameBut, debit-SameBut}

module _ {S : Type 0} (cap : ℕ) (ops : DurableWalSink S) (log : S → List WalRecord)
    (base q : List WalRecord) where
  -- The record of a spend does not fit into a full buffer.
  append_full :
      (j : WriteAheadJournal S) (tick account_id amount : ℕ) (is_premium : Bool)
      → IsValid cap ops log base j q
      → cap ≤ length q
      → j.current_lsn < u64_max
      → append cap j tick account_id 0 op_currency_delta
          (to_be 8 amount ++ (flag is_premium ∷ 0 ∷ []))
        ≡ (j, err wal_buffer_full)
  append_full j tick account_id amount is_premium v full more =
      let payload = to_be 8 amount ++ (flag is_premium ∷ 0 ∷ []) in
      elim (append-Appended cap ops log base j q tick account_id 0 op_currency_delta payload v
        more) [
          | inl (_, _, room, _, _, _, _) ↦ absurd (omega (arith, room, full))
          | inr (inl (long, _)) ↦ absurd (
              omega (
                arith,
                long,
                length-append (to_be 8 amount) (flag is_premium ∷ 0 ∷ []),
                length-to_be 8 amount,
              ))
          | inr (inr (_, r)) ↦ r
        ]

  -- A spend that passes every check while the buffer of a valid journal, whose numbers are not used up, is
  -- full reports the full buffer and
  -- leaves the journal alone, but the account is charged, and the transaction is not entered as
  -- executed: the same call is not refused as a duplicate when it is made again.
  pub spend_charges_unlogged :
      (m : TransactionManager) (j : WriteAheadJournal S) (tx_id account_id amount : ℕ)
      (is_premium : Bool) (session : ℕ) (token : LockToken) (tick : ℕ) (a : AccountState)
      → IsValid cap ops log base j q
      → cap ≤ length q
      → j.current_lsn < u64_max
      → m.executed_txs tx_id ≡ none
      → validate_mutation m.lock_registry token session tick ≡ ok tt
      → locks token account_id lock_wallet ≡ true
      → m.accounts account_id ≡ some a
      → amount ≤ balance is_premium a
      → let (m', j', answer) =
          execute_transaction cap m j tx_id
            (currency_spend account_id amount is_premium)
            session
            token
            tick in
        (a' : AccountState) × (answer ≡ err wal_buffer_full)
        × (j' ≡ j)
        × (m'.accounts account_id ≡ some a')
        × (balance is_premium a' + amount ≡ balance is_premium a)
        × SameBut is_premium a' a
        × (m'.executed_txs tx_id ≡ none)
  unfolding execute_transaction perform spend put_account log_change
  spend_charges_unlogged m j tx_id account_id amount is_premium session token tick a v full more
        fresh valid mine at rich =
      let (a', debited, less, rest) = debit-SameBut a amount is_premium rich in
      let unlogged = append_full j tick account_id amount is_premium v full more in
      let e : execute_transaction cap m j tx_id (currency_spend account_id amount is_premium)
            session token tick
          ≡ (record m { accounts = insert m.accounts account_id a' }, j, err wal_buffer_full) =
        ground (arith, fresh, valid, mine, at, debited, unlogged) in
      (
        a',
        ap (λ x. x.2) e,
        ap (λ x. x.1) e,
        ap (λ x. x.0.accounts account_id) e ∙ ground arith,
        less,
        rest,
        ap (λ x. x.0.executed_txs tx_id) e ∙ fresh,
      )
