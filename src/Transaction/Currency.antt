-- ===== src/Transaction/Currency.antt =====
-- Currency transfers and spends of crates/eidolon-world/src/transaction.rs, on every path.
use eidolon.Base.{
  insert, ℕ, ◌+◌, ◌-◌, ◌≤◌, ◌≡◌, ◌≢◌, refl, sym, ap, ◌∙◌, ◌⊎◌, inl, inr, Bool, true, false, not, [],
  ◌∷◌, ◌++◌, Option, some, Result, ok, err, arith, ltb, ◌==◌, to_be, sat_add64, wrap_add64,
  Option-cases, Bool-cases,
}
use eidolon.Error.{WorldError, insufficient_balance, transaction_aborted, duplicate_transaction}
use eidolon.Lock.{LockToken}
use eidolon.Account.{AccountState, bumped, balance, credit_currency, debit_currency}
use eidolon.Wal.Journal.{WriteAheadJournal, append}
use eidolon.Transaction.{
  TransactionManager, stale_error, currency_transfer, put_account, locks, log_change, transfer,
  move_currency, lock_wallet, op_currency_delta, flag,
}
use eidolon.Transaction.Execute.{perform, execute_transaction}
use eidolon.Transaction.Admission.{execute_transaction_cases}

-- All of an account but one of its balances is as in the account before, and its version is the next one.
pub record SameBut (is_premium : Bool) (a b : AccountState) : Type 0 where
  pub account_id : a.account_id ≡ b.account_id
  pub other : balance (not is_premium) a ≡ balance (not is_premium) b
  pub inventory : a.inventory ≡ b.inventory
  pub equipment : a.equipment ≡ b.equipment
  pub version : a.state_version ≡ wrap_add64 b.state_version 1

pub debit-SameBut :
    (a : AccountState) (amount : ℕ) (is_premium : Bool)
    → amount ≤ balance is_premium a
    → (a' : AccountState) × (debit_currency a amount is_premium ≡ ok a')
      × (balance is_premium a' + amount ≡ balance is_premium a)
      × SameBut is_premium a' a
unfolding debit_currency balance
debit-SameBut a amount true h = (
  bumped (record a { premium_currency = a.premium_currency - amount }),
  ground arith,
  ground arith,
  record { account_id = refl; other = refl; inventory = refl; equipment = refl; version = refl },
)
debit-SameBut a amount false h = (
  bumped (record a { free_currency = a.free_currency - amount }),
  ground arith,
  ground arith,
  record { account_id = refl; other = refl; inventory = refl; equipment = refl; version = refl },
)

credit-SameBut :
    (b : AccountState) (amount : ℕ) (is_premium : Bool)
    → (balance is_premium (credit_currency b amount is_premium)
        ≡ sat_add64 (balance is_premium b) amount)
      × SameBut is_premium (credit_currency b amount is_premium) b
unfolding credit_currency balance
credit-SameBut b amount true = (
  refl,
  record { account_id = refl; other = refl; inventory = refl; equipment = refl; version = refl },
)
credit-SameBut b amount false = (
  refl,
  record { account_id = refl; other = refl; inventory = refl; equipment = refl; version = refl },
)

-- The accounts after a transfer: `amount` of one currency has gone from one account to the other, where
-- it is capped at the largest u64, both have their next version, and nothing else has changed.
pub record Moved (before after : ℕ → Option AccountState) (from_account to_account amount : ℕ)
    (is_premium : Bool) : Type 0 where
  pub source : AccountState
  pub source' : AccountState
  pub target : AccountState
  pub target' : AccountState
  pub source_was : before from_account ≡ some source
  pub target_was : before to_account ≡ some target
  pub source_is : after from_account ≡ some source'
  pub target_is : after to_account ≡ some target'
  pub debited : balance is_premium source' + amount ≡ balance is_premium source
  pub credited : balance is_premium target' ≡ sat_add64 (balance is_premium target) amount
  pub source_rest : SameBut is_premium source' source
  pub target_rest : SameBut is_premium target' target
  pub others : (k : ℕ) → k ≢ from_account → k ≢ to_account → after k ≡ before k

module _ {S : Type 0} (cap : ℕ) (m : TransactionManager) (j : WriteAheadJournal S)
    (token : LockToken) (tick from_account to_account amount : ℕ) (is_premium : Bool) where
  -- The append that a transfer makes.
  abbrev pub transfer_append : WriteAheadJournal S × Result WorldError ℕ
  transfer_append =
      append cap j tick from_account 0 op_currency_delta
        (to_be 8 to_account ++ (to_be 8 amount ++ (flag is_premium ∷ [])))

  -- A transfer is refused with nothing changed, or moves the currency and answers as the append does.
  abbrev pub TransferEnds : TransactionManager × WriteAheadJournal S × Result WorldError ℕ → Type 0
  TransferEnds r =
      ((e : WorldError) × (r ≡ (m, j, err e)))
      ⊎ (Moved m.accounts r.0.accounts from_account to_account amount is_premium
          × (r.1 ≡ transfer_append.0)
          × (r.2 ≡ transfer_append.1))

  move-TransferEnds :
      (a b : AccountState)
      → from_account ≢ to_account
      → m.accounts from_account ≡ some a
      → m.accounts to_account ≡ some b
      → amount ≤ balance is_premium a
      → TransferEnds (move_currency cap m j tick from_account to_account amount is_premium a)
  unfolding move_currency put_account log_change
  move-TransferEnds a b ne ha hb le =
      let (a', debited, less, rest) = debit-SameBut a amount is_premium le in
      let (more, rest') = credit-SameBut b amount is_premium in
      let r = move_currency cap m j tick from_account to_account amount is_premium a in
      let accounts' =
        insert (insert m.accounts from_account a') to_account
          (credit_currency b amount is_premium) in
      let moved : r ≡ (record m { accounts = accounts' }, transfer_append.0, transfer_append.1) =
        ground (arith, debited, hb, ne) in
      inr (
        rw moved (record {
          source = a;
          source' = a';
          target = b;
          target' = credit_currency b amount is_premium;
          source_was = ha;
          target_was = hb;
          source_is = ground (arith, ne);
          target_is = ground arith;
          debited = less;
          credited = more;
          source_rest = rest;
          target_rest = rest';
          others = λ k nf nt. ground (arith, nf, nt);
        }),
        ap (λ x. x.1) moved,
        ap (λ x. x.2) moved,
      )

  pub transfer-TransferEnds :
      TransferEnds (transfer cap m j token tick from_account to_account amount is_premium)
  unfolding transfer
  transfer-TransferEnds = elim (Bool-cases (locks token from_account lock_wallet)) [
    | inr free ↦ inl (transaction_aborted "Invalid wallet lock token", ground (arith, free))
    | inl locked ↦ elim (Bool-cases (from_account == to_account)) [
      | inl same ↦ inl (transaction_aborted "Cannot transfer to self", ground (arith, locked, same))
      | inr differ ↦ elim (Option-cases (m.accounts from_account)) [
        | inl gone ↦
            inl
              (transaction_aborted "Source account not found", ground (arith, locked, differ, gone))
        | inr (a, ha) ↦ elim (Bool-cases (ltb (balance is_premium a) amount)) [
          | inl poor ↦ inl (
            insufficient_balance amount (balance is_premium a),
            ground (arith, locked, differ, ha, poor),
          )
          | inr rich ↦ elim (Option-cases (m.accounts to_account)) [
            | inl gone ↦ inl (
              transaction_aborted "Target account not registered",
              ground (arith, locked, differ, ha, rich, gone),
            )
            | inr (b, hb) ↦
                let e : transfer cap m j token tick from_account to_account amount is_premium
                    ≡ move_currency cap m j tick from_account to_account amount is_premium a =
                  ground (arith, locked, differ, ha, rich, hb) in
                rw e (move-TransferEnds a b (ground (arith, differ)) ha hb (ground (arith, rich)))
          ]
        ]
      ]
    ]
  ]

  -- Executing a currency transfer, on every path: the call fails with manager and journal unchanged, or
  -- `amount` of one balance goes from one account to the other, where it is capped at the largest u64, the
  -- version of both goes up by one (it wraps as a u64), nothing else of these and no other account changes,
  -- and the journal and the answer are those of the append of the record of the
  -- transfer, also when that append fails.
  pub execute_transaction-TransferEnds :
      (tx_id session : ℕ)
      → let op = currency_transfer from_account to_account amount is_premium in
        TransferEnds (execute_transaction cap m j tx_id op session token tick)
  unfolding perform
  execute_transaction-TransferEnds tx_id session =
      let op = currency_transfer from_account to_account amount is_premium in
      let p = transfer cap m j token tick from_account to_account amount is_premium in
      elim (execute_transaction_cases cap m j tx_id op session token tick) [
        | inl (r, _) ↦ inl (duplicate_transaction tx_id, r)
        | inr (inl (e, _, r, _)) ↦ inl (stale_error e session, r)
        | inr (inr (inl (e, failed, r, _, _))) ↦
            rw (r ∙ ap (λ x. (p.0, p.1, x)) (sym failed)) transfer-TransferEnds
        | inr (inr (inr (lsn, done, r, _, _))) ↦ elim transfer-TransferEnds [
          | inl (e, same) ↦ absurd (ground (arith, ap (λ x. x.2) same, done))
          | inr (moved, journal, answer) ↦
              inr (rw r moved, ap (λ x. x.1) r ∙ journal, ap (λ x. x.2) r ∙ sym done ∙ answer)
        ]
      ]
