-- ===== src/Transaction/ItemMoves.antt =====
-- Item transfers of crates/eidolon-world/src/transaction.rs that succeed.
use eidolon.Base.{
  insert, ℕ, ◌+◌, ◌^◌, ◌<◌, ◌≡◌, ◌≢◌, sym, ap, ◌∙◌, inl, inr, Option, some, ok, arith, ◌==◌,
  Option-cases, Result-cases, Bool-cases,
}
use eidolon.Lock.{LockToken}
use eidolon.Account.{AccountState, add_item, remove_item}
use eidolon.Account.Stacks.{quantity}
use eidolon.Account.Items.{add_item-quantity, remove_item-quantity}
use eidolon.Wal.Journal.{WriteAheadJournal}
use eidolon.Transaction.{
  TransactionManager, item_transfer, lock_inventory, put_account, locks, has_item, log_change,
}
use eidolon.Transaction.Items.{move_item, transfer_item}
use eidolon.Transaction.Execute.{perform, execute_transaction}
use eidolon.Transaction.Admission.{execute_transaction_cases}

-- The accounts after a transfer: `n` units of one item have gone from one account to the other, neither
-- has another number of units of any other item, and the other accounts are as before.
pub record MovedItem (before after : ℕ → Option AccountState) (from_account to_account id n : ℕ)
    : Type 0 where
  pub source : AccountState
  pub source' : AccountState
  pub target : AccountState
  pub target' : AccountState
  pub source_was : before from_account ≡ some source
  pub target_was : before to_account ≡ some target
  pub source_is : after from_account ≡ some source'
  pub target_is : after to_account ≡ some target'
  pub lost : quantity id source'.inventory + n ≡ quantity id source.inventory
  pub gained : quantity id target'.inventory ≡ quantity id target.inventory + n
  pub source_rest : (k : ℕ) → k ≢ id → quantity k source'.inventory ≡ quantity k source.inventory
  pub target_rest : (k : ℕ) → k ≢ id → quantity k target'.inventory ≡ quantity k target.inventory
  pub others : (k : ℕ) → k ≢ from_account → k ≢ to_account → after k ≡ before k

module _ {S : Type 0} (cap : ℕ) (m : TransactionManager) (j : WriteAheadJournal S)
    (token : LockToken) (tick from_account to_account id n lsn : ℕ) where
  move_item-MovedItem :
      (a b : AccountState)
      → from_account ≢ to_account
      → m.accounts from_account ≡ some a
      → m.accounts to_account ≡ some b
      → quantity id b.inventory + n < 2 ^ 32
      → (move_item cap m j tick from_account to_account id n a).2 ≡ ok lsn
      → MovedItem m.accounts
          (move_item cap m j tick from_account to_account id n a).0.accounts
          from_account
          to_account
          id
          n
  unfolding move_item put_account log_change
  move_item-MovedItem a b ne ha hb small done = elim (Result-cases (remove_item a id n)) [
    | inr (e, failed) ↦ absurd (ground (arith, done, failed))
    | inl (a', removed) ↦ elim (Result-cases (add_item b id n)) [
      | inr (e, failed) ↦ elim (Result-cases (add_item a' id n)) [
        | inl (a'', back) ↦ absurd (ground (arith, done, removed, hb, ne, failed, back))
        | inr (e', stuck) ↦ absurd (ground (arith, done, removed, hb, ne, failed, stuck))
      ]
      | inl (b', added) ↦
          let moved : (move_item cap m j tick from_account to_account id n a).0.accounts
              ≡ insert (insert m.accounts from_account a') to_account b' =
            ground (arith, removed, hb, ne, added) in
          let (lost, source_rest, _, _, _) = remove_item-quantity a a' id n removed in
          let (gained, target_rest, _, _, _) = add_item-quantity b b' id n added small in
          rw moved (record {
            source = a;
            source' = a';
            target = b;
            target' = b';
            source_was = ha;
            target_was = hb;
            source_is = ground (arith, ne);
            target_is = ground arith;
            lost = lost;
            gained = gained;
            source_rest = source_rest;
            target_rest = target_rest;
            others = λ k nf nt. ground (arith, nf, nt);
          })
    ]
  ]

  transfer_item-MovedItem :
      (b : AccountState)
      → m.accounts to_account ≡ some b
      → quantity id b.inventory + n < 2 ^ 32
      → (transfer_item cap m j token tick from_account to_account id n).2 ≡ ok lsn
      → MovedItem m.accounts
          (transfer_item cap m j token tick from_account to_account id n).0.accounts
          from_account
          to_account
          id
          n
  unfolding transfer_item
  transfer_item-MovedItem b hb small done =
      elim (Bool-cases (locks token from_account lock_inventory)) [
        | inr free ↦ absurd (ground (arith, done, free))
        | inl locked ↦ elim (Bool-cases (from_account == to_account)) [
          | inl same ↦ absurd (ground (arith, done, locked, same))
          | inr differ ↦ elim (Option-cases (m.accounts from_account)) [
            | inl gone ↦ absurd (ground (arith, done, locked, differ, gone))
            | inr (a, ha) ↦ elim (Bool-cases (has_item id n a.inventory)) [
              | inr few ↦ absurd (ground (arith, done, locked, differ, ha, few))
              | inl enough ↦
                  let e : transfer_item cap m j token tick from_account to_account id n
                      ≡ move_item cap m j tick from_account to_account id n a =
                    ground (arith, locked, differ, ha, enough, hb) in
                  rw e (
                    move_item-MovedItem a b (ground (arith, differ)) ha hb small
                      (ap (λ x. x.2) (sym e) ∙ done))
            ]
          ]
        ]
      ]

  -- Executing an item transfer that succeeds moves the units: if those of the target and those moved are
  -- fewer than 2^32, the source has `n` units of the item less, the target `n` more, no other item of the
  -- two changes in number, and no other account changes.
  pub execute_transaction-MovedItem :
      (tx_id session : ℕ) (b : AccountState)
      → m.accounts to_account ≡ some b
      → quantity id b.inventory + n < 2 ^ 32
      → let op = item_transfer from_account to_account id n in
        (execute_transaction cap m j tx_id op session token tick).2 ≡ ok lsn
        → MovedItem m.accounts
            (execute_transaction cap m j tx_id op session token tick).0.accounts
            from_account
            to_account
            id
            n
  unfolding perform
  execute_transaction-MovedItem tx_id session b hb small done =
      let op = item_transfer from_account to_account id n in
      elim (execute_transaction_cases cap m j tx_id op session token tick) [
        | inl (r, _) ↦ absurd (ground (arith, ap (λ x. x.2) r, done))
        | inr (inl (e, _, r, _)) ↦ absurd (ground (arith, ap (λ x. x.2) r, done))
        | inr (inr (inl (e, _, r, _, _))) ↦ absurd (ground (arith, ap (λ x. x.2) r, done))
        | inr (inr (inr (l, performed, r, _, _))) ↦
            rw r (transfer_item-MovedItem b hb small (performed ∙ ap (λ x. x.2) (sym r) ∙ done))
      ]
