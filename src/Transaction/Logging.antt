-- ===== src/Transaction/Logging.antt =====
-- Every operation of `execute_transaction` in crates/eidolon-world/src/transaction.rs that succeeds has
-- appended one record to the journal.
use eidolon.Base.{
  ℕ, ◌≡◌, refl, Bool, true, false, not, List, Option, none, some, Result, ok, err, ◌==◌, ltb,
  if◌then◌else◌,
}
use eidolon.Error.{WorldError}
use eidolon.Lock.{LockToken}
use eidolon.Item.{from_u8}
use eidolon.Account.{balance, debit_currency, add_item, remove_item, equip_item, unequip_item}
use eidolon.Wal.Journal.{WriteAheadJournal, append}
use eidolon.Transaction.{
  TransactionManager, TransactionOp, currency_spend, currency_transfer, item_transfer, equip,
  unequip, lock_wallet, lock_inventory, put_account, locks, has_item, log_change, spend, transfer,
  move_currency,
}
use eidolon.Transaction.Items.{move_item, transfer_item, equip_op, unequip_op}
use eidolon.Transaction.Execute.{perform}

module _ {S : Type 0} (cap : ℕ) (j : WriteAheadJournal S) where
  abbrev pub Outcome : Type 0
  Outcome = TransactionManager × WriteAheadJournal S × Result WorldError ℕ

  -- A failure, or the journal and the answer of an append.
  pub data Logs (r : Outcome) : Type 0 where
    fails : (e : WorldError) → r.2 ≡ err e → Logs r
    logged :
        (tick account_id opcode : ℕ) (payload : List ℕ)
        → r.1 ≡ (append cap j tick account_id 0 opcode payload).0
        → r.2 ≡ (append cap j tick account_id 0 opcode payload).1
        → Logs r

  Logs-if : (b : Bool) {x y : Outcome} → Logs x → Logs y → Logs (if b then x else y)
  Logs-if true lx ly = lx
  Logs-if false lx ly = ly

  Logs-option :
      {A : Type 0} (o : Option A) {n : Outcome} {f : A → Outcome}
      → Logs n
      → ((a : A) → Logs (f a))
      → Logs (elim o [ none ↦ n | some a ↦ f a ])
  Logs-option none ln lf = ln
  Logs-option (some a) ln lf = lf a

  Logs-result :
      {A : Type 0} (o : Result WorldError A) {n : WorldError → Outcome} {f : A → Outcome}
      → ((e : WorldError) → Logs (n e))
      → ((a : A) → Logs (f a))
      → Logs (elim o [ err e ↦ n e | ok a ↦ f a ])
  Logs-result (err e) ln lf = ln e
  Logs-result (ok a) ln lf = lf a

  log_change-Logs :
      (m : TransactionManager) (tick account_id opcode : ℕ) (payload : List ℕ)
      → Logs (log_change cap m j tick account_id opcode payload)
  unfolding log_change
  log_change-Logs m tick account_id opcode payload = logged tick account_id opcode payload refl refl

  spend-Logs :
      (m : TransactionManager) (token : LockToken) (tick account_id amount : ℕ) (is_premium : Bool)
      → Logs (spend cap m j token tick account_id amount is_premium)
  unfolding spend
  spend-Logs m token tick account_id amount is_premium =
      Logs-if (not (locks token account_id lock_wallet)) (fails _ refl) (
        Logs-option (m.accounts account_id) (fails _ refl) (λ a.
          Logs-result (debit_currency a amount is_premium) (λ e. fails _ refl)
            (λ a'. log_change-Logs _ _ _ _ _)))

  transfer-Logs :
      (m : TransactionManager) (token : LockToken) (tick from_account to_account amount : ℕ)
      (is_premium : Bool)
      → Logs (transfer cap m j token tick from_account to_account amount is_premium)
  unfolding transfer move_currency
  transfer-Logs m token tick from_account to_account amount is_premium =
      Logs-if (not (locks token from_account lock_wallet)) (fails _ refl) (
        Logs-if (from_account == to_account) (fails _ refl) (
          Logs-option (m.accounts from_account) (fails _ refl) (λ a.
            Logs-if (ltb (balance is_premium a) amount) (fails _ refl) (
              Logs-option (m.accounts to_account) (fails _ refl) (λ b.
                Logs-result (debit_currency a amount is_premium) (λ e. fails _ refl)
                  (λ a'.
                    Logs-option ((put_account m from_account a').accounts to_account) (fails _ refl)
                      (λ b'. log_change-Logs _ _ _ _ _)))))))

  transfer_item-Logs :
      (m : TransactionManager) (token : LockToken)
      (tick from_account to_account item_id quantity : ℕ)
      → Logs (transfer_item cap m j token tick from_account to_account item_id quantity)
  unfolding transfer_item move_item
  transfer_item-Logs m token tick from_account to_account item_id quantity =
      Logs-if (not (locks token from_account lock_inventory)) (fails _ refl) (
        Logs-if (from_account == to_account) (fails _ refl) (
          Logs-option (m.accounts from_account) (fails _ refl) (λ a.
            Logs-if (not (has_item item_id quantity a.inventory)) (fails _ refl) (
              Logs-option (m.accounts to_account) (fails _ refl) (λ b.
                Logs-result (remove_item a item_id quantity) (λ e. fails _ refl)
                  (λ a'.
                    Logs-option ((put_account m from_account a').accounts to_account) (fails _ refl)
                      (λ b'.
                        Logs-result (add_item b' item_id quantity)
                          (λ e.
                            Logs-result (add_item a' item_id quantity) (λ e'. fails _ refl)
                              (λ a''. fails _ refl))
                          (λ b''. log_change-Logs _ _ _ _ _))))))))

  equip_op-Logs :
      (m : TransactionManager) (token : LockToken) (tick account_id inventory_slot equip_slot : ℕ)
      → Logs (equip_op cap m j token tick account_id inventory_slot equip_slot)
  unfolding equip_op
  equip_op-Logs m token tick account_id inventory_slot equip_slot =
      Logs-if (not (locks token account_id lock_inventory)) (fails _ refl) (
        Logs-option (from_u8 equip_slot) (fails _ refl) (λ slot.
          Logs-option (m.accounts account_id) (fails _ refl) (λ a.
            Logs-result (equip_item a inventory_slot slot) (λ e. fails _ refl)
              (λ a'. log_change-Logs _ _ _ _ _))))

  unequip_op-Logs :
      (m : TransactionManager) (token : LockToken) (tick account_id equip_slot : ℕ)
      → Logs (unequip_op cap m j token tick account_id equip_slot)
  unfolding unequip_op
  unequip_op-Logs m token tick account_id equip_slot =
      Logs-if (not (locks token account_id lock_inventory)) (fails _ refl) (
        Logs-option (from_u8 equip_slot) (fails _ refl) (λ slot.
          Logs-option (m.accounts account_id) (fails _ refl) (λ a.
            Logs-result (unequip_item a slot).1 (λ e. fails _ refl)
              (λ item_id. log_change-Logs _ _ _ _ _))))

  pub perform-Logs :
      (m : TransactionManager) (op : TransactionOp) (token : LockToken) (tick : ℕ)
      → Logs (perform cap m j op token tick)
  unfolding perform
  perform-Logs m (currency_spend account_id amount is_premium) token tick =
      spend-Logs m token tick account_id amount is_premium
  perform-Logs m (currency_transfer from_account to_account amount is_premium) token tick =
      transfer-Logs m token tick from_account to_account amount is_premium
  perform-Logs m (item_transfer from_account to_account item_id quantity) token tick =
      transfer_item-Logs m token tick from_account to_account item_id quantity
  perform-Logs m (equip account_id inventory_slot equip_slot) token tick =
      equip_op-Logs m token tick account_id inventory_slot equip_slot
  perform-Logs m (unequip account_id equip_slot) token tick =
      unequip_op-Logs m token tick account_id equip_slot
