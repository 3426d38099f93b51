-- ===== src/Transaction.antt =====
-- `TransactionManager` of crates/eidolon-world/src/transaction.rs. The two hash maps are functions from
-- keys; the journal that a call is given is passed through, and comes back with the answer.
pub mod Items
pub mod Execute
pub mod Admission
pub mod Currency
pub mod ItemMoves
pub mod Backpressure
pub mod Logging
pub mod Durability
mod Tests
mod DiskTests
mod ItemTests
use eidolon.Base.{
  insert, ℕ, zero, suc, ◌+◌, ◌-◌, Bool, true, false, ◌&&◌, not, List, [], ◌∷◌, ◌++◌, Option, none,
  some, Result, ok, err, ltb, leb, ◌==◌, if◌then◌else◌, to_be,
}
use eidolon.Error.{
  WorldError, transaction_aborted, insufficient_balance, item_not_found, duplicate_transaction,
  stale_session_mutation,
}
use eidolon.Lock.{
  LockToken, LockError, GenerationLockRegistry, session_mismatch, stale_generation, contention,
  lease_expired, capacity_exceeded, new, acquire_lock, validate_mutation,
}
use eidolon.Item.{from_u8}
use eidolon.Account.{
  AccountState, InventoryItem, Inventory, balance, credit_currency, debit_currency, add_item,
  remove_item, equip_item, unequip_item,
}
use eidolon.Wal.Journal.{DurableWalSink, WriteAheadJournal, is_flushed, append, flush_pending}

abbrev pub lock_wallet : ℕ
lock_wallet = 0

abbrev pub lock_inventory : ℕ
lock_inventory = 1

-- OP_CURRENCY_DELTA and OP_INVENTORY_MUTATION
abbrev pub op_currency_delta : ℕ
op_currency_delta = 4

abbrev pub op_inventory_mutation : ℕ
op_inventory_mutation = 5

pub data TransactionOp : Type 0 where
  -- from_account, to_account, amount, is_premium
  currency_transfer : ℕ → ℕ → ℕ → Bool → TransactionOp
  -- account_id, amount, is_premium
  currency_spend : ℕ → ℕ → Bool → TransactionOp
  -- from_account, to_account, item_id, quantity
  item_transfer : ℕ → ℕ → ℕ → ℕ → TransactionOp
  -- account_id, inventory_slot, equip_slot
  equip : ℕ → ℕ → ℕ → TransactionOp
  -- account_id, equip_slot
  unequip : ℕ → ℕ → TransactionOp

pub data TransactionStatus : Type 0 where
  committed : ℕ → TransactionStatus
  aborted : TransactionStatus

pub record TransactionManager : Type 0 where
  pub lock_registry : GenerationLockRegistry
  pub accounts : ℕ → Option AccountState
  pub executed_txs : ℕ → Option TransactionStatus

unfoldable pub new_manager : TransactionManager
new_manager = record { lock_registry = new 1024; accounts = λ k. none; executed_txs = λ k. none }

unfoldable pub put_account : TransactionManager → ℕ → AccountState → TransactionManager
put_account m k a = record m { accounts = insert m.accounts k a }

unfoldable pub register_account : TransactionManager → AccountState → TransactionManager
register_account m a = put_account m a.account_id a

-- `TransactionManager::acquire_lock`
unfoldable pub lock :
    TransactionManager → ℕ → ℕ → ℕ → ℕ → ℕ → Bool → TransactionManager × Result LockError LockToken
lock m account_id lock_id session_id current_tick lease force_takeover =
    let (r, answer) =
      acquire_lock account_id lock_id session_id current_tick lease force_takeover
        m.lock_registry in
    (record m { lock_registry = r }, answer)

-- The error of a refused token.
unfoldable pub stale_error : LockError → ℕ → WorldError
stale_error (session_mismatch expected actual) session = stale_session_mutation expected actual
stale_error (stale_generation expected actual) session = stale_session_mutation expected actual
stale_error (contention a l s t) session = stale_session_mutation 0 session
stale_error (lease_expired a t) session = stale_session_mutation 0 session
stale_error capacity_exceeded session = stale_session_mutation 0 session

-- Does the token lock resource `lock_id` of the account?
unfoldable pub locks : LockToken → ℕ → ℕ → Bool
locks token account_id lock_id = token.account_id == account_id && token.lock_id == lock_id

-- A stack of the item that is large enough.
unfoldable pub has_item : ℕ → ℕ → Inventory → Bool
has_item item_id quantity [] = false
has_item item_id quantity (none ∷ slots) = has_item item_id quantity slots
has_item item_id quantity (some i ∷ slots) =
    if i.item_id == item_id && leb quantity i.quantity
    then true
    else has_item item_id quantity slots

abbrev pub flag : Bool → ℕ
flag b = if b then 1 else 0

module _ {S : Type 0} (cap : ℕ) where
  -- What every operation does at its end: the record of the change is appended.
  unfoldable pub log_change :
      TransactionManager
      → WriteAheadJournal S
      → ℕ
      → ℕ
      → ℕ
      → List ℕ
      → TransactionManager × WriteAheadJournal S × Result WorldError ℕ
  log_change m j tick account_id opcode payload =
      let (j', answer) = append cap j tick account_id 0 opcode payload in (m, j', answer)

  unfoldable pub spend :
      TransactionManager
      → WriteAheadJournal S
      → LockToken
      → ℕ
      → ℕ
      → ℕ
      → Bool
      → TransactionManager × WriteAheadJournal S × Result WorldError ℕ
  spend m j token tick account_id amount is_premium =
      if not (locks token account_id lock_wallet)
      then (m, j, err (transaction_aborted "Invalid wallet lock token"))
      else elim (m.accounts account_id) [
        | none ↦ (m, j, err (transaction_aborted "Account not found"))
        | some a ↦ elim (debit_currency a amount is_premium) [
          | err e ↦ (m, j, err e)
          | ok a' ↦
              log_change (put_account m account_id a') j tick account_id op_currency_delta
                (to_be 8 amount ++ (flag is_premium ∷ 0 ∷ []))
        ]
      ]

  -- The debit, the credit and the record of a transfer whose source passed the checks.
  unfoldable pub move_currency :
      TransactionManager
      → WriteAheadJournal S
      → ℕ
      → ℕ
      → ℕ
      → ℕ
      → Bool
      → AccountState
      → TransactionManager × WriteAheadJournal S × Result WorldError ℕ
  move_currency m j tick from_account to_account amount is_premium from =
      elim (debit_currency from amount is_premium) [
        | err e ↦ (m, j, err e)
        | ok from' ↦
            let m' = put_account m from_account from' in
            elim (m'.accounts to_account) [
              | none ↦ (m', j, err (transaction_aborted "Target account not registered"))
              | some to ↦
                  log_change (put_account m' to_account (credit_currency to amount is_premium)) j
                    tick from_account op_currency_delta
                    (to_be 8 to_account ++ (to_be 8 amount ++ (flag is_premium ∷ [])))
            ]
      ]

  unfoldable pub transfer :
      TransactionManager
      → WriteAheadJournal S
      → LockToken
      → ℕ
      → ℕ
      → ℕ
      → ℕ
      → Bool
      → TransactionManager × WriteAheadJournal S × Result WorldError ℕ
  transfer m j token tick from_account to_account amount is_premium =
      if not (locks token from_account lock_wallet)
      then (m, j, err (transaction_aborted "Invalid wallet lock token"))
      else if from_account == to_account
      then (m, j, err (transaction_aborted "Cannot transfer to self"))
      else elim (m.accounts from_account) [
        | none ↦ (m, j, err (transaction_aborted "Source account not found"))
        | some from ↦
            if ltb (balance is_premium from) amount
            then (m, j, err (insufficient_balance amount (balance is_premium from)))
            else elim (m.accounts to_account) [
              | none ↦ (m, j, err (transaction_aborted "Target account not registered"))
              | some _ ↦ move_currency m j tick from_account to_account amount is_premium from
            ]
      ]
