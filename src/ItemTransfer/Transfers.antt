-- ===== src/ItemTransfer/Transfers.antt =====
-- Transfers that succeed: execute_transfer of crates/eidolon-world/src/item_transaction.rs.
use Prim.Native.Nat.{bit_and}
use eidolon.Base.{
  ℕ, ◌+◌, ◌≤◌, ◌<◌, get_elem?, ◌≡◌, ◌≢◌, ◌⊎◌, inl, inr, false, Option, some, ok, arith, Bool-cases,
  Result-cases,
}
use eidolon.ItemGraph.{ItemInstance, ContainerSlot, Container, unlock_slot}
use eidolon.ItemGraph.Moves.{insert_item}
use eidolon.ItemGraph.Shape.{IsValid}
use eidolon.ItemGraph.Units.{units, insert_item-Moved, unlock_slot-Moved}
use eidolon.ItemTransfer.{
  ItemTransferIntent, ItemTransferResult, ItemTransactionCoordinator, is_transaction_processed,
  record_transaction, prepare,
}
use eidolon.ItemTransfer.Commit.{conclude, execute_transfer}
use eidolon.ItemTransfer.Prepare.{Prepared, prepare-Prepared}
use eidolon.ItemTransfer.Take.{take_out-TakenOut}
use eidolon.ItemTransfer.Ends.{
  execute_transfer-delivered, execute_transfer-undelivered, execute_transfer-within,
  execute_transfer-unplaced,
}

abbrev pub AllValid : (ℕ → Option Container) → Type 0
AllValid containers = (k : ℕ) (c : Container) → containers k ≡ some c → IsValid c

-- The containers before and after a transfer between two of them: the units have gone from one to the
-- other, nothing else has moved, and a soulbound item has stayed with its owner.
pub record Transferred (before after : ℕ → Option Container) (intent : ItemTransferIntent)
    : Type 0 where
  pub source : Container
  pub source' : Container
  pub target : Container
  pub target' : Container
  pub slot : ContainerSlot
  pub item : ItemInstance
  pub source_was : before intent.source_container_id ≡ some source
  pub target_was : before intent.target_container_id ≡ some target
  pub source_is : after intent.source_container_id ≡ some source'
  pub target_is : after intent.target_container_id ≡ some target'
  pub source_valid : IsValid source'
  pub target_valid : IsValid target'
  pub in_slot : get_elem? source.slots intent.source_slot ≡ some slot
  pub unlocked : slot.is_locked ≡ false
  pub occupant : slot.item ≡ some item
  pub identity : item.instance_id ≡ intent.item_instance_id
  pub positive : 0 < intent.quantity
  pub enough : intent.quantity ≤ item.quantity
  pub owners : (bit_and item.flags 1 ≡ 0) ⊎ (source.owner_id ≡ target.owner_id)
  pub lost : units item.type_id source' + intent.quantity ≡ units item.type_id source
  pub gained : units item.type_id target' ≡ units item.type_id target + intent.quantity
  pub source_rest : (k : ℕ) → k ≢ item.type_id → units k source' ≡ units k source
  pub target_rest : (k : ℕ) → k ≢ item.type_id → units k target' ≡ units k target
  pub others :
      (k : ℕ) → k ≢ intent.source_container_id → k ≢ intent.target_container_id → after k ≡ before k

-- The containers before and after a transfer within one of them.
record Rearranged (before after : ℕ → Option Container) (intent : ItemTransferIntent) : Type 0 where
  pub source : Container
  pub source' : Container
  pub source_was : before intent.source_container_id ≡ some source
  pub source_is : after intent.source_container_id ≡ some source'
  pub source_valid : IsValid source'
  pub same_units : (k : ℕ) → units k source' ≡ units k source
  pub others : (k : ℕ) → k ≢ intent.source_container_id → after k ≡ before k

module _ (m : ItemTransactionCoordinator) (intent : ItemTransferIntent)
    (res : ItemTransferResult) where
  -- What a transfer that succeeds has passed.
  admitted :
      (execute_transfer m intent).1 ≡ ok res
      → (is_transaction_processed m intent.transaction_id ≡ false)
        × (src : Container) × (dst : Container) × (prepare m intent ≡ ok src)
        × Prepared m intent src dst
  unfolding execute_transfer
  admitted done = elim (Bool-cases (is_transaction_processed m intent.transaction_id)) [
    | inl again ↦ absurd (ground (arith, done, again))
    | inr fresh_id ↦ elim (Result-cases (prepare m intent)) [
      | inr (e, refused) ↦ absurd (ground (arith, done, fresh_id, refused))
      | inl (src, ready) ↦
          let (dst, p) = prepare-Prepared m intent src ready in (fresh_id, src, dst, ready, p)
    ]
  ]

  -- Among valid containers, a transfer between two of them that succeeds moves exactly the units that it
  -- names, at least one and at most those of the item in the source slot, which is unlocked and holds the item
  -- that it names: the source has that many fewer, the target that many more, of no
  -- other item type does either change, all other containers are as before, and both stay valid. If the
  -- item in the source slot is soulbound, both containers have the same owner.
  pub execute_transfer-Transferred :
      AllValid m.containers
      → intent.source_container_id ≢ intent.target_container_id
      → (execute_transfer m intent).1 ≡ ok res
      → Transferred m.containers (execute_transfer m intent).0.containers intent
  unfolding conclude record_transaction
  execute_transfer-Transferred valid between done =
      let (fresh_id, src, dst, ready, p) = admitted done in
      let (src', moved, out, o) =
        take_out-TakenOut m intent src dst p intent.item_weight_grams m.next_instance_id in
      elim (Result-cases (insert_item dst moved intent.target_slot intent.item_weight_grams)) [
        | inr (e, failed) ↦
            let end =
              execute_transfer-undelivered m intent src dst fresh_id ready p between src' moved out
                o e failed in
            absurd (ground (arith, done, end))
        | inl ((dst', j), placed) ↦
            let end =
              execute_transfer-delivered m intent src dst fresh_id ready p between src' moved out o
                dst' j placed in
            let s = o.balanced (valid intent.source_container_id src p.at_source) in
            let t =
              insert_item-Moved dst dst' moved intent.target_slot intent.item_weight_grams j
                (valid intent.target_container_id dst p.at_target) placed in
            let alike = o.same_type in
            let amount = o.amount in
            rw end (record {
              source = src;
              source' = src';
              target = dst;
              target' = dst';
              slot = p.slot;
              item = p.item;
              source_was = p.at_source;
              target_was = p.at_target;
              source_is = ground arith;
              target_is = ground (arith, between);
              source_valid = s.valid;
              target_valid = t.valid;
              in_slot = p.in_slot;
              unlocked = p.unlocked;
              occupant = p.holds;
              identity = p.identity;
              positive = p.positive;
              enough = p.enough;
              owners = p.owners;
              lost = ground (arith, s.balance p.item.type_id, alike, amount);
              gained = ground (arith, t.balance p.item.type_id, alike, amount);
              source_rest = λ k ne. ground (arith, s.balance k, alike, ne);
              target_rest = λ k ne. ground (arith, t.balance k, alike, ne);
              others = λ k a b. ground (arith, a, b);
            })
      ]

  -- Among valid containers, a transfer within one container that succeeds keeps the units of every item
  -- type in it, leaves every other container as before, and keeps the container valid.
  execute_transfer-Rearranged :
      AllValid m.containers
      → intent.source_container_id ≡ intent.target_container_id
      → (execute_transfer m intent).1 ≡ ok res
      → Rearranged m.containers (execute_transfer m intent).0.containers intent
  unfolding conclude record_transaction
  execute_transfer-Rearranged valid within done =
      let (fresh_id, src, dst, ready, p) = admitted done in
      let (src', moved, out, o) = take_out-TakenOut m intent src dst p 0 m.next_instance_id in
      elim (Result-cases (insert_item src' moved intent.target_slot 0)) [
        | inr (e, failed) ↦
            let end =
              execute_transfer-unplaced m intent src dst fresh_id ready p within src' moved out e
                failed in
            absurd (ground (arith, done, end))
        | inl ((src'', j), placed) ↦
            let end =
              execute_transfer-within m intent src dst fresh_id ready p within src' moved out src''
                j placed in
            let s = o.balanced (valid intent.source_container_id src p.at_source) in
            let t = insert_item-Moved src' src'' moved intent.target_slot 0 j s.valid placed in
            let u = unlock_slot-Moved src'' intent.source_slot t.valid in
            rw end (record {
              source = src;
              source' = unlock_slot src'' intent.source_slot;
              source_was = p.at_source;
              source_is = ground arith;
              source_valid = u.valid;
              same_units = λ k. omega (arith, s.balance k, t.balance k, u.balance k);
              others = λ k ne. ground (arith, ne);
            })
      ]
