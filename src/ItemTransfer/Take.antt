-- ===== src/ItemTransfer/Take.antt =====
-- The locked source slot, and the units that leave it: the first half of commit_transfer in
-- crates/eidolon-world/src/item_transaction.rs.
use eidolon.Base.{
  ℕ, ◌-◌, ◌≤◌, ◌≡◌, ◌≢◌, refl, sym, ap, ◌∙◌, inl, inr, true, false, none, some, ok, arith, ◌==◌,
  leb, get_elem?, set, set-set, set-get_elem?, get_elem?-set_ne, Bool-cases,
}
use eidolon.ItemGraph.{
  ItemInstance, ContainerSlot, Container, put_slot, get_slot, lock_slot, unlock_slot,
}
use eidolon.ItemGraph.Moves.{remove_item, split_stack, commit_remove_item, commit_split_stack}
use eidolon.ItemGraph.Shape.{IsValid, put_slot-get}
use eidolon.ItemGraph.Units.{Moved, remove_item-Moved}
use eidolon.ItemGraph.Stacks.{split_stack-Moved}
use eidolon.ItemTransfer.{ItemTransferIntent, ItemTransactionCoordinator}
use eidolon.ItemTransfer.Commit.{take_out, source_item}
use eidolon.ItemTransfer.Prepare.{Prepared}

-- The source of a transfer after the units have left it.
pub record TakenOut (source source' : Container) (k n : ℕ) (item moved : ItemInstance)
    : Type 0 where
  pub balanced : IsValid source → Moved source source' none (some moved)
  pub amount : moved.quantity ≡ n
  pub same_type : moved.type_id ≡ item.type_id
  pub same_nested : moved.nested_container_id ≡ item.nested_container_id
  pub slot : ContainerSlot
  pub in_slot : get_elem? source'.slots k ≡ some slot
  pub unlocked : slot.is_locked ≡ false
  pub other_slots : (j : ℕ) → k ≢ j → get_elem? source'.slots j ≡ get_elem? source.slots j
  pub same_id : source'.container_id ≡ source.container_id
  pub same_limit : source'.max_weight_grams ≡ source.max_weight_grams
  pub lighter : source'.current_weight_grams ≤ source.current_weight_grams

-- Unlocking what is not locked changes nothing.
pub unlock_slot-unlocked :
    (c : Container) (k : ℕ) (s : ContainerSlot)
    → get_elem? c.slots k ≡ some s
    → s.is_locked ≡ false
    → unlock_slot c k ≡ c
unfolding unlock_slot
unlock_slot-unlocked c k s e free =
    let back : record s { is_locked = false } ≡ s =
      ap (λ b. record s { is_locked = b }) (sym free) in
    let slots : set c.slots k (record s { is_locked = false }) ≡ c.slots =
      ap (set c.slots k) back ∙ set-get_elem? c.slots k s e in
    ground (arith, e, slots)

module _ (c : Container) (k : ℕ) (s : ContainerSlot) (e : get_elem? c.slots k ≡ some s)
    (free : s.is_locked ≡ false) where
  -- The container with the slot locked.
  abbrev pub locked : Container
  locked = put_slot c k (record s { is_locked = true })

  pub lock_slot-locked : lock_slot c k ≡ ok locked
  unfolding lock_slot
  lock_slot-locked = ground (arith, e, free)

  pub unlock_slot-locked : unlock_slot locked k ≡ c
  unfolding unlock_slot
  unlock_slot-locked =
      let back : record s { is_locked = false } ≡ s =
        ap (λ b. record s { is_locked = b }) (sym free) in
      let there = put_slot-get c k s e (record s { is_locked = true }) in
      let slots : set locked.slots k (record s { is_locked = false }) ≡ c.slots =
        set-set c.slots k (record s { is_locked = true }) (record s { is_locked = false })
        ∙ ap (set c.slots k) back
        ∙ set-get_elem? c.slots k s e in
      ground (arith, there, slots)

  pub source_item-locked : source_item locked k ≡ s.item
  unfolding source_item get_slot
  source_item-locked =
      let there = put_slot-get c k s e (record s { is_locked = true }) in ground (arith, there)

module _ (m : ItemTransactionCoordinator) (intent : ItemTransferIntent) (src dst : Container)
    (p : Prepared m intent src dst) (w new_id : ℕ) where
  -- After the prepare phase the units can be taken out.
  pub take_out-TakenOut :
      (src' : Container) × (moved : ItemInstance) × (take_out
          (locked src intent.source_slot p.slot p.in_slot p.unlocked)
          intent
          w
          new_id
          p.item
        ≡ (src', ok moved))
      × TakenOut src src' intent.source_slot intent.quantity p.item moved
  unfolding take_out commit_remove_item commit_split_stack remove_item split_stack
  take_out-TakenOut =
      let free = unlock_slot-locked src intent.source_slot p.slot p.in_slot p.unlocked in
      elim (Bool-cases (p.item.quantity == intent.quantity)) [
        | inl whole ↦
            let s' : ContainerSlot = record p.slot { item = none } in
            let src' : Container = record (put_slot src intent.source_slot s') {
              current_weight_grams = src.current_weight_grams - w;
            } in
            let done : remove_item src intent.source_slot w ≡ ok (src', p.item) =
              ground (arith, p.in_slot, p.unlocked, p.holds) in
            (
              src',
              p.item,
              ground (arith, whole, free, done),
              record {
                balanced = λ v. remove_item-Moved src src' intent.source_slot w p.item v done;
                amount = ground (arith, whole);
                same_type = refl;
                same_nested = refl;
                slot = s';
                in_slot = put_slot-get src intent.source_slot p.slot p.in_slot s';
                unlocked = p.unlocked;
                other_slots = λ j ne. get_elem?-set_ne src.slots intent.source_slot j s' ne;
                same_id = refl;
                same_limit = refl;
                lighter = omega arith;
              },
            )
        | inr part ↦
            let left : ItemInstance = record p.item {
              quantity = p.item.quantity - intent.quantity;
            } in
            let moved : ItemInstance = record p.item {
              instance_id = new_id;
              quantity = intent.quantity;
            } in
            let s' : ContainerSlot = record p.slot { item = some left } in
            let src' : Container = put_slot src intent.source_slot s' in
            let some_of_it : (intent.quantity == 0) ≡ false = ground (arith, p.positive) in
            let not_all : leb p.item.quantity intent.quantity ≡ false =
              ground (arith, p.enough, part) in
            let done : split_stack src intent.source_slot intent.quantity new_id
                ≡ ok (src', moved) =
              ground (arith, p.in_slot, p.unlocked, p.holds, some_of_it, not_all) in
            (
              src',
              moved,
              ground (arith, part, free, done),
              record {
                balanced = λ v.
                    split_stack-Moved src src' intent.source_slot intent.quantity new_id moved v
                      done;
                amount = refl;
                same_type = refl;
                same_nested = refl;
                slot = s';
                in_slot = put_slot-get src intent.source_slot p.slot p.in_slot s';
                unlocked = p.unlocked;
                other_slots = λ j ne. get_elem?-set_ne src.slots intent.source_slot j s' ne;
                same_id = refl;
                same_limit = refl;
                lighter = omega arith;
              },
            )
      ]
