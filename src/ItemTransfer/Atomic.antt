-- ===== src/ItemTransfer/Atomic.antt =====
-- Transfers with a place to go: they succeed or change nothing, as the comment on execute_transfer in
-- crates/eidolon-world/src/item_transaction.rs promises.
use eidolon.Base.{
  ℕ, ◌≤◌, ◌≡◌, ◌≢◌, sym, ap, ◌∙◌, ◌⊎◌, inl, inr, false, Option, none, some, ok, arith, ◌==◌,
  get_elem?, Bool-cases, Result-cases,
}
use eidolon.ItemGraph.{ItemInstance, ContainerSlot, Container, find_first_empty_slot}
use eidolon.ItemGraph.Moves.{nests, overweight, choose_slot}
use eidolon.ItemTransfer.{
  ItemTransferIntent, ItemTransferResult, ItemTransactionCoordinator, is_transaction_processed,
  prepare,
}
use eidolon.ItemTransfer.Commit.{transfer_result, execute_transfer}
use eidolon.ItemTransfer.Prepare.{Prepared, prepare-Prepared}
use eidolon.ItemTransfer.Take.{TakenOut, take_out-TakenOut}
use eidolon.ItemTransfer.Ends.{
  insert_item_fits, execute_transfer-delivered, execute_transfer-within,
}

-- Each container stands under its own id, as register_container puts it there.
abbrev pub Keyed : (ℕ → Option Container) → Type 0
Keyed containers = (k : ℕ) (c : Container) → containers k ≡ some c → c.container_id ≡ k

-- The intent names a slot, or goes to another container that has an empty, unlocked one.
pub data HasPlace (m : ItemTransactionCoordinator) (intent : ItemTransferIntent) : Type 0 where
  named : (t : ℕ) → intent.target_slot ≡ some t → HasPlace m intent
  roomy :
      intent.source_container_id ≢ intent.target_container_id
      → intent.target_slot ≡ none
      → (dst : Container) → m.containers intent.target_container_id ≡ some dst
      → (j : ℕ) → find_first_empty_slot dst ≡ some j
      → HasPlace m intent

nests_same :
    (i j : ItemInstance) (id : ℕ)
    → i.nested_container_id ≡ j.nested_container_id
    → nests i id ≡ nests j id
unfolding nests
nests_same i j id h = ground (arith, h)

overweight_less :
    (c c' : Container) (w : ℕ)
    → c'.max_weight_grams ≡ c.max_weight_grams
    → c'.current_weight_grams ≤ c.current_weight_grams
    → overweight c w ≡ false
    → overweight c' 0 ≡ false
unfolding overweight
overweight_less c c' w same less h = ground (arith, same, less, h)

choose_slot_same :
    (c c' : Container) (t : ℕ)
    → get_elem? c'.slots t ≡ get_elem? c.slots t
    → choose_slot c (some t) ≡ ok t
    → choose_slot c' (some t) ≡ ok t
unfolding choose_slot
choose_slot_same c c' t same h = ground (arith, same, h)

-- A slot that is occupied is not chosen.
choose_slot_taken :
    (c : Container) (k t : ℕ) (s : ContainerSlot) (i : ItemInstance)
    → get_elem? c.slots k ≡ some s
    → s.item ≡ some i
    → choose_slot c (some t) ≡ ok t
    → k ≢ t
unfolding choose_slot
choose_slot_taken c k t s i e taken h = λ same.
    let e' : get_elem? c.slots t ≡ some s = ap (get_elem? c.slots) (sym same) ∙ e in
    elim (Bool-cases s.is_locked) [
      | inl locked ↦ ground (arith, h, e', taken, locked)
      | inr free ↦ ground (arith, h, e', taken, free)
    ]

module _ (m : ItemTransactionCoordinator) (intent : ItemTransferIntent) (keyed : Keyed m.containers)
    (place : HasPlace m intent) where
  place_between :
      (src dst : Container)
      → Prepared m intent src dst
      → (j : ℕ) × (choose_slot dst intent.target_slot ≡ ok j)
  unfolding choose_slot
  place_between src dst p = elim place [
    | named t h ↦ (t, ap (choose_slot dst) h ∙ p.place t h)
    | roomy ne h dst' at j e ↦
        let same : dst' ≡ dst = ground (arith, at, p.at_target) in
        let e' : find_first_empty_slot dst ≡ some j = ap find_first_empty_slot (sym same) ∙ e in
        (j, ground (arith, h, e'))
  ]

  place_within :
      (src src' dst : Container) (moved : ItemInstance)
      → intent.source_container_id ≡ intent.target_container_id
      → (p : Prepared m intent src dst)
      → TakenOut src src' intent.source_slot intent.quantity p.item moved
      → (j : ℕ) × (choose_slot src' intent.target_slot ≡ ok j)
  place_within src src' dst moved within p o = elim place [
    | roomy ne h dst' at j e ↦ absurd (ne within)
    | named t h ↦
        let same : dst ≡ src = ground (arith, p.at_source, p.at_target, within) in
        let fits : choose_slot src (some t) ≡ ok t =
          ap (λ c. choose_slot c (some t)) (sym same) ∙ p.place t h in
        let ne = choose_slot_taken src intent.source_slot t p.slot p.item p.in_slot p.holds fits in
        (t, ap (choose_slot src') h ∙ choose_slot_same src src' t (o.other_slots t ne) fits)
  ]

  succeeds :
      (src dst : Container)
      → is_transaction_processed m intent.transaction_id ≡ false
      → prepare m intent ≡ ok src
      → Prepared m intent src dst
      → (res : ItemTransferResult) × ((execute_transfer m intent).1 ≡ ok res)
  succeeds src dst fresh_id ready p =
      elim (Bool-cases (intent.source_container_id == intent.target_container_id)) [
        | inl e ↦
            let within : intent.source_container_id ≡ intent.target_container_id =
              ground (arith, e) in
            let (src', moved, out, o) = take_out-TakenOut m intent src dst p 0 m.next_instance_id in
            let id : src'.container_id ≡ intent.target_container_id =
              o.same_id ∙ keyed intent.source_container_id src p.at_source ∙ within in
            let same : dst ≡ src = ground (arith, p.at_source, p.at_target, within) in
            let (j, chosen) = place_within src src' dst moved within p o in
            let flat : nests moved src'.container_id ≡ false =
              ap (nests moved) id
              ∙ nests_same moved p.item intent.target_container_id o.same_nested
              ∙ p.no_cycle in
            let light =
              overweight_less src src' intent.item_weight_grams o.same_limit o.lighter
                (ap (λ c. overweight c intent.item_weight_grams) (sym same) ∙ p.light) in
            let (src'', placed) =
              insert_item_fits src' moved intent.target_slot 0 j flat light chosen in
            (
              transfer_result intent j,
              ap (λ r. r.1)
                  (execute_transfer-within m intent src dst fresh_id ready p within src' moved out
                    src'' j placed),
            )
        | inr e ↦
            let between : intent.source_container_id ≢ intent.target_container_id =
              ground (arith, e) in
            let (src', moved, out, o) =
              take_out-TakenOut m intent src dst p intent.item_weight_grams m.next_instance_id in
            let (j, chosen) = place_between src dst p in
            let flat : nests moved dst.container_id ≡ false =
              ap (nests moved) (keyed intent.target_container_id dst p.at_target)
              ∙ nests_same moved p.item intent.target_container_id o.same_nested
              ∙ p.no_cycle in
            let (dst', placed) =
              insert_item_fits dst moved intent.target_slot intent.item_weight_grams j flat p.light
                chosen in
            (
              transfer_result intent j,
              ap (λ r. r.1)
                  (execute_transfer-delivered m intent src dst fresh_id ready p between src' moved
                    out o dst' j placed),
            )
      ]

  -- If the containers stand under their own ids, and the intent names a target slot or goes to another
  -- container with an empty, unlocked one, then the transfer succeeds, or the coordinator is as before:
  -- once the prepare phase has passed, the commit cannot fail.
  pub execute_transfer_atomic :
      ((res : ItemTransferResult) × ((execute_transfer m intent).1 ≡ ok res))
      ⊎ ((execute_transfer m intent).0 ≡ m)
  unfolding execute_transfer
  execute_transfer_atomic = elim (Bool-cases (is_transaction_processed m intent.transaction_id)) [
    | inl again ↦ inr (ground (arith, again))
    | inr fresh_id ↦ elim (Result-cases (prepare m intent)) [
      | inr (e, refused) ↦ inr (ground (arith, fresh_id, refused))
      | inl (src, ready) ↦
          let (dst, p) = prepare-Prepared m intent src ready in
          inl (succeeds src dst fresh_id ready p)
    ]
  ]
