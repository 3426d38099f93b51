-- ===== src/ItemTransfer/Prepare.antt =====
-- What the prepare phase of a transfer has found: the checks of execute_transfer in
-- crates/eidolon-world/src/item_transaction.rs.
use Prim.Native.Nat.{bit_and}
use eidolon.Base.{
  ℕ, ◌≤◌, ◌<◌, ◌≡◌, ◌⊎◌, inl, inr, Bool, true, false, ◌&&◌, ◌||◌, not, none, some, ok, arith, ◌==◌,
  ltb, get_elem?, Option-cases, Bool-cases,
}
use eidolon.ItemGraph.{ItemInstance, ContainerSlot, Container, is_some, get_slot}
use eidolon.ItemGraph.Moves.{nests, overweight, choose_slot}
use eidolon.ItemTransfer.{
  ItemTransferIntent, ItemTransactionCoordinator, item_refusal, source_refusal, target_refusal,
  prepare,
}

pub record Prepared (m : ItemTransactionCoordinator) (intent : ItemTransferIntent)
    (source target : Container) : Type 0 where
  pub slot : ContainerSlot
  pub item : ItemInstance
  pub at_source : m.containers intent.source_container_id ≡ some source
  pub at_target : m.containers intent.target_container_id ≡ some target
  pub in_slot : get_elem? source.slots intent.source_slot ≡ some slot
  pub unlocked : slot.is_locked ≡ false
  pub holds : slot.item ≡ some item
  pub identity : item.instance_id ≡ intent.item_instance_id
  pub positive : 0 < intent.quantity
  pub enough : intent.quantity ≤ item.quantity
  pub owners : (bit_and item.flags 1 ≡ 0) ⊎ (source.owner_id ≡ target.owner_id)
  pub no_cycle : nests item intent.target_container_id ≡ false
  pub light : overweight target intent.item_weight_grams ≡ false
  pub place : (t : ℕ) → intent.target_slot ≡ some t → choose_slot target (some t) ≡ ok t

item_refusal-none :
    (intent : ItemTransferIntent) (item : ItemInstance) (same_owner : Bool)
    → item_refusal intent item same_owner ≡ none
    → (item.instance_id ≡ intent.item_instance_id)
      × (0 < intent.quantity)
      × (intent.quantity ≤ item.quantity)
      × ((bit_and item.flags 1 == 0) || same_owner ≡ true)
      × (nests item intent.target_container_id ≡ false)
unfolding item_refusal
item_refusal-none intent item same_owner h =
    elim (Bool-cases (item.instance_id == intent.item_instance_id)) [
      | inr other ↦ absurd (ground (arith, h, other))
      | inl same ↦ elim (Bool-cases (intent.quantity == 0 || ltb item.quantity intent.quantity)) [
        | inl few ↦ absurd (ground (arith, h, same, few))
        | inr enough ↦ elim (Bool-cases (not (bit_and item.flags 1 == 0) && not same_owner)) [
          | inl soulbound ↦ absurd (ground (arith, h, same, enough, soulbound))
          | inr free ↦ elim (Bool-cases (nests item intent.target_container_id)) [
            | inl cycle ↦ absurd (ground (arith, h, same, enough, free, cycle))
            | inr flat ↦ (
              ground (arith, same),
              ground (arith, enough),
              ground (arith, enough),
              ground (arith, free),
              flat,
            )
          ]
        ]
      ]
    ]

target_refusal-none :
    (intent : ItemTransferIntent) (dst : Container)
    → target_refusal intent dst ≡ none
    → (overweight dst intent.item_weight_grams ≡ false)
      × ((t : ℕ) → intent.target_slot ≡ some t → choose_slot dst (some t) ≡ ok t)
unfolding target_refusal get_slot choose_slot
target_refusal-none intent dst h = elim (Bool-cases (overweight dst intent.item_weight_grams)) [
  | inl heavy ↦ absurd (ground (arith, h, heavy))
  | inr light ↦ (
    light,
    λ t named. elim (Option-cases (get_elem? dst.slots t)) [
      | inl out ↦ absurd (ground (arith, h, light, named, out))
      | inr (s, e) ↦ elim (Bool-cases s.is_locked) [
        | inl locked ↦ absurd (ground (arith, h, light, named, e, locked))
        | inr free ↦ elim (Bool-cases (is_some s.item)) [
          | inl taken ↦ absurd (ground (arith, h, light, named, e, free, taken))
          | inr vacant ↦ ground (arith, e, free, vacant)
        ]
      ]
    ],
  )
]

source_refusal-none :
    (m : ItemTransactionCoordinator) (intent : ItemTransferIntent) (src dst : Container)
    → m.containers intent.source_container_id ≡ some src
    → m.containers intent.target_container_id ≡ some dst
    → source_refusal intent src dst ≡ none
    → target_refusal intent dst ≡ none
    → Prepared m intent src dst
unfolding source_refusal get_slot
source_refusal-none m intent src dst hs ht h k =
    elim (Option-cases (get_elem? src.slots intent.source_slot)) [
      | inl out ↦ absurd (ground (arith, h, out))
      | inr (s, e) ↦ elim (Bool-cases s.is_locked) [
        | inl locked ↦ absurd (ground (arith, h, e, locked))
        | inr free ↦ elim (Option-cases s.item) [
          | inl vacant ↦ absurd (ground (arith, h, e, free, vacant))
          | inr (i, taken) ↦
              let (same, some_of_it, enough, owners, flat) =
                item_refusal-none intent i (src.owner_id == dst.owner_id)
                  (ground (arith, h, e, free, taken)) in
              let (light, place) = target_refusal-none intent dst k in
              record {
                slot = s;
                item = i;
                at_source = hs;
                at_target = ht;
                in_slot = e;
                unlocked = free;
                holds = taken;
                identity = same;
                positive = some_of_it;
                enough = enough;
                owners = ground (arith, owners);
                no_cycle = flat;
                light = light;
                place = place;
              }
        ]
      ]
    ]

pub prepare-Prepared :
    (m : ItemTransactionCoordinator) (intent : ItemTransferIntent) (src : Container)
    → prepare m intent ≡ ok src
    → (dst : Container) × Prepared m intent src dst
unfolding prepare
prepare-Prepared m intent src h = elim (Option-cases (m.containers intent.source_container_id)) [
  | inl gone ↦ absurd (ground (arith, h, gone))
  | inr (c, hs) ↦ elim (Option-cases (m.containers intent.target_container_id)) [
    | inl gone ↦ absurd (ground (arith, h, hs, gone))
    | inr (dst, ht) ↦ elim (Option-cases (source_refusal intent c dst)) [
      | inr (e, refused) ↦ absurd (ground (arith, h, hs, ht, refused))
      | inl fine ↦ elim (Option-cases (target_refusal intent dst)) [
        | inr (e, refused) ↦ absurd (ground (arith, h, hs, ht, fine, refused))
        | inl good ↦
            let same : c ≡ src = ground (arith, h, hs, ht, fine, good) in
            (dst, rw (← same) (source_refusal-none m intent c dst hs ht fine good))
      ]
    ]
  ]
]
