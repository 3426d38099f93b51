-- ===== src/ItemGraph/Units.antt =====
-- Units of an item type in a container, and how the operations of
-- crates/eidolon-core/src/item_graph.rs move them.
use eidolon.Base.{
  ℕ, ◌+◌, ◌-◌, ◌≤◌, ◌≡◌, refl, ap, ◌∙◌, ◌⊎◌, inl, inr, true, false, Option, none, some, ok, arith,
  ◌==◌, ltb, if◌then◌else◌, get_elem?, sum_by, sum_by-set, Option-cases, Bool-cases, Result-cases,
  sat_add32,
}
use eidolon.ItemGraph.{ItemInstance, ContainerSlot, Container, put_slot, unlock_slot, lock_slot}
use eidolon.ItemGraph.Moves.{nests, overweight, choose_slot, fill, insert_item, remove_item}
use eidolon.ItemGraph.Shape.{IsValid, put_slot-IsValid, fill-put_slot, choose_slot-Free}

abbrev pub item_units : ℕ → ItemInstance → ℕ
item_units id i = if i.type_id == id then i.quantity else 0

abbrev pub held_units : ℕ → Option ItemInstance → ℕ
held_units id none = 0
held_units id (some i) = item_units id i

abbrev pub slot_units : ℕ → ContainerSlot → ℕ
slot_units id s = held_units id s.item

abbrev pub units : ℕ → Container → ℕ
units id c = sum_by (slot_units id) c.slots

-- A valid container after a change that put in the units of one item and took out those of another.
pub record Moved (c c' : Container) (entered left : Option ItemInstance) : Type 0 where
  pub valid : IsValid c'
  pub balance : (id : ℕ) → units id c' + held_units id left ≡ units id c + held_units id entered

pub lock_slot-Moved :
    (c c' : Container) (k : ℕ) → IsValid c → lock_slot c k ≡ ok c' → Moved c c' none none
unfolding lock_slot
lock_slot-Moved c c' k v h = elim (Option-cases (get_elem? c.slots k)) [
  | inl out ↦ absurd (ground (arith, h, out))
  | inr (s, e) ↦ elim (Bool-cases s.is_locked) [
    | inl locked ↦ absurd (ground (arith, h, e, locked))
    | inr free ↦
        let s' : ContainerSlot = record s { is_locked = true } in
        let same : put_slot c k s' ≡ c' = ground (arith, h, e, free) in
        rw (← same) (record {
          valid = put_slot-IsValid c k s e s' refl v;
          balance = λ id. omega (arith, sum_by-set (slot_units id) c.slots k s s' e);
        })
  ]
]

pub unlock_slot-Moved : (c : Container) (k : ℕ) → IsValid c → Moved c (unlock_slot c k) none none
unfolding unlock_slot
unlock_slot-Moved c k v = elim (Option-cases (get_elem? c.slots k)) [
  | inl out ↦
      let same : c ≡ unlock_slot c k = ground (arith, out) in
      rw (← same) (record { valid = v; balance = λ id. refl })
  | inr (s, e) ↦
      let s' : ContainerSlot = record s { is_locked = false } in
      let same : put_slot c k s' ≡ unlock_slot c k = ground (arith, e) in
      rw (← same) (record {
        valid = put_slot-IsValid c k s e s' refl v;
        balance = λ id. omega (arith, sum_by-set (slot_units id) c.slots k s s' e);
      })
]

-- A weight more that is not over the limit.
overweight-false :
    (c : Container) (w : ℕ)
    → overweight c w ≡ false
    → (c.max_weight_grams ≡ 0) ⊎ (sat_add32 c.current_weight_grams w ≤ c.max_weight_grams)
unfolding overweight
overweight-false c w h = elim (Bool-cases (ltb 0 c.max_weight_grams)) [
  | inl limited ↦ inr (ground (arith, h, limited))
  | inr free ↦ inl (ground (arith, free))
]

-- What an insertion that succeeds has done.
pub insert_item_ok :
    (c c' : Container) (i : ItemInstance) (t : Option ℕ) (w k : ℕ)
    → insert_item c i t w ≡ ok (c', k)
    → (nests i c.container_id ≡ false)
      × (overweight c w ≡ false)
      × (choose_slot c t ≡ ok k)
      × (record (fill c k (some i)) { current_weight_grams = sat_add32 c.current_weight_grams w }
          ≡ c')
unfolding insert_item
insert_item_ok c c' i t w k h = elim (Bool-cases (nests i c.container_id)) [
  | inl nested ↦ absurd (ground (arith, h, nested))
  | inr other ↦ elim (Bool-cases (overweight c w)) [
    | inl heavy ↦ absurd (ground (arith, h, other, heavy))
    | inr light ↦ elim (Result-cases (choose_slot c t)) [
      | inr (e, failed) ↦ absurd (ground (arith, h, other, light, failed))
      | inl (j, chosen) ↦
          let jk : j ≡ k = ground (arith, h, other, light, chosen) in
          (other, light, chosen ∙ ap ok jk, ground (arith, h, other, light, chosen, jk))
    ]
  ]
]

pub insert_item-Moved :
    (c c' : Container) (i : ItemInstance) (t : Option ℕ) (w k : ℕ)
    → IsValid c
    → insert_item c i t w ≡ ok (c', k)
    → Moved c c' (some i) none
insert_item-Moved c c' i t w k v h =
    let (other, light, chosen, same) = insert_item_ok c c' i t w k h in
    let (s, at_k, vacant, unlocked) = choose_slot-Free c t k v chosen in
    let s' : ContainerSlot = record s { item = some i } in
    let v' = put_slot-IsValid c k s at_k s' refl v in
    let filled : record (put_slot c k s') {
      current_weight_grams = sat_add32 c.current_weight_grams w;
    }
        ≡ c' =
      ground (arith, same, fill-put_slot c k s at_k (some i)) in
    rw (← filled) (record {
      valid = record { sized = v'.sized; indexed = v'.indexed; light = overweight-false c w light };
      balance = λ id.
          let gone : slot_units id s ≡ 0 = ground (arith, vacant) in
          omega (arith, sum_by-set (slot_units id) c.slots k s s' at_k, gone);
    })

-- What a removal that succeeds has found and done.
pub remove_item_ok :
    (c c' : Container) (k w : ℕ) (i : ItemInstance)
    → remove_item c k w ≡ ok (c', i)
    → (s : ContainerSlot) × (get_elem? c.slots k ≡ some s)
      × (s.is_locked ≡ false)
      × (s.item ≡ some i)
      × (record (put_slot c k (record s { item = none })) {
        current_weight_grams = c.current_weight_grams - w;
      }
          ≡ c')
unfolding remove_item
remove_item_ok c c' k w i h = elim (Option-cases (get_elem? c.slots k)) [
  | inl out ↦ absurd (ground (arith, h, out))
  | inr (s, e) ↦ elim (Bool-cases s.is_locked) [
    | inl locked ↦ absurd (ground (arith, h, e, locked))
    | inr free ↦ elim (Option-cases s.item) [
      | inl vacant ↦ absurd (ground (arith, h, e, free, vacant))
      | inr (j, taken) ↦
          let ji : j ≡ i = ground (arith, h, e, free, taken) in
          (s, e, free, taken ∙ ap some ji, ground (arith, h, e, free, taken))
    ]
  ]
]

pub remove_item-Moved :
    (c c' : Container) (k w : ℕ) (i : ItemInstance)
    → IsValid c
    → remove_item c k w ≡ ok (c', i)
    → Moved c c' none (some i)
remove_item-Moved c c' k w i v h =
    let (s, e, free, taken, same) = remove_item_ok c c' k w i h in
    let s' : ContainerSlot = record s { item = none } in
    let v' = put_slot-IsValid c k s e s' refl v in
    rw (← same) (record {
      valid = record {
        sized = v'.sized;
        indexed = v'.indexed;
        light = elim v.light [ inl z ↦ inl z | inr l ↦ inr (omega (arith, l)) ];
      };
      balance = λ id.
          let there : slot_units id s ≡ item_units id i = ground (arith, taken) in
          omega (arith, sum_by-set (slot_units id) c.slots k s s' e, there);
    })
