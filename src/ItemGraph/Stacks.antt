-- ===== src/ItemGraph/Stacks.antt =====
-- Splits and merges of stacks in a container of crates/eidolon-core/src/item_graph.rs.
use eidolon.Base.{
  ℕ, ◌+◌, ◌-◌, ◌^◌, ◌≤◌, ◌<◌, ◌≡◌, ◌≢◌, refl, ap, ◌∙◌, inl, inr, false, ◌||◌, Option, none, some,
  ok, arith, ◌==◌, leb, if◌then◌else◌, get_elem?, sum_by-set, get_elem?-set_ne, Option-cases,
  Bool-cases, Result-cases, min, wrap_add32, mod_below,
}
use eidolon.ItemGraph.{ItemInstance, ContainerSlot, Container, put_slot}
use eidolon.ItemGraph.Moves.{split_stack, merge_pair, merge_units, merge_stack}
use eidolon.ItemGraph.Shape.{IsValid, put_slot-IsValid, fill-put_slot}
use eidolon.ItemGraph.Units.{item_units, held_units, slot_units, Moved}

-- What a split that succeeds has found and done.
pub split_stack_ok :
    (c c' : Container) (k n new_id : ℕ) (i : ItemInstance)
    → split_stack c k n new_id ≡ ok (c', i)
    → (s : ContainerSlot) × (j : ItemInstance) × (get_elem? c.slots k ≡ some s)
      × (s.is_locked ≡ false)
      × (s.item ≡ some j)
      × (n < j.quantity)
      × (record j { instance_id = new_id; quantity = n } ≡ i)
      × (put_slot c k (record s { item = some (record j { quantity = j.quantity - n }) }) ≡ c')
unfolding split_stack
split_stack_ok c c' k n new_id i h = elim (Bool-cases (n == 0)) [
  | inl zero_units ↦ absurd (ground (arith, h, zero_units))
  | inr many ↦ elim (Option-cases (get_elem? c.slots k)) [
    | inl out ↦ absurd (ground (arith, h, many, out))
    | inr (s, e) ↦ elim (Bool-cases s.is_locked) [
      | inl locked ↦ absurd (ground (arith, h, many, e, locked))
      | inr free ↦ elim (Option-cases s.item) [
        | inl vacant ↦ absurd (ground (arith, h, many, e, free, vacant))
        | inr (j, taken) ↦ elim (Bool-cases (leb j.quantity n)) [
          | inl few ↦ absurd (ground (arith, h, many, e, free, taken, few))
          | inr enough ↦ (
            s,
            j,
            e,
            free,
            taken,
            ground (arith, enough),
            ground (arith, h, many, e, free, taken, enough),
            ground (arith, h, many, e, free, taken, enough),
          )
        ]
      ]
    ]
  ]
]

pub split_stack-Moved :
    (c c' : Container) (k n new_id : ℕ) (i : ItemInstance)
    → IsValid c
    → split_stack c k n new_id ≡ ok (c', i)
    → Moved c c' none (some i)
split_stack-Moved c c' k n new_id i v h =
    let (s, j, e, free, taken, less, part, same) = split_stack_ok c c' k n new_id i h in
    let s' : ContainerSlot = record s { item = some (record j { quantity = j.quantity - n }) } in
    rw (← same, ← part)
      (record {
        valid = put_slot-IsValid c k s e s' refl v;
        balance = λ id.
            let there : slot_units id s ≡ item_units id j = ground (arith, taken) in
            let sums = sum_by-set (slot_units id) c.slots k s s' e in
            elim (Bool-cases (j.type_id == id)) [
              | inl mine ↦ ground (arith, sums, there, mine, less)
              | inr other ↦ ground (arith, sums, there, other)
            ];
      })

-- Two slots, unlocked, with items of the same type.
pub record Mergeable (c : Container) (from_slot to_slot : ℕ) (f t : ItemInstance) : Type 0 where
  pub source : ContainerSlot
  pub target : ContainerSlot
  pub at_source : get_elem? c.slots from_slot ≡ some source
  pub at_target : get_elem? c.slots to_slot ≡ some target
  pub holds_source : source.item ≡ some f
  pub holds_target : target.item ≡ some t
  pub same_type : f.type_id ≡ t.type_id
  pub source_free : source.is_locked ≡ false
  pub target_free : target.is_locked ≡ false

merge_pair-Mergeable :
    (c : Container) (from_slot to_slot : ℕ) (f t : ItemInstance)
    → merge_pair c from_slot to_slot ≡ ok (f, t)
    → Mergeable c from_slot to_slot f t
unfolding merge_pair
merge_pair-Mergeable c a b f t h = elim (Option-cases (get_elem? c.slots a)) [
  | inl out ↦ absurd (ground (arith, h, out))
  | inr (x, ex) ↦ elim (Option-cases (get_elem? c.slots b)) [
    | inl out ↦ absurd (ground (arith, h, ex, out))
    | inr (y, ey) ↦ elim (Bool-cases (x.is_locked || y.is_locked)) [
      | inl locked ↦ absurd (ground (arith, h, ex, ey, locked))
      | inr free ↦ elim (Option-cases x.item) [
        | inl vacant ↦ absurd (ground (arith, h, ex, ey, free, vacant))
        | inr (i, ei) ↦ elim (Option-cases y.item) [
          | inl vacant ↦ absurd (ground (arith, h, ex, ey, free, ei, vacant))
          | inr (j, ej) ↦ elim (Bool-cases (i.type_id == j.type_id)) [
            | inr differ ↦ absurd (ground (arith, h, ex, ey, free, ei, ej, differ))
            | inl alike ↦
                let both : (i ≡ f) × (j ≡ t) = ground (arith, h, ex, ey, free, ei, ej, alike) in
                record {
                  source = x;
                  target = y;
                  at_source = ex;
                  at_target = ey;
                  holds_source = ei ∙ ap some both.0;
                  holds_target = ej ∙ ap some both.1;
                  same_type = ground (arith, both.0, both.1, alike);
                  source_free = ground (arith, free);
                  target_free = ground (arith, free);
                }
          ]
        ]
      ]
    ]
  ]
]

-- What is left of a stack that loses `n` units.
abbrev remainder : ItemInstance → ℕ → Option ItemInstance
remainder f n = if f.quantity == n then none else some (record f { quantity = f.quantity - n })

remainder-units :
    (f : ItemInstance) (n id : ℕ)
    → n ≤ f.quantity
    → held_units id (remainder f n) + (if f.type_id == id then n else 0) ≡ item_units id f
remainder-units f n id h = elim (Bool-cases (f.quantity == n)) [
  | inl all_of_it ↦ ground (arith, h, all_of_it)
  | inr some_of_it ↦ ground (arith, h, some_of_it)
]

merge_units-Moved :
    (c : Container) (a b n : ℕ) (f t : ItemInstance)
    → IsValid c
    → Mergeable c a b f t
    → a ≢ b
    → n ≤ f.quantity
    → t.quantity + n < 2 ^ 32
    → Moved c (merge_units c a b f t n) none none
unfolding merge_units
merge_units-Moved c a b n f t v m ne le small =
    let x' : ContainerSlot = record m.source { item = remainder f n } in
    let grown : ItemInstance = record t { quantity = wrap_add32 t.quantity n } in
    let y' : ContainerSlot = record m.target { item = some grown } in
    let c1 : Container = put_slot c a x' in
    let at_b : get_elem? c1.slots b ≡ some m.target =
      get_elem?-set_ne c.slots a b x' ne ∙ m.at_target in
    let v1 = put_slot-IsValid c a m.source m.at_source x' refl v in
    let e1 = fill-put_slot c a m.source m.at_source (remainder f n) in
    let e2 = fill-put_slot c1 b m.target at_b (some grown) in
    let same : put_slot c1 b y' ≡ merge_units c a b f t n = ground (arith, e1, e2) in
    rw (← same) (record {
      valid = put_slot-IsValid c1 b m.target at_b y' refl v1;
      balance = λ id.
          let s1 = sum_by-set (slot_units id) c.slots a m.source x' m.at_source in
          let s2 = sum_by-set (slot_units id) c1.slots b m.target y' at_b in
          let u1 : slot_units id m.source ≡ item_units id f = ground (arith, m.holds_source) in
          let u2 : slot_units id m.target ≡ item_units id t = ground (arith, m.holds_target) in
          let u3 = remainder-units f n id le in
          let u4 : wrap_add32 t.quantity n ≡ t.quantity + n =
            mod_below (t.quantity + n) (2 ^ 32) small in
          let alike = m.same_type in
          elim (Bool-cases (f.type_id == id)) [
            | inl mine ↦ ground (arith, s1, s2, u1, u2, u3, u4, alike, mine)
            | inr other ↦ ground (arith, s1, s2, u1, u2, u3, u4, alike, other)
          ];
    })

-- What a merge that succeeds has found and done, for two different slots.
pub merge_stack_ok :
    (c c' : Container) (a b limit : ℕ)
    → a ≢ b
    → merge_stack c a b limit ≡ ok c'
    → (f : ItemInstance) × (t : ItemInstance) × Mergeable c a b f t
      × (t.quantity < limit)
      × (merge_units c a b f t (min f.quantity (limit - t.quantity)) ≡ c')
unfolding merge_stack
merge_stack_ok c c' a b limit ne h = elim (Result-cases (merge_pair c a b)) [
  | inr (e, failed) ↦ absurd (ground (arith, h, ne, failed))
  | inl ((f, t), found) ↦ elim (Bool-cases (limit - t.quantity == 0)) [
    | inl full ↦ absurd (ground (arith, h, ne, found, full))
    | inr space ↦ (
      f,
      t,
      merge_pair-Mergeable c a b f t found,
      ground (arith, space),
      ground (arith, h, ne, found, space),
    )
  ]
]

pub merge_stack-Moved :
    (c c' : Container) (a b limit : ℕ)
    → IsValid c
    → limit < 2 ^ 32
    → merge_stack c a b limit ≡ ok c'
    → Moved c c' none none
unfolding merge_stack
merge_stack-Moved c c' a b limit v small h = elim (Bool-cases (a == b)) [
  | inl e ↦
      let same : c ≡ c' = ground (arith, h, e) in
      rw (← same) (record { valid = v; balance = λ id. refl })
  | inr e ↦
      let ne : a ≢ b = ground (arith, e) in
      let (f, t, m, space, same) = merge_stack_ok c c' a b limit ne h in
      rw (← same) (
        merge_units-Moved c a b (min f.quantity (limit - t.quantity)) f t v m ne (omega arith)
          (omega arith))
]
