-- ===== src/ItemGraph/Moves.antt =====
-- Moves of items between the slots of a container: insert_item, remove_item, split_stack and
-- merge_stack of crates/eidolon-core/src/item_graph.rs. None of these four changes the container when
-- it fails; the commit operations may, since they unlock first.
use eidolon.Base.{
  ℕ, ◌-◌, Bool, false, ◌||◌, not, Option, none, some, Result, ok, err, ◌==◌, ltb, leb,
  if◌then◌else◌, min, sat_add32, wrap_add32, get_elem?,
}
use eidolon.ItemGraph.{
  ContainerError, slot_out_of_range, slot_not_empty, slot_empty, slot_locked, capacity_full,
  weight_limit_exceeded, item_type_mismatch, stack_limit_exceeded, invalid_quantity,
  recursive_nesting_not_allowed, ItemInstance, Container, is_some, find_first_empty_slot, put_slot,
  unlock_slot,
}

-- Is the item a bag that contains the given container?
unfoldable pub nests : ItemInstance → ℕ → Bool
nests i container_id = elim i.nested_container_id [
  | none ↦ false
  | some nested_id ↦ nested_id == container_id
]

-- Would a weight more be over the limit? A limit of 0 is none.
unfoldable pub overweight : Container → ℕ → Bool
overweight c w =
    if ltb 0 c.max_weight_grams
    then ltb c.max_weight_grams (sat_add32 c.current_weight_grams w)
    else false

-- The slot that `insert_item` fills.
unfoldable pub choose_slot : Container → Option ℕ → Result ContainerError ℕ
choose_slot c (some idx) = elim (get_elem? c.slots idx) [
  | none ↦ err slot_out_of_range
  | some s ↦
      if s.is_locked then err slot_locked else if is_some s.item then err slot_not_empty else ok idx
]
choose_slot c none = elim (find_first_empty_slot c) [ none ↦ err capacity_full | some idx ↦ ok idx ]

-- `self.slots[slot_idx].item = item`
unfoldable pub fill : Container → ℕ → Option ItemInstance → Container
fill c slot_idx i = elim (get_elem? c.slots slot_idx) [
  | none ↦ c
  | some s ↦ put_slot c slot_idx (record s { item = i })
]

unfoldable pub insert_item :
    Container → ItemInstance → Option ℕ → ℕ → Result ContainerError (Container × ℕ)
insert_item c i target_slot item_weight_grams =
    if nests i c.container_id
    then err recursive_nesting_not_allowed
    else if overweight c item_weight_grams
    then err weight_limit_exceeded
    else elim (choose_slot c target_slot) [
      | err e ↦ err e
      | ok slot_idx ↦
          let c' : Container = fill c slot_idx (some i) in
          ok (
            record c' { current_weight_grams = sat_add32 c.current_weight_grams item_weight_grams },
            slot_idx,
          )
    ]

unfoldable pub remove_item : Container → ℕ → ℕ → Result ContainerError (Container × ItemInstance)
remove_item c slot_idx item_weight_grams = elim (get_elem? c.slots slot_idx) [
  | none ↦ err slot_out_of_range
  | some s ↦ if s.is_locked then err slot_locked else elim s.item [
    | none ↦ err slot_empty
    | some i ↦
        let c' : Container = put_slot c slot_idx (record s { item = none }) in
        ok (record c' { current_weight_grams = c.current_weight_grams - item_weight_grams }, i)
  ]
]

unfoldable pub split_stack :
    Container → ℕ → ℕ → ℕ → Result ContainerError (Container × ItemInstance)
split_stack c slot_idx split_amount new_instance_id =
    if split_amount == 0 then err invalid_quantity else elim (get_elem? c.slots slot_idx) [
      | none ↦ err slot_out_of_range
      | some s ↦ if s.is_locked then err slot_locked else elim s.item [
        | none ↦ err slot_empty
        | some i ↦
            if leb i.quantity split_amount
            then err invalid_quantity
            else ok (
              put_slot c slot_idx
                  (record s { item = some (record i { quantity = i.quantity - split_amount }) }),
              record i { instance_id = new_instance_id; quantity = split_amount },
            )
      ]
    ]

-- A call on a container, which stays as it is when the call fails.
abbrev keep :
    Container
    → Result ContainerError (Container × ItemInstance)
    → Container × Result ContainerError ItemInstance
keep c (err e) = (c, err e)
keep c (ok (c', i)) = (c', ok i)

unfoldable pub commit_remove_item :
    Container → ℕ → ℕ → Container × Result ContainerError ItemInstance
commit_remove_item c slot_idx item_weight_grams =
    keep (unlock_slot c slot_idx) (remove_item (unlock_slot c slot_idx) slot_idx item_weight_grams)

unfoldable pub commit_split_stack :
    Container → ℕ → ℕ → ℕ → Container × Result ContainerError ItemInstance
commit_split_stack c slot_idx split_amount new_instance_id =
    keep (unlock_slot c slot_idx)
      (split_stack (unlock_slot c slot_idx) slot_idx split_amount new_instance_id)

-- The first half of `merge_stack`: both items, if they can be merged.
unfoldable pub merge_pair : Container → ℕ → ℕ → Result ContainerError (ItemInstance × ItemInstance)
merge_pair c from_slot to_slot = elim (get_elem? c.slots from_slot) [
  | none ↦ err slot_out_of_range
  | some from_s ↦ elim (get_elem? c.slots to_slot) [
    | none ↦ err slot_out_of_range
    | some to_s ↦ if from_s.is_locked || to_s.is_locked then err slot_locked else elim from_s.item [
      | none ↦ err slot_empty
      | some f ↦ elim to_s.item [
        | none ↦ err slot_empty
        | some t ↦ if not (f.type_id == t.type_id) then err item_type_mismatch else ok (f, t)
      ]
    ]
  ]
]

-- The second: `n` units go from one stack to the other.
unfoldable pub merge_units : Container → ℕ → ℕ → ItemInstance → ItemInstance → ℕ → Container
merge_units c from_slot to_slot f t n =
    let rest : Option ItemInstance =
      if f.quantity == n then none else some (record f { quantity = f.quantity - n }) in
    fill (fill c from_slot rest) to_slot (some (record t { quantity = wrap_add32 t.quantity n }))

unfoldable pub merge_stack : Container → ℕ → ℕ → ℕ → Result ContainerError Container
merge_stack c from_slot to_slot stack_limit =
    if from_slot == to_slot then ok c else elim (merge_pair c from_slot to_slot) [
      | err e ↦ err e
      | ok (f, t) ↦
          let available_space : ℕ = stack_limit - t.quantity in
          if available_space == 0
          then err stack_limit_exceeded
          else ok (merge_units c from_slot to_slot f t (min f.quantity available_space))
    ]
