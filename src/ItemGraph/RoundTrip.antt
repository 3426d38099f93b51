-- ===== src/ItemGraph/RoundTrip.antt =====
-- A removal after an insertion, in a container of crates/eidolon-core/src/item_graph.rs.
use eidolon.Base.{
  ℕ, ◌+◌, ◌-◌, ◌^◌, ◌<◌, ◌≡◌, sym, ap, ◌∙◌, Option, none, some, ok, arith, set, set-set,
  set-get_elem?, sat_add32,
}
use eidolon.ItemGraph.{ItemInstance, ContainerSlot, Container, put_slot}
use eidolon.ItemGraph.Moves.{insert_item, remove_item}
use eidolon.ItemGraph.Shape.{IsValid, put_slot-get, fill-put_slot, choose_slot-Free}
use eidolon.ItemGraph.Units.{insert_item_ok}

-- An insertion into a valid container that succeeds, with a weight that does not saturate, is undone by
-- the removal of the same weight from the slot that it reports: the item comes back, and the container
-- is as before in every field.
pub remove_item-insert_item :
    (c c' : Container) (i : ItemInstance) (t : Option ℕ) (w k : ℕ)
    → IsValid c
    → c.current_weight_grams + w < 2 ^ 32
    → insert_item c i t w ≡ ok (c', k)
    → remove_item c' k w ≡ ok (c, i)
unfolding remove_item
remove_item-insert_item c c' i t w k v small h =
    let (other, light, chosen, same) = insert_item_ok c c' i t w k h in
    let (s, at_k, vacant, unlocked) = choose_slot-Free c t k v chosen in
    let s' : ContainerSlot = record s { item = some i } in
    let there = put_slot-get c k s at_k s' in
    let filled : record (put_slot c k s') {
      current_weight_grams = sat_add32 c.current_weight_grams w;
    }
        ≡ c' =
      ground (arith, same, fill-put_slot c k s at_k (some i)) in
    let back : record s' { item = none } ≡ s = ap (λ o. record s { item = o }) (sym vacant) in
    let slots : set (set c.slots k s') k (record s' { item = none }) ≡ c.slots =
      set-set c.slots k s' (record s' { item = none })
      ∙ ap (set c.slots k) back
      ∙ set-get_elem? c.slots k s at_k in
    let weight : sat_add32 c.current_weight_grams w - w ≡ c.current_weight_grams = omega arith in
    rw (← filled) (ground (arith, there, unlocked, slots, weight))
