-- ===== src/ItemGraph/Shape.antt =====
-- What the operations rely on in a container of crates/eidolon-core/src/item_graph.rs: slots that know
-- their index, as many as the capacity, and a weight within the limit.
use eidolon.Base.{
  ℕ, zero, suc, ◌+◌, ◌≤◌, ◌<◌, ◌≡◌, refl, sym, ap, ◌∙◌, ◌⊎◌, inl, inr, false, ◌&&◌, not, List, [],
  ◌∷◌, Option, none, some, ok, arith, ◌==◌, length, get_elem?, length-set, get_elem?-set_self,
  get_elem?-set_ne, Option-cases, Bool-cases,
}
use eidolon.ItemGraph.{
  ItemInstance, ContainerType, ContainerSlot, Container, new_slots, new_container, is_some,
  first_empty, find_first_empty_slot, put_slot,
}
use eidolon.ItemGraph.Moves.{choose_slot, fill}

pub record IsValid (c : Container) : Type 0 where
  pub sized : length c.slots ≡ c.capacity
  pub indexed : (k : ℕ) (s : ContainerSlot) → get_elem? c.slots k ≡ some s → s.slot_index ≡ k
  pub light : (c.max_weight_grams ≡ 0) ⊎ (c.current_weight_grams ≤ c.max_weight_grams)

length-new_slots : (i n : ℕ) → length (new_slots i n) ≡ n
unfolding new_slots
length-new_slots i zero = refl
length-new_slots i (suc n) = ap suc (length-new_slots (suc i) n)

new_slots-indexed :
    (i n k : ℕ) (s : ContainerSlot) → get_elem? (new_slots i n) k ≡ some s → s.slot_index ≡ i + k
unfolding new_slots
new_slots-indexed i zero k s h = absurd (ground (arith, h))
new_slots-indexed i (suc n) zero s h = ground (arith, h)
new_slots-indexed i (suc n) (suc k) s h = omega (arith, new_slots-indexed (suc i) n k s h)

pub new_container-IsValid :
    (id owner : ℕ) (t : ContainerType) (capacity max_weight : ℕ)
    → IsValid (new_container id owner t capacity max_weight)
unfolding new_container
new_container-IsValid id owner t capacity max_weight = record {
  sized = length-new_slots 0 capacity;
  indexed = λ k s h. omega (arith, new_slots-indexed 0 capacity k s h);
  light = inr (omega arith);
}

pub get_elem?-in_range :
    {A : Type 0} (xs : List A) (i : ℕ) (x : A) → get_elem? xs i ≡ some x → i < length xs
get_elem?-in_range [] i x h = absurd (ground (arith, h))
get_elem?-in_range (y ∷ xs) zero x h = omega arith
get_elem?-in_range (y ∷ xs) (suc i) x h = omega (arith, get_elem?-in_range xs i x h)

module _ (c : Container) (k : ℕ) (s : ContainerSlot) (at_k : get_elem? c.slots k ≡ some s) where
  pub put_slot-get : (s' : ContainerSlot) → get_elem? (put_slot c k s').slots k ≡ some s'
  put_slot-get s' = get_elem?-set_self c.slots k s' (get_elem?-in_range c.slots k s at_k)

  -- A write of a slot that keeps its index.
  pub put_slot-IsValid :
      (s' : ContainerSlot) → s'.slot_index ≡ s.slot_index → IsValid c → IsValid (put_slot c k s')
  put_slot-IsValid s' same v = record {
    sized = length-set c.slots k s' ∙ v.sized;
    indexed = λ j r h. elim (Bool-cases (j == k)) [
      | inl e ↦
          let jk : j ≡ k = ground (arith, e) in
          let r' : some s' ≡ some r =
            sym (put_slot-get s') ∙ ap (get_elem? (put_slot c k s').slots) (sym jk) ∙ h in
          let i : s.slot_index ≡ k = v.indexed k s at_k in
          let rs : s'.slot_index ≡ r.slot_index = ground (arith, r') in
          ground (arith, same, i, rs, jk)
      | inr e ↦ v.indexed j r (sym (get_elem?-set_ne c.slots k j s' (ground (arith, e))) ∙ h)
    ];
    light = v.light;
  }

  pub fill-put_slot : (i : Option ItemInstance) → fill c k i ≡ put_slot c k (record s { item = i })
  unfolding fill
  fill-put_slot i = ground (arith, at_k)

first_empty-get :
    (j k : ℕ) (slots : List ContainerSlot)
    → ((p : ℕ) (s : ContainerSlot) → get_elem? slots p ≡ some s → s.slot_index ≡ j + p)
    → first_empty slots ≡ some k
    → (p : ℕ) × (s : ContainerSlot) × (k ≡ j + p)
      × (get_elem? slots p ≡ some s)
      × (s.item ≡ none)
      × (s.is_locked ≡ false)
unfolding first_empty
first_empty-get j k [] ix h = absurd (ground (arith, h))
first_empty-get j k (s ∷ slots) ix h = elim (Bool-cases (not (is_some s.item) && not s.is_locked)) [
  | inl free ↦
      let here : s.slot_index ≡ j + 0 = ix 0 s refl in
      let (vacant, unlocked) : (s.item ≡ none) × (s.is_locked ≡ false) = ground (arith, free) in
      (0, s, ground (arith, h, free, here), refl, vacant, unlocked)
  | inr busy ↦
      let (p, r, e, at_p, vacant, unlocked) =
        first_empty-get (suc j) k slots (λ p r hp. omega (arith, ix (suc p) r hp))
          (ground (arith, h, busy)) in
      (suc p, r, omega (arith, e), at_p, vacant, unlocked)
]

-- The slot that an insertion chooses is there, empty and unlocked.
pub choose_slot-Free :
    (c : Container) (t : Option ℕ) (k : ℕ)
    → IsValid c
    → choose_slot c t ≡ ok k
    → (s : ContainerSlot) × (get_elem? c.slots k ≡ some s) × (s.item ≡ none) × (s.is_locked ≡ false)
unfolding choose_slot find_first_empty_slot
choose_slot-Free c (some idx) k v h = elim (Option-cases (get_elem? c.slots idx)) [
  | inl out ↦ absurd (ground (arith, h, out))
  | inr (s, e) ↦ elim (Bool-cases s.is_locked) [
    | inl locked ↦ absurd (ground (arith, h, e, locked))
    | inr unlocked ↦ elim (Option-cases s.item) [
      | inr (i, taken) ↦ absurd (ground (arith, h, e, unlocked, taken))
      | inl vacant ↦
          let same : idx ≡ k = ground (arith, h, e, unlocked, vacant) in
          (s, ap (get_elem? c.slots) (sym same) ∙ e, vacant, unlocked)
    ]
  ]
]
choose_slot-Free c none k v h = elim (Option-cases (first_empty c.slots)) [
  | inl full ↦ absurd (ground (arith, h, full))
  | inr (idx, e) ↦
      let (p, s, ip, at_p, vacant, unlocked) =
        first_empty-get 0 idx c.slots (λ p r hp. omega (arith, v.indexed p r hp)) e in
      let same : p ≡ k = ground (arith, h, e, ip) in
      (s, ap (get_elem? c.slots) (sym same) ∙ at_p, vacant, unlocked)
]
