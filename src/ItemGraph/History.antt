-- ===== src/ItemGraph/History.antt =====
-- Histories of calls on a container of crates/eidolon-core/src/item_graph.rs.
use eidolon.Base.{
  ℕ, zero, suc, ◌+◌, ◌^◌, ◌<◌, ◌≡◌, refl, inl, inr, List, [], ◌∷◌, Option, none, some, Result, ok,
  err, arith, sum_by, Result-cases,
}
use eidolon.ItemGraph.{
  ContainerError, ItemInstance, ContainerType, Container, new_slots, new_container, lock_slot,
  unlock_slot,
}
use eidolon.ItemGraph.Moves.{
  insert_item, remove_item, split_stack, commit_remove_item, commit_split_stack, merge_stack,
}
use eidolon.ItemGraph.Shape.{IsValid, new_container-IsValid}
use eidolon.ItemGraph.Units.{
  item_units, held_units, units, Moved, lock_slot-Moved, unlock_slot-Moved, insert_item-Moved,
  remove_item-Moved,
}
use eidolon.ItemGraph.Stacks.{split_stack-Moved, merge_stack-Moved}

pub data Call : Type 0 where
  lock : ℕ → Call
  unlock : ℕ → Call
  insert : ItemInstance → Option ℕ → ℕ → Call
  remove : ℕ → ℕ → Call
  split : ℕ → ℕ → ℕ → Call
  commit_remove : ℕ → ℕ → Call
  commit_split : ℕ → ℕ → ℕ → Call
  merge : ℕ → ℕ → ℕ → Call

-- A container, with the items that calls have put in and taken out so far.
pub record Ledger : Type 0 where
  pub container : Container
  pub entered : List ItemInstance
  pub left : List ItemInstance

-- An answer of a call that only changes slots.
abbrev changed : Ledger → Result ContainerError Container → Ledger
changed l (err e) = l
changed l (ok c) = record l { container = c }

abbrev put_in : Ledger → ItemInstance → Result ContainerError (Container × ℕ) → Ledger
put_in l i (err e) = l
put_in l i (ok (c, slot)) = record l { container = c; entered = i ∷ l.entered }

abbrev taken_out : Ledger → Result ContainerError (Container × ItemInstance) → Ledger
taken_out l (err e) = l
taken_out l (ok (c, i)) = record l { container = c; left = i ∷ l.left }

abbrev committed : Ledger → Container × Result ContainerError ItemInstance → Ledger
committed l (c, err e) = record l { container = c }
committed l (c, ok i) = record l { container = c; left = i ∷ l.left }

unfoldable pub perform : Ledger → Call → Ledger
perform l (lock k) = changed l (lock_slot l.container k)
perform l (unlock k) = record l { container = unlock_slot l.container k }
perform l (insert i target w) = put_in l i (insert_item l.container i target w)
perform l (remove k w) = taken_out l (remove_item l.container k w)
perform l (split k n new_id) = taken_out l (split_stack l.container k n new_id)
perform l (commit_remove k w) = committed l (commit_remove_item l.container k w)
perform l (commit_split k n new_id) = committed l (commit_split_stack l.container k n new_id)
perform l (merge from_slot to_slot limit) =
    changed l (merge_stack l.container from_slot to_slot limit)

unfoldable pub run : Ledger → List Call → Ledger
run l [] = l
run l (x ∷ calls) = run (perform l x) calls

-- A container without items or calls.
abbrev pub fresh : Container → Ledger
fresh c = record { container = c; entered = []; left = [] }

-- The stack limit of a merge is a u32.
abbrev Fits : Call → Type 0
Fits (merge from_slot to_slot limit) = limit < 2 ^ 32
Fits _ = 0 < 1

abbrev pub AllFit : List Call → Type 0
AllFit [] = 0 < 1
AllFit (x ∷ calls) = Fits x × AllFit calls

-- A valid container that holds the units that have entered and not left.
pub record IsBalanced (l : Ledger) : Type 0 where
  pub valid : IsValid l.container
  pub balance :
      (id : ℕ)
      → units id l.container + sum_by (item_units id) l.left ≡ sum_by (item_units id) l.entered

module _ (l : Ledger) (b : IsBalanced l) where
  moved_none :
      (c : Container) → Moved l.container c none none → IsBalanced (record l { container = c })
  moved_none c m = record {
    valid = m.valid;
    balance = λ id. omega (arith, m.balance id, b.balance id);
  }

  moved_out :
      (c : Container) (i : ItemInstance)
      → Moved l.container c none (some i)
      → IsBalanced (record l { container = c; left = i ∷ l.left })
  moved_out c i m = record {
    valid = m.valid;
    balance = λ id. omega (arith, m.balance id, b.balance id);
  }

  moved_in :
      (c : Container) (i : ItemInstance)
      → Moved l.container c (some i) none
      → IsBalanced (record l { container = c; entered = i ∷ l.entered })
  moved_in c i m = record {
    valid = m.valid;
    balance = λ id. omega (arith, m.balance id, b.balance id);
  }

  unlocked : (k : ℕ) → IsBalanced (record l { container = unlock_slot l.container k })
  unlocked k = moved_none (unlock_slot l.container k) (unlock_slot-Moved l.container k b.valid)

perform-IsBalanced : (l : Ledger) (x : Call) → Fits x → IsBalanced l → IsBalanced (perform l x)
unfolding perform commit_remove_item commit_split_stack
perform-IsBalanced l (lock k) fits b = elim (Result-cases (lock_slot l.container k)) [
  | inr (e, h) ↦ rw h b
  | inl (c, h) ↦ rw h (moved_none l b c (lock_slot-Moved l.container c k b.valid h))
]
perform-IsBalanced l (unlock k) fits b = unlocked l b k
perform-IsBalanced l (insert i t w) fits b = elim (Result-cases (insert_item l.container i t w)) [
  | inr (e, h) ↦ rw h b
  | inl ((c, k), h) ↦ rw h (moved_in l b c i (insert_item-Moved l.container c i t w k b.valid h))
]
perform-IsBalanced l (remove k w) fits b = elim (Result-cases (remove_item l.container k w)) [
  | inr (e, h) ↦ rw h b
  | inl ((c, i), h) ↦ rw h (moved_out l b c i (remove_item-Moved l.container c k w i b.valid h))
]
perform-IsBalanced l (split k n new_id) fits b =
    elim (Result-cases (split_stack l.container k n new_id)) [
      | inr (e, h) ↦ rw h b
      | inl ((c, i), h) ↦
          rw h (moved_out l b c i (split_stack-Moved l.container c k n new_id i b.valid h))
    ]
perform-IsBalanced l (commit_remove k w) fits b =
    let u = unlocked l b k in
    elim (Result-cases (remove_item (unlock_slot l.container k) k w)) [
      | inr (e, h) ↦ rw h u
      | inl ((c, i), h) ↦ rw h (
          moved_out (record l { container = unlock_slot l.container k }) u c i
            (remove_item-Moved (unlock_slot l.container k) c k w i u.valid h))
    ]
perform-IsBalanced l (commit_split k n new_id) fits b =
    let u = unlocked l b k in
    elim (Result-cases (split_stack (unlock_slot l.container k) k n new_id)) [
      | inr (e, h) ↦ rw h u
      | inl ((c, i), h) ↦ rw h (
          moved_out (record l { container = unlock_slot l.container k }) u c i
            (split_stack-Moved (unlock_slot l.container k) c k n new_id i u.valid h))
    ]
perform-IsBalanced l (merge from_slot to_slot limit) fits b =
    elim (Result-cases (merge_stack l.container from_slot to_slot limit)) [
      | inr (e, h) ↦ rw h b
      | inl (c, h) ↦ rw h (
          moved_none l b c (merge_stack-Moved l.container c from_slot to_slot limit b.valid fits h))
    ]

run-IsBalanced :
    (l : Ledger) (calls : List Call) → AllFit calls → IsBalanced l → IsBalanced (run l calls)
unfolding run
run-IsBalanced l [] fits b = b
run-IsBalanced l (x ∷ calls) fits b =
    run-IsBalanced (perform l x) calls fits.1 (perform-IsBalanced l x fits.0 b)

new_slots-units : (id i n : ℕ) → sum_by (λ s. held_units id s.item) (new_slots i n) ≡ 0
unfolding new_slots
new_slots-units id i zero = refl
new_slots-units id i (suc n) = omega (arith, new_slots-units id (suc i) n)

-- Whatever calls are made on a new container, with u32 stack limits: it holds, of every item type, the
-- units that were put in and not taken out, each slot knows its index, there are as many slots as the
-- capacity, and the weight stays within the limit, if there is one.
pub run-new_container-IsBalanced :
    (id owner : ℕ) (t : ContainerType) (capacity max_weight : ℕ) (calls : List Call)
    → AllFit calls
    → IsBalanced (run (fresh (new_container id owner t capacity max_weight)) calls)
unfolding new_container
run-new_container-IsBalanced id owner t capacity max_weight calls fits =
    run-IsBalanced (fresh (new_container id owner t capacity max_weight)) calls fits (record {
      valid = new_container-IsValid id owner t capacity max_weight;
      balance = λ k. omega (arith, new_slots-units k 0 capacity);
    })
