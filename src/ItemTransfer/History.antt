-- ===== src/ItemTransfer/History.antt =====
-- Histories of calls on the coordinator of crates/eidolon-world/src/item_transaction.rs, and the
-- transaction ids that it remembers.
use eidolon.Base.{
  ℕ, zero, suc, ◌+◌, ◌%◌, ◌<◌, ◌≡◌, ◌≢◌, sym, ap, ◌∙◌, true, List, [], ◌∷◌, some, Result, ok, err,
  arith, length, get_elem?, length-set, get_elem?-set_self, get_elem?-set_ne, length-replicate,
}
use eidolon.ItemGraph.{Container}
use eidolon.ItemTransfer.{
  ItemTransactionError, duplicate_transaction_id, ItemTransferIntent, ItemTransferResult,
  ItemTransactionCoordinator, contains, register_container, is_transaction_processed,
  new_coordinator,
}
use eidolon.ItemTransfer.Commit.{execute_transfer}
use eidolon.ItemTransfer.Dedup.{Ends, failed, done, execute_transfer-Ends}

pub data Call : Type 0 where
  register : Container → Call
  transfer : ItemTransferIntent → Call

unfoldable pub perform : ItemTransactionCoordinator → Call → ItemTransactionCoordinator
perform m (register c) = register_container m c
perform m (transfer intent) = (execute_transfer m intent).0

unfoldable pub run : ItemTransactionCoordinator → List Call → ItemTransactionCoordinator
run m [] = m
run m (x ∷ calls) = run (perform m x) calls

abbrev one_if_ok : {E A : Type 0} → Result E A → ℕ
one_if_ok (ok a) = 1
one_if_ok (err e) = 0

-- The transfers that succeed.
unfoldable pub successes : ItemTransactionCoordinator → List Call → ℕ
successes m [] = 0
successes m (register c ∷ calls) = successes (register_container m c) calls
successes m (transfer intent ∷ calls) =
    one_if_ok (execute_transfer m intent).1 + successes (execute_transfer m intent).0 calls

-- The ring has its places, and the cursor is one of them.
pub record HasRing (m : ItemTransactionCoordinator) : Type 0 where
  pub full_ring : length m.processed_transactions ≡ 2048
  pub in_ring : m.dedup_cursor < 2048

-- An id stands at a place of the ring, `j` places before the cursor.
record Holds (m : ItemTransactionCoordinator) (p tx_id j : ℕ) : Type 0 where
  ring : HasRing m
  at_place : get_elem? m.processed_transactions p ≡ some tx_id
  place : p < 2048
  behind : m.dedup_cursor ≡ (p + 1 + j) % 2048

contains-get_elem? : (xs : List ℕ) (p x : ℕ) → get_elem? xs p ≡ some x → contains xs x ≡ true
contains-get_elem? [] p x h = absurd (ground (arith, h))
contains-get_elem? (y ∷ ys) zero x h = ground (arith, h)
contains-get_elem? (y ∷ ys) (suc p) x h = ground (arith, contains-get_elem? ys p x h)

next_cursor :
    (p j c : ℕ) → p < 2048 → c ≡ (p + 1 + j) % 2048 → (c + 1) % 2048 ≡ (p + 1 + suc j) % 2048
next_cursor p j c h e = omega arith

other_place : (p j c : ℕ) → p < 2048 → j < 2047 → c ≡ (p + 1 + j) % 2048 → c ≢ p
other_place p j c h k e = λ same. absurd (omega arith)

Ends-Holds :
    (m m' : ItemTransactionCoordinator) (tx p tx_id j : ℕ)
    (r : Result ItemTransactionError ItemTransferResult)
    → Ends m m' tx r
    → Holds m p tx_id j
    → j + one_if_ok r < 2048
    → Holds m' p tx_id (j + one_if_ok r)
Ends-Holds m m' tx p tx_id j (err e) (failed x ring cursor) h small = record {
  ring = record {
    full_ring = ap length ring ∙ h.ring.full_ring;
    in_ring = omega (arith, cursor, h.ring.in_ring);
  };
  at_place = ap (λ l. get_elem? l p) ring ∙ h.at_place;
  place = h.place;
  behind = omega (arith, cursor, h.behind);
}
Ends-Holds m m' tx p tx_id j (ok res) (done r ring cursor) h small = record {
  ring = record {
    full_ring =
        ap length ring ∙ length-set m.processed_transactions m.dedup_cursor tx ∙ h.ring.full_ring;
    in_ring = omega (arith, cursor);
  };
  at_place =
      ap (λ l. get_elem? l p) ring
      ∙ get_elem?-set_ne m.processed_transactions m.dedup_cursor p tx
          (other_place p j m.dedup_cursor h.place (omega arith) h.behind)
      ∙ h.at_place;
  place = h.place;
  behind =
      cursor
      ∙ next_cursor p j m.dedup_cursor h.place h.behind
      ∙ ap (λ k. (p + 1 + k) % 2048) {y = j + 1} (omega arith);
}

run-Holds :
    (m : ItemTransactionCoordinator) (calls : List Call) (p tx_id j : ℕ)
    → Holds m p tx_id j
    → j + successes m calls < 2048
    → Holds (run m calls) p tx_id (j + successes m calls)
unfolding run successes perform register_container
run-Holds m [] p tx_id j h small = let e : j + 0 ≡ j = omega arith in rw e h
run-Holds m (register c ∷ calls) p tx_id j h small =
    run-Holds (register_container m c) calls p tx_id j
      (record {
        ring = record { full_ring = h.ring.full_ring; in_ring = h.ring.in_ring };
        at_place = h.at_place;
        place = h.place;
        behind = h.behind;
      })
      small
run-Holds m (transfer intent ∷ calls) p tx_id j h small =
    let (m', r) = execute_transfer m intent in
    let next =
      Ends-Holds m m' intent.transaction_id p tx_id j r (execute_transfer-Ends m intent) h
        (omega arith) in
    let e : (j + one_if_ok r) + successes m' calls ≡ j + (one_if_ok r + successes m' calls) =
      omega arith in
    rw (← e) (run-Holds m' calls p tx_id (j + one_if_ok r) next (omega arith))

done-Holds :
    (m m' : ItemTransactionCoordinator) (tx : ℕ)
    (r : Result ItemTransactionError ItemTransferResult) (res : ItemTransferResult)
    → HasRing m
    → Ends m m' tx r
    → r ≡ ok res
    → Holds m' m.dedup_cursor tx 0
done-Holds m m' tx (err e) res h (failed x ring cursor) ended = absurd (ground (arith, ended))
done-Holds m m' tx (ok res') res h (done r ring cursor) ended = record {
  ring = record {
    full_ring =
        ap length ring ∙ length-set m.processed_transactions m.dedup_cursor tx ∙ h.full_ring;
    in_ring = omega (arith, cursor);
  };
  at_place =
      ap (λ l. get_elem? l m.dedup_cursor) ring
      ∙ get_elem?-set_self m.processed_transactions m.dedup_cursor tx
          (omega (arith, h.full_ring, h.in_ring));
  place = h.in_ring;
  behind = cursor ∙ ap (λ k. k % 2048) (omega arith);
}

refused :
    (m : ItemTransactionCoordinator) (intent : ItemTransferIntent)
    → contains m.processed_transactions intent.transaction_id ≡ true
    → execute_transfer m intent ≡ (m, err duplicate_transaction_id)
unfolding execute_transfer is_transaction_processed
refused m intent h = ground (arith, h)

pub new_coordinator-HasRing : HasRing new_coordinator
unfolding new_coordinator
new_coordinator-HasRing = record {
  full_ring = length-replicate {A = ℕ} 2048 0;
  in_ring = omega arith;
}

-- After a transfer that succeeded, on a ring of 2048 places with its cursor in it, and any calls of which
-- at most 2047 are transfers that succeed, a transfer with the same transaction id is refused as a
-- duplicate and changes nothing, whatever else it asks for.
pub execute_transfer_once :
    (m : ItemTransactionCoordinator) (intent again : ItemTransferIntent) (res : ItemTransferResult)
    (calls : List Call)
    → HasRing m
    → (execute_transfer m intent).1 ≡ ok res
    → successes (execute_transfer m intent).0 calls < 2048
    → again.transaction_id ≡ intent.transaction_id
    → execute_transfer (run (execute_transfer m intent).0 calls) again
      ≡ (run (execute_transfer m intent).0 calls, err duplicate_transaction_id)
execute_transfer_once m intent again res calls h first few same =
    let m' = (execute_transfer m intent).0 in
    let start =
      done-Holds m m' intent.transaction_id (execute_transfer m intent).1 res h
        (execute_transfer-Ends m intent) first in
    let later =
      run-Holds m' calls m.dedup_cursor intent.transaction_id 0 start (omega (arith, few)) in
    refused (run m' calls) again (
      contains-get_elem? (run m' calls).processed_transactions m.dedup_cursor again.transaction_id
        (later.at_place ∙ ap some (sym same)))
