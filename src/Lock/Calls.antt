-- ===== src/Lock/Calls.antt =====
-- Histories of calls on the registry of crates/eidolon-core/src/lock.rs.
use eidolon.Base.{ℕ, sym, Bool, List, [], ◌∷◌, length-replicate}
use eidolon.Lock.{GenerationLockRegistry, new, empty_entry, acquire_lock, release_lock}
use eidolon.Lock.Table.{new_slots}
use eidolon.Lock.Registry.{IsValid, acquire_lock-Acquired, release_lock-Vacated}

-- The calls that change a registry.
pub data Call : Type 0 where
  acquires : ℕ → ℕ → ℕ → ℕ → ℕ → Bool → Call
  releases : ℕ → ℕ → ℕ → ℕ → Call

unfoldable pub step : GenerationLockRegistry → Call → GenerationLockRegistry
step r (acquires a l s now lease force) = (acquire_lock a l s now lease force r).0
step r (releases a l s g) = (release_lock a l s g r).0

unfoldable pub run : GenerationLockRegistry → List Call → GenerationLockRegistry
run r [] = r
run r (c ∷ cs) = run (step r c) cs

pub step-IsValid :
    (cap : ℕ) (r : GenerationLockRegistry) (c : Call) → IsValid cap r → IsValid cap (step r c)
unfolding step
step-IsValid cap r (acquires a l s now lease force) v =
    (acquire_lock-Acquired a l s now lease force cap r v).2
step-IsValid cap r (releases a l s g) v = (release_lock-Vacated a l s g cap r v).2

run-IsValid :
    (cap : ℕ) (r : GenerationLockRegistry) (cs : List Call) → IsValid cap r → IsValid cap (run r cs)
unfolding run
run-IsValid cap r [] v = v
run-IsValid cap r (c ∷ cs) v = run-IsValid cap (step r c) cs (step-IsValid cap r c v)

pub new-IsValid : (cap : ℕ) → IsValid cap (new cap)
unfolding new
new-IsValid cap = record {
  sized = length-replicate cap empty_entry;
  counted = sym (new_slots cap).1;
  distinct = (new_slots cap).0;
}

-- After any history of calls on a new registry of `cap` slots, the array has `cap` slots, `count`
-- is the number of occupied ones, and no key is held by two slots.
pub run-new-IsValid : (cap : ℕ) (cs : List Call) → IsValid cap (run (new cap) cs)
run-new-IsValid cap cs = run-IsValid cap (new cap) cs (new-IsValid cap)
