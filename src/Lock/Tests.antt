-- ===== src/Lock/Tests.antt =====
-- Tests of the lock registry, and its theorems at concrete registries.
use eidolon.Base.{◌≡◌, refl, inl, inr, true, false, [], ◌∷◌, arith, ok, err}
use eidolon.Lock.{
  LockToken, GenerationLockRegistry, release_in, release_check, new, grant, claim, reacquire,
  allocate, is_for, is_valid_at, expires_at, acquire_lock, release_lock, validate_mutation,
  validate_in, validate_slot, session_mismatch, lease_expired, capacity_exceeded, empty_entry,
}
use eidolon.Lock.Table.{find}
use eidolon.Lock.Registry.{IsValid}
use eidolon.Lock.Contract.{Refines, acquire_lock-Refines}
use eidolon.Lock.Release.{Releases, release_lock-Releases}
use eidolon.Lock.Calls.{acquires, releases, step, run}
use eidolon.Lock.Fencing.{Authorised, validate_mutation_iff, takeover_fences}
use eidolon.Lock.History.{Holds, run-Follows}

-- Account 7 holds its wallet lock in session 100 from tick 10 on, for 50 ticks; one slot is free.
abbrev first : LockToken
first = record {
  account_id = 7;
  lock_id = 0;
  generation = 1;
  holder_session_id = 100;
  granted_tick = 10;
  lease_duration_ticks = 50;
}

abbrev one_lock : GenerationLockRegistry
one_lock = record {
  entries =
      record { token = first; is_occupied = true }
      ∷ record { token = record first { generation = 0 }; is_occupied = false }
      ∷ [];
  count = 1;
}

one_lock-run :
    run (new 2) (acquires 7 0 100 10 50 false ∷ [])
    ≡ record one_lock { entries = record { token = first; is_occupied = true } ∷ empty_entry ∷ [] }
unfolding run step new acquire_lock reacquire allocate grant is_for empty_entry
one_lock-run = refl

one_lock-IsValid : IsValid 2 one_lock
unfolding find is_for
one_lock-IsValid = record { sized = refl; counted = refl; distinct = (inr refl, (inl refl, tt)) }

taken_over : (acquire_lock 7 0 200 20 50 true one_lock).1 ≡ ok (grant 7 0 200 20 50 2)
unfolding acquire_lock reacquire allocate claim grant is_for is_valid_at expires_at
taken_over = refl

full :
    (acquire_lock 9 0 1 20 50 true (acquire_lock 8 0 1 20 50 false one_lock).0).1
    ≡ err capacity_exceeded
unfolding acquire_lock reacquire allocate claim grant is_for is_valid_at expires_at
full = refl

late : validate_mutation one_lock first 100 60 ≡ err (lease_expired 60 60)
unfolding validate_mutation validate_in validate_slot is_for is_valid_at expires_at
late = refl

acquire_lock-Refines_example :
    Refines 7 0 200 20 50 true 2 one_lock (acquire_lock 7 0 200 20 50 true one_lock)
acquire_lock-Refines_example = acquire_lock-Refines 7 0 200 20 50 true 2 one_lock one_lock-IsValid

release_lock-Releases_example : Releases 7 0 100 1 2 one_lock (release_lock 7 0 100 1 one_lock)
release_lock-Releases_example = release_lock-Releases 7 0 100 1 2 one_lock one_lock-IsValid

validate_mutation_iff_example : Authorised one_lock first 100 59
unfolding validate_mutation validate_in validate_slot is_for is_valid_at expires_at
validate_mutation_iff_example = (validate_mutation_iff one_lock first 100 59).0 refl

takeover_fences_example :
    validate_mutation (acquire_lock 7 0 200 20 50 true one_lock).0 first 100 20
    ≡ err (session_mismatch 200 100)
unfolding find is_for
takeover_fences_example =
    (takeover_fences 2 7 0 200 20 50 one_lock one_lock-IsValid first true refl (omega arith) first
      100 20 (inl refl) refl refl (omega arith) (omega arith)).1

run-Follows_example :
    Holds 2 7 0 first (run one_lock (acquires 7 0 200 20 50 true ∷ releases 8 0 1 1 ∷ []))
unfolding find is_for
run-Follows_example =
    run-Follows 2 7 0 first (acquires 7 0 200 20 50 true ∷ releases 8 0 1 1 ∷ []) one_lock
      one_lock-IsValid (refl, tt) refl (omega arith)

-- A release forgets the generation: the next grant of the key has generation 1 again.
generation_reset :
    (acquire_lock 7 0 100 90 5 false (release_lock 7 0 100 1 one_lock).0).1
    ≡ ok (grant 7 0 100 90 5 1)
unfolding acquire_lock release_lock reacquire release_in is_for release_check allocate
generation_reset = refl
