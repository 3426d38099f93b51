-- ===== src/Lock.antt =====
-- crates/eidolon-core/src/lock.rs: the registry of generation locks. The entry array is a list of
-- fixed length; ticks, generations and identifiers are numbers, and the saturating sums of the
-- source are written out.
pub mod Table
pub mod Slots
pub mod Registry
pub mod Calls
pub mod Fencing
pub mod Contract
pub mod Release
pub mod History
mod Tests
use eidolon.Base.{
  ℕ, ◌+◌, ◌-◌, Bool, true, false, not, ◌&&◌, List, [], ◌∷◌, Option, none, some, Result, ok, err,
  ltb, leb, ◌==◌, if◌then◌else◌, sat_add64, replicate,
}

pub record LockToken : Type 0 where
  pub account_id : ℕ
  pub lock_id : ℕ
  pub generation : ℕ
  pub holder_session_id : ℕ
  pub granted_tick : ℕ
  pub lease_duration_ticks : ℕ

pub data LockError : Type 0 where
  -- account_id, lock_id, holder_session_id, remaining_ticks
  contention : ℕ → ℕ → ℕ → ℕ → LockError
  -- expected, actual
  stale_generation session_mismatch : ℕ → ℕ → LockError
  -- expired_at_tick, current_tick
  lease_expired : ℕ → ℕ → LockError
  capacity_exceeded : LockError

pub record LockEntry : Type 0 where
  pub token : LockToken
  pub is_occupied : Bool

-- `GenerationLockRegistry<CAP>`: CAP is the length of `entries`.
pub record GenerationLockRegistry : Type 0 where
  pub entries : List LockEntry
  pub count : ℕ

unfoldable pub expires_at : LockToken → ℕ
expires_at t = sat_add64 t.granted_tick t.lease_duration_ticks

unfoldable pub is_valid_at : LockToken → ℕ → Bool
unfolding expires_at
is_valid_at t now = leb t.granted_tick now && ltb now (expires_at t)

pub empty_entry : LockEntry
empty_entry = record {
  token = record {
    account_id = 0;
    lock_id = 0;
    generation = 0;
    holder_session_id = 0;
    granted_tick = 0;
    lease_duration_ticks = 0;
  };
  is_occupied = false;
}

pub new : ℕ → GenerationLockRegistry
new cap = record { entries = replicate cap empty_entry; count = 0 }

-- The test that every loop of the registry makes of a slot.
unfoldable pub is_for : ℕ → ℕ → LockEntry → Bool
is_for account_id lock_id e =
    e.is_occupied && (e.token.account_id == account_id && e.token.lock_id == lock_id)

-- The token that a first or a changed grant writes.
pub grant : ℕ → ℕ → ℕ → ℕ → ℕ → ℕ → LockToken
grant account_id lock_id session_id current_tick lease generation = record {
  account_id = account_id;
  lock_id = lock_id;
  generation = generation;
  holder_session_id = session_id;
  granted_tick = current_tick;
  lease_duration_ticks = lease;
}

-- The second loop of `acquire_lock`: the first free slot is taken.
pub allocate : LockToken → List LockEntry → Option (List LockEntry)
allocate fresh [] = none
allocate fresh (e ∷ es) =
    let rest : Option (List LockEntry) = elim (allocate fresh es) [
      | none ↦ none
      | some es' ↦ some (e ∷ es')
    ] in
    if e.is_occupied then rest else some (record { token = fresh; is_occupied = true } ∷ es)

module _ (account_id lock_id session_id current_tick lease : ℕ) (force_takeover : Bool) where
  -- What `acquire_lock` does with the slot that it finds: the token afterwards, and the answer.
  pub claim : LockToken → LockToken × Result LockError LockToken
  unfolding grant is_valid_at expires_at
  claim t =
      let renewed : LockToken = record t {
        granted_tick = current_tick;
        lease_duration_ticks = lease;
      } in
      let taken =
        grant account_id lock_id session_id current_tick lease (sat_add64 t.generation 1) in
      if t.holder_session_id == session_id
      then (renewed, ok renewed)
      else if is_valid_at t current_tick && not force_takeover
      then (
        t,
        err (contention account_id lock_id t.holder_session_id (expires_at t - current_tick)),
      )
      else (taken, ok taken)

  -- The first loop of `acquire_lock`: `none` if no slot matches.
  pub reacquire : List LockEntry → Option (List LockEntry × Result LockError LockToken)
  reacquire [] = none
  reacquire (e ∷ es) =
      let (t, r) = claim e.token in
      let rest : Option (List LockEntry × Result LockError LockToken) = elim (reacquire es) [
        | none ↦ none
        | some (es', r') ↦ some (e ∷ es', r')
      ] in
      if is_for account_id lock_id e then some (record e { token = t } ∷ es, r) else rest

  pub acquire_lock : GenerationLockRegistry → GenerationLockRegistry × Result LockError LockToken
  acquire_lock r =
      let fresh = grant account_id lock_id session_id current_tick lease 1 in
      elim (reacquire r.entries) [
        | some (es, answer) ↦ (record r { entries = es }, answer)
        | none ↦ elim (allocate fresh r.entries) [
          | some es ↦ (record { entries = es; count = r.count + 1 }, ok fresh)
          | none ↦ (r, err capacity_exceeded)
        ]
      ]

-- The checks that `validate_mutation` and `release_lock` make of the slot that they find.
unfoldable pub validate_slot : LockToken → LockToken → ℕ → ℕ → Result LockError (Unit {0})
unfolding is_valid_at expires_at
validate_slot held token session_id current_tick =
    if not (held.holder_session_id == session_id)
    then err (session_mismatch held.holder_session_id session_id)
    else if not (held.generation == token.generation)
    then err (stale_generation held.generation token.generation)
    else if not (is_valid_at held current_tick)
    then err (lease_expired (expires_at held) current_tick)
    else ok tt

unfoldable pub validate_in : List LockEntry → LockToken → ℕ → ℕ → Result LockError (Unit {0})
validate_in [] token session_id current_tick = err (lease_expired (expires_at token) current_tick)
validate_in (e ∷ es) token session_id current_tick =
    if is_for token.account_id token.lock_id e
    then validate_slot e.token token session_id current_tick
    else validate_in es token session_id current_tick

unfoldable pub validate_mutation :
    GenerationLockRegistry → LockToken → ℕ → ℕ → Result LockError (Unit {0})
validate_mutation r = validate_in r.entries

module _ (account_id lock_id session_id generation : ℕ) where
  pub release_check : LockToken → Result LockError (Unit {0})
  release_check held =
      if not (held.holder_session_id == session_id)
      then err (session_mismatch held.holder_session_id session_id)
      else if not (held.generation == generation)
      then err (stale_generation held.generation generation)
      else ok tt

  -- `none` if no slot matches.
  pub release_in : List LockEntry → Option (Result LockError (List LockEntry))
  release_in [] = none
  release_in (e ∷ es) =
      let rest : Option (Result LockError (List LockEntry)) = elim (release_in es) [
        | none ↦ none
        | some (ok es') ↦ some (ok (e ∷ es'))
        | some (err x) ↦ some (err x)
      ] in
      let mine : Result LockError (List LockEntry) = elim (release_check e.token) [
        | ok _ ↦ ok (record e { is_occupied = false } ∷ es)
        | err x ↦ err x
      ] in
      if is_for account_id lock_id e then some mine else rest

  pub release_lock : GenerationLockRegistry → GenerationLockRegistry × Result LockError (Unit {0})
  release_lock r = elim (release_in r.entries) [
    | none ↦ (r, ok tt)
    | some (ok es) ↦ (record { entries = es; count = r.count - 1 }, ok tt)
    | some (err x) ↦ (r, err x)
  ]

pub active_count : GenerationLockRegistry → ℕ
active_count r = r.count
