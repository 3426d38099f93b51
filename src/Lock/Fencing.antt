-- ===== src/Lock/Fencing.antt =====
-- What the generation locks of crates/eidolon-core/src/lock.rs promise: who passes
-- `validate_mutation`, and who no longer does once another session has the lock.
use eidolon.Base.{
  ℕ, ◌+◌, ◌-◌, ◌≤◌, ◌<◌, ◌≡◌, ◌≢◌, ◌↔◌, ◌⊎◌, inl, inr, Bool, true, false, some, arith, ok, err,
  sat_add64, u64_max, Option-cases,
}
use eidolon.Lock.{
  LockToken, GenerationLockRegistry, grant, session_mismatch, stale_generation, contention,
  is_valid_at, expires_at, claim, validate_slot, validate_mutation, acquire_lock,
}
use eidolon.Lock.Table.{find-key}
use eidolon.Lock.Registry.{held, IsValid, acquire_lock-Acquired, validate-held}

-- A lease covers a tick.
abbrev pub Covers : LockToken → ℕ → Type 0
Covers t now = (t.granted_tick ≤ now) × (now < sat_add64 t.granted_tick t.lease_duration_ticks)

-- The registry holds a token for the key, under the session and the presented generation, whose
-- lease covers the tick.
abbrev pub Authorised : GenerationLockRegistry → LockToken → ℕ → ℕ → Type 0
Authorised r t s now =
    (h : LockToken) × (held r t.account_id t.lock_id ≡ some h)
    × (h.holder_session_id ≡ s)
    × (h.generation ≡ t.generation)
    × Covers h now

-- A mutation passes exactly when the registry holds a token for its key, under the caller's session
-- and the presented generation, whose lease covers the tick.
pub validate_mutation_iff :
    (r : GenerationLockRegistry) (t : LockToken) (s now : ℕ)
    → (validate_mutation r t s now ≡ ok tt) ↔ Authorised r t s now
unfolding validate_slot is_valid_at expires_at
validate_mutation_iff r t s now = (
  λ p. elim (Option-cases (held r t.account_id t.lock_id)) [
    | inl e ↦ ground (arith, validate-held r t s now)
    | inr (h, e) ↦ (
      h,
      e,
      ground (arith, validate-held r t s now),
      ground (arith, validate-held r t s now),
      ground (arith, validate-held r t s now),
    )
  ],
  λ q. let (h, e, hs, hg, c) = q in ground (arith, validate-held r t s now),
)

-- Whatever tokens they present and at whatever ticks, two callers that pass on the same registry for
-- the same key have the same session and generation.
pub validate_unique :
    (r : GenerationLockRegistry) (t u : LockToken) (s s' now now' : ℕ)
    → t.account_id ≡ u.account_id
    → t.lock_id ≡ u.lock_id
    → validate_mutation r t s now ≡ ok tt
    → validate_mutation r u s' now' ≡ ok tt
    → (s ≡ s') × (t.generation ≡ u.generation)
validate_unique r t u s s' now now' ha hl p q =
    let (h, e, hs, hg, _) = (validate_mutation_iff r t s now).0 p in
    let (k, e', ks, kg, _) = (validate_mutation_iff r u s' now').0 q in ground arith

pub claim-taken :
    (a l s now lease : ℕ) (force : Bool) (t : LockToken)
    → t.holder_session_id ≢ s
    → (force ≡ true) ⊎ (¬ Covers t now)
    → let taken = grant a l s now lease (sat_add64 t.generation 1) in
      claim a l s now lease force t ≡ (taken, ok taken)
unfolding claim is_valid_at expires_at
claim-taken a l s now lease force t other (inl forced) = ground arith
claim-taken a l s now lease force t other (inr over) = ground arith

module _ (cap a l s now lease : ℕ) (r : GenerationLockRegistry) (v : IsValid cap r) where
  -- A key held by another session whose lease covers the tick is refused without force, with the
  -- holder and the ticks that its lease has left (at least one), and every key keeps its token.
  pub acquire_contention :
      (t : LockToken)
      → held r a l ≡ some t
      → t.holder_session_id ≢ s
      → Covers t now
      → let (r', answer) = acquire_lock a l s now lease false r in
        (answer ≡ err (contention a l t.holder_session_id (expires_at t - now)))
        × (1 ≤ expires_at t - now)
        × ((a' l' : ℕ) → held r' a' l' ≡ held r a' l')
  unfolding claim is_valid_at expires_at
  acquire_contention t h other c =
      let refines = acquire_lock-Acquired a l s now lease false cap r v in
      (ground (arith, refines.1), omega arith, λ a' l'. ground (arith, refines.0 a' l'))

  -- The holder's own request always succeeds and keeps the generation.
  pub acquire_renews :
      (t : LockToken) (force : Bool)
      → held r a l ≡ some t
      → t.holder_session_id ≡ s
      → let (r', answer) = acquire_lock a l s now lease force r in
        let t' = record t { granted_tick = now; lease_duration_ticks = lease } in
        (answer ≡ ok t') × (held r' a l ≡ some t')
  unfolding claim
  acquire_renews t force h mine =
      let refines = acquire_lock-Acquired a l s now lease force cap r v in
      (ground (arith, refines.1), ground (arith, refines.0 a l))

  module _ (t : LockToken) (force : Bool) (h : held r a l ≡ some t)
      (other : t.holder_session_id ≢ s) where
    taken : LockToken
    taken = grant a l s now lease (sat_add64 t.generation 1)

    takeover :
        (force ≡ true) ⊎ (¬ Covers t now)
        → let (r', answer) = acquire_lock a l s now lease force r in
          (answer ≡ ok taken) × (held r' a l ≡ some taken)
    unfolding taken
    takeover free =
        let refines = acquire_lock-Acquired a l s now lease force cap r v in
        let claimed = claim-taken a l s now lease force t other free in
        (ground (arith, refines.1, claimed), ground (arith, refines.0 a l, claimed))

    -- A request of another session that is forced, or that comes when the lease does not cover the
    -- tick, takes the lock over: if the generation is below the largest u64, it grows by one and the
    -- caller is the holder; then every other session is refused, whatever token it presents for the
    -- key, and the caller itself is refused under the old token.
    pub takeover_fences :
        (u : LockToken) (s' tick : ℕ)
        → (force ≡ true) ⊎ (¬ Covers t now)
        → u.account_id ≡ a
        → u.lock_id ≡ l
        → s' ≢ s
        → t.generation < u64_max
        → let (r', answer) = acquire_lock a l s now lease force r in
          (answer ≡ ok (grant a l s now lease (t.generation + 1)))
          × (validate_mutation r' u s' tick ≡ err (session_mismatch s s'))
          × (validate_mutation r' t s tick ≡ err (stale_generation (t.generation + 1) t.generation))
    unfolding taken grant validate_slot
    takeover_fences u s' tick free ha hl ne room =
        let (answer, now_held) = takeover free in
        let r' = (acquire_lock a l s now lease force r).0 in
        let key = find-key a l t r.entries h in
        (
          ground (arith, answer),
          ground (arith, now_held, validate-held r' u s' tick),
          ground (arith, now_held, key, validate-held r' t s tick),
        )
