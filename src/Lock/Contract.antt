-- ===== src/Lock/Contract.antt =====
-- What acquire_lock of crates/eidolon-core/src/lock.rs promises, as a relation between the token of a key before
-- a call, the token afterwards and the answer, apart from the tests that the code makes.
use eidolon.Base.{
  ℕ, ◌+◌, ◌-◌, ◌<◌, ◌≡◌, ◌≢◌, ◌⊎◌, inl, inr, min, Bool, true, false, Option, none, some, arith,
  Result, ok, err, ◌==◌, if◌then◌else◌, u64_max, sat_add64, Bool-cases, below_or_above,
}
use eidolon.Lock.{
  LockToken, LockError, contention, capacity_exceeded, GenerationLockRegistry, grant, claim,
  acquire_lock, is_valid_at, expires_at,
}
use eidolon.Lock.Table.{same_key}
use eidolon.Lock.Slots.{occupied-le}
use eidolon.Lock.Registry.{held, IsValid, granted, acquire_lock-Acquired}
use eidolon.Lock.Fencing.{Covers, claim-taken}

module _ (account_id lock_id session now lease : ℕ) where
  -- The token of a new generation.
  abbrev pub next_token : ℕ → LockToken
  next_token generation = record {
    account_id = account_id;
    lock_id = lock_id;
    generation = generation;
    holder_session_id = session;
    granted_tick = now;
    lease_duration_ticks = lease;
  }

  -- The same grant with its lease counted from now on.
  abbrev pub renewed : LockToken → LockToken
  renewed t = record t { granted_tick = now; lease_duration_ticks = lease }

  module _ (force : Bool) (count cap : ℕ) where
    -- A request for a key: who holds it renews; another session takes it over, by force or outside the
    -- lease, with the next generation, or else is told who has it and for how long; a key that nobody has
    -- is granted generation 1 while there is room.
    pub data Grants
        : Option LockToken → Option LockToken → Result LockError LockToken → Type 0 where
      renews :
          (t : LockToken)
          → t.holder_session_id ≡ session
          → Grants (some t) (some (renewed t)) (ok (renewed t))
      takes_over :
          (t : LockToken)
          → t.holder_session_id ≢ session
          → (force ≡ true) ⊎ (¬ Covers t now)
          → Grants
              (some t)
              (some (next_token (min (t.generation + 1) u64_max)))
              (ok (next_token (min (t.generation + 1) u64_max)))
      contends :
          (t : LockToken)
          → t.holder_session_id ≢ session
          → force ≡ false
          → Covers t now
          → Grants (some t) (some t) (
              err (
                contention account_id lock_id t.holder_session_id
                  (min (t.granted_tick + t.lease_duration_ticks) u64_max - now)))
      starts : count < cap → Grants none (some (next_token 1)) (ok (next_token 1))
      has_no_room : count ≡ cap → Grants none none (err capacity_exceeded)

-- The map from keys to tokens has changed at one key only.
abbrev pub ChangesAt :
    ℕ → ℕ → Option LockToken → GenerationLockRegistry → GenerationLockRegistry → Type 0
ChangesAt a l after r r' =
    (a' l' : ℕ) → held r' a' l' ≡ (if same_key a l a' l' then after else held r a' l')

covered : (t : LockToken) (now : ℕ) → Covers t now ⊎ (¬ Covers t now)
covered t now = elim (below_or_above now t.granted_tick) [
  | inl early ↦ inr (λ c. absurd (omega (arith, c.0, early)))
  | inr begun ↦ elim (below_or_above now (sat_add64 t.granted_tick t.lease_duration_ticks)) [
    | inl live ↦ inl (begun, live)
    | inr over ↦ inr (λ c. absurd (omega (arith, c.1, over)))
  ]
]

module _ (a l s now lease : ℕ) (force : Bool) where
  claim_mine :
      (t : LockToken)
      → t.holder_session_id ≡ s
      → claim a l s now lease force t ≡ (renewed a l s now lease t, ok (renewed a l s now lease t))
  unfolding claim
  claim_mine t mine = ground (arith, mine)

  claim_contended :
      (t : LockToken)
      → t.holder_session_id ≢ s
      → force ≡ false
      → Covers t now
      → claim a l s now lease force t ≡ (
        t,
        err (
            contention a l t.holder_session_id
              (min (t.granted_tick + t.lease_duration_ticks) u64_max - now)),
      )
  unfolding claim is_valid_at expires_at
  claim_contended t other free c = ground arith

  claim_next :
      (t : LockToken)
      → t.holder_session_id ≢ s
      → (force ≡ true) ⊎ (¬ Covers t now)
      → let next = next_token a l s now lease (min (t.generation + 1) u64_max) in
        claim a l s now lease force t ≡ (next, ok next)
  unfolding grant
  claim_next t other free = claim-taken a l s now lease force t other free

  claim-Grants :
      (count cap : ℕ) (t : LockToken)
      → Grants a l s now lease force count cap
          (some t)
          (some (claim a l s now lease force t).0)
          (claim a l s now lease force t).1
  claim-Grants count cap t = elim (Bool-cases (t.holder_session_id == s)) [
    | inl mine ↦
        let e : t.holder_session_id ≡ s = ground (arith, mine) in rw (claim_mine t e) (renews t e)
    | inr theirs ↦
        let other : t.holder_session_id ≢ s = ground (arith, theirs) in
        elim (covered t now) [
          | inr over ↦ rw (claim_next t other (inr over)) (takes_over t other (inr over))
          | inl live ↦ elim (Bool-cases force) [
            | inl forced ↦ rw (claim_next t other (inl forced)) (takes_over t other (inl forced))
            | inr free ↦ rw (claim_contended t other free live) (contends t other free live)
          ]
        ]
  ]

  module _ (cap : ℕ) (r : GenerationLockRegistry) where
    -- What a call makes of a registry: the relation at its key, all else unchanged.
    abbrev pub Refines : GenerationLockRegistry × Result LockError LockToken → Type 0
    Refines (r', answer) =
        (after : Option LockToken) × Grants a l s now lease force r.count cap (held r a l) after
          answer
        × ChangesAt a l after r r'
        × IsValid cap r'

    granted-Grants :
        (t : Option LockToken)
        → IsValid cap r
        → Grants a l s now lease force r.count cap t
            (granted a l s now lease force t (r.count == cap)).0
            (granted a l s now lease force t (r.count == cap)).1
    unfolding grant
    granted-Grants (some t) v = claim-Grants r.count cap t
    granted-Grants none v = elim (Bool-cases (r.count == cap)) [
      | inl full ↦ rw full (has_no_room (ground (arith, full)))
      | inr room ↦
          let some_left : r.count < cap =
            ground (arith, room, v.counted, v.sized, occupied-le r.entries) in
          rw room (starts some_left)
    ]

    -- In a valid registry of `cap` slots, `acquire_lock` changes the token of its own key only, and the
    -- registry stays valid. The session that holds the key gets it with the same generation and the new
    -- lease. Another session gets the next generation (up to the largest u64) if it forces, or if the lease
    -- does not cover the tick; else it is refused with the holder and the ticks that are left, and the token
    -- stays. A key that nobody holds is granted with generation 1 if a slot is free, and else refused.
    pub acquire_lock-Refines : IsValid cap r → Refines (acquire_lock a l s now lease force r)
    acquire_lock-Refines v =
        let (changes, answer, valid) = acquire_lock-Acquired a l s now lease force cap r v in
        let g = granted-Grants (held r a l) v in
        let after = (granted a l s now lease force (held r a l) (r.count == cap)).0 in
        (after, rw answer g, changes, valid)
