-- ===== src/Lock/Registry.antt =====
-- The registry of crates/eidolon-core/src/lock.rs as a whole: its invariant, and the map from keys to
-- tokens that its two calls implement.
use eidolon.Base.{
  ℕ, ◌+◌, ◌-◌, ◌≡◌, refl, sym, ◌∙◌, inl, inr, Bool, true, false, List, Option, none, some, arith,
  Result, ok, err, ◌==◌, if◌then◌else◌, length, Option-cases, Result-cases,
}
use eidolon.Lock.{
  LockToken, LockEntry, LockError, GenerationLockRegistry, capacity_exceeded, grant, allocate,
  claim, acquire_lock, release_lock, release_check, validate_mutation, validate_slot, lease_expired,
  expires_at,
}
use eidolon.Lock.Table.{
  find, occupied, Distinct, same_key, put, vacate, reacquire-find, release_in-find,
  validate_in-find, find-key,
}
use eidolon.Lock.Slots.{
  find-put, occupied-put, length-put, put-Distinct, find-vacate, occupied-vacate, length-vacate,
  vacate-Distinct, allocate-none, find-allocate, allocate-sizes, allocate-Distinct, occupied-le,
}

-- The token held for a key.
abbrev pub held : GenerationLockRegistry → ℕ → ℕ → Option LockToken
held r a l = find a l r.entries

pub record IsValid (cap : ℕ) (r : GenerationLockRegistry) : Type 0 where
  pub sized : length r.entries ≡ cap
  pub counted : r.count ≡ occupied r.entries
  pub distinct : Distinct r.entries

-- What a request makes of the token held for its key, and its answer.
module _ (a l s now lease : ℕ) (force : Bool) where
  abbrev pub granted : Option LockToken → Bool → Option LockToken × Result LockError LockToken
  granted (some t) full =
      (some (claim a l s now lease force t).0, (claim a l s now lease force t).1)
  granted none true = (none, err capacity_exceeded)
  granted none false = (some (grant a l s now lease 1), ok (grant a l s now lease 1))

  claim-key :
      (t : LockToken)
      → t.account_id ≡ a
      → t.lock_id ≡ l
      → ((claim a l s now lease force t).0.account_id ≡ a)
        × ((claim a l s now lease force t).0.lock_id ≡ l)
  unfolding claim grant
  claim-key t ha hl = ground arith

  -- The call as a function of the token held.
  acquire_held :
      (r : GenerationLockRegistry) (t : LockToken)
      → held r a l ≡ some t
      → acquire_lock a l s now lease force r ≡ (
        record r { entries = put a l (claim a l s now lease force t).0 r.entries },
        (claim a l s now lease force t).1,
      )
  unfolding acquire_lock
  acquire_held r t h = ground (arith, reacquire-find a l s now lease force r.entries)

  acquire_new :
      (r : GenerationLockRegistry) (es : List LockEntry)
      → held r a l ≡ none
      → allocate (grant a l s now lease 1) r.entries ≡ some es
      → acquire_lock a l s now lease force r
        ≡ (record { entries = es; count = r.count + 1 }, ok (grant a l s now lease 1))
  unfolding acquire_lock
  acquire_new r es h e = ground (arith, reacquire-find a l s now lease force r.entries)

  acquire_full :
      (r : GenerationLockRegistry)
      → held r a l ≡ none
      → allocate (grant a l s now lease 1) r.entries ≡ none
      → acquire_lock a l s now lease force r ≡ (r, err capacity_exceeded)
  unfolding acquire_lock
  acquire_full r h e = ground (arith, reacquire-find a l s now lease force r.entries)

  module _ (cap : ℕ) (r : GenerationLockRegistry) (v : IsValid cap r) where
    abbrev pub Acquired : GenerationLockRegistry × Result LockError LockToken → Type 0
    Acquired p =
        ((a' l' : ℕ)
          → held p.0 a' l' ≡ (
              if same_key a l a' l'
              then (granted (held r a l) (r.count == cap)).0
              else held r a' l'))
        × (p.1 ≡ (granted (held r a l) (r.count == cap)).1)
        × IsValid cap p.0

    Acquired-held :
        (t : LockToken) → held r a l ≡ some t → Acquired (acquire_lock a l s now lease force r)
    Acquired-held t h =
        rw (acquire_held r t h, h)
          (
            λ a' l'. find-put a l a' l' t' t r.entries key.0 key.1 h,
            refl,
            record {
              sized = length-put a l t' r.entries ∙ v.sized;
              counted = v.counted ∙ sym (occupied-put a l t' r.entries);
              distinct = put-Distinct a l t' r.entries key.0 key.1 v.distinct;
            },
          )
      where
        t' : LockToken
        t' = (claim a l s now lease force t).0

        key : (t'.account_id ≡ a) × (t'.lock_id ≡ l)
        key = claim-key t (find-key a l t r.entries h).0 (find-key a l t r.entries h).1

    Acquired-new :
        (es : List LockEntry)
        → held r a l ≡ none
        → allocate (grant a l s now lease 1) r.entries ≡ some es
        → Acquired (acquire_lock a l s now lease force r)
    unfolding grant
    Acquired-new es h e =
        rw (acquire_new r es h e, h, room)
          (
            λ a' l'. find-allocate (grant a l s now lease 1) a' l' r.entries es e h,
            refl,
            record {
              sized = sizes.0 ∙ v.sized;
              counted = omega (arith, sizes.1, v.counted);
              distinct = allocate-Distinct (grant a l s now lease 1) r.entries es e h v.distinct;
            },
          )
      where
        sizes : (length es ≡ length r.entries) × (occupied es ≡ occupied r.entries + 1)
        sizes = allocate-sizes (grant a l s now lease 1) r.entries es e

        room : (r.count == cap) ≡ false
        room = ground (arith, sizes, v.counted, v.sized, occupied-le es)

    Acquired-full :
        held r a l ≡ none
        → allocate (grant a l s now lease 1) r.entries ≡ none
        → Acquired (acquire_lock a l s now lease force r)
    Acquired-full h e = rw (acquire_full r h e, h, full) (λ a' l'. ground arith, refl, v)
      where
        full : (r.count == cap) ≡ true
        full =
            ground (arith, v.counted, v.sized, allocate-none (grant a l s now lease 1) r.entries e)

    -- `acquire_lock` is `granted` on the map from keys to tokens.
    pub acquire_lock-Acquired : Acquired (acquire_lock a l s now lease force r)
    acquire_lock-Acquired = elim (Option-cases (held r a l)) [
      | inr (t, h) ↦ Acquired-held t h
      | inl h ↦ elim (Option-cases (allocate (grant a l s now lease 1) r.entries)) [
        | inl e ↦ Acquired-full h e
        | inr (es, e) ↦ Acquired-new es h e
      ]
    ]

-- What a release makes of the token held for its key, and its answer.
abbrev pub released :
    ℕ → ℕ → ℕ → ℕ → Option LockToken → Option LockToken × Result LockError (Unit {0})
released a l s g none = (none, ok tt)
released a l s g (some t) =
    ((elim (release_check a l s g t) [ ok _ ↦ none | err _ ↦ some t ]), release_check a l s g t)

module _ (a l s g : ℕ) (r : GenerationLockRegistry) where
  release_none : held r a l ≡ none → release_lock a l s g r ≡ (r, ok tt)
  unfolding release_lock
  release_none h = ground (arith, release_in-find a l s g r.entries)

  release_refused :
      (t : LockToken) (x : LockError)
      → held r a l ≡ some t
      → release_check a l s g t ≡ err x
      → release_lock a l s g r ≡ (r, err x)
  unfolding release_lock
  release_refused t x h e = ground (arith, release_in-find a l s g r.entries)

  pub release_done :
      (t : LockToken)
      → held r a l ≡ some t
      → release_check a l s g t ≡ ok tt
      → release_lock a l s g r
        ≡ (record { entries = vacate a l r.entries; count = r.count - 1 }, ok tt)
  unfolding release_lock
  release_done t h e = ground (arith, release_in-find a l s g r.entries)

module _ (a l s g cap : ℕ) (r : GenerationLockRegistry) (v : IsValid cap r) where
  abbrev pub Vacated : GenerationLockRegistry × Result LockError (Unit {0}) → Type 0
  Vacated p =
      ((a' l' : ℕ)
        → held p.0 a' l'
          ≡ (if same_key a l a' l' then (released a l s g (held r a l)).0 else held r a' l'))
      × (p.1 ≡ (released a l s g (held r a l)).1)
      × IsValid cap p.0

  Vacated-held : (t : LockToken) → held r a l ≡ some t → Vacated (release_lock a l s g r)
  Vacated-held t h = elim (Result-cases (release_check a l s g t)) [
    | inr (x, e) ↦ rw (release_refused a l s g r t x h e, h, e) (λ a' l'. ground arith, refl, v)
    | inl (u, e) ↦
        rw (release_done a l s g r t h e, h, e)
          (
            λ a' l'. ground (arith, find-vacate a l a' l' r.entries v.distinct, e),
            refl,
            record {
              sized = length-vacate a l r.entries ∙ v.sized;
              counted = omega (arith, v.counted, occupied-vacate a l t r.entries h);
              distinct = vacate-Distinct a l r.entries v.distinct;
            },
          )
  ]

  -- `release_lock` is `released` on the map from keys to tokens.
  pub release_lock-Vacated : Vacated (release_lock a l s g r)
  release_lock-Vacated = elim (Option-cases (held r a l)) [
    | inl h ↦ rw (release_none a l s g r h, h) (λ a' l'. ground arith, refl, v)
    | inr (t, h) ↦ Vacated-held t h
  ]

-- `validate_mutation` checks the token held for the key, or reports an expired lease.
pub validate-held :
    (r : GenerationLockRegistry) (t : LockToken) (s now : ℕ)
    → validate_mutation r t s now ≡ (elim (held r t.account_id t.lock_id) [
      | none ↦ err (lease_expired (expires_at t) now)
      | some h ↦ validate_slot h t s now
    ])
unfolding validate_mutation
validate-held r t s now = validate_in-find r.entries t s now
