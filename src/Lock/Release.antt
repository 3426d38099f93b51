-- ===== src/Lock/Release.antt =====
-- What release_lock of crates/eidolon-core/src/lock.rs promises, as a relation of the same kind as that of
-- acquire_lock.
use eidolon.Base.{
  ℕ, ◌≡◌, ◌≢◌, inl, inr, Option, none, some, arith, Result, ok, err, ◌==◌, Bool-cases,
}
use eidolon.Lock.{
  LockToken, LockError, session_mismatch, stale_generation, GenerationLockRegistry, release_lock,
  release_check,
}
use eidolon.Lock.Registry.{held, IsValid, released, release_lock-Vacated}
use eidolon.Lock.Contract.{ChangesAt}

-- A release of a key: only the session that holds it, with the generation that it holds, gives it up.
pub data Frees (session generation : ℕ)
    : Option LockToken → Option LockToken → Result LockError (Unit {0}) → Type 0 where
  frees :
      (t : LockToken)
      → t.holder_session_id ≡ session
      → t.generation ≡ generation
      → Frees session generation (some t) none (ok tt)
  other_session :
      (t : LockToken)
      → t.holder_session_id ≢ session
      → Frees session generation
          (some t)
          (some t)
          (err (session_mismatch t.holder_session_id session))
  other_generation :
      (t : LockToken)
      → t.holder_session_id ≡ session
      → t.generation ≢ generation
      → Frees session generation (some t) (some t) (err (stale_generation t.generation generation))
  is_free : Frees session generation none none (ok tt)

module _ (a l s g cap : ℕ) (r : GenerationLockRegistry) where
  abbrev pub Releases : GenerationLockRegistry × Result LockError (Unit {0}) → Type 0
  Releases (r', answer) =
      (after : Option LockToken) × Frees s g (held r a l) after answer
      × ChangesAt a l after r r'
      × IsValid cap r'

  check_frees :
      (t : LockToken) → t.holder_session_id ≡ s → t.generation ≡ g → release_check a l s g t ≡ ok tt
  unfolding release_check
  check_frees t mine same = ground (arith, mine, same)

  check_session :
      (t : LockToken)
      → t.holder_session_id ≢ s
      → release_check a l s g t ≡ err (session_mismatch t.holder_session_id s)
  unfolding release_check
  check_session t theirs = ground (arith, theirs)

  check_generation :
      (t : LockToken)
      → t.holder_session_id ≡ s
      → t.generation ≢ g
      → release_check a l s g t ≡ err (stale_generation t.generation g)
  unfolding release_check
  check_generation t mine stale = ground (arith, mine, stale)

  Frees-at :
      (t : Option LockToken) (p q : Option LockToken × Result LockError (Unit {0}))
      → p ≡ q
      → Frees s g t q.0 q.1
      → Frees s g t p.0 p.1
  Frees-at t p q e f = rw e f

  released-Frees :
      (t : Option LockToken) → Frees s g t (released a l s g t).0 (released a l s g t).1
  released-Frees none = is_free
  released-Frees (some t) = elim (Bool-cases (t.holder_session_id == s)) [
    | inr theirs ↦
        let other : t.holder_session_id ≢ s = ground (arith, theirs) in
        Frees-at (some t) (released a l s g (some t))
          (some t, err (session_mismatch t.holder_session_id s))
          (ground (arith, check_session t other)) (other_session t other)
    | inl held_by ↦
        let mine : t.holder_session_id ≡ s = ground (arith, held_by) in
        elim (Bool-cases (t.generation == g)) [
          | inl equal ↦
              let same : t.generation ≡ g = ground (arith, equal) in
              Frees-at (some t) (released a l s g (some t)) (none, ok tt)
                (ground (arith, check_frees t mine same)) (frees t mine same)
          | inr differ ↦
              let stale : t.generation ≢ g = ground (arith, differ) in
              Frees-at (some t) (released a l s g (some t))
                (some t, err (stale_generation t.generation g))
                (ground (arith, check_generation t mine stale)) (other_generation t mine stale)
        ]
  ]

  -- In a valid registry, `release_lock` changes the token of its own key only, and the registry stays
  -- valid. The token is removed if session and generation are those held; with another session, or with
  -- another generation, the call fails with the error that says so and the token stays; a release of a key
  -- that nobody holds succeeds.
  pub release_lock-Releases : IsValid cap r → Releases (release_lock a l s g r)
  release_lock-Releases v =
      let (changes, answer, valid) = release_lock-Vacated a l s g cap r v in
      ((released a l s g (held r a l)).0, rw answer (released-Frees (held r a l)), changes, valid)
