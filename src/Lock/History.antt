-- ===== src/Lock/History.antt =====
-- Generations over a history of calls on the registry of crates/eidolon-core/src/lock.rs.
use eidolon.Base.{
  ℕ, ◌≤◌, ◌<◌, ◌≡◌, refl, ◌⊎◌, inl, inr, Bool, false, some, arith, List, [], ◌∷◌, u64_max,
  Bool-cases,
}
use eidolon.Lock.{LockToken, GenerationLockRegistry, grant, claim, acquire_lock, release_lock}
use eidolon.Lock.Table.{same_key}
use eidolon.Lock.Registry.{held, IsValid, acquire_lock-Acquired, release_lock-Vacated}
use eidolon.Lock.Calls.{Call, acquires, releases, step, run}

-- A token that may follow another one under its key: a later generation, or the same generation of
-- the same session. Generations stop at the largest u64.
abbrev pub Follows : LockToken → LockToken → Type 0
Follows t u =
    (t.generation < u.generation)
    ⊎ ((t.generation ≡ u.generation) × (t.holder_session_id ≡ u.holder_session_id))
    ⊎ (u.generation ≡ u64_max)

-- The calls of a history that do not release a key.
abbrev pub Keeps : ℕ → ℕ → List Call → Type 0
Keeps a l [] = Unit {0}
Keeps a l (acquires a' l' s now lease force ∷ cs) = Keeps a l cs
Keeps a l (releases a' l' s g ∷ cs) = (same_key a' l' a l ≡ false) × Keeps a l cs

claim-Follows :
    (a l s now lease : ℕ) (force : Bool) (t u : LockToken)
    → u.generation ≤ u64_max
    → Follows t u
    → Follows t (claim a l s now lease force u).0
unfolding claim grant
claim-Follows a l s now lease force t u small f = ground arith

claim-small :
    (a l s now lease : ℕ) (force : Bool) (u : LockToken)
    → u.generation ≤ u64_max
    → (claim a l s now lease force u).0.generation ≤ u64_max
unfolding claim grant
claim-small a l s now lease force u small = ground arith

module _ (cap a l : ℕ) (t : LockToken) where
  -- What a key's token is along the history.
  abbrev pub Holds : GenerationLockRegistry → Type 0
  Holds r = (u : LockToken) × (held r a l ≡ some u) × (u.generation ≤ u64_max) × Follows t u

  acquires-Holds :
      (r : GenerationLockRegistry) (a' l' s now lease : ℕ) (force : Bool)
      → IsValid cap r
      → Holds r
      → Holds (acquire_lock a' l' s now lease force r).0
  acquires-Holds r a' l' s now lease force v (u, h, small, f) =
      elim (Bool-cases (same_key a' l' a l)) [
        | inl same ↦ (
          (claim a' l' s now lease force u).0,
          ground (arith, (acquire_lock-Acquired a' l' s now lease force cap r v).0 a l),
          claim-small a' l' s now lease force u small,
          claim-Follows a' l' s now lease force t u small f,
        )
        | inr other ↦ (
          u,
          ground (arith, (acquire_lock-Acquired a' l' s now lease force cap r v).0 a l),
          small,
          f,
        )
      ]

  run-Holds :
      (cs : List Call) (r : GenerationLockRegistry)
      → IsValid cap r
      → Keeps a l cs
      → Holds r
      → Holds (run r cs)
  unfolding run step
  run-Holds [] r v k h = h
  run-Holds (acquires a' l' s now lease force ∷ cs) r v k h =
      run-Holds cs (acquire_lock a' l' s now lease force r).0
        (acquire_lock-Acquired a' l' s now lease force cap r v).2 k
        (acquires-Holds r a' l' s now lease force v h)
  run-Holds (releases a' l' s g ∷ cs) r v k (u, h, small, f) =
      run-Holds cs (release_lock a' l' s g r).0 (release_lock-Vacated a' l' s g cap r v).2 k.1
        (u, ground (arith, (release_lock-Vacated a' l' s g cap r v).0 a l), small, f)

  -- From a valid registry in which a key has a token, any history of calls that does not release the
  -- key leaves it with a token that follows that one: the generation is later, or both generation and
  -- session are the same, or the generation is the largest u64.
  pub run-Follows :
      (cs : List Call) (r : GenerationLockRegistry)
      → IsValid cap r
      → Keeps a l cs
      → held r a l ≡ some t
      → t.generation ≤ u64_max
      → Holds (run r cs)
  run-Follows cs r v k h small = run-Holds cs r v k (t, h, small, inr (inl (refl, refl)))
