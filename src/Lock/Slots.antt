-- ===== src/Lock/Slots.antt =====
-- How the registry's loops change the map from keys to tokens, the number of occupied slots and
-- the invariant that no key has two slots (crates/eidolon-core/src/lock.rs).
use eidolon.Base.{
  ℕ, ◌+◌, ◌≡◌, ◌≤◌, refl, inl, inr, List, [], ◌∷◌, none, some, arith, if◌then◌else◌, length,
  Option-cases,
}
use eidolon.Lock.{LockToken, LockEntry, is_for, allocate}
use eidolon.Lock.Table.{find, occupied, Distinct, same_key, put, vacate}

module _ (a l : ℕ) where
  pub find-put :
      (a' l' : ℕ) (t old : LockToken) (es : List LockEntry)
      → t.account_id ≡ a
      → t.lock_id ≡ l
      → find a l es ≡ some old
      → find a' l' (put a l t es) ≡ (if same_key a l a' l' then some t else find a' l' es)
  unfolding find put is_for
  find-put a' l' t old [] ha hl h = ground arith
  find-put a' l' t old (e ∷ es) ha hl h = ground (arith, find-put a' l' t old es ha hl)

  pub occupied-put : (t : LockToken) (es : List LockEntry) → occupied (put a l t es) ≡ occupied es
  unfolding put
  occupied-put t [] = refl
  occupied-put t (e ∷ es) = ground (arith, occupied-put t es)

  pub length-put : (t : LockToken) (es : List LockEntry) → length (put a l t es) ≡ length es
  unfolding put
  length-put t [] = refl
  length-put t (e ∷ es) = ground (arith, length-put t es)

  find-put-none :
      (a' l' : ℕ) (t : LockToken) (es : List LockEntry)
      → t.account_id ≡ a
      → t.lock_id ≡ l
      → find a' l' es ≡ none
      → find a' l' (put a l t es) ≡ none
  unfolding find put is_for
  find-put-none a' l' t [] ha hl h = refl
  find-put-none a' l' t (e ∷ es) ha hl h = ground (arith, find-put-none a' l' t es ha hl)

  pub put-Distinct :
      (t : LockToken) (es : List LockEntry)
      → t.account_id ≡ a
      → t.lock_id ≡ l
      → Distinct es
      → Distinct (put a l t es)
  unfolding put is_for
  put-Distinct t [] ha hl d = tt
  put-Distinct t (e ∷ es) ha hl d = ground (
    arith,
    put-Distinct t es ha hl d.1,
    find-put-none e.token.account_id e.token.lock_id t es ha hl,
  )

  pub find-vacate :
      (a' l' : ℕ) (es : List LockEntry)
      → Distinct es
      → find a' l' (vacate a l es) ≡ (if same_key a l a' l' then none else find a' l' es)
  unfolding find vacate is_for
  find-vacate a' l' [] d = ground arith
  find-vacate a' l' (e ∷ es) d = ground (arith, find-vacate a' l' es d.1)

  pub occupied-vacate :
      (old : LockToken) (es : List LockEntry)
      → find a l es ≡ some old
      → occupied (vacate a l es) + 1 ≡ occupied es
  unfolding find vacate is_for
  occupied-vacate old [] h = ground arith
  occupied-vacate old (e ∷ es) h = ground (arith, occupied-vacate old es)

  pub length-vacate : (es : List LockEntry) → length (vacate a l es) ≡ length es
  unfolding vacate
  length-vacate [] = refl
  length-vacate (e ∷ es) = ground (arith, length-vacate es)

  pub vacate-Distinct : (es : List LockEntry) → Distinct es → Distinct (vacate a l es)
  unfolding vacate
  vacate-Distinct [] d = tt
  vacate-Distinct (e ∷ es) d =
      ground (arith, vacate-Distinct es d.1, find-vacate e.token.account_id e.token.lock_id es d.1)

module _ (fresh : LockToken) where
  pub allocate-none : (es : List LockEntry) → allocate fresh es ≡ none → occupied es ≡ length es
  unfolding allocate
  allocate-none [] h = refl
  allocate-none (e ∷ es) h = ground (arith, allocate-none es)

  -- Allocation for a key that no slot holds.
  pub find-allocate :
      (a' l' : ℕ) (es es' : List LockEntry)
      → allocate fresh es ≡ some es'
      → find fresh.account_id fresh.lock_id es ≡ none
      → find a' l' es'
        ≡ (if same_key fresh.account_id fresh.lock_id a' l' then some fresh else find a' l' es)
  unfolding find allocate is_for
  find-allocate a' l' [] es' h f = cc
  find-allocate a' l' (e ∷ es) es' h f = elim (Option-cases (allocate fresh es)) [
    | inl full ↦ ground arith
    | inr (rest, e') ↦ ground (arith, find-allocate a' l' es rest e')
  ]

  pub allocate-sizes :
      (es es' : List LockEntry)
      → allocate fresh es ≡ some es'
      → (length es' ≡ length es) × (occupied es' ≡ occupied es + 1)
  unfolding allocate
  allocate-sizes [] es' h = cc
  allocate-sizes (e ∷ es) es' h = elim (Option-cases (allocate fresh es)) [
    | inl full ↦ ground arith
    | inr (rest, e') ↦ ground (arith, allocate-sizes es rest e')
  ]

  pub allocate-Distinct :
      (es es' : List LockEntry)
      → allocate fresh es ≡ some es'
      → find fresh.account_id fresh.lock_id es ≡ none
      → Distinct es
      → Distinct es'
  unfolding find allocate is_for
  allocate-Distinct [] es' h f d = cc
  allocate-Distinct (e ∷ es) es' h f d = elim (Option-cases (allocate fresh es)) [
    | inl full ↦ ground arith
    | inr (rest, e') ↦ ground (
      arith,
      allocate-Distinct es rest e',
      find-allocate e.token.account_id e.token.lock_id es rest e',
    )
  ]

pub occupied-le : (es : List LockEntry) → occupied es ≤ length es
occupied-le [] = omega arith
occupied-le (e ∷ es) = ground (arith, occupied-le es)
