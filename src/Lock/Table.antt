-- ===== src/Lock/Table.antt =====
-- The registry read as a map from (account, lock) to the token held, with the invariant of its
-- slots, for the operations of crates/eidolon-core/src/lock.rs.
use eidolon.Base.{
  ℕ, suc, ◌+◌, ◌≡◌, refl, ◌⊎◌, inl, Bool, false, ◌&&◌, List, [], ◌∷◌, Option, none, some, arith, ok,
  err, ◌==◌, if◌then◌else◌, replicate,
}
use eidolon.Lock.{
  LockToken, LockEntry, lease_expired, expires_at, is_for, empty_entry, claim, reacquire,
  release_in, release_check, validate_in, validate_slot,
}

-- The token of the first occupied slot for a key.
unfoldable pub find : ℕ → ℕ → List LockEntry → Option LockToken
unfolding is_for
find a l [] = none
find a l (e ∷ es) = if is_for a l e then some e.token else find a l es

abbrev pub occupied : List LockEntry → ℕ
occupied [] = 0
occupied (e ∷ es) = (if e.is_occupied then 1 else 0) + occupied es

-- No key is held by two slots.
abbrev pub Distinct : List LockEntry → Type 0
Distinct [] = Unit {0}
Distinct (e ∷ es) =
    ((e.is_occupied ≡ false) ⊎ (find e.token.account_id e.token.lock_id es ≡ none)) × Distinct es

-- Two keys are the same.
abbrev pub same_key : ℕ → ℕ → ℕ → ℕ → Bool
same_key a l a' l' = a == a' && l == l'

find-replicate : (a l n : ℕ) → find a l (replicate n empty_entry) ≡ none
unfolding find empty_entry
find-replicate a l ℕ.zero = refl
find-replicate a l (suc n) = find-replicate a l n

pub new_slots :
    (n : ℕ) → Distinct (replicate n empty_entry) × (occupied (replicate n empty_entry) ≡ 0)
unfolding empty_entry
new_slots ℕ.zero = (tt, refl)
new_slots (suc n) = (((inl refl, (new_slots n).0)), omega (arith, (new_slots n).1))

-- The loops, as functions of the token that is found.
unfoldable pub put : ℕ → ℕ → LockToken → List LockEntry → List LockEntry
unfolding is_for
put a l t [] = []
put a l t (e ∷ es) = if is_for a l e then record e { token = t } ∷ es else e ∷ put a l t es

unfoldable pub vacate : ℕ → ℕ → List LockEntry → List LockEntry
unfolding is_for
vacate a l [] = []
vacate a l (e ∷ es) =
    if is_for a l e then record e { is_occupied = false } ∷ es else e ∷ vacate a l es

pub reacquire-find :
    (a l s now lease : ℕ) (force : Bool) (es : List LockEntry)
    → reacquire a l s now lease force es ≡ (elim (find a l es) [
      | none ↦ none
      | some t ↦
          some (put a l (claim a l s now lease force t).0 es, (claim a l s now lease force t).1)
    ])
unfolding find reacquire put
reacquire-find a l s now lease force [] = refl
reacquire-find a l s now lease force (e ∷ es) =
    ground (arith, reacquire-find a l s now lease force es)

pub release_in-find :
    (a l s g : ℕ) (es : List LockEntry)
    → release_in a l s g es ≡ (elim (find a l es) [
      | none ↦ none
      | some t ↦ elim (release_check a l s g t) [
        | ok _ ↦ some (ok (vacate a l es))
        | err x ↦ some (err x)
      ]
    ])
unfolding find release_in vacate
release_in-find a l s g [] = refl
release_in-find a l s g (e ∷ es) = ground (arith, release_in-find a l s g es)

pub validate_in-find :
    (es : List LockEntry) (t : LockToken) (s now : ℕ)
    → validate_in es t s now ≡ (elim (find t.account_id t.lock_id es) [
      | none ↦ err (lease_expired (expires_at t) now)
      | some held ↦ validate_slot held t s now
    ])
unfolding find validate_in
validate_in-find [] t s now = refl
validate_in-find (e ∷ es) t s now = ground (arith, validate_in-find es t s now)

-- Slots hold tokens under the key that they were searched for.
pub find-key :
    (a l : ℕ) (t : LockToken) (es : List LockEntry)
    → find a l es ≡ some t
    → (t.account_id ≡ a) × (t.lock_id ≡ l)
unfolding find is_for
find-key a l t [] h = cc
find-key a l t (e ∷ es) h = ground (arith, find-key a l t es)
