-- ===== src/Wal/Ring.antt =====
-- `WalRingBuffer` of crates/eidolon-world/src/wal.rs under its mutex, which no panic poisons: each
-- operation is one step on the state. The capacity is a parameter, as `CAP` is.
use eidolon.Base.{
  ℕ, zero, suc, ◌+◌, ◌-◌, ◌%◌, min, List, [], ◌∷◌, none, some, Result, ok, err, leb, if◌then◌else◌,
  length, get_elem?, set, replicate, ltb,
}
use eidolon.Error.{WorldError, wal_buffer_full}
use eidolon.Wal.Record.{WalRecord, empty_record}

pub record RingState : Type 0 where
  pub slots : List WalRecord
  pub head : ℕ
  pub tail : ℕ
  pub len : ℕ

-- `if let Some(slot) = slots.get(i) { *item = *slot }`
abbrev pub read : List WalRecord → ℕ → WalRecord → WalRecord
read slots i item = elim (get_elem? slots i) [ none ↦ item | some slot ↦ slot ]

module _ (cap : ℕ) where
  unfoldable pub new_ring : RingState
  new_ring = record { slots = replicate cap empty_record; head = 0; tail = 0; len = 0 }

  unfoldable pub try_push : RingState → WalRecord → RingState × Result WorldError (Unit {0})
  try_push s r =
      if leb cap s.len
      then (s, err wal_buffer_full)
      else if ltb s.tail (length s.slots)
      then (
        record s { slots = set s.slots s.tail r; tail = (s.tail + 1) % cap; len = s.len + 1 },
        ok tt,
      )
      else (s, err wal_buffer_full)

  -- The loop of `peek_batch`: `count` items of the destination, from item `i` on.
  unfoldable pub peek_items : RingState → ℕ → ℕ → List WalRecord → List WalRecord
  peek_items s i zero dest = dest
  peek_items s i (suc count) [] = []
  peek_items s i (suc count) (item ∷ dest) =
      read s.slots ((s.head + i) % cap) item ∷ peek_items s (i + 1) count dest

  -- The destination afterwards, and the number of records in it.
  unfoldable pub peek_batch : RingState → List WalRecord → List WalRecord × ℕ
  peek_batch s dest = let count = min (length dest) s.len in (peek_items s 0 count dest, count)

  unfoldable pub advance_head : RingState → ℕ → RingState
  advance_head s count =
      let actual = min count s.len in
      record s { head = (s.head + actual) % cap; len = s.len - actual }

  -- The loop of `drain_batch`: the head afterwards, and the destination.
  unfoldable pub drain_items : List WalRecord → ℕ → ℕ → List WalRecord → ℕ × List WalRecord
  drain_items slots head zero dest = (head, dest)
  drain_items slots head (suc count) [] = (head, [])
  drain_items slots head (suc count) (item ∷ dest) =
      let (head', dest') = drain_items slots ((head + 1) % cap) count dest in
      (head', read slots head item ∷ dest')

  unfoldable pub drain_batch : RingState → List WalRecord → RingState × List WalRecord × ℕ
  drain_batch s dest =
      let count = min (length dest) s.len in
      let (head', dest') = drain_items s.slots s.head count dest in
      (record s { head = head'; len = s.len - count }, dest', count)
