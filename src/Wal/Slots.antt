-- ===== src/Wal/Slots.antt =====
-- Records in the slots of the ring buffer of crates/eidolon-world/src/wal.rs.
use eidolon.Base.{
  ℕ, zero, suc, ◌+◌, ◌-◌, ◌%◌, ◌≤◌, ◌<◌, ◌≡◌, ◌≢◌, refl, ap, ◌∙◌, List, [], ◌∷◌, ◌++◌, some, arith,
  length, get_elem?, set, take, drop, wrap_cases, get_elem?-set_ne,
}
use eidolon.Wal.Record.{WalRecord}
use eidolon.Wal.Ring.{RingState, peek_items, drain_items}

module _ (cap : ℕ) where
  -- The records of a queue stand in the slots, one after the other from item `i` behind `head` on.
  abbrev pub Stored : List WalRecord → ℕ → ℕ → List WalRecord → Type 0
  Stored slots head i [] = Unit {0}
  Stored slots head i (r ∷ q) =
      (get_elem? slots ((head + i) % cap) ≡ some r) × Stored slots head (i + 1) q

  -- Two items of the ring share no slot.
  pub distinct_slots :
      (head i j : ℕ) → head < cap → i < j → j < cap → (head + j) % cap ≢ (head + i) % cap
  distinct_slots head i j h lt le e =
      ground (arith, wrap_cases (head + i) cap, wrap_cases (head + j) cap)

  pub Stored-set :
      (slots : List WalRecord) (head i j : ℕ) (r : WalRecord) (q : List WalRecord)
      → head < cap
      → i + length q ≤ j
      → j < cap
      → Stored slots head i q
      → Stored (set slots ((head + j) % cap) r) head i q
  Stored-set slots head i j r [] h le lt st = tt
  Stored-set slots head i j r (x ∷ q) h le lt (at, st) = (
    get_elem?-set_ne slots ((head + j) % cap) ((head + i) % cap) r
          (distinct_slots head i j h (omega arith) lt)
        ∙ at,
    Stored-set slots head (i + 1) j r q h (omega arith) lt st,
  )

  pub Stored-snoc :
      (slots : List WalRecord) (head i : ℕ) (r : WalRecord) (q : List WalRecord)
      → Stored slots head i q
      → get_elem? slots ((head + (i + length q)) % cap) ≡ some r
      → Stored slots head i (q ++ (r ∷ []))
  Stored-snoc slots head i r [] st at =
      (ap (λ k. get_elem? slots ((head + k) % cap)) {y = i + 0} (omega arith) ∙ at, tt)
  Stored-snoc slots head i r (x ∷ q) (at', st) at = (
    at',
    Stored-snoc slots head (i + 1) r q st
        (ap (λ k. get_elem? slots ((head + k) % cap)) {y = i + suc (length q)} (omega arith) ∙ at),
  )

  pub wrap_lt : (x : ℕ) → x < cap + cap → x % cap < cap
  wrap_lt x h = ground (arith, wrap_cases x cap)

  pub wrap_add : (x k : ℕ) → x < cap → k ≤ cap → (x + k) % cap < cap
  wrap_add x k h l = wrap_lt (x + k) (omega arith)

  pub wrap_next :
      (head k : ℕ) → head < cap → k < cap → ((head + k) % cap + 1) % cap ≡ (head + (k + 1)) % cap
  wrap_next head k h l = ground (
    arith,
    wrap_cases (head + k) cap,
    wrap_cases ((head + k) % cap + 1) cap,
    wrap_cases (head + (k + 1)) cap,
  )

  -- Reading items of the queue into a destination.
  pub peek_items-take :
      (s : RingState) (i count : ℕ) (q dest : List WalRecord)
      → Stored s.slots s.head i q
      → count ≤ length q
      → count ≤ length dest
      → peek_items cap s i count dest ≡ take count q ++ drop count dest
  unfolding peek_items
  peek_items-take s i zero q dest st le le' = refl
  peek_items-take s i (suc count) [] dest st le le' = absurd (omega arith)
  peek_items-take s i (suc count) (r ∷ q) [] st le le' = absurd (omega arith)
  peek_items-take s i (suc count) (r ∷ q) (item ∷ dest) (at, st) le le' =
      ground (arith, at, peek_items-take s (i + 1) count q dest st (omega arith) (omega arith))

  pub drain_items-take :
      (slots : List WalRecord) (head i count : ℕ) (q dest : List WalRecord)
      → head < cap
      → i + count ≤ cap
      → Stored slots head i q
      → count ≤ length q
      → count ≤ length dest
      → drain_items cap slots ((head + i) % cap) count dest
        ≡ ((head + (i + count)) % cap, take count q ++ drop count dest)
  unfolding drain_items
  drain_items-take slots head i zero q dest h lt st le le' =
      let e : i + 0 ≡ i = omega arith in rw e refl
  drain_items-take slots head i (suc count) [] dest h lt st le le' = absurd (omega arith)
  drain_items-take slots head i (suc count) (r ∷ q) [] h lt st le le' = absurd (omega arith)
  drain_items-take slots head i (suc count) (r ∷ q) (item ∷ dest) h lt (at, st) le le' =
      let e : i + 1 + count ≡ i + suc count = omega arith in
      let next : ((head + i) % cap + 1) % cap ≡ (head + (i + 1)) % cap =
        wrap_next head i h (omega arith) in
      ground (
        arith,
        at,
        e,
        next,
        drain_items-take slots head (i + 1) count q dest h (omega arith) st (omega arith)
            (omega arith),
      )

  -- The rest of the queue, seen from an advanced head.
  pub Stored-drop :
      (slots : List WalRecord) (head i : ℕ) (q : List WalRecord) (n : ℕ)
      → head < cap
      → n ≤ cap
      → i + length q ≤ cap
      → n ≤ i
      → Stored slots head i q
      → Stored slots ((head + n) % cap) (i - n) q
  Stored-drop slots head i [] n h le lt ni st = tt
  Stored-drop slots head i (r ∷ q) n h le lt ni (at, st) =
      let same : ((head + n) % cap + (i - n)) % cap ≡ (head + i) % cap = ground (
        arith,
        wrap_cases (head + n) cap,
        wrap_cases (head + i) cap,
        wrap_cases ((head + n) % cap + (i - n)) cap,
      ) in
      let e : i + 1 - n ≡ i - n + 1 = omega arith in
      (
        rw same at,
        rw (← e) (Stored-drop slots head (i + 1) q n h le (omega arith) (omega arith) st),
      )

  pub Stored-later :
      (slots : List WalRecord) (head i n : ℕ) (q : List WalRecord)
      → Stored slots head i q
      → n ≤ length q
      → Stored slots head (i + n) (drop n q)
  Stored-later slots head i zero q st le = let e : i + 0 ≡ i = omega arith in rw e st
  Stored-later slots head i (suc n) [] st le = absurd (omega arith)
  Stored-later slots head i (suc n) (r ∷ q) (at, st) le =
      let e : i + suc n ≡ i + 1 + n = omega arith in
      rw e (Stored-later slots head (i + 1) n q st (omega arith))
