-- ===== src/Wal/Queue.antt =====
-- The ring buffer of crates/eidolon-world/src/wal.rs is a bounded first-in first-out queue.
use eidolon.Base.{
  ℕ, ◌+◌, ◌-◌, ◌%◌, ◌≤◌, ◌<◌, ◌≡◌, refl, sym, ap, ◌∙◌, ◌⊎◌, inl, inr, min, List, [], ◌∷◌, ◌++◌, ok,
  err, arith, length, get_elem?, set, take, drop, mod_below, wrap_cases, below_or_above,
  length-append, length-drop, length-set, length-replicate, get_elem?-set_self,
}
use eidolon.Error.{wal_buffer_full}
use eidolon.Wal.Record.{WalRecord}
use eidolon.Wal.Ring.{RingState, new_ring, try_push, peek_batch, advance_head, drain_batch}
use eidolon.Wal.Slots.{
  Stored, Stored-set, Stored-snoc, wrap_lt, wrap_add, wrap_next, peek_items-take, drain_items-take,
  Stored-drop, Stored-later,
}

module _ (cap : ℕ) where
  -- A ring buffer holds a queue.
  pub record Represents (s : RingState) (q : List WalRecord) : Type 0 where
    pub sized : length s.slots ≡ cap
    pub head : s.head < cap
    pub tail : s.tail ≡ (s.head + s.len) % cap
    pub counted : s.len ≡ length q
    pub within : s.len ≤ cap
    pub stored : Stored cap s.slots s.head 0 q

  pub new_ring-Represents : 0 < cap → Represents (new_ring cap) []
  unfolding new_ring
  new_ring-Represents pos = record {
    sized = length-replicate cap _;
    head = pos;
    tail = sym (mod_below 0 cap pos);
    counted = refl;
    within = omega arith;
    stored = tt;
  }

  -- A push on a ring buffer that holds a queue appends the record if the queue is shorter than the
  -- capacity; otherwise it reports a full buffer and changes nothing.
  pub try_push-Represents :
      (s : RingState) (r : WalRecord) (q : List WalRecord)
      → Represents s q
      → ((length q < cap)
          × ((try_push cap s r).1 ≡ ok tt)
          × Represents (try_push cap s r).0 (q ++ (r ∷ [])))
        ⊎ ((cap ≤ length q) × (try_push cap s r ≡ (s, err wal_buffer_full)))
  unfolding try_push
  try_push-Represents s r q v = elim (below_or_above s.len cap) [
    | inr full ↦ inr (omega (arith, v.counted), ground arith)
    | inl room ↦
        let tail_in : s.tail < length s.slots =
          omega (
            arith,
            v.sized,
            v.tail,
            v.head,
            wrap_lt cap (s.head + s.len) (omega (arith, v.head)),
          ) in
        let pushed : try_push cap s r ≡ (
          record s { slots = set s.slots s.tail r; tail = (s.tail + 1) % cap; len = s.len + 1 },
          ok tt,
        ) =
          ground (arith, tail_in) in
        inl (
          omega (arith, v.counted),
          ap (λ x. x.1) pushed,
          rw pushed (record {
            sized = length-set s.slots s.tail r ∙ v.sized;
            head = v.head;
            tail = ap (λ t. (t + 1) % cap) v.tail ∙ wrap_next cap s.head s.len v.head room;
            counted = omega (arith, v.counted, length-append q (r ∷ []));
            within = omega arith;
            stored = rw v.tail (
                Stored-snoc cap (set s.slots ((s.head + s.len) % cap) r) s.head 0 r q
                  (Stored-set cap s.slots s.head 0 s.len r q v.head (omega (arith, v.counted)) room
                    v.stored)
                  (ap (λ k. get_elem? (set s.slots ((s.head + s.len) % cap) r) ((s.head + k) % cap))
                      {y = s.len} (omega (arith, v.counted))
                    ∙ get_elem?-set_self s.slots ((s.head + s.len) % cap) r (
                        omega (
                          arith,
                          v.sized,
                          v.head,
                          wrap_lt cap (s.head + s.len) (omega (arith, v.head)),
                        ))));
          }),
        )
  ]

  -- A batch read from a ring buffer that holds a queue is as much of the front of the queue as the
  -- destination has places for; the rest of the destination is left alone.
  pub peek_batch-take :
      (s : RingState) (q dest : List WalRecord)
      → Represents s q
      → let n = min (length dest) (length q) in peek_batch cap s dest ≡ (take n q ++ drop n dest, n)
  unfolding peek_batch
  peek_batch-take s q dest v =
      let n = min (length dest) (length q) in
      rw (ap (min (length dest)) v.counted)
        (ap (λ d. (d, n)) (peek_items-take cap s 0 n q dest v.stored (omega arith) (omega arith)))

  -- Advancing the head drops that many records from the front of the queue.
  pub advance_head-Represents :
      (s : RingState) (count : ℕ) (q : List WalRecord)
      → Represents s q
      → Represents (advance_head cap s count) (drop (min count (length q)) q)
  unfolding advance_head
  advance_head-Represents s count q v =
      let n = min count (length q) in
      rw (ap (min count) v.counted) (record {
        sized = v.sized;
        head = wrap_add cap s.head n v.head (omega (arith, v.within, v.counted));
        tail =
            v.tail
            ∙ ground (
              arith,
              v.head,
              v.within,
              v.counted,
              wrap_cases (s.head + n) cap,
              wrap_cases (s.head + s.len) cap,
              wrap_cases ((s.head + n) % cap + (s.len - n)) cap,
            );
        counted = omega (arith, length-drop n q, v.counted);
        within = omega (arith, v.within, v.counted);
        stored =
            let e : 0 + n - n ≡ 0 = omega arith in
            let later = Stored-later cap s.slots s.head 0 n q v.stored (omega arith) in
            rw (← e) (
              Stored-drop cap s.slots s.head (0 + n) (drop n q) n v.head
                (omega (arith, v.within, v.counted))
                (omega (arith, length-drop n q, v.within, v.counted)) (omega arith) later);
      })

  drain_batch_lem :
      (s : RingState) (q dest : List WalRecord)
      → Represents s q
      → drain_batch cap s dest
        ≡ (advance_head cap s (length dest), (peek_batch cap s dest).0, (peek_batch cap s dest).1)
  unfolding drain_batch advance_head peek_batch
  drain_batch_lem s q dest v =
      let n = min (length dest) s.len in
      let here : (s.head + 0) % cap ≡ s.head =
        ground (arith, v.head, wrap_cases (s.head + 0) cap) in
      let end : (s.head + (0 + n)) % cap ≡ (s.head + n) % cap =
        ap (λ k. (s.head + k) % cap) {y = n} (omega arith) in
      let drained =
        drain_items-take cap s.slots s.head 0 n q dest v.head (omega (arith, v.within)) v.stored
          (omega (arith, v.counted)) (omega arith) in
      let peeked =
        peek_items-take cap s 0 n q dest v.stored (omega (arith, v.counted)) (omega arith) in
      ground (arith, here, end, drained, peeked)

  -- Draining a ring buffer that holds a queue moves as much of the front of the queue into the
  -- destination as it has places for, and leaves the rest of both.
  pub drain_batch-Represents :
      (s : RingState) (q dest : List WalRecord)
      → Represents s q
      → let n = min (length dest) (length q) in
        ((drain_batch cap s dest).1 ≡ take n q ++ drop n dest)
        × ((drain_batch cap s dest).2 ≡ n)
        × Represents (drain_batch cap s dest).0 (drop n q)
  drain_batch-Represents s q dest v = rw (drain_batch_lem s q dest v) (
    ap (λ p. p.0) (peek_batch-take s q dest v),
    ap (λ p. p.1) (peek_batch-take s q dest v),
    advance_head-Represents s (length dest) q v,
  )
