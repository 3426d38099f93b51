-- ===== src/Channel/Order.antt =====
-- In what order a reliable channel of crates/eidolon-net/src/channel.rs hands packets out.
use eidolon.Base.{
  ℕ, suc, ◌%◌, ◌^◌, ◌<◌, ◌≡◌, refl, ◌⊎◌, inl, inr, List, [], ◌∷◌, Option, none, some, ok, arith,
  ◌==◌, ltb, length, put_first, Bool-cases, Option-cases,
}
use eidolon.Channel.{next16, is_sequence_newer}
use eidolon.Channel.Reliable.{
  IncomingReliablePacket, ReliableChannel, Packet, packet, is_buffered, receive_reliable_packet,
  take_buffered, drain_next_ordered_packet,
}

-- What has arrived so far: sequence numbers with their contents.
abbrev pub Arrivals : Type 0
Arrivals = List (ℕ × List ℕ)

-- A packet has arrived under a sequence number.
abbrev pub Arrived : ℕ → Packet → Arrivals → Type 0
Arrived seq p [] = 1 < 0
Arrived seq p ((s, content) ∷ rest) = ((s ≡ seq) × (packet content ≡ p)) ⊎ Arrived seq p rest

abbrev pub AllBuffered : Arrivals → List (Option IncomingReliablePacket) → Type 0
AllBuffered arrivals [] = 0 < 1
AllBuffered arrivals (none ∷ slots) = AllBuffered arrivals slots
AllBuffered arrivals (some p ∷ slots) =
    Arrived p.sequence (p.payload, p.len) arrivals × AllBuffered arrivals slots

-- Packets handed out, the last one first: the n-th has arrived under the number n.
abbrev pub InOrder : Arrivals → List Packet → Type 0
InOrder arrivals [] = 0 < 1
InOrder arrivals (p ∷ ps) = Arrived (length ps % 2 ^ 16) p arrivals × InOrder arrivals ps

pub record IsOrdered (arrivals : Arrivals) (c : ReliableChannel) (delivered : List Packet)
    : Type 0 where
  pub next : c.expected_incoming_seq ≡ length delivered % 2 ^ 16
  pub buffered : AllBuffered arrivals c.reorder_buffer
  pub in_order : InOrder arrivals delivered

AllBuffered-more :
    (x : ℕ × List ℕ) (arrivals : Arrivals) (slots : List (Option IncomingReliablePacket))
    → AllBuffered arrivals slots
    → AllBuffered (x ∷ arrivals) slots
AllBuffered-more x arrivals [] h = h
AllBuffered-more x arrivals (none ∷ slots) h = AllBuffered-more x arrivals slots h
AllBuffered-more x arrivals (some p ∷ slots) (a, h) = (inr a, AllBuffered-more x arrivals slots h)

InOrder-more :
    (x : ℕ × List ℕ) (arrivals : Arrivals) (ps : List Packet)
    → InOrder arrivals ps
    → InOrder (x ∷ arrivals) ps
InOrder-more x arrivals [] h = h
InOrder-more x arrivals (p ∷ ps) (a, h) = (inr a, InOrder-more x arrivals ps h)

pub IsOrdered-more :
    (x : ℕ × List ℕ) (arrivals : Arrivals) (c : ReliableChannel) (ps : List Packet)
    → IsOrdered arrivals c ps
    → IsOrdered (x ∷ arrivals) c ps
IsOrdered-more x arrivals c ps o = record {
  next = o.next;
  buffered = AllBuffered-more x arrivals c.reorder_buffer o.buffered;
  in_order = InOrder-more x arrivals ps o.in_order;
}

put_first-AllBuffered :
    (arrivals : Arrivals) (p : IncomingReliablePacket)
    (slots slots' : List (Option IncomingReliablePacket))
    → put_first p slots ≡ some slots'
    → Arrived p.sequence (p.payload, p.len) arrivals
    → AllBuffered arrivals slots
    → AllBuffered arrivals slots'
unfolding put_first
put_first-AllBuffered arrivals p [] slots' h a b = absurd (ground (arith, h))
put_first-AllBuffered arrivals p (none ∷ slots) slots' h a b =
    let same : some p ∷ slots ≡ slots' = ground (arith, h) in rw (← same) (a, b)
put_first-AllBuffered arrivals p (some q ∷ slots) slots' h a (aq, b) =
    elim (Option-cases (put_first p slots)) [
      | inl full ↦ absurd (ground (arith, h, full))
      | inr (rest, e) ↦
          let same : some q ∷ rest ≡ slots' = ground (arith, h, e) in
          rw (← same) (aq, put_first-AllBuffered arrivals p slots rest e a b)
    ]

take_buffered-Arrived :
    (arrivals : Arrivals) (seq : ℕ) (p : IncomingReliablePacket)
    (slots slots' : List (Option IncomingReliablePacket))
    → take_buffered seq slots ≡ some (p, slots')
    → AllBuffered arrivals slots
    → Arrived seq (p.payload, p.len) arrivals × AllBuffered arrivals slots'
unfolding take_buffered
take_buffered-Arrived arrivals seq p [] slots' h b = absurd (ground (arith, h))
take_buffered-Arrived arrivals seq p (none ∷ slots) slots' h b =
    elim (Option-cases (take_buffered seq slots)) [
      | inl gone ↦ absurd (ground (arith, h, gone))
      | inr ((q, rest), e) ↦
          let both : (q ≡ p) × (none ∷ rest ≡ slots') = ground (arith, h, e) in
          let (a, b') = take_buffered-Arrived arrivals seq q slots rest e b in
          rw (← both.0, ← both.1) (a, b')
    ]
take_buffered-Arrived arrivals seq p (some r ∷ slots) slots' h (ar, b) =
    elim (Bool-cases (r.sequence == seq)) [
      | inl mine ↦
          let both : (r ≡ p) × (none ∷ slots ≡ slots') = ground (arith, h, mine) in
          let same : r.sequence ≡ seq = ground (arith, mine) in
          rw (← both.0, ← both.1, ← same) (ar, b)
      | inr other ↦ elim (Option-cases (take_buffered seq slots)) [
        | inl gone ↦ absurd (ground (arith, h, other, gone))
        | inr ((q, rest), e) ↦
            let both : (q ≡ p) × (some r ∷ rest ≡ slots') = ground (arith, h, other, e) in
            let (a, b') = take_buffered-Arrived arrivals seq q slots rest e b in
            rw (← both.0, ← both.1) (a, (ar, b'))
      ]
    ]

-- The packets of an answer, on top of those before.
abbrev pub handed : Option Packet → List Packet → List Packet
handed none ps = ps
handed (some p) ps = p ∷ ps

next_after : (n e : ℕ) → e ≡ n % 2 ^ 16 → next16 e ≡ suc n % 2 ^ 16
next_after n e h = omega arith

pub receive_reliable_packet-IsOrdered :
    (arrivals : Arrivals) (c c' : ReliableChannel) (ps : List Packet) (seq : ℕ) (content : List ℕ)
    (answer : Option Packet)
    → IsOrdered arrivals c ps
    → receive_reliable_packet c seq content ≡ ok (c', answer)
    → IsOrdered ((seq, content) ∷ arrivals) c' (handed answer ps)
unfolding receive_reliable_packet packet
receive_reliable_packet-IsOrdered arrivals c c' ps seq content answer o h =
    elim (Bool-cases (ltb 256 (length content))) [
      | inl long ↦ absurd (ground (arith, h, long))
      | inr short ↦ elim (Bool-cases (seq == c.expected_incoming_seq)) [
        | inl due ↦
            let p : Packet = packet content in
            let both : (record c { expected_incoming_seq = next16 c.expected_incoming_seq } ≡ c')
                × (some p ≡ answer) =
              ground (arith, h, short, due) in
            let mine : seq ≡ length ps % 2 ^ 16 = ground (arith, due, o.next) in
            rw (← both.0, ← both.1)
              (record {
                next = next_after (length ps) c.expected_incoming_seq o.next;
                buffered = more.buffered;
                in_order = (inl (mine, refl), more.in_order);
              })
        | inr early ↦ elim (Bool-cases (is_sequence_newer seq c.expected_incoming_seq)) [
          | inr old ↦
              let both : (c ≡ c') × (none ≡ answer) = ground (arith, h, short, early, old) in
              rw (← both.0, ← both.1) more
          | inl new ↦ elim (Bool-cases (is_buffered seq c.reorder_buffer)) [
            | inl again ↦
                let both : (c ≡ c') × (none ≡ answer) =
                  ground (arith, h, short, early, new, again) in
                rw (← both.0, ← both.1) more
            | inr first ↦
                let incoming : IncomingReliablePacket = record {
                  sequence = seq;
                  payload = (packet content).0;
                  len = length content;
                } in
                elim (Option-cases (put_first incoming c.reorder_buffer)) [
                  | inl full ↦ absurd (ground (arith, h, short, early, new, first, full))
                  | inr (slots, put) ↦
                      let both : (record c { reorder_buffer = slots } ≡ c') × (none ≡ answer) =
                        ground (arith, h, short, early, new, first, put) in
                      rw (← both.0, ← both.1)
                        (record {
                          next = more.next;
                          buffered =
                              put_first-AllBuffered ((seq, content) ∷ arrivals) incoming
                                c.reorder_buffer slots put (inl (refl, refl)) more.buffered;
                          in_order = more.in_order;
                        })
                ]
          ]
        ]
      ]
    ]
  where
    more : IsOrdered ((seq, content) ∷ arrivals) c ps
    more = IsOrdered-more (seq, content) arrivals c ps o

pub drain_next_ordered_packet-IsOrdered :
    (arrivals : Arrivals) (c c' : ReliableChannel) (ps : List Packet) (p : Packet)
    → IsOrdered arrivals c ps
    → drain_next_ordered_packet c ≡ some (c', p)
    → IsOrdered arrivals c' (p ∷ ps)
unfolding drain_next_ordered_packet
drain_next_ordered_packet-IsOrdered arrivals c c' ps p o h =
    elim (Option-cases (take_buffered c.expected_incoming_seq c.reorder_buffer)) [
      | inl gone ↦ absurd (ground (arith, h, gone))
      | inr ((q, slots), e) ↦
          let (a, b) =
            take_buffered-Arrived arrivals c.expected_incoming_seq q c.reorder_buffer slots e
              o.buffered in
          let both : (record c {
            reorder_buffer = slots;
            expected_incoming_seq = next16 c.expected_incoming_seq;
          }
                ≡ c')
              × ((q.payload, q.len) ≡ p) =
            ground (arith, h, e) in
          rw (← both.0, ← both.1)
            (record {
              next = next_after (length ps) c.expected_incoming_seq o.next;
              buffered = b;
              in_order = (rw (← o.next) a, o.in_order);
            })
    ]
