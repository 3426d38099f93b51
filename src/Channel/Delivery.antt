-- ===== src/Channel/Delivery.antt =====
-- What the receiving side of a reliable channel of crates/eidolon-net/src/channel.rs hands out, over any
-- calls.
use eidolon.Base.{
  ℕ, zero, suc, ◌<◌, ◌≡◌, refl, inl, inr, List, [], ◌∷◌, Option, none, some, Result, ok, err, arith,
  Option-cases, Result-cases, replicate,
}
use eidolon.Channel.{NetError}
use eidolon.Channel.Reliable.{
  ReliableChannel, new_channel, Packet, receive_reliable_packet, drain_next_ordered_packet,
  drain_ordered_packets, receive_and_drain_ordered,
}
use eidolon.Channel.Order.{
  Arrivals, AllBuffered, IsOrdered, IsOrdered-more, handed, receive_reliable_packet-IsOrdered,
  drain_next_ordered_packet-IsOrdered,
}

-- Packets that are written one after the other.
abbrev pub written : List Packet → List Packet → List Packet
written [] ps = ps
written (p ∷ more) ps = written more (p ∷ ps)

drain_zero : (c : ReliableChannel) → drain_ordered_packets zero c ≡ (c, [])
unfolding drain_ordered_packets
drain_zero c = refl

drain_stops :
    (room : ℕ) (c : ReliableChannel)
    → drain_next_ordered_packet c ≡ none
    → drain_ordered_packets (suc room) c ≡ (c, [])
unfolding drain_ordered_packets
drain_stops room c h = ground (arith, h)

drain_more :
    (room : ℕ) (c c' : ReliableChannel) (p : Packet)
    → drain_next_ordered_packet c ≡ some (c', p)
    → drain_ordered_packets (suc room) c
      ≡ ((drain_ordered_packets room c').0, p ∷ (drain_ordered_packets room c').1)
unfolding drain_ordered_packets
drain_more room c c' p h = ground (arith, h)

drain_ordered_packets-IsOrdered :
    (room : ℕ) (arrivals : Arrivals) (c : ReliableChannel) (ps : List Packet)
    → IsOrdered arrivals c ps
    → IsOrdered arrivals
        (drain_ordered_packets room c).0
        (written (drain_ordered_packets room c).1 ps)
drain_ordered_packets-IsOrdered zero arrivals c ps o = rw (drain_zero c) o
drain_ordered_packets-IsOrdered (suc room) arrivals c ps o =
    elim (Option-cases (drain_next_ordered_packet c)) [
      | inl gone ↦ rw (drain_stops room c gone) o
      | inr ((c', p), e) ↦ rw (drain_more room c c' p e) (
          drain_ordered_packets-IsOrdered room arrivals c' (p ∷ ps)
            (drain_next_ordered_packet-IsOrdered arrivals c c' ps p o e))
    ]

-- Calls on the receiving side, with the room in the output slice.
pub data Call : Type 0 where
  receive : ℕ → List ℕ → Call
  drain_next : Call
  drain : ℕ → Call
  receive_and_drain : ℕ → ℕ → List ℕ → Call

-- The channel, what has arrived and what it has handed out, the last packet first.
pub record Receiver : Type 0 where
  pub channel : ReliableChannel
  pub arrivals : Arrivals
  pub delivered : List Packet

abbrev answered :
    Receiver → ℕ × List ℕ → Result NetError (ReliableChannel × Option Packet) → Receiver
answered r x (err e) = record r { arrivals = x ∷ r.arrivals }
answered r x (ok (c, answer)) = record {
  channel = c;
  arrivals = x ∷ r.arrivals;
  delivered = handed answer r.delivered;
}

abbrev drained : Receiver → Option (ReliableChannel × Packet) → Receiver
drained r none = r
drained r (some (c, p)) = record r { channel = c; delivered = p ∷ r.delivered }

abbrev all_answered :
    Receiver → ℕ × List ℕ → Result NetError (ReliableChannel × List Packet) → Receiver
all_answered r x (err e) = record r { arrivals = x ∷ r.arrivals }
all_answered r x (ok (c, ps)) = record {
  channel = c;
  arrivals = x ∷ r.arrivals;
  delivered = written ps r.delivered;
}

unfoldable pub perform : Receiver → Call → Receiver
perform r (receive seq content) =
    answered r (seq, content) (receive_reliable_packet r.channel seq content)
perform r drain_next = drained r (drain_next_ordered_packet r.channel)
perform r (drain room) =
    let (c, ps) = drain_ordered_packets room r.channel in
    record r { channel = c; delivered = written ps r.delivered }
perform r (receive_and_drain room seq content) =
    all_answered r (seq, content) (receive_and_drain_ordered room r.channel seq content)

unfoldable pub run : Receiver → List Call → Receiver
run r [] = r
run r (x ∷ calls) = run (perform r x) calls

-- An output slice that a packet fits in.
abbrev pub HasRoom : List Call → Type 0
HasRoom [] = 0 < 1
HasRoom (receive_and_drain room seq content ∷ calls) = (0 < room) × HasRoom calls
HasRoom (_ ∷ calls) = HasRoom calls

abbrev pub Ordered : Receiver → Type 0
Ordered r = IsOrdered r.arrivals r.channel r.delivered

module _ (left seq : ℕ) (content : List ℕ) (c : ReliableChannel) where
  receive_fails :
      (e : NetError)
      → receive_reliable_packet c seq content ≡ err e
      → receive_and_drain_ordered (suc left) c seq content ≡ err e
  unfolding receive_and_drain_ordered
  receive_fails e h = ground (arith, h)

  receive_waits :
      (c' : ReliableChannel)
      → receive_reliable_packet c seq content ≡ ok (c', none)
      → receive_and_drain_ordered (suc left) c seq content ≡ ok (c', [])
  unfolding receive_and_drain_ordered
  receive_waits c' h = ground (arith, h)

  receive_drains :
      (c' : ReliableChannel) (p : Packet)
      → receive_reliable_packet c seq content ≡ ok (c', some p)
      → receive_and_drain_ordered (suc left) c seq content
        ≡ ok ((drain_ordered_packets left c').0, p ∷ (drain_ordered_packets left c').1)
  unfolding receive_and_drain_ordered
  receive_drains c' p h = ground (arith, h)

receive_and_drain_ordered-Ordered :
    (room seq : ℕ) (content : List ℕ) (r : Receiver)
    → 0 < room
    → Ordered r
    → Ordered (all_answered r (seq, content) (receive_and_drain_ordered room r.channel seq content))
receive_and_drain_ordered-Ordered zero seq content r h o = absurd (omega (arith, h))
receive_and_drain_ordered-Ordered (suc left) seq content r h o =
    elim (Result-cases (receive_reliable_packet r.channel seq content)) [
      | inr (e, failed) ↦
          rw (receive_fails left seq content r.channel e failed)
            (IsOrdered-more (seq, content) r.arrivals r.channel r.delivered o)
      | inl ((c, none), done) ↦ rw (receive_waits left seq content r.channel c done) (
          receive_reliable_packet-IsOrdered r.arrivals r.channel c r.delivered seq content none o
            done)
      | inl ((c, some p), done) ↦
          let first =
            receive_reliable_packet-IsOrdered r.arrivals r.channel c r.delivered seq content
              (some p) o done in
          rw (receive_drains left seq content r.channel c p done) (
            drain_ordered_packets-IsOrdered left ((seq, content) ∷ r.arrivals) c (p ∷ r.delivered)
              first)
    ]

perform-Ordered : (r : Receiver) (x : Call) → HasRoom (x ∷ []) → Ordered r → Ordered (perform r x)
unfolding perform
perform-Ordered r (receive seq content) room o =
    elim (Result-cases (receive_reliable_packet r.channel seq content)) [
      | inr (e, failed) ↦
          rw failed (IsOrdered-more (seq, content) r.arrivals r.channel r.delivered o)
      | inl ((c, answer), done) ↦ rw done (
          receive_reliable_packet-IsOrdered r.arrivals r.channel c r.delivered seq content answer o
            done)
    ]
perform-Ordered r drain_next room o = elim (Option-cases (drain_next_ordered_packet r.channel)) [
  | inl gone ↦ rw gone o
  | inr ((c, p), e) ↦
      rw e (drain_next_ordered_packet-IsOrdered r.arrivals r.channel c r.delivered p o e)
]
perform-Ordered r (drain room) has o =
    drain_ordered_packets-IsOrdered room r.arrivals r.channel r.delivered o
perform-Ordered r (receive_and_drain room seq content) has o =
    receive_and_drain_ordered-Ordered room seq content r has.0 o

run-Ordered : (r : Receiver) (calls : List Call) → HasRoom calls → Ordered r → Ordered (run r calls)
unfolding run
run-Ordered r [] has o = o
run-Ordered r (receive seq content ∷ calls) has o =
    run-Ordered (perform r (receive seq content)) calls has
      (perform-Ordered r (receive seq content) (omega arith) o)
run-Ordered r (drain_next ∷ calls) has o =
    run-Ordered (perform r drain_next) calls has (perform-Ordered r drain_next (omega arith) o)
run-Ordered r (drain room ∷ calls) has o =
    run-Ordered (perform r (drain room)) calls has (perform-Ordered r (drain room) (omega arith) o)
run-Ordered r (receive_and_drain room seq content ∷ calls) has o =
    run-Ordered (perform r (receive_and_drain room seq content)) calls has.1
      (perform-Ordered r (receive_and_drain room seq content) (has.0, omega arith) o)

-- A receiver with a new channel.
abbrev pub fresh : ℕ → ℕ → Receiver
fresh pending_cap ordered_cap = record {
  channel = new_channel pending_cap ordered_cap;
  arrivals = [];
  delivered = [];
}

none_buffered : (n : ℕ) → AllBuffered [] (replicate n none)
none_buffered zero = omega arith
none_buffered (suc n) = none_buffered n

-- On a new channel, whatever packets arrive, in whatever order and however often, and however the buffer is
-- drained, as long as no output slice is empty: the n-th packet that is handed out, from 0, is the content
-- of a packet that arrived under the sequence number n, counted modulo 2^16, and the next one expected is the
-- number of those handed out.
pub run-fresh-Ordered :
    (pending_cap ordered_cap : ℕ) (calls : List Call)
    → HasRoom calls
    → Ordered (run (fresh pending_cap ordered_cap) calls)
unfolding new_channel
run-fresh-Ordered pending_cap ordered_cap calls has =
    run-Ordered (fresh pending_cap ordered_cap) calls has
      (record { next = refl; buffered = none_buffered ordered_cap; in_order = omega arith })
