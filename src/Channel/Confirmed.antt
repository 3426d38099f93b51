-- ===== src/Channel/Confirmed.antt =====
-- The acknowledgments of one side against the pending packets of the other, in
-- crates/eidolon-net/src/channel.rs.
use eidolon.Base.{
  ℕ, zero, suc, ◌+◌, ◌-◌, ◌/◌, ◌%◌, ◌^◌, ◌≤◌, ◌<◌, ◌≡◌, refl, ◌∙◌, ◌⊎◌, inl, inr, true, List, [],
  ◌∷◌, Option, none, some, arith, ◌==◌, get_elem?, Bool-cases, bit_at, bit_at-shift_right,
  bit_at-zero,
}
use eidolon.Channel.{
  wrapping_sub16, UnreliableSequencer, new_sequencer, ack_data, is_sequence_newer,
  process_incoming_sequence,
}
use eidolon.Channel.Reliable.{
  PendingReliablePacket, ReliableChannel, confirms, retire, process_remote_ack,
}
use eidolon.Channel.Acks.{Seen, Seen-at, Tracks, process_incoming_sequence-Tracks}

-- The sequencer after packets have come in, one after the other.
unfoldable pub track : UnreliableSequencer → List ℕ → UnreliableSequencer
track s [] = s
track s (seq ∷ seqs) = track (process_incoming_sequence s seq).0 seqs

abbrev pub AllU16 : List ℕ → Type 0
AllU16 [] = 0 < 1
AllU16 (seq ∷ seqs) = (seq < 2 ^ 16) × AllU16 seqs

abbrev latest : List ℕ → List ℕ → List ℕ
latest [] seen = seen
latest (seq ∷ seqs) seen = latest seqs (seq ∷ seen)

Seen-latest : (n : ℕ) (seqs seen : List ℕ) → Seen n (latest seqs seen) → Seen n seqs ⊎ Seen n seen
Seen-latest n [] seen h = inr h
Seen-latest n (seq ∷ seqs) seen h = elim (Seen-latest n seqs (seq ∷ seen) h) [
  | inl later ↦ inl (inr later)
  | inr (inl here) ↦ inl (inl here)
  | inr (inr earlier) ↦ inr earlier
]

track-Tracks :
    (s : UnreliableSequencer) (seqs seen : List ℕ)
    → AllU16 seqs
    → Tracks s seen
    → Tracks (track s seqs) (latest seqs seen)
unfolding track
track-Tracks s [] seen small t = t
track-Tracks s (seq ∷ seqs) seen (h, small) t =
    track-Tracks (process_incoming_sequence s seq).0 seqs (seq ∷ seen) small
      (process_incoming_sequence-Tracks s seen seq t h)

first-Tracks :
    (seq : ℕ) → seq < 2 ^ 16 → Tracks (process_incoming_sequence new_sequencer seq).0 (seq ∷ [])
unfolding process_incoming_sequence new_sequencer
first-Tracks seq h = record {
  some_received = refl;
  small = h;
  newest = inl refl;
  before = λ j below bit. absurd (omega (arith, bit, bit_at-zero j));
}

come_back :
    (h seq d : ℕ)
    → h < 2 ^ 16
    → seq < 2 ^ 16
    → d ≡ wrapping_sub16 h seq
    → 0 < d
    → d ≤ 32
    → wrapping_sub16 h (d - 1 + 1) ≡ seq
come_back h seq d a b e pos small = omega arith

-- What a sequencer confirms, it has received.
confirms-Seen :
    (s : UnreliableSequencer) (seen : List ℕ) (seq : ℕ)
    → Tracks s seen
    → seq < 2 ^ 16
    → confirms s.highest_received_sequence s.received_bitfield seq ≡ true
    → Seen seq seen
unfolding confirms
confirms-Seen s seen seq t small c =
    let h : ℕ = s.highest_received_sequence in
    let d : ℕ = wrapping_sub16 h seq in
    elim (Bool-cases (seq == h)) [
      | inl same ↦ Seen-at h seq seen (ground (arith, same)) t.newest
      | inr other ↦ elim (Bool-cases (is_sequence_newer h seq)) [
        | inr old ↦ absurd (ground (arith, c, other, old))
        | inl new ↦
            let near : (0 < d) × (d ≤ 32) × (s.received_bitfield / 2 ^ (d - 1) % 2 ≡ 1) =
              ground (arith, c, other, new) in
            let bit : bit_at (d - 1) s.received_bitfield ≡ 1 =
              bit_at-shift_right (d - 1) s.received_bitfield ∙ near.2 in
            Seen-at (wrapping_sub16 h (d - 1 + 1)) seq seen
              (come_back h seq d t.small small refl near.0 near.1)
              (t.before (d - 1) (omega (arith, near.0, near.1)) bit)
      ]
    ]

retire-none :
    (ack bits : ℕ) (slots : List (Option PendingReliablePacket)) (i : ℕ) (p : PendingReliablePacket)
    → get_elem? slots i ≡ some (some p)
    → get_elem? (retire ack bits slots) i ≡ some none
    → confirms ack bits p.sequence ≡ true
unfolding retire
retire-none ack bits [] i p h gone = absurd (ground (arith, h))
retire-none ack bits (none ∷ slots) zero p h gone = absurd (ground (arith, h))
retire-none ack bits (none ∷ slots) (suc i) p h gone = retire-none ack bits slots i p h gone
retire-none ack bits (some q ∷ slots) zero p h gone =
    elim (Bool-cases (confirms ack bits q.sequence)) [
      | inl confirmed ↦ ground (arith, h, confirmed)
      | inr open_yet ↦ absurd (ground (arith, gone, open_yet))
    ]
retire-none ack bits (some q ∷ slots) (suc i) p h gone = retire-none ack bits slots i p h gone

-- A packet is retired only if the peer has it. One side has received packets, at least one, with u16
-- sequence numbers in any order; the other processes its acknowledgment. If that takes a pending packet, with
-- a u16 sequence number, out of its slot, then its number is among those received.
pub process_remote_ack-Seen :
    (first : ℕ) (rest : List ℕ) (c : ReliableChannel) (i : ℕ) (p : PendingReliablePacket)
    → AllU16 (first ∷ rest)
    → p.sequence < 2 ^ 16
    → get_elem? c.pending_packets i ≡ some (some p)
    → get_elem?
        (process_remote_ack c
          (ack_data (track new_sequencer (first ∷ rest))).0
          (ack_data (track new_sequencer (first ∷ rest))).1).pending_packets
        i
      ≡ some none
    → Seen p.sequence (first ∷ rest)
unfolding process_remote_ack ack_data track
process_remote_ack-Seen first rest c i p (fits, small) u16 pending gone =
    let s = track (process_incoming_sequence new_sequencer first).0 rest in
    let t =
      track-Tracks (process_incoming_sequence new_sequencer first).0 rest (first ∷ []) small
        (first-Tracks first fits) in
    let confirmed =
      retire-none s.highest_received_sequence s.received_bitfield c.pending_packets i p pending
        gone in
    elim (Seen-latest p.sequence rest (first ∷ [])
      (confirms-Seen s (latest rest (first ∷ [])) p.sequence t u16 confirmed)) [
        | inl later ↦ inr later
        | inr (inl here) ↦ inl here
        | inr (inr never) ↦ absurd (omega (arith, never))
      ]
