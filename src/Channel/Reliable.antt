-- ===== src/Channel/Reliable.antt =====
-- ReliableChannel of crates/eidolon-net/src/channel.rs.
use eidolon.Base.{
  ℕ, zero, suc, ◌+◌, ◌-◌, ◌*◌, ◌/◌, ◌%◌, ◌^◌, min, Bool, true, false, ◌&&◌, ◌||◌, List, [], ◌∷◌,
  ◌++◌, Option, none, some, Result, ok, err, ◌==◌, ltb, leb, if◌then◌else◌, length, take, replicate,
  put_first,
}
use eidolon.Channel.{
  NetError, payload_too_large, queue_full, connection_timed_out, wrapping_sub16, next16,
  is_sequence_newer,
}

abbrev pub max_reliable_payload : ℕ
max_reliable_payload = 256

abbrev pub default_retry_ticks : ℕ
default_retry_ticks = 4

abbrev pub default_max_retries : ℕ
default_max_retries = 16

pub record PendingReliablePacket : Type 0 where
  pub sequence : ℕ
  pub payload : List ℕ
  pub len : ℕ
  pub retry_countdown : ℕ
  pub retry_count : ℕ

pub record IncomingReliablePacket : Type 0 where
  pub sequence : ℕ
  pub payload : List ℕ
  pub len : ℕ

pub record ReliableChannel : Type 0 where
  pub next_outgoing_seq : ℕ
  pub expected_incoming_seq : ℕ
  pub pending_packets : List (Option PendingReliablePacket)
  pub reorder_buffer : List (Option IncomingReliablePacket)
  pub max_retries : ℕ
  pub is_timed_out : Bool

unfoldable pub new_channel : ℕ → ℕ → ReliableChannel
new_channel pending_cap ordered_cap = record {
  next_outgoing_seq = 0;
  expected_incoming_seq = 0;
  pending_packets = replicate pending_cap none;
  reorder_buffer = replicate ordered_cap none;
  max_retries = default_max_retries;
  is_timed_out = false;
}

-- A payload as an array of 256 bytes, and its length.
abbrev pub Packet : Type 0
Packet = List ℕ × ℕ

unfoldable pub packet : List ℕ → Packet
packet content = (content ++ replicate (max_reliable_payload - length content) 0, length content)

-- The loop of `oldest_pending_seq`, with the oldest sequence so far and its age.
unfoldable pub oldest_in : ℕ → Option ℕ → ℕ → List (Option PendingReliablePacket) → Option ℕ
oldest_in next oldest max_age [] = oldest
oldest_in next oldest max_age (none ∷ slots) = oldest_in next oldest max_age slots
oldest_in next oldest max_age (some p ∷ slots) =
    let age : ℕ = wrapping_sub16 next p.sequence in
    let first : Bool = elim oldest [ none ↦ true | some s ↦ false ] in
    if first || ltb max_age age
    then oldest_in next (some p.sequence) age slots
    else oldest_in next oldest max_age slots

unfoldable pub oldest_pending_seq : ReliableChannel → Option ℕ
oldest_pending_seq c = oldest_in c.next_outgoing_seq none 0 c.pending_packets

-- Is the flight from the oldest packet as long as the buffer?
unfoldable pub window_full : ReliableChannel → Bool
window_full c = elim (oldest_pending_seq c) [
  | none ↦ false
  | some oldest ↦ leb (length c.pending_packets) (wrapping_sub16 c.next_outgoing_seq oldest)
]

unfoldable pub queue_reliable_message :
    ReliableChannel → List ℕ → Result NetError (ReliableChannel × ℕ)
queue_reliable_message c content =
    if ltb max_reliable_payload (length content)
    then err (payload_too_large (length content) max_reliable_payload)
    else if window_full c
    then err queue_full
    else (let pending : PendingReliablePacket = record {
      sequence = c.next_outgoing_seq;
      payload = (packet content).0;
      len = length content;
      retry_countdown = default_retry_ticks;
      retry_count = 0;
    } in
        elim (put_first pending c.pending_packets) [
          | none ↦ err queue_full
          | some slots ↦ ok (
            record c { next_outgoing_seq = next16 c.next_outgoing_seq; pending_packets = slots },
            c.next_outgoing_seq,
          )
        ])

-- Does the acknowledgment confirm a sequence number?
unfoldable pub confirms : ℕ → ℕ → ℕ → Bool
confirms ack ack_bitfield p_seq =
    if p_seq == ack
    then true
    else if is_sequence_newer ack p_seq
    then (let diff : ℕ = wrapping_sub16 ack p_seq in
        ltb 0 diff && leb diff 32 && (ack_bitfield / 2 ^ (diff - 1) % 2 == 1))
    else false

unfoldable pub retire :
    ℕ → ℕ → List (Option PendingReliablePacket) → List (Option PendingReliablePacket)
retire ack ack_bitfield [] = []
retire ack ack_bitfield (none ∷ slots) = none ∷ retire ack ack_bitfield slots
retire ack ack_bitfield (some p ∷ slots) =
    (if confirms ack ack_bitfield p.sequence then none else some p) ∷ retire ack ack_bitfield slots

unfoldable pub process_remote_ack : ReliableChannel → ℕ → ℕ → ReliableChannel
process_remote_ack c ack ack_bitfield = record c {
  pending_packets = retire ack ack_bitfield c.pending_packets;
}

unfoldable pub is_buffered : ℕ → List (Option IncomingReliablePacket) → Bool
is_buffered seq [] = false
is_buffered seq (none ∷ slots) = is_buffered seq slots
is_buffered seq (some p ∷ slots) = (p.sequence == seq) || is_buffered seq slots

-- The channel afterwards, and the packet if it is the next one in order.
unfoldable pub receive_reliable_packet :
    ReliableChannel → ℕ → List ℕ → Result NetError (ReliableChannel × Option Packet)
receive_reliable_packet c seq content =
    if ltb max_reliable_payload (length content)
    then err (payload_too_large (length content) max_reliable_payload)
    else if seq == c.expected_incoming_seq
    then ok
        (record c { expected_incoming_seq = next16 c.expected_incoming_seq }, some (packet content))
    else if is_sequence_newer seq c.expected_incoming_seq
    then (if is_buffered seq c.reorder_buffer
        then ok (c, none)
        else (let incoming : IncomingReliablePacket = record {
          sequence = seq;
          payload = (packet content).0;
          len = length content;
        } in
            elim (put_first incoming c.reorder_buffer) [
              | none ↦ err queue_full
              | some slots ↦ ok (record c { reorder_buffer = slots }, none)
            ]))
    else ok (c, none)

-- The first packet in the buffer with a sequence number, and the buffer without it.
unfoldable pub take_buffered :
    ℕ
    → List (Option IncomingReliablePacket)
    → Option (IncomingReliablePacket × List (Option IncomingReliablePacket))
take_buffered seq [] = none
take_buffered seq (slot ∷ slots) =
    let rest : Option (IncomingReliablePacket × List (Option IncomingReliablePacket)) =
      elim (take_buffered seq slots) [ none ↦ none | some (p, slots') ↦ some (p, slot ∷ slots') ] in
    elim slot [ none ↦ rest | some p ↦ if p.sequence == seq then some (p, none ∷ slots) else rest ]

unfoldable pub drain_next_ordered_packet : ReliableChannel → Option (ReliableChannel × Packet)
drain_next_ordered_packet c = elim (take_buffered c.expected_incoming_seq c.reorder_buffer) [
  | none ↦ none
  | some (p, slots) ↦ some (
    record c { reorder_buffer = slots; expected_incoming_seq = next16 c.expected_incoming_seq },
    (p.payload, p.len),
  )
]

-- With an output slice of `room` places: the channel and the packets written.
unfoldable pub drain_ordered_packets : ℕ → ReliableChannel → ReliableChannel × List Packet
drain_ordered_packets zero c = (c, [])
drain_ordered_packets (suc room) c = elim (drain_next_ordered_packet c) [
  | none ↦ (c, [])
  | some (c', p) ↦ let (c'', ps) = drain_ordered_packets room c' in (c'', p ∷ ps)
]

-- The packets written are those that the count says.
unfoldable pub receive_and_drain_ordered :
    ℕ → ReliableChannel → ℕ → List ℕ → Result NetError (ReliableChannel × List Packet)
receive_and_drain_ordered room c seq content = elim (receive_reliable_packet c seq content) [
  | err e ↦ err e
  | ok (c', none) ↦ ok (c', [])
  | ok (c', some first) ↦ elim room [
    | zero ↦ ok (c', [])
    | suc left ↦ let (c'', ps) = drain_ordered_packets left c' in ok (c'', first ∷ ps)
  ]
]

-- One pending packet at a tick: counted down, sent again, or given up. The packet afterwards, whether it
-- is sent, and whether the retries are used up.
unfoldable pub tick_packet : ℕ → PendingReliablePacket → PendingReliablePacket × Bool × Bool
tick_packet max_retries p =
    if p.retry_countdown == 0
    then (let count : ℕ = min (p.retry_count + 1) 255 in
        if ltb max_retries count then (record p { retry_count = count }, false, true) else (
          record p {
            retry_count = count;
            retry_countdown = min (default_retry_ticks * 2 ^ min (count - 1) 3) 32;
          },
          true,
          false,
        ))
    else (record p { retry_countdown = p.retry_countdown - 1 }, false, false)

-- The loop of `check_retransmissions`, which stops at the first packet that is given up: the slots, the
-- packets sent again, and whether one was given up.
unfoldable pub tick_slots :
    ℕ
    → List (Option PendingReliablePacket)
    → List (Option PendingReliablePacket) × List (ℕ × List ℕ) × Bool
tick_slots max_retries [] = ([], [], false)
tick_slots max_retries (none ∷ slots) =
    let (slots', sent, given_up) = tick_slots max_retries slots in (none ∷ slots', sent, given_up)
tick_slots max_retries (some p ∷ slots) =
    let (p', resend, out) = tick_packet max_retries p in
    let (slots', sent, given_up) = tick_slots max_retries slots in
    if out then (some p' ∷ slots, [], true) else (
      some p' ∷ slots',
      if resend then (p.sequence, take p.len p.payload) ∷ sent else sent,
      given_up,
    )

-- The channel, the calls of `on_retry`, and the answer.
unfoldable pub check_retransmissions :
    ReliableChannel → ReliableChannel × List (ℕ × List ℕ) × Option NetError
check_retransmissions c =
    if c.is_timed_out
    then (c, [], some connection_timed_out)
    else (let (slots, sent, given_up) = tick_slots c.max_retries c.pending_packets in
        if given_up
        then (
          record c { pending_packets = slots; is_timed_out = true },
          sent,
          some connection_timed_out,
        )
        else (record c { pending_packets = slots }, sent, none))

unfoldable pub set_max_retries : ReliableChannel → ℕ → ReliableChannel
set_max_retries c max_retries = record c { max_retries = max_retries }
