-- ===== src/Channel.antt =====
-- Sequenced and reliable channels: crates/eidolon-net/src/channel.rs, with the errors of
-- crates/eidolon-net/src/error.rs. The two arrays of slots are lists, whose lengths are the capacities; a
-- stored payload is its 256 bytes, padded with zeros. Reliable has the reliable channel, and the other children
-- what the channels promise.
pub mod Reliable
pub mod Order
pub mod Delivery
pub mod Liveness
pub mod Acks
pub mod Confirmed
mod Tests
use Prim.Native.Nat.{bit_or}
use eidolon.Base.{
  ℕ, ◌+◌, ◌-◌, ◌*◌, ◌/◌, ◌%◌, ◌^◌, Bool, true, false, ◌&&◌, List, Option, ◌==◌, ltb, leb,
  if◌then◌else◌,
}

pub data BitstreamError : Type 0 where
  buffer_overflow : ℕ → ℕ → BitstreamError
  unexpected_eof : ℕ → ℕ → BitstreamError
  invalid_varint : BitstreamError
  invalid_bit_width : ℕ → BitstreamError

pub data NetError : Type 0 where
  bitstream : BitstreamError → NetError
  invalid_magic : List ℕ → List ℕ → NetError
  unsupported_version : ℕ → ℕ → NetError
  invalid_channel : ℕ → NetError
  payload_too_large : ℕ → ℕ → NetError
  truncated_packet : ℕ → ℕ → NetError
  queue_full : NetError
  corrupted_data : NetError
  connection_timed_out : NetError
  authentication_failed : NetError
  replay_detected : ℕ → ℕ → NetError
  rate_limit_exceeded : ℕ → NetError
  stale_authority_epoch : ℕ → ℕ → NetError
  incompatible_protocol_version : ℕ → ℕ → NetError
  memory_quota_exceeded : ℕ → ℕ → NetError

-- u16::wrapping_sub and u16::wrapping_add(1)
abbrev pub wrapping_sub16 : ℕ → ℕ → ℕ
wrapping_sub16 a b = (a + (2 ^ 16 - b)) % 2 ^ 16

abbrev pub next16 : ℕ → ℕ
next16 a = (a + 1) % 2 ^ 16

pub record UnreliableSequencer : Type 0 where
  pub next_outgoing_sequence : ℕ
  pub highest_received_sequence : ℕ
  pub received_bitfield : ℕ
  pub has_received_any : Bool

unfoldable pub new_sequencer : UnreliableSequencer
new_sequencer = record {
  next_outgoing_sequence = 0;
  highest_received_sequence = 0;
  received_bitfield = 0;
  has_received_any = false;
}

unfoldable pub next_sequence : UnreliableSequencer → UnreliableSequencer × ℕ
next_sequence s = (
  record s { next_outgoing_sequence = next16 s.next_outgoing_sequence },
  s.next_outgoing_sequence,
)

unfoldable pub ack_data : UnreliableSequencer → ℕ × ℕ
ack_data s = (s.highest_received_sequence, s.received_bitfield)

-- `(a.wrapping_sub(b) as i16) > 0`
unfoldable pub is_sequence_newer : ℕ → ℕ → Bool
is_sequence_newer seq_a seq_b = let d : ℕ = wrapping_sub16 seq_a seq_b in ltb 0 d && ltb d (2 ^ 15)

-- The history of received packets, `diff` places further on.
unfoldable pub shifted_bitfield : ℕ → ℕ → ℕ
shifted_bitfield bitfield diff =
    if ltb diff 32
    then bit_or (bitfield * 2 ^ diff % 2 ^ 32) (2 ^ (diff - 1))
    else if diff == 32
    then 2 ^ 31
    else 0

-- The sequencer afterwards, and whether the packet is the newest.
unfoldable pub process_incoming_sequence : UnreliableSequencer → ℕ → UnreliableSequencer × Bool
process_incoming_sequence s seq =
    if s.has_received_any
    then (if is_sequence_newer seq s.highest_received_sequence
        then (
          record s {
            highest_received_sequence = seq;
            received_bitfield =
                shifted_bitfield s.received_bitfield
                  (wrapping_sub16 seq s.highest_received_sequence);
          },
          true,
        )
        else (let diff : ℕ = wrapping_sub16 s.highest_received_sequence seq in
            if ltb 0 diff && leb diff 32
            then (
              record s { received_bitfield = bit_or s.received_bitfield (2 ^ (diff - 1)) },
              false,
            )
            else (s, false)))
    else (
      record s { has_received_any = true; highest_received_sequence = seq; received_bitfield = 0 },
      true,
    )
