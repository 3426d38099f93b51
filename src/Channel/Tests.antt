-- ===== src/Channel/Tests.antt =====
-- Runs of the channels of crates/eidolon-net/src/channel.rs, and the theorems at concrete calls.
use eidolon.Base.{
  get_elem?, ℕ, ◌≡◌, refl, true, false, List, [], ◌∷◌, Option, none, some, ok, arith, replicate,
  put_first,
}
use eidolon.Channel.{
  process_incoming_sequence, shifted_bitfield, is_sequence_newer, new_sequencer, ack_data,
}
use eidolon.Channel.Reliable.{
  process_remote_ack, retire, PendingReliablePacket, ReliableChannel, IncomingReliablePacket,
  new_channel, packet, confirms, receive_reliable_packet, is_buffered, take_buffered,
  drain_next_ordered_packet, drain_ordered_packets, receive_and_drain_ordered, tick_packet,
}
use eidolon.Channel.Delivery.{
  Call, receive, drain, receive_and_drain, perform, run, fresh, Ordered, run-fresh-Ordered,
}
use eidolon.Channel.Acks.{Seen}
use eidolon.Channel.Confirmed.{track, process_remote_ack-Seen}
use eidolon.Channel.Liveness.{ticks, ticks_time_out}

-- Packet 1 comes before packet 0, and once more after it.
abbrev calls : List Call
calls =
    receive 1 (11 ∷ [])
    ∷ receive 0 (10 ∷ [])
    ∷ receive 1 (11 ∷ [])
    ∷ drain 4
    ∷ receive_and_drain 4 2 (12 ∷ [])
    ∷ []

abbrev lengths : List (List ℕ × ℕ) → List ℕ
lengths [] = []
lengths ((b ∷ bs, n) ∷ ps) = b ∷ lengths ps
lengths (([], n) ∷ ps) = lengths ps

handed_out : lengths (run (fresh 4 4) calls).delivered ≡ 12 ∷ 11 ∷ 10 ∷ []
unfolding run perform receive_reliable_packet is_sequence_newer is_buffered put_first packet
    take_buffered drain_next_ordered_packet drain_ordered_packets receive_and_drain_ordered
    new_channel
handed_out = refl

-- The copy that was buffered stays in its slot: the packet itself has come a second time.
abbrev first_slot : List (Option IncomingReliablePacket) → Option ℕ
first_slot [] = none
first_slot (none ∷ slots) = none
first_slot (some p ∷ slots) = some p.sequence

left_over : first_slot (run (fresh 4 4) calls).channel.reorder_buffer ≡ some 1
unfolding run perform receive_reliable_packet is_sequence_newer is_buffered put_first packet
    take_buffered drain_next_ordered_packet drain_ordered_packets receive_and_drain_ordered
    new_channel
left_over = refl

run-fresh-Ordered_example : Ordered (run (fresh 4 4) calls)
run-fresh-Ordered_example = run-fresh-Ordered 4 4 calls (omega arith, omega arith)

-- An output slice without a place: the packet is consumed, and handed to nobody.
lost :
    receive_and_drain_ordered 0 (new_channel 4 4) 0 (10 ∷ [])
    ≡ ok (record (new_channel 4 4) { expected_incoming_seq = 1 }, [])
unfolding receive_and_drain_ordered receive_reliable_packet packet new_channel
lost = refl

-- Nothing has been received, and sequence number 0 is confirmed.
confirmed_unseen : confirms (ack_data new_sequencer).0 (ack_data new_sequencer).1 0 ≡ true
unfolding confirms ack_data new_sequencer
confirmed_unseen = refl

abbrev waiting : ℕ → PendingReliablePacket
waiting count = record {
  sequence = 0;
  payload = replicate 256 0;
  len = 1;
  retry_countdown = 4;
  retry_count = count;
}

-- With 255 retries, the count stops at the limit.
never_given_up :
    tick_packet 255 (record (waiting 255) { retry_countdown = 0 })
    ≡ (record (waiting 255) { retry_countdown = 32 }, true, false)
unfolding tick_packet
never_given_up = refl

abbrev sender : ReliableChannel
sender = record (new_channel 2 2) { pending_packets = some (waiting 0) ∷ none ∷ [] }

ticks_time_out_example : (ticks 533 sender).is_timed_out ≡ true
unfolding new_channel
ticks_time_out_example = ticks_time_out 533 sender 0 (waiting 0) (omega arith) refl (omega arith)

-- The peer has received 2, 0 and 3, but not 1.
abbrev seen : List ℕ
seen = 2 ∷ 0 ∷ 3 ∷ []

abbrev in_flight : ℕ → PendingReliablePacket
in_flight seq = record (waiting 0) { sequence = seq }

abbrev two_waiting : ReliableChannel
two_waiting = record (new_channel 2 2) {
  next_outgoing_seq = 2;
  pending_packets = some (in_flight 0) ∷ some (in_flight 1) ∷ [];
}

one_retired :
    (process_remote_ack two_waiting
      (ack_data (track new_sequencer seen)).0
      (ack_data (track new_sequencer seen)).1).pending_packets
    ≡ none ∷ some (in_flight 1) ∷ []
unfolding process_remote_ack retire confirms ack_data track process_incoming_sequence
    shifted_bitfield is_sequence_newer new_sequencer new_channel
one_retired = refl

process_remote_ack-Seen_example : Seen 0 seen
unfolding new_channel
process_remote_ack-Seen_example =
    process_remote_ack-Seen 2 (0 ∷ 3 ∷ []) two_waiting 0 (in_flight 0)
      (omega arith, (omega arith, (omega arith, omega arith))) (omega arith) refl
      (λ i. get_elem? (one_retired i) 0)
