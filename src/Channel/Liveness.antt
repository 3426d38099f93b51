-- ===== src/Channel/Liveness.antt =====
-- When a reliable channel of crates/eidolon-net/src/channel.rs gives up.
use eidolon.Base.{
  ℕ, zero, suc, ◌+◌, ◌-◌, ◌*◌, ◌≤◌, ◌<◌, ◌≡◌, ap, ◌∙◌, inl, inr, true, false, min, List, [], ◌∷◌,
  Option, none, some, arith, ◌==◌, ltb, get_elem?, Bool-cases,
}
use eidolon.Channel.Reliable.{
  PendingReliablePacket, ReliableChannel, tick_packet, tick_slots, check_retransmissions,
}

-- The ticks after which a packet is given up, at most.
abbrev pub ticks_left : ℕ → PendingReliablePacket → ℕ
ticks_left max_retries p = p.retry_countdown + 1 + (max_retries - p.retry_count) * 33

-- A tick gives the packet up, or takes one off its ticks.
tick_packet-progress :
    (max_retries : ℕ) (p : PendingReliablePacket)
    → max_retries < 255
    → (tick_packet max_retries p).2 ≡ false
    → ticks_left max_retries (tick_packet max_retries p).0 < ticks_left max_retries p
unfolding tick_packet
tick_packet-progress m p small kept = elim (Bool-cases (p.retry_countdown == 0)) [
  | inr waiting ↦ ground (arith, waiting)
  | inl due ↦ elim (Bool-cases (ltb m (min (p.retry_count + 1) 255))) [
    | inl out ↦ absurd (ground (arith, kept, due, out))
    | inr more ↦ ground (arith, due, more, small)
  ]
]

tick_slots-progress :
    (max_retries : ℕ) (slots : List (Option PendingReliablePacket)) (i : ℕ)
    (p : PendingReliablePacket)
    → get_elem? slots i ≡ some (some p)
    → (tick_slots max_retries slots).2 ≡ false
    → (get_elem? (tick_slots max_retries slots).0 i ≡ some (some (tick_packet max_retries p).0))
      × ((tick_packet max_retries p).2 ≡ false)
unfolding tick_slots
tick_slots-progress m [] i p h kept = absurd (ground (arith, h))
tick_slots-progress m (none ∷ slots) zero p h kept = absurd (ground (arith, h))
tick_slots-progress m (none ∷ slots) (suc i) p h kept = tick_slots-progress m slots i p h kept
tick_slots-progress m (some q ∷ slots) zero p h kept = elim (Bool-cases (tick_packet m q).2) [
  | inl out ↦ absurd (ground (arith, kept, out))
  | inr more ↦ let same : q ≡ p = ground (arith, h) in rw (← same) (ground (arith, more))
]
tick_slots-progress m (some q ∷ slots) (suc i) p h kept = elim (Bool-cases (tick_packet m q).2) [
  | inl out ↦ absurd (ground (arith, kept, out))
  | inr more ↦
      let rest = tick_slots-progress m slots i p h (ground (arith, kept, more)) in
      ground (arith, more, rest)
]

unfoldable pub ticks : ℕ → ReliableChannel → ReliableChannel
ticks zero c = c
ticks (suc n) c = ticks n (check_retransmissions c).0

timed_out_stays :
    (n : ℕ) (c : ReliableChannel) → c.is_timed_out ≡ true → (ticks n c).is_timed_out ≡ true
unfolding ticks check_retransmissions
timed_out_stays zero c h = h
timed_out_stays (suc n) c h = timed_out_stays n (check_retransmissions c).0 (ground (arith, h))

-- A packet that nobody confirms ends the connection. While a packet is pending, and the limit of retries is
-- below 255, the channel has timed out after at most the ticks of its countdown, one more, and 33 for each
-- retry that it has left.
pub ticks_time_out :
    (n : ℕ) (c : ReliableChannel) (i : ℕ) (p : PendingReliablePacket)
    → c.max_retries < 255
    → get_elem? c.pending_packets i ≡ some (some p)
    → ticks_left c.max_retries p ≤ n
    → (ticks n c).is_timed_out ≡ true
unfolding ticks check_retransmissions
ticks_time_out zero c i p small there enough = absurd (omega arith)
ticks_time_out (suc n) c i p small there enough = elim (Bool-cases c.is_timed_out) [
  | inl out ↦ timed_out_stays (suc n) c out
  | inr live ↦ elim (Bool-cases (tick_slots c.max_retries c.pending_packets).2) [
    | inl given_up ↦ timed_out_stays n (check_retransmissions c).0 (ground (arith, live, given_up))
    | inr kept ↦
        let (still, more) = tick_slots-progress c.max_retries c.pending_packets i p there kept in
        let less = tick_packet-progress c.max_retries p small more in
        let c' : ReliableChannel = record c {
          pending_packets = (tick_slots c.max_retries c.pending_packets).0;
        } in
        let next : (check_retransmissions c).0 ≡ c' = ground (arith, live, kept) in
        ap (λ k. (ticks n k).is_timed_out) next
        ∙ ticks_time_out n c' i (tick_packet c.max_retries p).0 small still (omega arith)
  ]
]
