-- ===== src/Channel/Acks.antt =====
-- What acknowledgments of crates/eidolon-net/src/channel.rs say: the sequencer of one side tracks what it
-- has received, and the reliable channel of the other retires what is confirmed.
use Prim.Native.Nat.{bit_or, max}
use eidolon.Base.{
  ℕ, zero, suc, ◌+◌, ◌-◌, ◌*◌, ◌/◌, ◌%◌, ◌^◌, ◌≤◌, ◌<◌, ◌≡◌, refl, sym, ◌∙◌, ◌⊎◌, inl, inr, true,
  ◌&&◌, List, [], ◌∷◌, arith, ◌==◌, ltb, leb, Bool-cases, bit_at, bit_at-bit_or, bit_at-shift_low,
  bit_at-shift_high, bit_at-mod, bit_at-zero, bit_at-power,
}
use eidolon.Channel.{
  wrapping_sub16, UnreliableSequencer, is_sequence_newer, shifted_bitfield,
  process_incoming_sequence,
}

-- A sequence number has been received.
abbrev pub Seen : ℕ → List ℕ → Type 0
Seen n [] = 1 < 0
Seen n (x ∷ xs) = (x ≡ n) ⊎ Seen n xs

-- A sequencer that has received something: its newest number, and those that its bits stand for.
pub record Tracks (s : UnreliableSequencer) (seen : List ℕ) : Type 0 where
  pub some_received : s.has_received_any ≡ true
  pub small : s.highest_received_sequence < 2 ^ 16
  pub newest : Seen s.highest_received_sequence seen
  pub before :
      (j : ℕ)
      → j < 32
      → bit_at j s.received_bitfield ≡ 1
      → Seen (wrapping_sub16 s.highest_received_sequence (j + 1)) seen

bit_at-small : (j x : ℕ) → bit_at j x < 2
bit_at-small zero x = omega arith
bit_at-small (suc j) x = bit_at-small j (x / 2)

one_of_two : (a b : ℕ) → a < 2 → b < 2 → max a b ≡ 1 → (a ≡ 1) ⊎ (b ≡ 1)
one_of_two a b ha hb h = omega arith

pub Seen-at : (m n : ℕ) (seen : List ℕ) → m ≡ n → Seen m seen → Seen n seen
Seen-at m n seen e h = rw (← e) h

-- The digits of the history after it has moved on by `d` places.
shifted_bitfield-bit :
    (bf d j : ℕ)
    → 0 < d
    → j < 32
    → bit_at j (shifted_bitfield bf d) ≡ 1
    → (suc j ≡ d) ⊎ ((d ≤ j) × (bit_at (j - d) bf ≡ 1))
unfolding shifted_bitfield
shifted_bitfield-bit bf d j pos small h = elim (Bool-cases (ltb d 32)) [
  | inl near ↦
      let moved : ℕ = bf * 2 ^ d % 2 ^ 32 in
      let here : bit_at j (bit_or moved (2 ^ (d - 1))) ≡ 1 = ground (arith, h, near) in
      elim (one_of_two (bit_at j moved) (bit_at j (2 ^ (d - 1))) (bit_at-small j moved)
        (bit_at-small j (2 ^ (d - 1))) (sym (bit_at-bit_or j moved (2 ^ (d - 1))) ∙ here)) [
          | inr last ↦ inl (omega (arith, pos, bit_at-power j (d - 1) last))
          | inl older ↦
              let kept : bit_at j (bf * 2 ^ d) ≡ 1 =
                sym (bit_at-mod j 32 (bf * 2 ^ d) small) ∙ older in
              elim (order j d) [
                | inl low ↦ absurd (omega (arith, kept, bit_at-shift_low j d bf low))
                | inr high ↦ inr (high, sym (bit_at-shift_high j d bf high) ∙ kept)
              ]
        ]
  | inr far ↦ elim (Bool-cases (d == 32)) [
    | inl edge ↦
        let here : bit_at j (2 ^ 31) ≡ 1 = ground (arith, h, far, edge) in
        let e : d ≡ 32 = ground (arith, edge) in inl (omega (arith, e, bit_at-power j 31 here))
    | inr gone ↦
        let here : bit_at j 0 ≡ 1 = ground (arith, h, far, gone) in
        absurd (omega (arith, here, bit_at-zero j))
  ]
]
  where
    order : (j d : ℕ) → (j < d) ⊎ (d ≤ j)
    order j d = omega arith

newer_diff : (a b : ℕ) → is_sequence_newer a b ≡ true → 0 < wrapping_sub16 a b
unfolding is_sequence_newer
newer_diff a b h = ground (arith, h)

step_back :
    (seq h d j : ℕ)
    → seq < 2 ^ 16
    → h < 2 ^ 16
    → d ≡ wrapping_sub16 seq h
    → d ≤ j
    → j < 32
    → wrapping_sub16 h (j - d + 1) ≡ wrapping_sub16 seq (j + 1)
step_back seq h d j a b e le small = omega arith

step_home :
    (seq h d j : ℕ)
    → seq < 2 ^ 16
    → h < 2 ^ 16
    → d ≡ wrapping_sub16 seq h
    → suc j ≡ d
    → h ≡ wrapping_sub16 seq (j + 1)
step_home seq h d j a b e s = omega arith

pub process_incoming_sequence-Tracks :
    (s : UnreliableSequencer) (seen : List ℕ) (seq : ℕ)
    → Tracks s seen
    → seq < 2 ^ 16
    → Tracks (process_incoming_sequence s seq).0 (seq ∷ seen)
unfolding process_incoming_sequence
process_incoming_sequence-Tracks s seen seq t small =
    let h : ℕ = s.highest_received_sequence in
    let any = t.some_received in
    elim (Bool-cases (is_sequence_newer seq h)) [
      | inl new ↦
          let d : ℕ = wrapping_sub16 seq h in
          let s' : UnreliableSequencer = record s {
            highest_received_sequence = seq;
            received_bitfield = shifted_bitfield s.received_bitfield d;
          } in
          let end : s' ≡ (process_incoming_sequence s seq).0 = ground (arith, any, new) in
          rw (← end) (record {
            some_received = any;
            small = small;
            newest = inl refl;
            before = λ j below bit.
                elim (shifted_bitfield-bit s.received_bitfield d j (newer_diff seq h new) below
                  bit) [
                    | inl last ↦ inr (
                        Seen-at h (wrapping_sub16 seq (j + 1)) seen
                          (step_home seq h d j small t.small refl last) t.newest)
                    | inr (le, older) ↦ inr (
                        Seen-at (wrapping_sub16 h (j - d + 1)) (wrapping_sub16 seq (j + 1)) seen
                          (step_back seq h d j small t.small refl le below)
                          (t.before (j - d) (omega arith) older))
                  ];
          })
      | inr old ↦
          let d : ℕ = wrapping_sub16 h seq in
          elim (Bool-cases (ltb 0 d && leb d 32)) [
            | inr far ↦
                let end : s ≡ (process_incoming_sequence s seq).0 = ground (arith, any, old, far) in
                rw (← end) (record {
                  some_received = any;
                  small = t.small;
                  newest = inr t.newest;
                  before = λ j below bit. inr (t.before j below bit);
                })
            | inl near ↦
                let s' : UnreliableSequencer = record s {
                  received_bitfield = bit_or s.received_bitfield (2 ^ (d - 1));
                } in
                let end : s' ≡ (process_incoming_sequence s seq).0 =
                  ground (arith, any, old, near) in
                let pos : 0 < d = ground (arith, near) in
                rw (← end) (record {
                  some_received = any;
                  small = t.small;
                  newest = inr t.newest;
                  before = λ j below bit.
                      elim (one_of_two (bit_at j s.received_bitfield) (bit_at j (2 ^ (d - 1)))
                        (bit_at-small j s.received_bitfield) (bit_at-small j (2 ^ (d - 1)))
                        (sym (bit_at-bit_or j s.received_bitfield (2 ^ (d - 1))) ∙ bit)) [
                          | inl older ↦ inr (t.before j below older)
                          | inr last ↦
                              let place = bit_at-power j (d - 1) last in
                              inl
                                (step_home h seq d j t.small small refl (omega (arith, place, pos)))
                        ];
                })
          ]
    ]
