-- ===== src/Bitstream/Moves.antt =====
-- How far a call of the bit writer in crates/eidolon-net/src/bitstream.rs moves.
use Prim.Native.Nat.{bit_and}
use eidolon.Base.{
  ℕ, zero, suc, ◌+◌, ◌-◌, ◌*◌, ◌/◌, ◌%◌, ◌^◌, ◌≤◌, ◌<◌, min, ◌≡◌, refl, ◌∙◌, ◌⊎◌, inl, inr, List,
  ◌++◌, Option, none, some, ok, err, arith, ◌==◌, ltb, leb, if◌then◌else◌, get_elem?, set, length,
  take, drop, to_be, length-set, length-take, length-drop, length-append, length-to_be, Bool-cases,
  Option-cases,
}
use eidolon.Channel.{buffer_overflow, invalid_bit_width}
use eidolon.Bitstream.{
  BitWriter, remaining_bits, put_byte, put_bytes, fast_write, write_chunk, write_chunks, write_bits,
}

-- The position has moved by `n` bits, and the buffer keeps its length.
abbrev pub Moved : BitWriter → ℕ → BitWriter → Type 0
Moved w n w' = (w'.bit_offset ≡ w.bit_offset + n) × (length w'.buffer ≡ length w.buffer)

put_byte-Moved : (w w' : BitWriter) (x : ℕ) → put_byte w x ≡ some w' → Moved w 8 w'
unfolding put_byte
put_byte-Moved w w' x h = elim (Option-cases (get_elem? w.buffer (w.bit_offset / 8))) [
  | inl gone ↦ absurd (ground (arith, h, gone))
  | inr (a, there) ↦ ground (arith, h, there, length-set w.buffer (w.bit_offset / 8) x)
]

abbrev spliced : List ℕ → ℕ → List ℕ → List ℕ
spliced b start bytes = take start b ++ bytes ++ drop (start + length bytes) b

length-spliced :
    (b : List ℕ) (start : ℕ) (bytes : List ℕ)
    → start + length bytes ≤ length b
    → length (spliced b start bytes) ≡ length b
length-spliced b start bytes fits =
    let end : ℕ = start + length bytes in
    length-append (take start b ++ bytes) (drop end b)
    ∙ omega
        (arith, fits, length-append (take start b) bytes, length-take start b, length-drop end b)

put_bytes_cases :
    (w : BitWriter) (bytes : List ℕ)
    → ((put_bytes w bytes
          ≡ some (record {
            buffer = spliced w.buffer (w.bit_offset / 8) bytes;
            bit_offset = w.bit_offset + length bytes * 8;
          }))
        × (w.bit_offset / 8 + length bytes ≤ length w.buffer))
      ⊎ (put_bytes w bytes ≡ none)
unfolding put_bytes
put_bytes_cases w bytes =
    elim (Bool-cases (leb (w.bit_offset / 8 + length bytes) (length w.buffer))) [
      | inr over ↦ inr (ground (arith, over))
      | inl fits ↦ inl (ground (arith, fits), ground (arith, fits))
    ]

put_bytes-Moved :
    (w w' : BitWriter) (bytes : List ℕ)
    → put_bytes w bytes ≡ some w'
    → Moved w (length bytes * 8) w'
put_bytes-Moved w w' bytes h = elim (put_bytes_cases w bytes) [
  | inr over ↦ absurd (ground (arith, h, over))
  | inl (done, fits) ↦
      ground (arith, h, done, length-spliced w.buffer (w.bit_offset / 8) bytes fits)
]

put_word-Moved :
    (w w' : BitWriter) (size value n : ℕ)
    → size * 8 ≡ n
    → put_bytes w (to_be size value) ≡ some w'
    → Moved w n w'
put_word-Moved w w' size value n e h =
    let m = put_bytes-Moved w w' (to_be size value) h in
    (omega (arith, m.0, length-to_be size value, e), m.1)

fast_write-Moved : (w w' : BitWriter) (value n : ℕ) → fast_write w value n ≡ some w' → Moved w n w'
unfolding fast_write
fast_write-Moved w w' value n h = elim (Bool-cases (w.bit_offset % 8 == 0)) [
  | inr inside ↦ absurd (ground (arith, h, inside))
  | inl edge ↦ elim (Bool-cases (n == 8)) [
    | inl byte ↦
        let eight : n ≡ 8 = ground (arith, byte) in
        let m = put_byte-Moved w w' (value % 2 ^ 8) (ground (arith, h, edge, byte)) in
        (omega (arith, m.0, eight), m.1)
    | inr n8 ↦ elim (Bool-cases (n == 16)) [
      | inl half ↦
          put_word-Moved w w' 2 value n (ground (arith, half)) (ground (arith, h, edge, n8, half))
      | inr n16 ↦ elim (Bool-cases (n == 32)) [
        | inl word ↦
            put_word-Moved w w' 4 value n (ground (arith, word))
              (ground (arith, h, edge, n8, n16, word))
        | inr n32 ↦ elim (Bool-cases (n == 64)) [
          | inl long ↦
              put_word-Moved w w' 8 value n (ground (arith, long))
                (ground (arith, h, edge, n8, n16, n32, long))
          | inr n64 ↦ absurd (ground (arith, h, edge, n8, n16, n32, n64))
        ]
      ]
    ]
  ]
]

length-patched :
    (byte : Option ℕ) (b : List ℕ) (i : ℕ) (f : ℕ → ℕ)
    → length (elim byte [ some x ↦ set b i (f x) | none ↦ b ]) ≡ length b
length-patched none b i f = refl
length-patched (some x) b i f = length-set b i (f x)

write_chunk-Moved :
    (w : BitWriter) (cur_val rem_bits width : ℕ)
    → Moved w width (write_chunk w cur_val rem_bits width)
unfolding write_chunk
write_chunk-Moved w cur_val rem_bits width =
    (refl, length-patched (get_elem? w.buffer (w.bit_offset / 8)) w.buffer (w.bit_offset / 8) _)

-- Every turn that is left writes a bit, so that `rem_bits` turns reach the end.
write_chunks-Moved :
    (fuel : ℕ) (w : BitWriter) (cur_val rem_bits : ℕ)
    → rem_bits ≤ fuel
    → Moved w rem_bits (write_chunks fuel w cur_val rem_bits)
unfolding write_chunks
write_chunks-Moved zero w cur_val rem_bits h = (omega (arith, h), refl)
write_chunks-Moved (suc fuel) w cur_val rem_bits h = elim (Bool-cases (rem_bits == 0)) [
  | inl done ↦ ground (arith, done)
  | inr more ↦
      let width : ℕ = min rem_bits (8 - w.bit_offset % 8) in
      let some_left : 0 < rem_bits = ground (arith, more) in
      let one = write_chunk-Moved w cur_val rem_bits width in
      let rest =
        write_chunks-Moved fuel (write_chunk w cur_val rem_bits width) cur_val (rem_bits - width)
          (omega arith) in
      ground (arith, more, one, rest)
]

write_bits_wide :
    (w : BitWriter) (value n : ℕ) → 64 < n → write_bits w value n ≡ (w, err (invalid_bit_width n))
unfolding write_bits
write_bits_wide w value n h = ground (arith, h)

write_bits_over :
    (w : BitWriter) (value n : ℕ)
    → n ≤ 64
    → remaining_bits w < n
    → write_bits w value n ≡ (w, err (buffer_overflow n (remaining_bits w)))
unfolding write_bits
write_bits_over w value n h over = ground (arith, h, over)

write_bits_fits :
    (w : BitWriter) (value n : ℕ)
    → n ≤ 64
    → n ≤ remaining_bits w
    → Moved w n (write_bits w value n).0 × ((write_bits w value n).1 ≡ ok tt)
unfolding write_bits
write_bits_fits w value n h fits = elim (Bool-cases (n == 0)) [
  | inl nothing ↦ ground (arith, nothing)
  | inr bits ↦ elim (Option-cases (fast_write w value n)) [
    | inr (w', fast) ↦ ground (arith, h, fits, bits, fast, fast_write-Moved w w' value n fast)
    | inl slow ↦
        let cur_val : ℕ = if n == 64 then value else bit_and value (2 ^ n - 1) in
        ground (arith, h, fits, bits, slow, write_chunks-Moved n w cur_val n (omega arith))
  ]
]

-- write_bits always ends, in one of three ways. A width above 64 and a width that does not fit are refused
-- with the error that says so, and the writer is as it was. Any other call succeeds: the position has moved by
-- the width, and the buffer keeps its length.
pub write_bits-Moved :
    (w : BitWriter) (value n : ℕ)
    → ((64 < n) × (write_bits w value n ≡ (w, err (invalid_bit_width n))))
      ⊎ ((n ≤ 64)
          × (remaining_bits w < n)
          × (write_bits w value n ≡ (w, err (buffer_overflow n (remaining_bits w)))))
      ⊎ ((n ≤ 64)
          × (n ≤ remaining_bits w)
          × Moved w n (write_bits w value n).0
          × ((write_bits w value n).1 ≡ ok tt))
write_bits-Moved w value n = elim (Bool-cases (ltb 64 n)) [
  | inl wide ↦ inl (ground (arith, wide), write_bits_wide w value n (ground (arith, wide)))
  | inr narrow ↦ elim (Bool-cases (ltb (remaining_bits w) n)) [
    | inl over ↦ inr (
        inl (
          ground (arith, narrow),
          ground (arith, over),
          write_bits_over w value n (ground (arith, narrow)) (ground (arith, over)),
        ))
    | inr fits ↦
        let small : n ≤ 64 = ground (arith, narrow) in
        let room : n ≤ remaining_bits w = ground (arith, fits) in
        let (moved, done) = write_bits_fits w value n small room in
        inr (inr (small, room, moved, done))
  ]
]
