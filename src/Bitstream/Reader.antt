-- ===== src/Bitstream/Reader.antt =====
-- The bit reader of crates/eidolon-net/src/bitstream.rs. A call gives the reader afterwards and its result.
use Prim.Native.Nat.{bit_and, bit_or}
use eidolon.Base.{
  ℕ, zero, suc, ◌+◌, ◌-◌, ◌*◌, ◌/◌, ◌%◌, ◌^◌, min, Bool, true, false, not, ◌&&◌, List, [], ◌∷◌,
  Option, none, some, Result, ok, err, ltb, leb, ◌==◌, if◌then◌else◌, sat_mul64, get_elem?, length,
  take, drop, from_be,
}
use eidolon.Channel.{BitstreamError, unexpected_eof, invalid_varint, invalid_bit_width}
use eidolon.Bitstream.{total_bits}

pub record BitReader : Type 0 where
  pub buffer : List ℕ
  pub bit_offset : ℕ

abbrev pub Read : Type 0 → Type 0
Read A = BitReader × Result BitstreamError A

unfoldable pub new_reader : List ℕ → BitReader
new_reader buffer = record { buffer = buffer; bit_offset = 0 }

unfoldable pub bits_left : BitReader → ℕ
bits_left r = total_bits r.buffer - r.bit_offset

abbrev pub advance : BitReader → ℕ → BitReader
advance r n = record r { bit_offset = r.bit_offset + n }

unfoldable pub read_bit : BitReader → Read Bool
read_bit r = elim (get_elem? r.buffer (r.bit_offset / 8)) [
  | some byte ↦ (advance r 1, ok (not (bit_and byte (2 ^ (7 - r.bit_offset % 8)) == 0)))
  | none ↦ (r, err (unexpected_eof 1 0))
]

-- The byte at the position: `get(byte_idx)`.
unfoldable pub next_byte : BitReader → Option (BitReader × ℕ)
next_byte r = elim (get_elem? r.buffer (r.bit_offset / 8)) [
  | some byte ↦ some (advance r 8, byte)
  | none ↦ none
]

-- The `count` bytes at the position: `get(start..end)`.
unfoldable pub next_bytes : BitReader → ℕ → Option (BitReader × List ℕ)
next_bytes r count =
    let start : ℕ = r.bit_offset / 8 in
    if leb (start + count) (length r.buffer)
    then some (advance r (count * 8), take count (drop start r.buffer))
    else none

-- `from_be_bytes` of the next `size` bytes.
unfoldable pub next_word : BitReader → ℕ → Option (BitReader × ℕ)
next_word r size = elim (next_bytes r size) [
  | some (r', bytes) ↦ some (r', from_be bytes)
  | none ↦ none
]

-- The fast paths for byte-aligned reads.
unfoldable pub fast_read : BitReader → ℕ → Option (BitReader × ℕ)
fast_read r num_bits =
    if r.bit_offset % 8 == 0
    then (if num_bits == 8
        then next_byte r
        else if num_bits == 16
        then next_word r 2
        else if num_bits == 32
        then next_word r 4
        else if num_bits == 64
        then next_word r 8
        else none)
    else none

-- The value with the `width` bits at the position appended.
unfoldable pub with_chunk : BitReader → ℕ → ℕ → ℕ
with_chunk r value width =
    let shift : ℕ = 8 - r.bit_offset % 8 - width in
    let mask : ℕ = (2 ^ width - 1) % 2 ^ 8 * 2 ^ shift % 2 ^ 8 in
    elim (get_elem? r.buffer (r.bit_offset / 8)) [
      | some byte ↦ bit_or (value * 2 ^ width % 2 ^ 64) (bit_and byte mask / 2 ^ shift)
      | none ↦ value
    ]

-- The chunks of read_bits. Every chunk has a bit at least, so that `rem_bits` turns are enough.
unfoldable pub read_chunks : ℕ → BitReader → ℕ → ℕ → BitReader × ℕ
read_chunks zero r value rem_bits = (r, value)
read_chunks (suc fuel) r value rem_bits =
    let width : ℕ = min rem_bits (8 - r.bit_offset % 8) in
    let rest = read_chunks fuel (advance r width) (with_chunk r value width) (rem_bits - width) in
    if rem_bits == 0 then (r, value) else rest

unfoldable pub read_bits : BitReader → ℕ → Read ℕ
read_bits r num_bits =
    if num_bits == 0
    then (r, ok 0)
    else if ltb 64 num_bits
    then (r, err (invalid_bit_width num_bits))
    else if ltb (bits_left r) num_bits
    then (r, err (unexpected_eof num_bits (bits_left r)))
    else elim (fast_read r num_bits) [
      | some (r', value) ↦ (r', ok value)
      | none ↦ let end = read_chunks num_bits r 0 num_bits in (end.0, ok end.1)
    ]

-- `v as u8`, and so on
abbrev narrowed : ℕ → Read ℕ → Read ℕ
narrowed bits (r, ok v) = (r, ok (v % 2 ^ bits))
narrowed bits (r, err e) = (r, err e)

unfoldable pub read_u8 : BitReader → Read ℕ
read_u8 r = elim (if r.bit_offset % 8 == 0 then next_byte r else none) [
  | some (r', byte) ↦ (r', ok byte)
  | none ↦ narrowed 8 (read_bits r 8)
]

-- `read_u16`, `read_u32` and `read_u64`, of 2, 4 and 8 bytes.
unfoldable pub read_word : ℕ → BitReader → Read ℕ
read_word size r = elim (if r.bit_offset % 8 == 0 then next_word r size else none) [
  | some (r', value) ↦ (r', ok value)
  | none ↦ narrowed (size * 8) (read_bits r (size * 8))
]

-- The turns `i`, `i + 1`, ... of read_varint, `turns` of them.
unfoldable pub read_varint_loop : ℕ → BitReader → ℕ → ℕ → ℕ → Read ℕ
read_varint_loop zero r i value shift = (r, err invalid_varint)
read_varint_loop (suc turns) r i value shift =
    let (r', next) = read_u8 r in
    elim next [
      | err e ↦ (r', err e)
      | ok byte ↦
          let val : ℕ = bit_and byte 127 in
          let value' : ℕ = bit_or value (val * 2 ^ shift % 2 ^ 64) in
          elim ((i == 9) && not (bit_and val 126 == 0)) [
            | true ↦ (r', err invalid_varint)
            | false ↦ elim (bit_and byte 128 == 0) [
              | true ↦ (r', ok value')
              | false ↦ read_varint_loop turns r' (i + 1) value' (shift + 7)
            ]
          ]
    ]

unfoldable pub read_varint : BitReader → Read ℕ
read_varint r = read_varint_loop 10 r 0 0 0

-- The bytes read in place of those of `out`, which stay where the buffer ends.
unfoldable pub read_each :
    BitReader → List ℕ → BitReader × List ℕ × Result BitstreamError (Unit {0})
read_each r [] = (r, [], ok tt)
read_each r (b ∷ out) =
    let (r', next) = read_u8 r in
    elim next [
      | err e ↦ (r', b ∷ out, err e)
      | ok byte ↦ let rest = read_each r' out in (rest.0, byte ∷ rest.1, rest.2)
    ]

unfoldable pub read_bytes :
    BitReader → List ℕ → BitReader × List ℕ × Result BitstreamError (Unit {0})
read_bytes r out =
    let bits_needed : ℕ = sat_mul64 (length out) 8 in
    if ltb (bits_left r) bits_needed
    then (r, out, err (unexpected_eof bits_needed (bits_left r)))
    else elim (if r.bit_offset % 8 == 0 then next_bytes r (length out) else none) [
      | some (r', bytes) ↦ (r', bytes, ok tt)
      | none ↦ read_each r out
    ]

unfoldable pub align_to_byte : BitReader → BitReader
align_to_byte r = let over : ℕ = r.bit_offset % 8 in if over == 0 then r else advance r (8 - over)
