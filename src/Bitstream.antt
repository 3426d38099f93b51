-- ===== src/Bitstream.antt =====
-- The bit writer of crates/eidolon-net/src/bitstream.rs: a buffer of bytes and a position in bits. The buffer
-- keeps its length. A call gives the writer afterwards and its result. Reader has the bit reader.
pub mod Reader
pub mod Bytes
pub mod Varint
pub mod Moves
mod Tests
use Prim.Native.Nat.{bit_and, bit_or}
use eidolon.Base.{
  ℕ, zero, suc, ◌+◌, ◌-◌, ◌*◌, ◌/◌, ◌%◌, ◌^◌, min, Bool, true, false, ◌&&◌, List, [], ◌∷◌, ◌++◌,
  Option, none, some, Result, ok, err, ltb, leb, ◌==◌, if◌then◌else◌, sat_mul64, replicate,
  get_elem?, set, length, take, drop, to_be,
}
use eidolon.Channel.{
  BitstreamError, buffer_overflow, unexpected_eof, invalid_varint, invalid_bit_width,
}

pub record BitWriter : Type 0 where
  pub buffer : List ℕ
  pub bit_offset : ℕ

abbrev pub Written : Type 0
Written = BitWriter × Result BitstreamError (Unit {0})

unfoldable pub new_writer : List ℕ → BitWriter
new_writer buffer = record { buffer = replicate (length buffer) 0; bit_offset = 0 }

-- `div_ceil(8)`
unfoldable pub byte_len : BitWriter → ℕ
byte_len w = (w.bit_offset + 7) / 8

unfoldable pub total_bits : List ℕ → ℕ
total_bits buffer = sat_mul64 (length buffer) 8

unfoldable pub remaining_bits : BitWriter → ℕ
remaining_bits w = total_bits w.buffer - w.bit_offset

unfoldable pub as_bytes : BitWriter → List ℕ
as_bytes w = if leb (byte_len w) (length w.buffer) then take (byte_len w) w.buffer else []

unfoldable pub write_bit : BitWriter → Bool → Written
write_bit w value =
    let byte_idx : ℕ = w.bit_offset / 8 in
    let mask : ℕ = 2 ^ (7 - w.bit_offset % 8) in
    elim (get_elem? w.buffer byte_idx) [
      | some byte ↦ (
        record {
          buffer =
              set w.buffer byte_idx (if value then bit_or byte mask else bit_and byte (255 - mask));
          bit_offset = w.bit_offset + 1;
        },
        ok tt,
      )
      | none ↦ (w, err (buffer_overflow 1 0))
    ]

-- A byte at the position, if it is inside the buffer: `get_mut(byte_idx)`.
unfoldable pub put_byte : BitWriter → ℕ → Option BitWriter
put_byte w byte = elim (get_elem? w.buffer (w.bit_offset / 8)) [
  | some _ ↦
      some (record { buffer = set w.buffer (w.bit_offset / 8) byte; bit_offset = w.bit_offset + 8 })
  | none ↦ none
]

-- Bytes at the position: `get_mut(start..end)` and `copy_from_slice`.
unfoldable pub put_bytes : BitWriter → List ℕ → Option BitWriter
put_bytes w bytes =
    let start : ℕ = w.bit_offset / 8 in
    let end : ℕ = start + length bytes in
    if leb end (length w.buffer)
    then some (record {
      buffer = take start w.buffer ++ bytes ++ drop end w.buffer;
      bit_offset = w.bit_offset + length bytes * 8;
    })
    else none

-- The fast path for byte-aligned writes.
unfoldable pub fast_write : BitWriter → ℕ → ℕ → Option BitWriter
fast_write w value num_bits =
    if w.bit_offset % 8 == 0
    then (if num_bits == 8
        then put_byte w (value % 2 ^ 8)
        else if num_bits == 16
        then put_bytes w (to_be 2 value)
        else if num_bits == 32
        then put_bytes w (to_be 4 value)
        else if num_bits == 64
        then put_bytes w (to_be 8 value)
        else none)
    else none

-- The byte at the position with `width` bits of `cur_val` in it, of which `rem_bits` are left.
unfoldable pub write_chunk : BitWriter → ℕ → ℕ → ℕ → BitWriter
write_chunk w cur_val rem_bits width =
    let byte_idx : ℕ = w.bit_offset / 8 in
    let shift_src : ℕ = rem_bits - width in
    let chunk : ℕ = bit_and (cur_val / 2 ^ shift_src % 2 ^ 8) ((2 ^ width - 1) % 2 ^ 8) in
    let shift_dst : ℕ = 8 - w.bit_offset % 8 - width in
    let mask : ℕ = (2 ^ width - 1) % 2 ^ 8 * 2 ^ shift_dst % 2 ^ 8 in
    record {
      buffer = elim (get_elem? w.buffer byte_idx) [
        | some byte ↦
            set w.buffer byte_idx
              (bit_or (bit_and byte (255 - mask)) (chunk * 2 ^ shift_dst % 2 ^ 8))
        | none ↦ w.buffer
      ];
      bit_offset = w.bit_offset + width;
    }

-- The chunks of write_bits. Every chunk has a bit at least, so that `rem_bits` turns are enough.
unfoldable pub write_chunks : ℕ → BitWriter → ℕ → ℕ → BitWriter
write_chunks zero w cur_val rem_bits = w
write_chunks (suc fuel) w cur_val rem_bits =
    let width : ℕ = min rem_bits (8 - w.bit_offset % 8) in
    let rest =
      write_chunks fuel (write_chunk w cur_val rem_bits width) cur_val (rem_bits - width) in
    if rem_bits == 0 then w else rest

unfoldable pub write_bits : BitWriter → ℕ → ℕ → Written
write_bits w value num_bits =
    if num_bits == 0
    then (w, ok tt)
    else if ltb 64 num_bits
    then (w, err (invalid_bit_width num_bits))
    else if ltb (remaining_bits w) num_bits
    then (w, err (buffer_overflow num_bits (remaining_bits w)))
    else elim (fast_write w value num_bits) [
      | some w' ↦ (w', ok tt)
      | none ↦
          let cur_val : ℕ = if num_bits == 64 then value else bit_and value (2 ^ num_bits - 1) in
          (write_chunks num_bits w cur_val num_bits, ok tt)
    ]

unfoldable pub write_u8 : BitWriter → ℕ → Written
write_u8 w val = elim (if w.bit_offset % 8 == 0 then put_byte w val else none) [
  | some w' ↦ (w', ok tt)
  | none ↦ write_bits w val 8
]

-- `write_u16`, `write_u32` and `write_u64`, of 2, 4 and 8 bytes.
unfoldable pub write_word : ℕ → BitWriter → ℕ → Written
write_word size w val =
    elim (if w.bit_offset % 8 == 0 then put_bytes w (to_be size val) else none) [
      | some w' ↦ (w', ok tt)
      | none ↦ write_bits w val (size * 8)
    ]

-- The loop of write_varint, `none` when the fuel has run out.
unfoldable pub write_varint_loop :
    ℕ → BitWriter → ℕ → ℕ → Option (BitWriter × Result BitstreamError ℕ)
write_varint_loop zero w value bytes_written = none
write_varint_loop (suc fuel) w value bytes_written =
    let low : ℕ = bit_and value 127 in
    let higher : ℕ = value / 2 ^ 7 in
    let (w', r) = write_u8 w (if higher == 0 then low else bit_or low 128) in
    elim r [
      | err e ↦ some (w', err e)
      | ok _ ↦ elim (higher == 0) [
        | true ↦ some (w', ok (bytes_written + 1))
        | false ↦ write_varint_loop fuel w' higher (bytes_written + 1)
      ]
    ]

-- A u64 has at most ten groups of seven bits.
unfoldable pub write_varint : BitWriter → ℕ → Option (BitWriter × Result BitstreamError ℕ)
write_varint w value = write_varint_loop 10 w value 0

unfoldable pub write_each : BitWriter → List ℕ → Written
write_each w [] = (w, ok tt)
write_each w (b ∷ bytes) =
    let (w', r) = write_u8 w b in elim r [ err e ↦ (w', err e) | ok _ ↦ write_each w' bytes ]

unfoldable pub write_bytes : BitWriter → List ℕ → Written
write_bytes w bytes =
    let bits_needed : ℕ = sat_mul64 (length bytes) 8 in
    if ltb (remaining_bits w) bits_needed
    then (w, err (buffer_overflow bits_needed (remaining_bits w)))
    else elim (if w.bit_offset % 8 == 0 then put_bytes w bytes else none) [
      | some w' ↦ (w', ok tt)
      | none ↦ write_each w bytes
    ]

-- Zero bits up to the next byte.
unfoldable pub flush_byte_alignment : BitWriter → Written
flush_byte_alignment w =
    let over : ℕ = w.bit_offset % 8 in if over == 0 then (w, ok tt) else write_bits w 0 (8 - over)
