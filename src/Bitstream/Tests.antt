-- ===== src/Bitstream/Tests.antt =====
-- Runs of the bit streams of crates/eidolon-net/src/bitstream.rs, and its theorems at concrete inputs.
use eidolon.Base.{ℕ, ◌≤◌, ◌<◌, ◌≡◌, refl, ◌⊎◌, List, [], ◌∷◌, some, ok, err, arith, replicate}
use eidolon.Channel.{buffer_overflow, invalid_varint, invalid_bit_width}
use eidolon.Bitstream.{
  BitWriter, new_writer, remaining_bits, total_bits, put_byte, fast_write, write_chunk,
  write_chunks, write_bits, write_u8, write_varint_loop, write_varint,
}
use eidolon.Bitstream.Reader.{
  new_reader, bits_left, next_byte, fast_read, with_chunk, read_chunks, read_bits, read_u8,
  read_varint_loop, read_varint,
}
use eidolon.Bitstream.Bytes.{writer_at}
use eidolon.Bitstream.Varint.{Sent, read_varint-write_varint}
use eidolon.Bitstream.Moves.{Moved, write_bits-Moved}

abbrev blank : List ℕ
blank = replicate 11 0

abbrev after_three : BitWriter
after_three = record { buffer = 160 ∷ 0 ∷ []; bit_offset = 3 }

-- Three bits and then seven, over the edge of a byte.
three_bits : write_bits (new_writer (9 ∷ 9 ∷ [])) 5 3 ≡ (after_three, ok tt)
unfolding write_bits write_chunks write_chunk fast_write remaining_bits total_bits new_writer
three_bits = refl

seven_bits :
    write_bits after_three 127 7 ≡ (record { buffer = 191 ∷ 192 ∷ []; bit_offset = 10 }, ok tt)
unfolding write_bits write_chunks write_chunk fast_write remaining_bits total_bits
seven_bits = refl

seven_bits_back :
    read_bits (record { buffer = 191 ∷ 192 ∷ []; bit_offset = 3 }) 7
    ≡ (record { buffer = 191 ∷ 192 ∷ []; bit_offset = 10 }, ok 127)
unfolding read_bits read_chunks with_chunk fast_read bits_left total_bits
seven_bits_back = refl

three_hundred :
    write_varint (writer_at blank 0) 300 ≡ some (writer_at (172 ∷ 2 ∷ replicate 9 0) 2, ok 2)
unfolding write_varint write_varint_loop write_u8 put_byte
three_hundred = refl

-- Eleven bytes that all say that one more follows.
continued_for_ever : (read_varint (new_reader (replicate 11 255))).1 ≡ err invalid_varint
unfolding read_varint read_varint_loop read_u8 next_byte new_reader
continued_for_ever = refl

read_varint-write_varint_example : Sent blank 1 300
read_varint-write_varint_example = read_varint-write_varint blank 1 300 (omega arith) (omega arith)

write_bits-Moved_example :
    ((64 < 7) × (write_bits after_three 127 7 ≡ (after_three, err (invalid_bit_width 7))))
    ⊎ ((7 ≤ 64)
        × (remaining_bits after_three < 7)
        × (write_bits after_three 127 7
            ≡ (after_three, err (buffer_overflow 7 (remaining_bits after_three)))))
    ⊎ ((7 ≤ 64)
        × (7 ≤ remaining_bits after_three)
        × Moved after_three 7 (write_bits after_three 127 7).0
        × ((write_bits after_three 127 7).1 ≡ ok tt))
write_bits-Moved_example = write_bits-Moved after_three 127 7
