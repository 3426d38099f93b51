-- ===== src/Bitstream/Bytes.antt =====
-- Byte-aligned writes and reads of crates/eidolon-net/src/bitstream.rs, and the turns of the two loops for
-- variable-length integers.
use Prim.Native.Nat.{bit_and, bit_or}
use native.Mathlib.Nat.{two-pow-succ}
use eidolon.Base.{
  ℕ, suc, ◌+◌, ◌*◌, ◌/◌, ◌%◌, ◌^◌, ◌<◌, ◌≡◌, ap, ◌∙◌, true, false, not, ◌&&◌, List, some, ok, arith,
  ◌==◌, get_elem?, set, length, get_elem?-lt, bit_and-127, bit_and-128, bit_or-high,
}
use eidolon.Bitstream.{BitWriter, put_byte, write_u8, write_varint_loop}
use eidolon.Bitstream.Reader.{BitReader, next_byte, read_u8, read_varint_loop}

abbrev pub writer_at : List ℕ → ℕ → BitWriter
writer_at b k = record { buffer = b; bit_offset = k * 8 }

abbrev pub reader_at : List ℕ → ℕ → BitReader
reader_at b k = record { buffer = b; bit_offset = k * 8 }

aligned : (k : ℕ) → (k * 8 % 8 ≡ 0) × (k * 8 / 8 ≡ k)
aligned k = omega arith

pub write_u8-aligned :
    (b : List ℕ) (k x : ℕ)
    → k < length b
    → write_u8 (writer_at b k) x ≡ (writer_at (set b k x) (k + 1), ok tt)
unfolding write_u8 put_byte
write_u8-aligned b k x h =
    let (a, there) = get_elem?-lt b k h in
    let next : k * 8 + 8 ≡ (k + 1) * 8 = omega arith in ground (arith, aligned k, there, next)

pub read_u8-aligned :
    (b : List ℕ) (k x : ℕ)
    → get_elem? b k ≡ some x
    → read_u8 (reader_at b k) ≡ (reader_at b (k + 1), ok x)
unfolding read_u8 next_byte
read_u8-aligned b k x there =
    let next : k * 8 + 8 ≡ (k + 1) * 8 = omega arith in ground (arith, aligned k, there, next)

pub write_last :
    (fuel : ℕ) (w w' : BitWriter) (v count : ℕ)
    → v / 2 ^ 7 ≡ 0
    → write_u8 w (bit_and v 127) ≡ (w', ok tt)
    → write_varint_loop (suc fuel) w v count ≡ some (w', ok (count + 1))
unfolding write_varint_loop
write_last fuel w w' v count last h = ground (arith, last, h)

pub write_more :
    (fuel : ℕ) (w w' : BitWriter) (v count : ℕ)
    → (v / 2 ^ 7 == 0) ≡ false
    → write_u8 w (bit_or (bit_and v 127) 128) ≡ (w', ok tt)
    → write_varint_loop (suc fuel) w v count ≡ write_varint_loop fuel w' (v / 2 ^ 7) (count + 1)
unfolding write_varint_loop
write_more fuel w w' v count more h = ground (arith, more, h)

pub read_last :
    (turns : ℕ) (r r' : BitReader) (i acc shift byte : ℕ)
    → read_u8 r ≡ (r', ok byte)
    → ((i == 9) && not (bit_and (bit_and byte 127) 126 == 0)) ≡ false
    → (bit_and byte 128 == 0) ≡ true
    → read_varint_loop (suc turns) r i acc shift
      ≡ (r', ok (bit_or acc (bit_and byte 127 * 2 ^ shift % 2 ^ 64)))
unfolding read_varint_loop
read_last turns r r' i acc shift byte h fits last = ground (arith, h, fits, last)

pub read_more :
    (turns : ℕ) (r r' : BitReader) (i acc shift byte : ℕ)
    → read_u8 r ≡ (r', ok byte)
    → ((i == 9) && not (bit_and (bit_and byte 127) 126 == 0)) ≡ false
    → (bit_and byte 128 == 0) ≡ false
    → read_varint_loop (suc turns) r i acc shift
      ≡ read_varint_loop turns r'
          (i + 1)
          (bit_or acc (bit_and byte 127 * 2 ^ shift % 2 ^ 64))
          (shift + 7)
unfolding read_varint_loop
read_more turns r r' i acc shift byte h fits more = ground (arith, h, fits, more)

-- A group of seven bits, as the byte for it has them.
pub last_byte : (v : ℕ) → v / 2 ^ 7 ≡ 0 → (bit_and v 127 ≡ v) × (bit_and v 128 ≡ 0)
last_byte v h = (omega (arith, h, bit_and-127 v), omega (arith, h, bit_and-128 v))

pub more_byte :
    (v : ℕ)
    → (bit_or (bit_and v 127) 128 ≡ v % 128 + 128)
      × (bit_and (v % 128 + 128) 127 ≡ v % 128)
      × (bit_and (v % 128 + 128) 128 ≡ 128)
more_byte v =
    let low : bit_and v 127 < 2 ^ 7 = omega (arith, bit_and-127 v) in
    let parts : bit_or (bit_and v 127) 128 ≡ bit_and v 127 + 128 =
      bit_or-high 7 (bit_and v 127) 1 low in
    (
      omega (arith, parts, bit_and-127 v),
      omega (arith, bit_and-127 (v % 128 + 128)),
      omega (arith, bit_and-128 (v % 128 + 128)),
    )

pub pow-seven : (s : ℕ) → 2 ^ (s + 7) ≡ 2 ^ s * 128
pow-seven s =
    let s4 = suc (suc (suc (suc s))) in
    let seven : s + 7 ≡ suc (suc (suc s4)) = omega arith in
    ap (λ n. 2 ^ n) seven
    ∙ omega (
      arith,
      two-pow-succ s,
      two-pow-succ (suc s),
      two-pow-succ (suc (suc s)),
      two-pow-succ (suc (suc (suc s))),
      two-pow-succ s4,
      two-pow-succ (suc s4),
      two-pow-succ (suc (suc s4)),
    )

-- The value in two parts, of the group and of what is above it.
pub value_parts : (v p : ℕ) → v * p ≡ v % 128 * p + v / 2 ^ 7 * (p * 128)
value_parts v p =
    let split : v ≡ v % 128 + v / 2 ^ 7 * 128 = omega arith in
    let whole = ap (λ n. n * p) split in omega (arith, whole)
