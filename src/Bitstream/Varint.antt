-- ===== src/Bitstream/Varint.antt =====
-- Variable-length integers of crates/eidolon-net/src/bitstream.rs: what write_varint writes, read_varint reads.
use Prim.Native.Nat.{bit_and, bit_or}
use native.Mathlib.Nat.{mod-eq_of_lt, mul-le-mul_right}
use eidolon.Base.{
  ℕ, zero, suc, ◌+◌, ◌*◌, ◌/◌, ◌%◌, ◌^◌, ◌≤◌, ◌<◌, ◌≡◌, refl, ap, ◌∙◌, inl, inr, false, not, ◌&&◌,
  List, some, ok, arith, ◌==◌, get_elem?, set, length, length-set, get_elem?-set_self,
  get_elem?-set_ne, Bool-cases, bit_or-high,
}
use eidolon.Bitstream.{write_varint_loop, write_varint}
use eidolon.Bitstream.Reader.{read_varint_loop, read_varint}
use eidolon.Bitstream.Bytes.{
  writer_at, reader_at, write_u8-aligned, read_u8-aligned, write_last, write_more, read_last,
  read_more, last_byte, more_byte, pow-seven, value_parts,
}

-- A value from the byte `k` on, in the turns that are left of ten.
pub record Encoded (fuel : ℕ) (b : List ℕ) (k value count i : ℕ) : Type 0 where
  pub final : List ℕ
  pub n : ℕ
  pub n_ok : n ≤ fuel
  pub same_length : length final ≡ length b
  pub written :
      write_varint_loop fuel (writer_at b k) value count
      ≡ some (writer_at final (k + n), ok (count + n))
  pub kept : (j : ℕ) → j < k → get_elem? final j ≡ get_elem? b j
  pub back :
      (acc : ℕ)
      → acc < 2 ^ (7 * i)
      → read_varint_loop fuel (reader_at final k) i acc (7 * i)
        ≡ (reader_at final (k + n), ok (acc + value * 2 ^ (7 * i)))

top_group : (v : ℕ) → v < 2 → bit_and v 126 ≡ 0
top_group zero h = refl
top_group (suc zero) h = refl
top_group (suc (suc v)) h = absurd (omega arith)

-- The tenth byte has one bit.
tenth : (i v : ℕ) → v * 2 ^ (7 * i) < 2 ^ 64 → ((i == 9) && not (bit_and v 126 == 0)) ≡ false
tenth i v h = elim (Bool-cases (i == 9)) [
  | inr other ↦ ground (arith, other)
  | inl nine ↦
      let at_nine : i ≡ 9 = ground (arith, nine) in
      let scale = ap (λ j. v * 2 ^ (7 * j)) at_nine in
      ground (arith, nine, top_group v (omega (arith, h, scale)))
]

-- A group goes above what has been read.
group_joins :
    (acc v i : ℕ)
    → acc < 2 ^ (7 * i)
    → v * 2 ^ (7 * i) < 2 ^ 64
    → bit_or acc (v * 2 ^ (7 * i) % 2 ^ 64) ≡ acc + v * 2 ^ (7 * i)
group_joins acc v i a h = ap (bit_or acc) (mod-eq_of_lt h) ∙ bit_or-high (7 * i) acc v a

encode_last :
    (fuel : ℕ) (b : List ℕ) (k v count i : ℕ)
    → v / 2 ^ 7 ≡ 0
    → v * 2 ^ (7 * i) < 2 ^ 64
    → k < length b
    → Encoded (suc fuel) b k v count i
encode_last fuel b k v count i last h room =
    let (low, high) = last_byte v last in
    let there : get_elem? (set b k v) k ≡ some v = get_elem?-set_self b k v room in
    record {
      final = set b k v;
      n = 1;
      n_ok = omega arith;
      same_length = length-set b k v;
      written =
          write_last fuel (writer_at b k) (writer_at (set b k v) (k + 1)) v count last
            (rw low (write_u8-aligned b k v room));
      kept = λ j below. get_elem?-set_ne b k j v (λ e. absurd (omega (arith, e, below)));
      back = λ acc small.
          let turn =
            read_last fuel (reader_at (set b k v) k) (reader_at (set b k v) (k + 1)) i acc (7 * i) v
              (read_u8-aligned (set b k v) k v there) (rw low (tenth i v h))
              (ground (arith, high)) in
          let joined = group_joins acc v i small h in
          turn
          ∙ ap (λ x. (reader_at (set b k v) (k + 1), ok x))
              (ap (λ g. bit_or acc (g * 2 ^ (7 * i) % 2 ^ 64)) low ∙ joined);
    }

-- The rest of a value, above its first group.
rest_fits : (v i : ℕ) → v * 2 ^ (7 * i) < 2 ^ 64 → v / 2 ^ 7 * 2 ^ (7 * suc i) < 2 ^ 64
rest_fits v i h =
    let parts = value_parts v (2 ^ (7 * i)) in
    let scale = ap (λ s. v / 2 ^ 7 * 2 ^ s) {x = 7 * suc i} {y = 7 * i + 7} (omega arith) in
    let seven = ap (◌*◌ (v / 2 ^ 7)) (pow-seven (7 * i)) in omega (arith, h, parts, scale, seven)

group_below :
    (acc v i : ℕ)
    → acc < 2 ^ (7 * i)
    → 2 ^ (7 * suc i) ≡ 2 ^ (7 * i) * 128
    → acc + v % 128 * 2 ^ (7 * i) < 2 ^ (7 * suc i)
group_below acc v i small power =
    let digit : v % 128 ≤ 127 = omega arith in
    let scaled : v % 128 * 2 ^ (7 * i) ≤ 127 * 2 ^ (7 * i) = mul-le-mul_right (2 ^ (7 * i)) digit in
    omega (arith, small, power, scaled)

next_power : (i : ℕ) → 2 ^ (7 * suc i) ≡ 2 ^ (7 * i) * 128
next_power i = ap (λ s. 2 ^ s) {x = 7 * suc i} {y = 7 * i + 7} (omega arith) ∙ pow-seven (7 * i)

-- A turn of the reader over a group that is not the last.
read_group :
    (turns : ℕ) (b : List ℕ) (k i acc v : ℕ)
    → get_elem? b k ≡ some (v % 128 + 128)
    → v * 2 ^ (7 * i) < 2 ^ 64
    → acc < 2 ^ (7 * i)
    → read_varint_loop (suc turns) (reader_at b k) i acc (7 * i)
      ≡ read_varint_loop turns
          (reader_at b (k + 1))
          (suc i)
          (acc + v % 128 * 2 ^ (7 * i))
          (7 * suc i)
read_group turns b k i acc v there h small =
    let byte : ℕ = v % 128 + 128 in
    let (whole, low, high) = more_byte v in
    let group_fits : v % 128 * 2 ^ (7 * i) < 2 ^ 64 =
      omega (arith, h, value_parts v (2 ^ (7 * i))) in
    let turn =
      read_more turns (reader_at b k) (reader_at b (k + 1)) i acc (7 * i) byte
        (read_u8-aligned b k byte there) (rw low (tenth i (v % 128) group_fits))
        (ground (arith, high)) in
    let joined =
      ap (λ g. bit_or acc (g * 2 ^ (7 * i) % 2 ^ 64)) low
      ∙ group_joins acc (v % 128) i small group_fits in
    let next = read_varint_loop turns (reader_at b (k + 1)) in
    turn
    ∙ ap (λ a. next (i + 1) a (7 * i + 7)) joined
    ∙ ap (λ j. next j (acc + v % 128 * 2 ^ (7 * i)) (7 * i + 7)) {y = suc i} (omega arith)
    ∙ ap (next (suc i) (acc + v % 128 * 2 ^ (7 * i))) {y = 7 * suc i} (omega arith)

encode_more :
    (fuel : ℕ) (b : List ℕ) (k v count i : ℕ)
    → (v / 2 ^ 7 == 0) ≡ false
    → v * 2 ^ (7 * i) < 2 ^ 64
    → k < length b
    → Encoded fuel (set b k (v % 128 + 128)) (k + 1) (v / 2 ^ 7) (count + 1) (suc i)
    → Encoded (suc fuel) b k v count i
encode_more fuel b k v count i more h room e =
    let byte : ℕ = v % 128 + 128 in
    let there : get_elem? e.final k ≡ some byte =
      e.kept k (omega arith) ∙ get_elem?-set_self b k byte room in
    let end : k + 1 + e.n ≡ k + suc e.n = omega arith in
    let total : count + 1 + e.n ≡ count + suc e.n = omega arith in
    record {
      final = e.final;
      n = suc e.n;
      n_ok = omega (arith, e.n_ok);
      same_length = e.same_length ∙ length-set b k byte;
      written =
          write_more fuel (writer_at b k) (writer_at (set b k byte) (k + 1)) v count more
            (rw (more_byte v).0 (write_u8-aligned b k byte room))
          ∙ e.written
          ∙ ap (λ p. some (writer_at e.final p, ok (count + 1 + e.n))) end
          ∙ ap (λ c. some (writer_at e.final (k + suc e.n), ok c)) total;
      kept = λ j below.
          e.kept j (omega arith)
          ∙ get_elem?-set_ne b k j byte (λ q. absurd (omega (arith, q, below)));
      back = λ acc small.
          let above : ℕ = acc + v % 128 * 2 ^ (7 * i) in
          let scaled = ap (◌*◌ (v / 2 ^ 7)) (next_power i) in
          let value : above + v / 2 ^ 7 * 2 ^ (7 * suc i) ≡ acc + v * 2 ^ (7 * i) =
            omega (arith, value_parts v (2 ^ (7 * i)), scaled) in
          read_group fuel e.final k i acc v there h small
          ∙ e.back above (group_below acc v i small (next_power i))
          ∙ ap (λ p. (reader_at e.final p, ok (above + v / 2 ^ 7 * 2 ^ (7 * suc i)))) end
          ∙ ap (λ x. (reader_at e.final (k + suc e.n), ok x)) value;
    }

-- What is left after nine groups has no second group.
tenth_last : (v i : ℕ) → i ≡ 9 → v * 2 ^ (7 * i) < 2 ^ 64 → v / 2 ^ 7 ≡ 0
tenth_last v i e h = let scale = ap (λ j. v * 2 ^ (7 * j)) e in omega (arith, h, scale)

encode :
    (fuel : ℕ) (b : List ℕ) (k v count i : ℕ)
    → i + suc fuel ≡ 10
    → v * 2 ^ (7 * i) < 2 ^ 64
    → k + suc fuel ≤ length b
    → Encoded (suc fuel) b k v count i
encode zero b k v count i turns h room =
    encode_last zero b k v count i (tenth_last v i (omega arith) h) h (omega arith)
encode (suc fuel) b k v count i turns h room = elim (Bool-cases (v / 2 ^ 7 == 0)) [
  | inl last ↦ encode_last (suc fuel) b k v count i (ground (arith, last)) h (omega arith)
  | inr more ↦
      let byte : ℕ = v % 128 + 128 in
      let length_kept = length-set b k byte in
      encode_more (suc fuel) b k v count i more h (omega arith) (
        encode fuel (set b k byte) (k + 1) (v / 2 ^ 7) (count + 1) (suc i) (omega arith)
          (rest_fits v i h) (omega (arith, room, length_kept)))
]

-- A variable-length integer in a buffer: where it ends, and what both sides return.
pub record Sent (b : List ℕ) (k v : ℕ) : Type 0 where
  pub final : List ℕ
  pub n : ℕ
  pub at_most_ten : n ≤ 10
  pub same_length : length final ≡ length b
  pub kept : (j : ℕ) → j < k → get_elem? final j ≡ get_elem? b j
  pub written : write_varint (writer_at b k) v ≡ some (writer_at final (k + n), ok n)
  pub read : read_varint (reader_at final k) ≡ (reader_at final (k + n), ok v)

-- What write_varint writes, read_varint reads. From a byte boundary with at least ten bytes left in the
-- buffer, write_varint of a u64 ends its loop, succeeds and returns the number of bytes it wrote, at most ten;
-- the bytes before are as they were and the buffer keeps its length. A reader of that buffer, from the
-- same position, returns the integer and stops where the writer stopped.
pub read_varint-write_varint : (b : List ℕ) (k v : ℕ) → v < 2 ^ 64 → k + 10 ≤ length b → Sent b k v
unfolding write_varint read_varint
read_varint-write_varint b k v small room =
    let unit : v * 2 ^ (7 * 0) ≡ v = omega arith in
    let e = encode 9 b k v 0 0 (omega arith) (omega (arith, small, unit)) room in
    let all : 0 + v * 2 ^ (7 * 0) ≡ v = omega arith in
    let count : 0 + e.n ≡ e.n = omega arith in
    record {
      final = e.final;
      n = e.n;
      at_most_ten = e.n_ok;
      same_length = e.same_length;
      kept = e.kept;
      written = e.written ∙ ap (λ c. some (writer_at e.final (k + e.n), ok c)) count;
      read = e.back 0 (omega arith) ∙ ap (λ x. (reader_at e.final (k + e.n), ok x)) all;
    }
