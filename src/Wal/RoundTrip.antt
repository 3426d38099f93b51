-- ===== src/Wal/RoundTrip.antt =====
-- Round trips of `WalRecord` (crates/eidolon-world/src/wal.rs) through its bytes.
use eidolon.Base.{
  ℕ, ◌+◌, ◌-◌, ◌≤◌, ◌≡◌, refl, sym, ap, ◌∙◌, min, List, ◌++◌, ok, arith, length, take, drop,
  replicate, from_be, length-to_be, from_be-to_be, from_be-byte, ◌↔◌, append_assoc, length-append,
  length-drop, length-take,
}
use eidolon.Wal.Record.{
  WalRecord, header_bytes, compute_checksum, record_bytes, encode, slice, byte_at, parsed, decode,
}
use eidolon.Wal.Codec.{
  frame, frame_lsn, frame_tick, frame_account, frame_entity, frame_payload, frame_checksum,
  frame_opcode, frame_payload_len,
}
use eidolon.Wal.WellFormed.{IsWellFormed}

-- The encoded record, chunk by chunk.
bytes_frame :
    (r : WalRecord) (rest : List ℕ)
    → r.payload_len ≤ 128
    → record_bytes r ++ rest
      ≡ frame r.lsn r.tick r.account_id r.entity_id r.opcode r.payload_len r.checksum r.payload_len
          (take r.payload_len r.payload)
          rest
unfolding record_bytes header_bytes
bytes_frame r rest h =
    let m : min r.payload_len 128 ≡ r.payload_len = omega arith in rw m (simp append_assoc)

-- Each field of the record that the chunks parse to.
module _ (r : WalRecord) (rest : List ℕ) (w : IsWellFormed r) where
  abbrev buffer : List ℕ
  buffer =
      frame r.lsn r.tick r.account_id r.entity_id r.opcode r.payload_len r.checksum r.payload_len
        (take r.payload_len r.payload) rest

  payload_size : length (take r.payload_len r.payload) ≡ r.payload_len
  payload_size = omega (arith, length-take r.payload_len r.payload, w.sized, w.payload_len)

  payload_read : slice 30 r.payload_len buffer ++ replicate (128 - r.payload_len) 0 ≡ r.payload
  payload_read =
      ap (λ m. m ++ replicate (128 - r.payload_len) 0)
        (frame_payload r.lsn r.tick r.account_id r.entity_id r.opcode r.payload_len r.checksum
          r.payload_len (take r.payload_len r.payload) rest payload_size)
      ∙ sym w.padded

  lsn_read : from_be (slice 0 8 buffer) ≡ r.lsn
  lsn_read =
      ap from_be (
        frame_lsn r.lsn r.tick r.account_id r.entity_id r.opcode r.payload_len r.checksum
          r.payload_len (take r.payload_len r.payload) rest)
      ∙ from_be-to_be 8 r.lsn w.lsn

  tick_read : from_be (slice 8 8 buffer) ≡ r.tick
  tick_read =
      ap from_be (
        frame_tick r.lsn r.tick r.account_id r.entity_id r.opcode r.payload_len r.checksum
          r.payload_len (take r.payload_len r.payload) rest)
      ∙ from_be-to_be 8 r.tick w.tick

  account_read : from_be (slice 16 8 buffer) ≡ r.account_id
  account_read =
      ap from_be (
        frame_account r.lsn r.tick r.account_id r.entity_id r.opcode r.payload_len r.checksum
          r.payload_len (take r.payload_len r.payload) rest)
      ∙ from_be-to_be 8 r.account_id w.account_id

  entity_read : from_be (slice 24 4 buffer) ≡ r.entity_id
  entity_read =
      ap from_be (
        frame_entity r.lsn r.tick r.account_id r.entity_id r.opcode r.payload_len r.checksum
          r.payload_len (take r.payload_len r.payload) rest)
      ∙ from_be-to_be 4 r.entity_id w.entity_id

  opcode_read : byte_at 28 buffer ≡ r.opcode
  opcode_read =
      ap from_be (
        frame_opcode r.lsn r.tick r.account_id r.entity_id r.opcode r.payload_len r.checksum
          r.payload_len (take r.payload_len r.payload) rest)
      ∙ from_be-byte r.opcode

  payload_len_read : byte_at 29 buffer ≡ r.payload_len
  payload_len_read =
      ap from_be (
        frame_payload_len r.lsn r.tick r.account_id r.entity_id r.opcode r.payload_len r.checksum
          r.payload_len (take r.payload_len r.payload) rest)
      ∙ from_be-byte r.payload_len

  checksum_read : from_be (slice (30 + r.payload_len) 4 buffer) ≡ r.checksum
  checksum_read =
      ap from_be (
        frame_checksum r.lsn r.tick r.account_id r.entity_id r.opcode r.payload_len r.checksum
          r.payload_len (take r.payload_len r.payload) rest payload_size)
      ∙ from_be-to_be 4 r.checksum w.checksum

  parsed_frame : parsed (record_bytes r ++ rest) ≡ r
  unfolding parsed
  parsed_frame = rw (bytes_frame r rest w.payload_len) (
      rw
        (
          payload_len_read, lsn_read, tick_read, account_read, entity_read, opcode_read,
          payload_read, checksum_read,
        )
        refl)

length_bytes : (r : WalRecord) → IsWellFormed r → length (record_bytes r) ≡ 34 + r.payload_len
unfolding record_bytes header_bytes
length_bytes r w =
    simp (length-append, length-to_be)
      (omega (arith, length-take (min r.payload_len 128) r.payload, w.sized, w.payload_len))

-- What a decoded record has been checked for.
pub record Checked (buf : List ℕ) (r : WalRecord) (n : ℕ) : Type 0 where
  pub read : parsed buf ≡ r
  pub payload_len : r.payload_len ≤ 128
  pub size : 34 + r.payload_len ≡ n
  pub room : n ≤ length buf
  pub checksum : compute_checksum r ≡ r.checksum

-- A buffer decodes to a record and a number of bytes if and only if the record is the one that its
-- bytes spell, the payload length is at most 128, the number is 34 more than it and within the buffer,
-- and the checksum is that of the record.
pub decode_iff : (buf : List ℕ) (r : WalRecord) (n : ℕ) → (decode buf ≡ ok (r, n)) ↔ Checked buf r n
unfolding decode
decode_iff buf r n = (
  λ h. record {
    read = ground arith;
    payload_len = ground arith;
    size = ground arith;
    room = ground arith;
    checksum = ground arith;
  },
  λ c. rw c.read (ground (arith, c.payload_len, c.size, c.room, c.checksum)),
)

-- Encoding a well-formed record into a buffer that has the room writes its 34 bytes of header and
-- trailer and its payload, keeps the length of the buffer, and the buffer decodes to the same record
-- and number of bytes, whatever follows.
pub decode-encode :
    (r : WalRecord) (out : List ℕ)
    → IsWellFormed r
    → 34 + r.payload_len ≤ length out
    → (out' : List ℕ) × (encode r out ≡ ok (out', 34 + r.payload_len))
      × (length out' ≡ length out)
      × (decode out' ≡ ok (r, 34 + r.payload_len))
unfolding encode
decode-encode r out w room = (
  record_bytes r ++ drop (34 + r.payload_len) out,
  ground (arith, w.payload_len),
  omega (
    arith,
    length-append (record_bytes r) (drop (34 + r.payload_len) out),
    length_bytes r w,
    length-drop (34 + r.payload_len) out,
  ),
  (decode_iff _ r _).1 (record {
    read = parsed_frame r (drop (34 + r.payload_len) out) w;
    payload_len = w.payload_len;
    size = refl;
    room =
        omega
          (arith, length-append (record_bytes r) (drop (34 + r.payload_len) out), length_bytes r w);
    checksum = sym w.checked;
  }),
)
