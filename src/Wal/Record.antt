-- ===== src/Wal/Record.antt =====
-- `WalRecord` of crates/eidolon-world/src/wal.rs and its bytes, with `compute_adler32` of
-- crates/eidolon-world/src/hibernation.rs. A byte buffer is the list of its bytes; copies into
-- adjacent ranges of a buffer are one write of their concatenation.
use Prim.Native.Nat.{bit_xor}
use eidolon.Base.{
  ℕ, ◌+◌, ◌-◌, ◌*◌, ◌%◌, ◌^◌, min, not, List, [], ◌∷◌, ◌++◌, Result, ok, err, ltb, ◌==◌,
  if◌then◌else◌, length, take, drop, replicate, to_be, from_be,
}
use eidolon.Error.{WorldError, wal_corrupted_record, wal_checksum_mismatch}

abbrev pub max_wal_payload_len : ℕ
max_wal_payload_len = 128

abbrev pub wal_header_len : ℕ
wal_header_len = 30

pub record WalRecord : Type 0 where
  pub lsn : ℕ
  pub tick : ℕ
  pub account_id : ℕ
  pub entity_id : ℕ
  pub opcode : ℕ
  pub payload_len : ℕ
  pub payload : List ℕ
  pub checksum : ℕ

-- `WalRecord::default`
pub empty_record : WalRecord
empty_record = record {
  lsn = 0;
  tick = 0;
  account_id = 0;
  entity_id = 0;
  opcode = 0;
  payload_len = 0;
  payload = replicate max_wal_payload_len 0;
  checksum = 0;
}

-- The loop of `compute_adler32` over the sums `a` and `b`.
unfoldable pub adler_loop : ℕ → ℕ → List ℕ → ℕ
adler_loop a b [] = b * 2 ^ 16 + a
adler_loop a b (byte ∷ bytes) =
    let a' = (a + byte) % 65521 in adler_loop a' ((b + a') % 65521) bytes

unfoldable pub compute_adler32 : List ℕ → ℕ
compute_adler32 = adler_loop 1 0

-- The header bytes, which the checksum and the encoding both write.
unfoldable pub header_bytes : WalRecord → List ℕ
header_bytes r =
    to_be 8 r.lsn
    ++ to_be 8 r.tick
    ++ to_be 8 r.account_id
    ++ to_be 4 r.entity_id
    ++ (r.opcode ∷ r.payload_len ∷ [])

unfoldable pub compute_checksum : WalRecord → ℕ
compute_checksum r =
    let len = min r.payload_len max_wal_payload_len in
    bit_xor (compute_adler32 (header_bytes r)) (compute_adler32 (take len r.payload))

-- `WalRecord::new`
unfoldable pub new_record : ℕ → ℕ → ℕ → ℕ → ℕ → List ℕ → Result WorldError WalRecord
new_record lsn tick account_id entity_id opcode payload_data =
    let bare : WalRecord = record {
      lsn = lsn;
      tick = tick;
      account_id = account_id;
      entity_id = entity_id;
      opcode = opcode;
      payload_len = length payload_data % 2 ^ 8;
      payload = payload_data ++ replicate (max_wal_payload_len - length payload_data) 0;
      checksum = 0;
    } in
    if ltb max_wal_payload_len (length payload_data)
    then err (wal_corrupted_record "Payload exceeds maximum 128 bytes limit")
    else ok (record bare { checksum = compute_checksum bare })

-- What `encode` writes.
unfoldable pub record_bytes : WalRecord → List ℕ
record_bytes r =
    header_bytes r ++ take (min r.payload_len max_wal_payload_len) r.payload ++ to_be 4 r.checksum

-- `encode`: the buffer afterwards, and the number of bytes written.
unfoldable pub encode : WalRecord → List ℕ → Result WorldError (List ℕ × ℕ)
encode r out =
    let total_len = wal_header_len + min r.payload_len max_wal_payload_len + 4 in
    if ltb (length out) total_len
    then err (wal_corrupted_record "Destination buffer too small")
    else ok (record_bytes r ++ drop total_len out, total_len)

-- `buf[from..from + n]`
abbrev pub slice : ℕ → ℕ → List ℕ → List ℕ
slice from n buf = take n (drop from buf)

-- `buf[i]`, as the number of a slice of one byte.
abbrev pub byte_at : ℕ → List ℕ → ℕ
byte_at i buf = from_be (slice i 1 buf)

-- The record that `decode` reads, checksum included.
unfoldable pub parsed : List ℕ → WalRecord
parsed buf =
    let p_len = byte_at 29 buf in
    record {
      lsn = from_be (slice 0 8 buf);
      tick = from_be (slice 8 8 buf);
      account_id = from_be (slice 16 8 buf);
      entity_id = from_be (slice 24 4 buf);
      opcode = byte_at 28 buf;
      payload_len = p_len;
      payload = slice wal_header_len p_len buf ++ replicate (max_wal_payload_len - p_len) 0;
      checksum = from_be (slice (wal_header_len + p_len) 4 buf);
    }

unfoldable pub decode : List ℕ → Result WorldError (WalRecord × ℕ)
decode buf =
    let r = parsed buf in
    let total_len = wal_header_len + r.payload_len + 4 in
    if ltb (length buf) (wal_header_len + 4)
    then err (wal_corrupted_record "Buffer truncated before header")
    else if ltb max_wal_payload_len r.payload_len
    then err (wal_corrupted_record "Payload length header invalid")
    else if ltb (length buf) total_len
    then err (wal_corrupted_record "Buffer truncated before trailer")
    else if not (compute_checksum r == r.checksum)
    then err (wal_checksum_mismatch r.checksum (compute_checksum r))
    else ok (r, total_len)
