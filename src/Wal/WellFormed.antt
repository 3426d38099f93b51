-- ===== src/Wal/WellFormed.antt =====
-- What `WalRecord::new` of crates/eidolon-world/src/wal.rs makes.
use eidolon.Base.{
  ℕ, ◌+◌, ◌-◌, ◌^◌, ◌≤◌, ◌<◌, ◌≡◌, refl, sym, ap, min, List, [], ◌∷◌, ◌++◌, ok, arith, length, take,
  replicate, take-append, length-append, length-replicate, ◌%◌, bit_xor-u32,
}
use eidolon.Wal.Record.{
  WalRecord, header_bytes, adler_loop, compute_adler32, compute_checksum, new_record,
  max_wal_payload_len,
}

-- A record as `WalRecord::new` builds them: its numbers fit their widths, the payload stands at the start
-- of 128 bytes with zeros behind it, and the checksum is right.
pub record IsWellFormed (r : WalRecord) : Type 0 where
  pub lsn : r.lsn < 2 ^ 64
  pub tick : r.tick < 2 ^ 64
  pub account_id : r.account_id < 2 ^ 64
  pub entity_id : r.entity_id < 2 ^ 32
  pub payload_len : r.payload_len ≤ 128
  pub padded : r.payload ≡ take r.payload_len r.payload ++ replicate (128 - r.payload_len) 0
  pub sized : length r.payload ≡ 128
  pub checked : r.checksum ≡ compute_checksum r
  pub checksum : r.checksum < 2 ^ 32

adler_loop_small :
    (a b : ℕ) (data' : List ℕ) → a < 2 ^ 16 → b < 2 ^ 16 → adler_loop a b data' < 2 ^ 32
unfolding adler_loop
adler_loop_small a b [] h k = omega arith
adler_loop_small a b (x ∷ xs) h k =
    adler_loop_small ((a + x) % 65521) ((b + (a + x) % 65521) % 65521) xs (omega arith)
      (omega arith)

compute_checksum_small : (r : WalRecord) → compute_checksum r < 2 ^ 32
unfolding compute_checksum compute_adler32
compute_checksum_small r =
    bit_xor-u32 (compute_adler32 (header_bytes r))
      (compute_adler32 (take (min r.payload_len max_wal_payload_len) r.payload))
      (adler_loop_small 1 0 (header_bytes r) (omega arith) (omega arith))
      (adler_loop_small 1 0 (take (min r.payload_len max_wal_payload_len) r.payload) (omega arith)
        (omega arith))

-- A record made from a payload of at most 128 bytes, with numbers that fit their widths, is well
-- formed and has the payload as its first bytes.
pub new_record-IsWellFormed :
    (lsn tick account_id entity_id opcode : ℕ) (payload : List ℕ)
    → lsn < 2 ^ 64
    → tick < 2 ^ 64
    → account_id < 2 ^ 64
    → entity_id < 2 ^ 32
    → length payload ≤ 128
    → (r : WalRecord) × (new_record lsn tick account_id entity_id opcode payload ≡ ok r)
      × IsWellFormed r
      × (take r.payload_len r.payload ≡ payload)
      × (r.lsn ≡ lsn)
unfolding new_record compute_checksum header_bytes
new_record-IsWellFormed lsn tick account_id entity_id opcode payload hl ht ha he hp =
    let n : length payload % 2 ^ 8 ≡ length payload = omega arith in
    let bare : WalRecord = record {
      lsn = lsn;
      tick = tick;
      account_id = account_id;
      entity_id = entity_id;
      opcode = opcode;
      payload_len = length payload % 2 ^ 8;
      payload = payload ++ replicate (128 - length payload) 0;
      checksum = 0;
    } in
    let whole : take (length payload % 2 ^ 8) (payload ++ replicate (128 - length payload) 0)
        ≡ payload =
      take-append (length payload % 2 ^ 8) payload _ (sym n) in
    (
      record bare { checksum = compute_checksum bare },
      ground arith,
      record {
        lsn = hl;
        tick = ht;
        account_id = ha;
        entity_id = he;
        payload_len = omega arith;
        padded = rw whole (ap (λ m. payload ++ replicate (128 - m) 0) (sym n));
        sized = omega (
          arith,
          length-append payload (replicate (128 - length payload) 0),
          length-replicate {A = ℕ} (128 - length payload) 0,
        );
        checked = refl;
        checksum = compute_checksum_small bare;
      },
      whole,
      refl,
    )
