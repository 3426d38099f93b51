-- ===== src/Error.antt =====
-- crates/eidolon-world/src/error.rs: the errors of the world crate. A zone and an instance are their
-- identifiers, a message is its text, and an i32 is its bit pattern.
use eidolon.Base.{ℕ}
use Prim.Native.String.{String}

pub data WorldError : Type 0 where
  zone_not_found entity_not_found entity_already_exists zone_full instance_not_found :
      ℕ → WorldError
  instance_pool_exhausted : WorldError
  invalid_instance_state : String → String → WorldError
  snapshot_corrupted : WorldError
  invalid_snapshot : String → WorldError
  party_full : WorldError
  partition_severed : ℕ → ℕ → WorldError
  boundary_entity_frozen : ℕ → WorldError
  lease_expired : ℕ → ℕ → WorldError
  wal_buffer_full wal_storage_unavailable : WorldError
  wal_corrupted_record : String → WorldError
  -- expected, actual
  wal_checksum_mismatch : ℕ → ℕ → WorldError
  -- current, incoming
  wal_lsn_regression : ℕ → ℕ → WorldError
  transaction_aborted : String → WorldError
  -- required, actual
  insufficient_balance : ℕ → ℕ → WorldError
  item_not_found duplicate_transaction : ℕ → WorldError
  -- expected, actual
  stale_session_mutation : ℕ → ℕ → WorldError
  reconstruction_failed : String → WorldError
  -- required, actual
  quorum_failed : ℕ → ℕ → WorldError
  structure_not_found piece_not_found : ℕ → WorldError
  structurally_unsound : WorldError
  interior_cell_not_found : ℕ → WorldError
  interior_cell_full : WorldError
  shard_not_found : ℕ → WorldError
  terrain_tile_not_found : ℕ → ℕ → WorldError
  pre_auth_expired pre_auth_invalid chunk_capacity_exceeded : WorldError
