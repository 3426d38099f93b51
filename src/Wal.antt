-- ===== src/Wal.antt =====
-- crates/eidolon-world/src/wal.rs: the write-ahead journal. Records and their bytes are in `Record` and
-- `Codec`, the bounded queue in `Ring` and `Queue`, the journal over a storage sink in `Journal`,
-- `Pipeline` and `Fsync`, the mock sink in `Storage`.
pub mod Record
pub mod Codec
pub mod WellFormed
pub mod RoundTrip
pub mod Ring
pub mod Slots
pub mod Queue
pub mod Journal
pub mod Lsns
pub mod Pipeline
pub mod Flush
pub mod Fsync
pub mod Append
pub mod Storage
pub mod History
mod Tests
