-- ===== src/Wal/Storage.antt =====
-- `MockDurableStorage` of crates/eidolon-world/src/wal.rs, a sink that keeps its records in memory. Its
-- shared cells are the fields of its state.
use eidolon.Base.{refl, Bool, true, false, List, [], ◌++◌, Result, ok, err, arith}
use eidolon.Error.{WorldError, wal_storage_unavailable}
use eidolon.Wal.Record.{WalRecord}
use eidolon.Wal.Journal.{DurableWalSink}
use eidolon.Wal.Pipeline.{LogLaws}

pub record MockDurableStorage : Type 0 where
  pub records : List WalRecord
  pub is_available : Bool

unfoldable pub new_storage : MockDurableStorage
new_storage = record { records = []; is_available = true }

unfoldable pub set_available : MockDurableStorage → Bool → MockDurableStorage
set_available s available = record s { is_available = available }

unfoldable pub write_batch :
    MockDurableStorage → List WalRecord → MockDurableStorage × Result WorldError (Unit {0})
write_batch s rs = elim s.is_available [
  | false ↦ (s, err wal_storage_unavailable)
  | true ↦ (record s { records = s.records ++ rs }, ok tt)
]

unfoldable pub flush : MockDurableStorage → MockDurableStorage × Result WorldError (Unit {0})
flush s = (s, elim s.is_available [ false ↦ err wal_storage_unavailable | true ↦ ok tt ])

abbrev pub storage : DurableWalSink MockDurableStorage
storage = record { write_batch = write_batch; flush = flush }

abbrev pub stored : MockDurableStorage → List WalRecord
stored s = s.records

pub storage-LogLaws : LogLaws storage stored
unfolding write_batch flush
storage-LogLaws = record {
  accepted = λ s batch h. ground arith;
  refused = λ s batch e h. ground arith;
  synced = λ s. refl;
}
