-- ===== src/Lib.antt =====
-- A verification library for eidolon, an authoritative game server engine in Rust.
--
-- The library models the part of the engine that keeps value safe: who may change an account, how
-- currency and items move, how a change reaches durable storage, and how a regional market matches
-- orders. The parts and how they interact:
--
-- * Lock (crates/eidolon-core/src/lock.rs): GenerationLockRegistry. A session must hold the lock of a
--   resource; a takeover by another session raises the generation, which fences the old token. Lock has
--   the definitions, Lock.Table and Lock.Slots the abstract table from keys to tokens, Lock.Registry the
--   registry as that table, Lock.Contract and Lock.Release the contracts of its two calls, Lock.Calls histories
--   of calls, Lock.Fencing and Lock.History what tokens promise.
-- * Item (crates/eidolon-core/src/item.rs): equipment slots and item blueprints.
-- * Account (AccountState in crates/eidolon-world/src/transaction.rs, EquipmentContainer in
--   crates/eidolon-world/src/equipment.rs): balances, inventory and gear of a player. Account.Stacks and
--   Account.Items count units of items.
-- * ItemGraph (crates/eidolon-core/src/item_graph.rs): ItemInstance and Container. Moves has the
--   operations that move items; Shape, Units, Stacks, History and RoundTrip have what they keep.
-- * ItemTransfer (crates/eidolon-world/src/item_transaction.rs): ItemTransactionCoordinator, which moves
--   items between the containers of ItemGraph. execute_transfer is cut into `prepare` (the checks of phase
--   1), commit_transfer in Commit (phase 2) and `conclude` (the unlock and the ring of processed ids);
--   Prepare, Take, Ends, Transfers, Atomic, Dedup and History have the proofs.
-- * Wal (crates/eidolon-world/src/wal.rs, compute_adler32 of crates/eidolon-world/src/hibernation.rs):
--   WalRecord and its bytes (Record, WellFormed, Codec, RoundTrip), WalRingBuffer as a bounded queue (Ring, Slots,
--   Queue), WriteAheadJournal over a sink (Journal, Lsns, Pipeline, Append, Flush, Fsync) and
--   MockDurableStorage with histories of outages (Storage, History).
-- * Transaction (crates/eidolon-world/src/transaction.rs): TransactionManager. It asks the lock registry,
--   changes accounts and appends to the journal. Items has the item operations, Execute the entry
--   points (execute_transaction is cut into `perform`, which is the match on the operation, and one
--   function per operation); Admission, Currency, ItemMoves, Backpressure, Logging and
--   Durability have the proofs.
-- * Market (crates/eidolon-core/src/market.rs): OrderBook of one commodity. Market and Market.Matching
--   have the definitions (place_order, cancel_order); Run is the matching loop as a relation, and the
--   other children prove what it keeps.
-- * Escrow (crates/eidolon-world/src/market_coordinator.rs): MarketEscrowCoordinator, which holds coins
--   and goods for the orders it submits to Market. Settle has settle_trade and submit_and_match; Slots,
--   History, Funds and Balance have the proofs.
-- * Channel (crates/eidolon-net/src/channel.rs and error.rs beside it): UnreliableSequencer, and
--   ReliableChannel in Reliable; Order and Delivery have the receiving side, Liveness the retransmissions, Acks
--   and Confirmed the acknowledgments.
-- * Bitstream (crates/eidolon-net/src/bitstream.rs): BitWriter, and BitReader in Reader; Bytes and Varint have
--   the variable-length integers, Moves the positions.
-- * Error (crates/eidolon-world/src/error.rs): WorldError. Base: lists, bytes, words and results.
--
-- How the code is modelled. State is a record that operations take and give back; `Result` is the type
-- of Base.Fallible, and an operation that can fail after it changed something gives back the state next
-- to the answer. Integers are natural numbers; where the source wraps or saturates, so does the model
-- (wrap_add64, sat_add64), and a saturating subtraction is `-`, which stops at 0. A sum that the source
-- leaves to the build mode wraps, as a release build does. Arrays are lists of fixed length, hash maps
-- are functions. The mutex of the ring buffer is one step per operation, without poisoning. The trait
-- DurableWalSink is a record of operations on a sink's state; what the journal relies on of a sink is
-- LogLaws, of which the mock storage is an instance, and DiskLaws says what a caller relies on of its flush.
--
-- Loops. The matching loop of place_order recurses on the free places of the output slice, as the loop
-- condition of the source bounds it. flush_loop has fuel one above the length of the queue: each turn
-- takes a record at least, so that the last turn sees an empty buffer. The chunks of write_bits and read_bits
-- have the number of bits as fuel, as each chunk takes one at least; write_varint has ten turns, the groups of
-- seven bits that a u64 can have. All other loops recurse on their list.
--
-- Not modelled: texts of errors for display, floating-point ratios (is_congested, utilization_ratio),
-- compute_stats, serialisation of snapshots, and everything outside the files above: networking,
-- simulation, spatial indices, the server's threads and the bindings.
pub mod Base
pub mod Error
pub mod Wal
pub mod Item
pub mod Escrow
pub mod Channel
pub mod ItemGraph
pub mod ItemTransfer
pub mod Account
pub mod Transaction
pub mod Lock
pub mod Market
pub mod Bitstream
