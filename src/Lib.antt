-- ===== src/Lib.antt =====
-- A verification library of KiDB, a SQL cache over a Redis cluster (paths from the repository's root).
--
-- The program is a stateless SQL layer: `keycodec` lays out every key and its slot, `bucketmap`
-- routes index entries to buckets, `txguard` writes rows and their index entries, `controller`
-- splits and merges buckets, `sweeper` removes expired rows, `exec` answers queries.
--
-- Base: shared names; Base/Text is a Go string as the list of its bytes with the functions of
-- `strings`, Base/Number those of `strconv`, Base/Floats a float64 as an interface with the laws
-- of IEEE 754 that the theorems use.
-- Keycodec/Slot: keycodec/slot.go (`hashtag`, `Slot`, the loop of `init`, `SlotTag`);
-- Keycodec/Keys: the builders of keycodec/keycodec.go; Keycodec/Parse: its readers. A run-time
-- panic is a result of its own. Proofs: Slot/Tags, Slot/Fill, Colocation, Replica, RoundTrip,
-- Malformed, Escape.
-- Bucketmap: bucketmap/bucketmap.go (`WriteTargetsEq`, `ReadBucketsEq`, `WriteTargetsRange`,
-- `ReadBucketsRange`); Bucketmap/Store: the cached `Store` and script/lua/bucket_state_cas.lua,
-- with each reading of the clock and each reply of the server as an argument. Proofs: EqProtocol,
-- RangeRouting, Store/Staleness.
-- Rowcodec/Member: the index members of rowcodec/rowcodec.go and their reader in exec/prefix.go.
-- Controller/Redis: the commands of the server as an interface with the laws it documents;
-- Controller/Migrate: `migrateBatch` and the loop that `migrateEq`, `migrateEqTo`, `migrateRange`
-- and `migrateRangeTo` of controller/split.go share, each with its choice of targets in
-- Migrate/Moves. Controller/Simple is a server for the runs and witnesses.
-- Exec/Merge: the ordered merge of exec/topk.go over the priority queue of utils/pq.go, with the
-- replies to its page commands as a function; the queue is the list of its items in the order of
-- popping, not the array of container/heap. Proofs: MergeOrder, Order, Seeding, Popping, Refills,
-- BatchOrder.
-- Meta: index definitions and the checks of names in meta/types.go. Proofs: Names.
-- Txguard/Entries and Txguard/Ops: `buildIndexOps` of txguard/txguard.go with its helpers; the
-- fields of a row are a function. Proofs: Ops/Routing, Ops/Entered and Ops/Receipts (what a receipt
-- names), Ops/Undoing (two writes in a row), Ops/Covering.
-- Txguard/Keyspace: the commands that reservations use, as an interface with the laws that Redis
-- documents while nobody else writes; Txguard/Unique: `reserveUnique`, `verifyBucketExclusive`,
-- `retryReserve`, `releaseUnique`, `rollbackReservations`. Proofs: Unique/Release,
-- Unique/Exclusive, Unique/Reserve, Unique/Healing.
-- Txguard/Write: the keys and arguments that `writeAttempt` and `DeleteRow` send to
-- script/lua/write_row.lua, and the index commands behind it; Write/Script: that script, as a
-- function from its arguments and the server's replies to its calls and its answer, over Lua's
-- `tonumber` and `tostring`; Write/Protocol: what a write asks for. Proofs: Protocol/Reading,
-- Protocol/Commit. Write/Numbers is a Lua for the runs and witnesses.
-- Txguard/Row: `WriteRow`'s attempts and `writeAttempt`, over the server's commands as an interface;
-- the time of each attempt is an argument. Proofs: Row/Keeping.
-- Txguard/Delete: the checks of `WriteRow`, `DeleteRow`, `NextAutoID`. Proofs: Delete/FullLog.
-- Txguard/Samples holds rows, indexes and a server for the runs and witnesses.
-- Sweeper: the reading of receipts, the arguments of script/lua/sweep_batch.lua, that script, and
-- the commands for a dead row, of sweeper/sweeper.go; `mergeReceiptUndo` of txguard/txguard.go.
-- Sweeper/Hashes: what Redis documents of HSET and HGETALL, and Lua of `tostring`, as an interface.
-- Proofs: Lines, Merging, Batch, Swept.
-- Indexer: `ConsumeLog` of indexer/indexer.go, from an entry to its commands and dead letters, and
-- `ScoreOf` of rowcodec/rowcodec.go. Proofs: Unescape, ReadBack.
-- Kv/Retry: `ClassifyError` and `WithRetry` of kv/retry.go. Proofs: Attempts.
--
-- CRC16 (sigurn/crc16), xxhash (cespare/xxhash) and msgp (tinylib/msgp) are parameters. Fuel: the
-- loop of `init` has one more than a number of candidates that reach every slot, a migration one
-- more than the bucket has members, `WithRetry` four times the policy's attempts, the merge a
-- number of steps, `WriteRow` and `DeleteRow` the configured number of attempts. `format_uint`
-- divides at most `n` times. A bucket number is a natural number. The script's numbers are exact
-- below 2^53. Not modelled: query execution beyond the merge, the controller beyond the
-- migrations, the catalog, the SQL engine's adapters, the gateway, the Redis adapter, generated
-- msgp code.
pub mod Base
pub mod Meta
pub mod Keycodec
pub mod Bucketmap
pub mod Rowcodec
pub mod Exec
pub mod Kv
pub mod Controller
pub mod Txguard
pub mod Indexer
pub mod Sweeper
