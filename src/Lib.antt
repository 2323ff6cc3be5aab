-- ===== src/Lib.antt =====
-- Pebbis: a Redis server whose data lives in a Pebble database. This library models the parts that
-- carry its state and its formats, and proves what makes them correct.
--
-- The program. Commands (cmd_*.go, dispatch.go) work on a store (store.go, data.go, aggregate.go). The
-- store keeps an index in memory (memory/), which knows every key with its type, expiry, access history,
-- size and perhaps its value, and an engine on disk (storage/), which holds the values under byte keys
-- and iterates them in the order of `bytes.Compare`. Expiry (memory/expire.go) scans the expiry keys of
-- the engine in that order and deletes what is due from both; eviction (memory/evict.go) samples the
-- index. Counters are increments that the engine folds by a merge operator (storage/merge.go). KEYS,
-- SCAN and PSUBSCRIBE filter by patterns (glob/). The server locks the keys that a command names
-- (keys.go) before it runs it, unless the connection has to authenticate first or queues it for EXEC
-- (server.go, txn.go). Streams (stream.go) have no entry in the index: their entries, groups and pending
-- lists are keys of the engine alone.
--
-- The modules.
-- - Prelude: tests, lists, signed 64-bit integers, bits, byte strings and Go maps.
-- - Storage.Codec: storage/codec.go, function by function (AppendDataKey is append_data_key). Words has
--   the order-preserving words as arithmetic, RoundTrip what is read back, Order the order of keys.
-- - Storage.Object: storage/object.go, headers and inline forms. Inline and its children have the round
--   trips, Total the end of the decoders. Storage.ElemKey: the element keys of the same file.
-- - Storage.Prefix: prefixEnd of data.go. Storage.Merge: storage/merge.go, with Sum on
--   integer increments.
-- - Memory.Clock, Memory.Entry: memory/clock.go and memory/entry.go.
-- - Memory.Shards: dbShards of memory/dict.go with its list of shards that hold keys. Memory.Db: the
--   operations of memory/dict.go on one database (Set is set_key, SetExpiry is set_expiry_of). Shape has
--   the invariant and the map that the shards stand for, Replace the one lemma that all operations come
--   down to, Writes, Removes, Updates and Renames the operations. Memory.Dict: all databases.
-- - Memory.Expire: memory/expire.go. Memory.Evict: memory/evict.go and the policies of config/config.go.
-- - Engine: the scans of storage/pebble.go over a record Pebble, which holds the calls of the pebble
--   library with what its documentation says of them. Engine.Sorted has an ordered list that keeps those
--   laws, and what an order of keys gives; Engine.Scans what a scan collects.
-- - Stream: IDs, their text, bounds (parseStreamBound of cmd_stream.go) and keys of stream.go;
--   Stream.Fields the value of an entry. Stream.Log: the operations on entries (xAdd is x_add). Its View
--   is the list of entries that the engine holds under the prefix of a stream, and Choice, Append, Add,
--   Range, Trim, Deletes and Apart say what the operations do to it. Stream.Groups: consumer groups and
--   their pending entries. Stream.Requests and Stream.Commands: cmd_stream.go, the arguments of XADD and
--   the commands, with Consumers for those on groups; Capped is about XADD with MAXLEN, Numbers about
--   the integers that these commands read.
-- - Txn: txn.go, and handle of server.go with its connState. The other commands are a table, the
--   parameter `commands`, and the index is a record Keyspace, of which Lookup and the test for
--   memory are known. Txn has the commands on a connection alone, Txn.Exec those on the index and
--   the dispatch. Watch and Check are about WATCH and EXEC, Runs says what EXEC runs, and States,
--   Reach and Traces are about the states that a sequence of commands reaches.
-- - Config: config/config.go. Valid says what Validate accepts.
-- - Keys: keys.go. Locks says which arguments the keys are.
-- - Glob: glob/glob.go. Spec says what a pattern means, Match that the matcher finds it.
-- Each of Storage, Memory, Stream, Txn, Config, Glob and Keys has a module Tests with runs on
-- concrete inputs.
--
-- The representation. A byte is a natural number, and a string of them a list. An unsigned integer
-- of w bits is a natural number with `% 2 ^ w` where the source wraps; an `int64` is an integer,
-- with its two's complement pattern where the source converts it; a `float64` is its bit pattern. A
-- Go map is a list of entries with different keys, and an iteration over one follows the list, so
-- what holds of every list holds of every order. An out of range access, a panic, is `none`, and
-- `crashed` in Storage.Object. State is passed on, and an operation under its locks is one step.
-- The hash of a key, the wall clock, random draws, `big.Float` and the engine are parameters; in
-- Memory.Expire the engine is the list of its expiry keys.
--
-- Bounds and fuel. The decoders of Storage.Object loop on fuel, and take the number of bytes, which
-- is enough since each round takes one at least; to run out would be `stuck`, which they never are.
-- All else is structural; a number is written with fuel 20, since a `uint64` has at most 20 digits;
-- the rounds of eviction are 64, as in the source, and the pattern matcher has the source's bound
-- of 100 stars.
--
-- Not modelled: the pebble library, locks and goroutines with their interleavings, errors of the
-- engine other than those of `Apply` in the expiry cycle, the reads XREAD and XREADGROUP and XINFO,
-- the commands other than those of cmd_stream.go and txn.go, the data layer above the index
-- (data.go, aggregate.go), statistics, the slow log and the recovery from panics in server.go,
-- blocking commands, connections and the bytes of replies: the first are another project's or carry
-- no state of their own, and the rest stands on the parts modelled here.
pub mod Prelude
pub mod Storage
pub mod Memory
pub mod Glob
pub mod Keys
pub mod Engine
pub mod Stream
pub mod Txn
pub mod Config
