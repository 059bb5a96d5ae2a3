-- ===== src/Lib.antt =====
-- A verification library for the key-value stores of the repository: the stores that wrap one another, and
-- what they share.
--
-- Parts and files
--   Prelude (with Tests, Lists, Errors): Boolean tests, lists and options over the native numbers, faults, and
--     results that may be a panic.
--   Method: methods that change an object and may panic.
--   Bytes, Bytes.Order: byte slices, `bytes.Compare`, and the order of keys in each direction. A slice that the
--     code compares with nil is an option, with `none` for nil.
--   Sorted, Iterator, SyncMap: lists sorted by key, what an iterator visits, and `sync.Map`.
--   Types.Validity: types/validity.go, AssertValidKey and AssertValidValue.
--   Types.KvStore: types/store.go, the interface BasicKVStore with its laws as a record. A wrapping store takes
--     such a record for its parent, and cachekv also fills one itself.
--   Types.Utils: types/utils.go, the ends of prefix ranges and big-endian numbers.
--   Types.Gas: types/gas.go. Basic is basicGasMeter, Infinite is infiniteGasMeter; a method is a function that
--     gives a result or a panic, and the meter as it was left.
--   CacheKv.BTree, CacheKv.MemIterator, CacheKv.Merge: cachekv/internal/btree.go, memiterator.go and
--     mergeiterator.go, each operation by its source's name.
--   CacheKv.Store: cachekv/store.go, with its two caches, its parent, and Write. Store.View has the abstract
--     content, Store.Flush is about Write, Store.Dirty and Store.Iterate about iteration, and Store.Nested
--     about a store on another one.
--   GasKv: gaskv/store.go over any meter and any parent.
--   Prefix: prefix/store.go over any parent.
--   MultiVersion.ValueItem, MultiVersion.ListItem: multiversion/data_structures.go (the items) and
--     multiversion/data_list.go.
--   MultiVersion.TreeItem: multiVersionItem of multiversion/data_structures.go. TreeItem.Agreement compares it with
--     the list item.
--   MultiVersion.ShardedMap, MultiVersion.ListStore: multiversion/list_store.go. ListStore.View and
--     ListStore.Writesets are about the versions that the operations change, ListStore.Readsets about the
--     validation of read sets, ListStore.Instance makes the store a value of the interface.
--   MultiVersion.Store: Store of multiversion/store.go, over any kind of items. Store.Commit is about what reaches
--     the parent.
--   MultiVersion.Tracker: the iteration tracker of multiversion/mvkv.go and multiversion/trackediterator.go.
--   MultiVersion.MergeIterator: multiversion/mergeiterator.go, over any reader of values and handler of reads.
--     MergeIterator.Simulation compares its loops with those of cachekv's, MergeIterator.Iterate is about a whole
--     iteration, MergeIterator.Validation has validationIterator of multiversion/memiterator.go, and
--     MergeIterator.Check the loop of validateIterator of multiversion/list_store.go, MergeIterator.Verdict is about
--     its answer.
--   MultiVersion.Interface: MultiVersionStore of multiversion/store.go as a record of operations and what a
--     transaction relies on; types/occ/types.go.
--   MultiVersion.MvKv: VersionIndexedStore of multiversion/mvkv.go, over any parent and any multiversion store.
--     MvKv.View is about what a transaction sees, MvKv.Blocked about estimates, MvKv.Current about its reads,
--     MvKv.Verdict about ValidateReadset, and MvKv.Validation compares that with the validation by the list store.
--   Pruning.Options, Pruning.Manager: pruning/types/options.go and pruning/manager.go. An int64 is its 64 bits as
--     a number. Pruning.Heights is about GetPruningHeight, Pruning.Recovery about what is written and loaded, and
--     Pruning.Snapshots about which snapshot heights are dropped.
--   InterBlock: cache/cache.go and cache/big_cache.go, over any parent and any ARC cache. InterBlock.Coherence is about
--     what calls return, InterBlock.Caches about the manager's stores.
--   Snapshots.Chunk: snapshots/chunk.go. Chunk.Writes and Chunk.Reads are about the two ends, Chunk.Stream about what
--     goes from one to the other, Chunk.Sizes about the lengths of the chunks.
--   Snapshots.Manager: snapshots/manager.go, the operations and the restoration. Manager.Steps has the steps of
--     several goroutines, Manager.Chunks and Manager.Exclusive are about what they exclude, Manager.Restoring a restoration from Restore to its last chunk. A send on a full channel, or
--     a wait for a report that never comes, is the fault `blocked`. Of
--     snapshots/store.go the manager has an interface.
--   Snapshots.Extensions: the extensions of snapshots/manager.go, and the loop of doRestoreSnapshot that gives them
--     the rest of the stream. It runs on fuel, a round for each item that a loop comes to.
--   Snapshots.Keys: the keys of snapshots/store.go.
--   Tree: internal/tree/hash.go. Tree.Split is about the split of a row, Tree.Merkle about the hash.
--   Tests: concrete values of the interfaces and the theorems on concrete inputs.
--
-- External code
--   The tree of github.com/tidwall/btree is a record of operations and laws (CacheKv.BTree.BTreeG), and so are
--   dbm.IsKeyInDomain (Types.KvStore.KeyDomain), the tree of github.com/google/btree
--   (MultiVersion.TreeItem.VersionTree) and the database of the pruning manager, a dbm.DB (Pruning.Manager.Db);
--   the ARC cache of github.com/hashicorp/golang-lru is one too (InterBlock.ArcCache), and SHA-256 is a function;
--   the modules under Tests have a concrete value of each. The checksum of the sharded map is a function of the
--   key; whether the environment has `versionList` is a Boolean. `sync.Map` is an association list; Range visits
--   it in the order of the list, which the theorems do not depend on.
--
-- Bounds and fuel
--   Write of a chunk writer runs on the number of bytes, since a round takes one at least; a reader is read a
--   byte per read and once more; the Merkle hash recurs on the number of items, since each part is shorter.
--   The loops of the merged iterators run on the entries that are left, since each round takes one off.
--   Lengths are below 2 ^ 63, chunk sizes below 2 ^ 64, and the counts of chunks below 2 ^ 32.
--   Keys and values have the length limits of types/validity.go. Sums of gas are numbers below 2 ^ 64 with the
--   wrap-around written out. The loop that skips deleted entries of the cache runs on the length of the cache
--   iterator and one more, since each round takes one entry off it. The visits of an iterator run on the
--   number of its entries; the theorems show that this is enough for the result to be there.
--
-- Not modelled
--   Locks and goroutines: each method is one step. Tracing, telemetry, streaming and protobuf code are I/O or
--   generated. rootmulti, iavl, snapshots/store.go but its keys, the snapshot streams, createSnapshot,
--   the iterator of mvkv, what leads to the loop
--   of validateIterator, the read set
--   validation of multiversion/store.go, WriteLatestToStore of the list store, cachemulti,
--   listenkv, tracekv, the Merkle maps and the proofs are not modelled. Iterators are the rows of entries that they
--   visit; Close and Domain are left out.
pub mod Prelude
pub mod Method
pub mod Bytes
pub mod Sorted
pub mod Iterator
pub mod SyncMap
pub mod Types
pub mod CacheKv
pub mod GasKv
pub mod InterBlock
pub mod Prefix
pub mod MultiVersion
pub mod Pruning
pub mod Snapshots
pub mod Tree
pub mod Tests
