-- ===== src/Lib.antt =====
-- A model of dupion, which finds equal files and directories and deduplicates files on btrfs.
--
-- The program walks the given paths, keeps what it finds in a tree of entries, groups the entries
-- first by size and then by hash, reads ahead the files it has to hash, and at the end prints the
-- groups or hands them over for deduplication. The parts and their files:
--
--   FilePath      paths as the lists of components that `std::path` gives
--   Vfs           dupion/src/vfs/mod.rs, dupion/src/vfs/entry.rs: the tree, `cid`, `cid_and_create`
--   Opts          dupion/src/opts/mod.rs: the options
--   State         dupion/src/state/mod.rs, dupion/src/group/mod.rs and `impl State` of
--                 dupion/src/vfs/entry.rs: the tables by size and by hash, `validate`
--   Cache         dupion/src/vfs/deser.rs: the entries as they are stored and loaded
--   Dedup         dupion/src/dedup/mod.rs: from hash groups to groups to deduplicate
--   Dedup/Batch   dupion/src/dedup/btrfs.rs (`dedup_groups`), `CacheUsable` of dupion/src/util/mod.rs
--   Dedup/Submit  dupion/src/dedup/btrfs.rs (`dedup_group_batch`)
--   Samples       a file, options and a state for the examples
--   Driver        dupion/src/driver/platterwalker.rs: the size phase, which files the
--                 hash phase reads, and the hash of a file
--   Zip           dupion/src/zip/mod.rs: the members of an archive
--   Driver/Memory AllocMonBuf of dupion/src/util/mod.rs, and the jobs of the hash phase
--   Lock          ZeroLock and MutexedReader of dupion/src/util/mod.rs
--   Main          dupion/src/main.rs: the options, `dirty_load`, the report at the end
--   Output        dupion/src/output/groups.rs: the groups that are printed;
--                 dupion/src/output/tree.rs: the rows of a directory;
--                 dupion/src/output/treediff.rs: the marks of the tree difference
--   Process       dupion/src/process/mod.rs: directory hashes, shadowed members, `export`
--   Serialize     dupion/src/output/tree.rs, dupion/src/output/treediff.rs: what serde is given
--   Readahead     reapfrog/src/lib.rs, and the loop of `hash_files` of
--                 dupion/src/driver/platterwalker.rs over it
--
-- Base holds what they share: tests on numbers, lists, maps as association lists, the outcome of
-- code that may fail. A function that panics in the source is `err panic`, one that returns an
-- error is `err failed`. `u64` arithmetic wraps, as in a release build.
--
-- Bounds: the loop of `advance` leaves by its own test in round 513, so 514 rounds are enough;
-- `for_recursive2` goes down at most as deep as the table is long, since a child's index is larger
-- than its parent's, and so do the functions of Process, Output/TreeDiff and Serialize; the loops
-- of `dedup_groups` are given a weight of the two queues as their fuel. A loop that runs out of
-- rounds would be `err stuck`.
--
-- The system is a parameter: what `open`, `stat` and `read` answer, what libarchive gives of an
-- archive, the free memory, and what the call that deduplicates a range leaves; so are the base64
-- decoder and blake3. Theorems on the state take a function that gives the length of the content of
-- each hash: it stands for no two contents having one hash.
--
-- Threads are step relations: the handles of a lock, and the loop of the hash phase with its
-- jobs, in any order. The mutex of parking_lot is a parameter with the laws it documents; of rayon's
-- pool it is taken that a spawned job waits for a thread and keeps it to its end.
--
-- Not modelled: the lock around the state, the walk over the directories, the rest of the command line,
-- `pass_1_hash`, and the libraries under rust-btrfs and libarchive-rust. What is printed on the way
-- is left out (with `verbose`, and for errors but those of opening a file to deduplicate it).
pub mod Base
pub mod FilePath
pub mod Vfs
pub mod Opts
pub mod State
pub mod Cache
pub mod Dedup
pub mod Driver
pub mod Lock
pub mod Main
pub mod Output
pub mod Process
pub mod Readahead
pub mod Samples
pub mod Serialize
pub mod Zip
