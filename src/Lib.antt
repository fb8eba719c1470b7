-- ===== src/Lib.antt =====
-- gostream: what its caches, locks and torrent storage do.
--
-- gostream serves torrents as the files of a FUSE filesystem. The file system (main.go) answers
-- reads from the torrent server under internal/gostorm, whose pieces live in a RAM cache, and keeps
-- the metadata of the files in caches of its own. Modelled are the parts whose state decides what is
-- served and what is forgotten:
--
-- * lrucache.go, the metadata cache: LruCache.antt is one shard (simpleLRUCache: get, put, delete,
--   clear, cleanup_expired, and in LruCache/Run any history of them), LruCache/Shards the sharded
--   cache (LRUCache). FNV-1a is a parameter. A list element is a pointer in Go, here an id.
-- * locks.go, the locks that keep two requests from fetching the metadata of one file: Locks.antt is
--   the manager and a step relation for any number of goroutines in Lock, TryLock and the returned
--   functions.
-- * ratelimit.go, the token bucket before the torrent server: RateLimiter.antt has each channel
--   operation of a reset as a step among the callers of Acquire.
-- * internal/gostorm/torr/storage/torrstor, the cache of a torrent: Ranges.antt is ranges.go
--   (inRanges, mergeRange); Torrstor/Piece is mempiece.go with the buffer part of piece.go;
--   Torrstor/Reader is reader.go but for Close; Torrstor/Protect, Priority, Cache and Clean are
--   cache.go: the bitmap and isIdInFileBE, the requested pieces, the state with setLoadPriority,
--   refreshPriorities and clearPriority, and cleanPieces with getRemPieces; Torrstor/Readers is the
--   coming and going of readers, their calls and the closing of the cache, each call as one step;
--   Torrstor/Shield is the adaptive shield of piece.go, with each operation on its atomics as a step
--   of one of any number of goroutines.
-- * main.go, its ReadAheadCache of chunks of the files that are being read: ReadAhead.antt has the
--   reads (Get, CopyTo, Exists, MaxCachedOffset), ReadAhead/Store the part of Put under the lock of a
--   shard, ReadAhead/Evict EvictPath and triggerGlobalEviction on one shard, and ReadAhead/Cache the
--   calls on all 32 shards with any sequence of them. xxHash is a parameter, and so is, for each call,
--   which shards are busy.
-- * internal/gostorm/torrshash, the tokens that carry a torrent's hash, titles and trackers:
--   TorrsHash/Base62 is base62.go, TorrsHash/Fields fields.go, TorrsHash/Pack pack.go with the
--   accessors of torrshash.go. zlib is a parameter.
-- * synccache.go, what the synchronization has learnt about torrents: SyncCache.antt has the caches in
--   memory (SyncCacheManager) with every operation, and what is saved of them.
-- * scandetector.go, what tells a library scan from playback: ScanDetector.antt is the detector,
--   ScanDetector/Gate the gate before the first reads, which asks the ReadAheadCache.
-- * disk_warmup.go, the heads and tails of files on the disk: DiskWarmup/Disk is the directory and the
--   tables by path, DiskWarmup.antt the handles and the quota (enforceQuotaLocked),
--   DiskWarmup/HeadFile the writes and reads of heads (processWrite, GetAvailableRange, ReadAt),
--   DiskWarmup/Tail those of tails
--   and RemoveHash, DiskWarmup/Queue the channel of chunks, and DiskWarmup/Calls any sequence of
--   calls. DiskWarmup/Moves are the changes that all of them are made of. What the disk takes is an
--   argument.
-- * inodemap.go, which inode a file or directory is shown with: InodeMap.antt has the maps in memory
--   with all operations on them; InodeMap/Exact any sequence of calls.
-- * internal/syncer/scheduler, when the synchronization runs: Scheduler.antt is the clock side of
--   scheduler.go (shouldRun, nextRunTime, updateNextRuns, tick), Scheduler/Runs a step relation for
--   the goroutines of one job (TriggerRun, runJob, StopJob).
-- * internal/syncer/quality, which torrents are wanted. Streaming.antt is streaming_policy.go, which
--   decides what torrent may be streamed (rank_streaming_candidate) and orders the offers
--   (better_than, rank_streaming_candidates); Quality.antt is types.go, Quality/Resolver the merge
--   of a named profile with overrides in resolver.go.
--
-- Readers call pieces_range, the cleanup merges these ranges (Ranges), marks the pieces to keep
-- (Protect), asks for pieces (Priority) and releases the others (Piece). What the torrent library is
-- told of pieces is recorded as a list of requests, and the readers opened there are counted.
--
-- Conventions. int64 and int are natural numbers, but for the scores and weights, the numbers of
-- seeders and the sizes that torrshash writes, which are integers: sizes, offsets, counts and clock
-- readings of these parts are never negative, and stay far below 2^63. A clock reading is an
-- argument of the operation, one for each reading whose value can matter. A map of Go is a list or
-- a function; where Go visits a map in any order, the list is in any order. Floating-point results
-- (the shares of the cache in reader.go, four fifths of the connection limit) are parameters, and
-- so are the sizes in GB of the streaming policy, with their comparison and division: the theorems
-- that need it assume that the comparison is an order in which ties are equal, as that of float64
-- without NaN is. The regular expressions of streaming_policy.go and what it uses of the package
-- strings are parameters. The average of a window in scandetector.go is compared as a product. A
-- mutex that is held for a whole operation is left out: the operation is one step. sort.Slice is a
-- stable insertion sort (Prelude/Sort). Files on a disk are lists of bytes; each operation of
-- disk_warmup.go and inodemap.go is one step. Loops are structural recursion (next_from over the
-- eight rounds that nextRunTime has), but for five that count down a bound of their rounds: the
-- eviction of Put (make_room), with the number of entries, each round removing one; the binary
-- search of inRanges, with the number of ranges; the loop of setLoadPriority (load_loop), with the
-- number of pieces between the reader and the end of its range; the loop of Encode62 (encode_loop),
-- with two rounds for each byte; and that of unpack (read_fields), with the length of the stream,
-- of which each field takes a byte at least. Library routines that are spelled out count down too:
-- TrimSpace the length of the text, the bytes of a big.Int the characters it was read from, since a
-- character is less than a byte, and FormatInt 20 digits, which 64 bits do not exceed.
--
-- Not modelled: the FUSE and HTTP handlers, the SQL database, the JSON files of the scheduler and the
-- inode map, the sync engines, the catalogue
-- clients and internal/anacrolix-torrent-v1.55, which is a copy of another project.
pub mod Prelude
pub mod Ranges
pub mod LruCache
pub mod Torrstor
pub mod Locks
pub mod Streaming
pub mod Quality
pub mod RateLimiter
pub mod ReadAhead
pub mod TorrsHash
pub mod SyncCache
pub mod ScanDetector
pub mod DiskWarmup
pub mod Scheduler
pub mod InodeMap
