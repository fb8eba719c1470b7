-- ===== src/ReadAhead.antt =====
-- main.go: ReadAheadCache, the chunks of the files that are being read.
--
-- A key "path:index" is the pair of the two: an index has digits only. The buffers of a shard are an
-- association list. The pool of recycled buffers is left out: what is taken from it is overwritten in
-- full. Bytes are numbers. Reads have `end` not below `off`.
pub mod Bytes
pub mod Store
pub mod Evict
pub mod Cache
pub mod Kept
pub mod Cover
pub mod Order
pub mod Newest
pub mod Ordered
pub mod Shards
pub mod Recent
pub mod Limits
pub mod Accounts
pub mod Totals
pub mod Content
pub mod Honest
pub mod Reads
mod Tests
use text.Mathlib.Text.{◌==◌ as str_eq, starts_with}
use Prim.Native.String.{String, ◌++◌ as append}
use gostream.Prelude.{
  ℕ, ◌+◌, ◌-◌, ◌/◌, ◌==◌, ltb, leb, if◌then◌else◌, Bool, true, false, ◌&&◌, ◌||◌, List, [], ◌∷◌,
  Option, none, some, length, take, drop, replicate,
}
use gostream.Torrstor.Piece.{copied, copy_into}

-- What the code reads of the configuration. 0 stands for what is not set.
pub record Config : Type 0 where
  pub read_ahead_base : ℕ
  pub read_ahead_budget : ℕ

pub record ChunkKey : Type 0 where
  pub path : String
  pub index : ℕ

pub record RaBuffer : Type 0 where
  pub start : ℕ
  pub end : ℕ
  pub bytes : List ℕ
  pub last_access : ℕ
  pub session_id : ℕ
  pub responsive_only : Bool

pub record Shard : Type 0 where
  pub buffers : List (ChunkKey × RaBuffer)
  pub order : List ChunkKey
  pub total : ℕ

abbrev pub key_eq : ChunkKey → ChunkKey → Bool
key_eq a b = str_eq a.path b.path && a.index == b.index

abbrev pub chunk_size : Config → ℕ
chunk_size cfg = if cfg.read_ahead_base == 0 then 16_777_216 else cfg.read_ahead_base

abbrev pub ra_chunk_key : Config → String → ℕ → ChunkKey
ra_chunk_key cfg path offset = record { path = path; index = offset / chunk_size cfg }

-- `strings.HasPrefix(key, path+":")`
abbrev pub is_of : String → ChunkKey → Bool
is_of path k = str_eq k.path path || starts_with k.path (append path ":")

unfoldable pub find_buffer : ChunkKey → List (ChunkKey × RaBuffer) → Option RaBuffer
find_buffer k [] = none
find_buffer k ((j, b) ∷ bs) = if key_eq j k then some b else find_buffer k bs

-- The time of the last access, which is kept atomically.
unfoldable pub touch : ChunkKey → ℕ → List (ChunkKey × RaBuffer) → List (ChunkKey × RaBuffer)
touch k now [] = []
touch k now ((j, b) ∷ bs) =
    let rest = touch k now bs in
    if key_eq j k then (j, record b { last_access = now }) ∷ bs else (j, b) ∷ rest

-- What covers a read: nothing, the first chunk alone but not all, one chunk, or two that meet.
pub data Found : Type 0 where
  nothing : Found
  short : Found
  one : RaBuffer → Found
  two : RaBuffer → RaBuffer → Found

unfoldable pub locate_next :
    Config → List (ChunkKey × RaBuffer) → String → RaBuffer → ℕ → Option RaBuffer → Found
locate_next cfg bs p b end none = short
locate_next cfg bs p b end (some b2) =
    if b2.start == b.end + 1 && leb end b2.end then two b b2 else short

unfoldable pub locate_in :
    Config → List (ChunkKey × RaBuffer) → String → ℕ → ℕ → Option RaBuffer → Found
unfolding locate_next
locate_in cfg bs p off end none = nothing
locate_in cfg bs p off end (some b) =
    if leb b.start off && leb off b.end
    then (if leb end b.end
        then one b
        else locate_next cfg bs p b end (find_buffer (ra_chunk_key cfg p end) bs))
    else nothing

-- The tests that `Get` and `CopyTo` share.
unfoldable pub locate : Config → List (ChunkKey × RaBuffer) → String → ℕ → ℕ → Found
unfolding locate_in find_buffer
locate cfg bs p off end = locate_in cfg bs p off end (find_buffer (ra_chunk_key cfg p off) bs)

unfoldable pub touch_found :
    Config → String → ℕ → ℕ → ℕ → Found → List (ChunkKey × RaBuffer) → List (ChunkKey × RaBuffer)
unfolding touch
touch_found cfg p off end now nothing bs = bs
touch_found cfg p off end now short bs = touch (ra_chunk_key cfg p off) now bs
touch_found cfg p off end now (one b) bs = touch (ra_chunk_key cfg p off) now bs
touch_found cfg p off end now (two b b2) bs =
    touch (ra_chunk_key cfg p end) now (touch (ra_chunk_key cfg p off) now bs)

-- `data[lo:hi]`; none is its panic.
abbrev pub slice : List ℕ → ℕ → ℕ → Option (List ℕ)
slice bs lo hi =
    if leb lo hi && leb hi (length bs) then some (take (hi - lo) (drop lo bs)) else none

-- What a read answers. `nil` is a miss.
pub data Answer : Type 0 where
  miss : Answer
  hit : List ℕ → Answer
  panics : Answer

abbrev pub copy_one : Option (List ℕ) → Answer
copy_one none = panics
copy_one (some src) = hit src

-- The two parts, copied into `out` behind each other: what is there then, and how many bytes were copied.
abbrev pub stitch : List ℕ → List ℕ → List ℕ → List ℕ × ℕ
stitch out x y =
    let n1 = copied out 0 x in
    let out1 = copy_into out 0 x in (copy_into out1 n1 y, n1 + copied out1 n1 y)

abbrev pub copy_two : ℕ → Option (List ℕ) → Option (List ℕ) → Answer
copy_two n none y = panics
copy_two n (some x) none = panics
copy_two n (some x) (some y) = hit (stitch (replicate n 0) x y).0

unfoldable pub get_found : ℕ → ℕ → Found → Answer
unfolding copy_into
get_found off end nothing = miss
get_found off end short = miss
get_found off end (one b) = copy_one (slice b.bytes (off - b.start) (end - b.start + 1))
get_found off end (two b b2) =
    copy_two (end - off + 1) (slice b.bytes (off - b.start) (length b.bytes))
      (slice b2.bytes 0 (end - b2.start + 1))

unfoldable pub get : Config → Shard → String → ℕ → ℕ → ℕ → Shard × Answer
unfolding locate get_found touch_found
get cfg s p off end now =
    let f = locate cfg s.buffers p off end in
    (record s { buffers = touch_found cfg p off end now f s.buffers }, get_found off end f)

-- The destination after the call, and how many bytes were copied; none is a panic.
abbrev pub dest_one : List ℕ → Option (List ℕ) → Option (List ℕ × ℕ)
dest_one dest none = none
dest_one dest (some src) = some (copy_into dest 0 src, copied dest 0 src)

abbrev pub dest_two : List ℕ → Option (List ℕ) → Option (List ℕ) → Option (List ℕ × ℕ)
dest_two dest none y = none
dest_two dest (some x) none = none
dest_two dest (some x) (some y) = some (stitch dest x y)

unfoldable pub copy_found : ℕ → ℕ → List ℕ → Found → Option (List ℕ × ℕ)
unfolding copy_into
copy_found off end dest nothing = some (dest, 0)
copy_found off end dest short = some (dest, 0)
copy_found off end dest (one b) = dest_one dest (slice b.bytes (off - b.start) (end - b.start + 1))
copy_found off end dest (two b b2) =
    dest_two dest (slice b.bytes (off - b.start) (length b.bytes))
      (slice b2.bytes 0 (end - b2.start + 1))

unfoldable pub copy_to : Config → Shard → String → ℕ → ℕ → List ℕ → ℕ → Shard × Option (List ℕ × ℕ)
unfolding locate copy_found touch_found
copy_to cfg s p off end dest now =
    let f = locate cfg s.buffers p off end in
    (record s { buffers = touch_found cfg p off end now f s.buffers }, copy_found off end dest f)

abbrev pub is_found {ℓ} : {A : Type ℓ} → Option A → Bool
is_found none = false
is_found (some b) = true

unfoldable pub exists : Config → Shard → String → ℕ → Bool
unfolding find_buffer
exists cfg s p off = is_found (find_buffer (ra_chunk_key cfg p off) s.buffers)

unfoldable pub max_end : String → List (ChunkKey × RaBuffer) → ℕ → ℕ
max_end p [] m = m
max_end p ((k, b) ∷ bs) m = max_end p bs (if is_of p k && ltb m b.end then b.end else m)

unfoldable pub max_cached_offset : Shard → String → ℕ
unfolding max_end
max_cached_offset s p = max_end p s.buffers 0
