-- ===== src/ReadAhead/Evict.antt =====
-- main.go: `EvictPath` and `triggerGlobalEviction` on one shard.
use Prim.Native.String.{String}
use gostream.Prelude.{
  ℕ, ◌+◌, ◌-◌, ◌*◌, ◌==◌, leb, if◌then◌else◌, Bool, true, false, not, ◌&&◌, List, [], ◌∷◌, Option,
  none, some, length,
}
use gostream.ReadAhead.{ChunkKey, RaBuffer, is_of, find_buffer}
use gostream.ReadAhead.Store.{Held, size_of, drop_first, is_stored}

unfoldable pub kept_buffers : String → List (ChunkKey × RaBuffer) → List (ChunkKey × RaBuffer)
kept_buffers p [] = []
kept_buffers p ((k, b) ∷ bs) =
    let rest = kept_buffers p bs in if is_of p k then rest else (k, b) ∷ rest

unfoldable pub freed : String → List (ChunkKey × RaBuffer) → ℕ
freed p [] = 0
freed p ((k, b) ∷ bs) = (if is_of p k then size_of b else 0) + freed p bs

-- The keys that are not among the deleted ones.
unfoldable pub kept_order : String → List (ChunkKey × RaBuffer) → List ChunkKey → List ChunkKey
unfolding find_buffer
kept_order p bs [] = []
kept_order p bs (k ∷ ks) =
    let rest = kept_order p bs ks in
    if is_of p k && is_stored (find_buffer k bs) then rest else k ∷ rest

-- `EvictPath` on one shard.
unfoldable pub evict_path_shard : String → Held → Held
unfolding kept_buffers freed kept_order
evict_path_shard p h =
    let bs = kept_buffers p h.shard.buffers in
    let gone = freed p h.shard.buffers in
    if length bs == length h.shard.buffers then record h { used = h.used - gone } else record {
      shard = record {
        buffers = bs;
        order = kept_order p h.shard.buffers h.shard.order;
        total = h.shard.total - gone;
      };
      used = h.used - gone;
    }

abbrev pub second : ℕ
second = 1_000_000_000

-- Whether a global eviction for the path and the session keeps a chunk.
unfoldable pub keeps : String → ℕ → ℕ → ChunkKey → Option RaBuffer → Bool
keeps active session now k none = true
keeps active session now k (some b) =
    if not (b.session_id == session) && not (is_of active k)
    then false
    else leb (now - b.last_access) (if is_of active k then 60 * second else 120 * second)

-- The loop over a shard's order, which is built anew.
unfoldable pub evict_stale : String → ℕ → ℕ → Held → List ChunkKey → Held × List ChunkKey
unfolding keeps drop_first find_buffer
evict_stale active session now h [] = (h, [])
evict_stale active session now h (k ∷ ks) =
    let found = find_buffer k h.shard.buffers in
    let stay = evict_stale active session now h ks in
    let go = evict_stale active session now (drop_first h k found) ks in
    if keeps active session now k found then (stay.0, k ∷ stay.1) else go

unfoldable pub evict_shard : String → ℕ → ℕ → Held → Held
unfolding evict_stale
evict_shard active session now h =
    let (h', order') = evict_stale active session now h h.shard.order in
    record h' { shard = record h'.shard { order = order' } }
