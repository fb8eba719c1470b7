-- ===== src/ReadAhead/Store.antt =====
-- main.go: what `ReadAheadCache.Put` does to a shard.

use gostream.Prelude.{
  ℕ, ◌+◌, ◌-◌, ◌*◌, ◌==◌, ltb, leb, if◌then◌else◌, Bool, true, false, ◌&&◌, List, [], ◌∷◌, ◌++◌,
  Option, none, some, length,
}
use gostream.ReadAhead.{Config, ChunkKey, RaBuffer, Shard, key_eq, find_buffer}

abbrev pub budget : Config → ℕ
budget cfg = if cfg.read_ahead_budget == 0 then 268_435_456 else cfg.read_ahead_budget

unfoldable pub remove_buffer : ChunkKey → List (ChunkKey × RaBuffer) → List (ChunkKey × RaBuffer)
remove_buffer k [] = []
remove_buffer k ((j, b) ∷ bs) =
    let rest = remove_buffer k bs in if key_eq j k then bs else (j, b) ∷ rest

-- The first occurrence of the key leaves the order.
unfoldable pub remove_key : ChunkKey → List ChunkKey → List ChunkKey
remove_key k [] = []
remove_key k (j ∷ js) = let rest = remove_key k js in if key_eq j k then js else j ∷ rest

-- A shard with the counter `used` that all shards share.
pub record Held : Type 0 where
  pub shard : Shard
  pub used : ℕ

abbrev pub size_of : RaBuffer → ℕ
size_of b = length b.bytes

-- The buffer of the key goes, its place in the order stays.
abbrev pub drop_buffer : Held → ChunkKey → RaBuffer → Held
drop_buffer h k old = record {
  shard = record h.shard {
    buffers = remove_buffer k h.shard.buffers;
    total = h.shard.total - size_of old;
  };
  used = h.used - size_of old;
}

unfoldable pub overwrite : Held → ChunkKey → Option RaBuffer → Held
unfolding remove_key remove_buffer
overwrite h k none = h
overwrite h k (some old) =
    let dropped = drop_buffer h k old in
    record dropped { shard = record dropped.shard { order = remove_key k h.shard.order } }

abbrev pub add : Held → ChunkKey → RaBuffer → Held
add h k b = record {
  shard = record {
    buffers = (k, b) ∷ h.shard.buffers;
    order = h.shard.order ++ (k ∷ []);
    total = h.shard.total + size_of b;
  };
  used = h.used + size_of b;
}

unfoldable pub drop_first : Held → ChunkKey → Option RaBuffer → Held
unfolding remove_buffer
drop_first h v none = h
drop_first h v (some old) = drop_buffer h v old

-- The loop over the shard's own chunks: the last one stays. `rest` is the order.
unfoldable pub evict_loop : ℕ → Held → List ChunkKey → Held
unfolding drop_first find_buffer
evict_loop limit h [] = record h { shard = record h.shard { order = [] } }
evict_loop limit h (v ∷ []) = record h { shard = record h.shard { order = v ∷ [] } }
evict_loop limit h (v ∷ w ∷ rest) =
    let evicted = evict_loop limit (drop_first h v (find_buffer v h.shard.buffers)) (w ∷ rest) in
    let kept = record h { shard = record h.shard { order = v ∷ w ∷ rest } } in
    if ltb limit h.used then evicted else kept

abbrev pub is_stored : Option RaBuffer → Bool
is_stored none = false
is_stored (some b) = true

unfoldable pub stored_keys : List (ChunkKey × RaBuffer) → List ChunkKey → List ChunkKey
unfolding find_buffer
stored_keys bs [] = []
stored_keys bs (k ∷ ks) =
    let rest = stored_keys bs ks in if is_stored (find_buffer k bs) then k ∷ rest else rest

-- The compaction of the order.
unfoldable pub compact : Shard → Shard
unfolding stored_keys
compact s =
    if ltb 100 (length s.order) && ltb (length s.buffers * 2) (length s.order)
    then record s { order = stored_keys s.buffers s.order }
    else s

-- The part of `Put` under the shard's lock, and whether it starts a global eviction.
unfoldable pub put_shard : Config → Held → ChunkKey → RaBuffer → Held × Bool
unfolding overwrite evict_loop compact find_buffer
put_shard cfg h k b =
    let added = add (overwrite h k (find_buffer k h.shard.buffers)) k b in
    let h' = evict_loop (budget cfg) added added.shard.order in
    (
      record h' { shard = compact h'.shard },
      ltb (budget cfg) h'.used && leb (length h'.shard.order) 1,
    )
