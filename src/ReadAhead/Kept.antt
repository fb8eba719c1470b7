-- ===== src/ReadAhead/Kept.antt =====
-- What holds of every chunk of a cache, under the operations on a shard and on all shards.
use Prim.Native.String.{String}
use gostream.Prelude.{ℕ, ◌*◌, ltb, if_holds, ◌&&◌, List, [], ◌∷◌, Option, none, some, All, length}
use gostream.ReadAhead.{
  Config, ChunkKey, RaBuffer, Shard, Found, nothing, short, one, two, key_eq, is_of, touch,
  touch_found, find_buffer, ra_chunk_key,
}
use gostream.ReadAhead.Store.{
  Held, budget, remove_buffer, drop_first, overwrite, evict_loop, compact, put_shard, add,
}
use gostream.ReadAhead.Evict.{kept_buffers, evict_path_shard, evict_stale, evict_shard}

module _ (P : ChunkKey × RaBuffer → Type 0) where
  abbrev pub AllIn : Shard → Type 0
  AllIn s = All P s.buffers

  remove_buffer-All :
      (k : ChunkKey) (bs : List (ChunkKey × RaBuffer)) → All P bs → All P (remove_buffer k bs)
  unfolding remove_buffer
  remove_buffer-All k [] h = tt
  remove_buffer-All k ((j, b) ∷ bs) h =
      if_holds (All P) (key_eq j k) _ _ h.1 (h.0, remove_buffer-All k bs h.1)

  kept_buffers-All :
      (p : String) (bs : List (ChunkKey × RaBuffer)) → All P bs → All P (kept_buffers p bs)
  unfolding kept_buffers
  kept_buffers-All p [] h = tt
  kept_buffers-All p ((k, b) ∷ bs) h =
      let rest = kept_buffers-All p bs h.1 in if_holds (All P) (is_of p k) _ _ rest (h.0, rest)

  drop_first-All :
      (h : Held) (v : ChunkKey) (o : Option RaBuffer)
      → AllIn h.shard
      → AllIn (drop_first h v o).shard
  unfolding drop_first
  drop_first-All h v none a = a
  drop_first-All h v (some old) a = remove_buffer-All v h.shard.buffers a

  overwrite-All :
      (h : Held) (k : ChunkKey) (o : Option RaBuffer)
      → AllIn h.shard
      → AllIn (overwrite h k o).shard
  unfolding overwrite
  overwrite-All h k none a = a
  overwrite-All h k (some old) a = remove_buffer-All k h.shard.buffers a

  evict_loop-All :
      (limit : ℕ) (h : Held) (ks : List ChunkKey)
      → AllIn h.shard
      → AllIn (evict_loop limit h ks).shard
  unfolding evict_loop
  evict_loop-All limit h [] a = a
  evict_loop-All limit h (v ∷ []) a = a
  evict_loop-All limit h (v ∷ w ∷ rest) a =
      if_holds (λ (x : Held). AllIn x.shard) (ltb limit h.used) _ _
        (evict_loop-All limit (drop_first h v (find_buffer v h.shard.buffers)) (w ∷ rest)
          (drop_first-All h v (find_buffer v h.shard.buffers) a))
        a

  compact-All : (s : Shard) → AllIn s → AllIn (compact s)
  unfolding compact
  compact-All s a =
      if_holds AllIn (ltb 100 (length s.order) && ltb (length s.buffers * 2) (length s.order)) _ _ a
        a

  pub put_shard-All :
      (cfg : Config) (h : Held) (k : ChunkKey) (b : RaBuffer)
      → AllIn h.shard
      → P (k, b)
      → AllIn (put_shard cfg h k b).0.shard
  unfolding put_shard
  put_shard-All cfg h k b a p = compact-All _ (
      evict_loop-All (budget cfg) added added.shard.order
        (p, overwrite-All h k (find_buffer k h.shard.buffers) a))
    where
      added : Held
      added = add (overwrite h k (find_buffer k h.shard.buffers)) k b

  pub evict_path_shard-All :
      (p : String) (h : Held) → AllIn h.shard → AllIn (evict_path_shard p h).shard
  unfolding evict_path_shard
  evict_path_shard-All p h a =
      if_holds (λ (x : Held). AllIn x.shard) _ _ _ a (kept_buffers-All p h.shard.buffers a)

  evict_stale-All :
      (active : String) (session now : ℕ) (h : Held) (ks : List ChunkKey)
      → AllIn h.shard
      → AllIn (evict_stale active session now h ks).0.shard
  unfolding evict_stale
  evict_stale-All active session now h [] a = a
  evict_stale-All active session now h (k ∷ ks) a =
      if_holds (λ (x : Held × List ChunkKey). AllIn x.0.shard) _ _ _
        (evict_stale-All active session now h ks a)
        (evict_stale-All active session now (drop_first h k (find_buffer k h.shard.buffers)) ks
          (drop_first-All h k (find_buffer k h.shard.buffers) a))

  pub evict_shard-All :
      (active : String) (session now : ℕ) (h : Held)
      → AllIn h.shard
      → AllIn (evict_shard active session now h).shard
  unfolding evict_shard
  evict_shard-All active session now h a = evict_stale-All active session now h h.shard.order a

  module _
      (touched : (k : ChunkKey) (b : RaBuffer) (now : ℕ)
        → P (k, b)
        → P (k, record b { last_access = now })) where
    touch-All :
        (k : ChunkKey) (now : ℕ) (bs : List (ChunkKey × RaBuffer))
        → All P bs
        → All P (touch k now bs)
    unfolding touch
    touch-All k now [] h = tt
    touch-All k now ((j, b) ∷ bs) h =
        if_holds (All P) (key_eq j k) _ _ (touched j b now h.0, h.1) (h.0, touch-All k now bs h.1)

    pub touch_found-All :
        (cfg : Config) (p : String) (off end now : ℕ) (f : Found) (bs : List (ChunkKey × RaBuffer))
        → All P bs
        → All P (touch_found cfg p off end now f bs)
    unfolding touch_found
    touch_found-All cfg p off end now nothing bs h = h
    touch_found-All cfg p off end now short bs h = touch-All (ra_chunk_key cfg p off) now bs h
    touch_found-All cfg p off end now (one b) bs h = touch-All (ra_chunk_key cfg p off) now bs h
    touch_found-All cfg p off end now (two b c) bs h =
        touch-All (ra_chunk_key cfg p end) now (touch (ra_chunk_key cfg p off) now bs)
          (touch-All (ra_chunk_key cfg p off) now bs h)
