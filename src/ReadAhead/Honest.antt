-- ===== src/ReadAhead/Honest.antt =====
-- The chunks of a cache hold bytes of their file while the callers put such chunks.
use Prim.Native.String.{String}
use gostream.Prelude.{ℕ, ◌+◌, ◌-◌, ◌≤◌, ◌≡◌}
use gostream.ReadAhead.{Config}
use gostream.ReadAhead.Bytes.{file_bytes}
use gostream.ReadAhead.Cache.{Call, gets, copies, puts, switches, evicts_path, evicts}
use gostream.ReadAhead.{ra_chunk_key}
use gostream.ReadAhead.Shards.{IsKept}
use gostream.ReadAhead.Kept.{
  AllIn, touch_found-All, put_shard-All, evict_path_shard-All, evict_shard-All,
}
use gostream.ReadAhead.Cover.{IsHonestChunk}

module _ (content : String → ℕ → ℕ) where
  -- What the callers put.
  abbrev pub IsHonestCall : Call → Type 0
  IsHonestCall (gets p off end now) = Unit
  IsHonestCall (copies p off end dest now) = Unit
  IsHonestCall (puts p start end bytes now responsive) =
      (start ≤ end) × (bytes ≡ file_bytes (content p) start (end + 1 - start))
  IsHonestCall (switches p) = Unit
  IsHonestCall (evicts_path p) = Unit
  IsHonestCall (evicts active session now busy) = Unit

  pub honest-IsKept : (cfg : Config) → IsKept cfg (AllIn (IsHonestChunk content)) IsHonestCall
  honest-IsKept cfg = record {
    empty = tt;
    touched = λ p off end now f s a.
        touch_found-All (IsHonestChunk content) (λ k b t h. h) cfg p off end now f s.buffers a;
    added = λ p start end bytes now responsive h session ok a.
        put_shard-All (IsHonestChunk content) cfg h (ra_chunk_key cfg p start) _ a ok;
    path = evict_path_shard-All (IsHonestChunk content);
    stale = evict_shard-All (IsHonestChunk content);
  }
