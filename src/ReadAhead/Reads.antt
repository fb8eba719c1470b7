-- ===== src/ReadAhead/Reads.antt =====
-- main.go: what the calls of a cache do together.
use Prim.Native.String.{String}
use gostream.Prelude.{
  ℕ, ◌+◌, ◌-◌, ◌≤◌, ◌≡◌, Option-cases, List, All, length, inl, inr, arith, get_elem?,
  get_elem?-none,
}
use gostream.ReadAhead.{Config, locate, get, copy_to}
use gostream.ReadAhead.Cache.{
  ReadAheadCache, new_read_ahead_cache, get_cached, copy_cached, Call, run, shard_of,
}
use gostream.ReadAhead.Content.{IsAnswer, found-IsAnswer}
use gostream.ReadAhead.Honest.{IsHonestCall, honest-IsKept}
use gostream.ReadAhead.Shards.{Shares, shard_at, run-Shares}
use gostream.ReadAhead.Cover.{locate-Covers}

module _ (content : String → ℕ → ℕ) (cfg : Config) (hash : String → ℕ) where
  answer :
      (c : ReadAheadCache) (p : String) (off end now : ℕ) (dest : List ℕ)
      → Shares (honest-IsKept content cfg) hash c
      → off ≤ end
      → length dest ≡ end - off + 1
      → IsAnswer content p off end dest
          (get_cached cfg hash c p off end now).1
          (copy_cached cfg hash c p off end dest now).1
  unfolding get_cached copy_cached get copy_to
  answer c p off end now dest i m d =
      elim (Option-cases (get_elem? c.shards (shard_of cfg hash p))) [
        | inl e ↦ absurd (omega (arith, get_elem?-none c.shards (shard_of cfg hash p) e, i.0))
        | inr (s, e) ↦
            rw (e, get_cached, copy_cached)
              (found-IsAnswer content p off end dest (locate cfg s.buffers p off end) m d (
                locate-Covers content cfg s.buffers p off end
                  (shard_at (honest-IsKept content cfg) hash c _ s i e)))
      ]

  -- After any sequence of calls whose puts hold bytes of their file, from the new cache on, a read of
  -- `off` to `end` does not panic: `Get` answers nil and `CopyTo` leaves the destination as it was, or
  -- both give exactly the bytes of the file from `off` to `end`, for a destination of that length.
  pub get_cached-run :
      (xs : List Call) (p : String) (off end now : ℕ) (dest : List ℕ)
      → All (IsHonestCall content) xs
      → off ≤ end
      → length dest ≡ end - off + 1
      → IsAnswer content p off end dest
          (get_cached cfg hash (run cfg hash new_read_ahead_cache xs) p off end now).1
          (copy_cached cfg hash (run cfg hash new_read_ahead_cache xs) p off end dest now).1
  get_cached-run xs p off end now dest h m d =
      answer (run cfg hash new_read_ahead_cache xs) p off end now dest
        (run-Shares (honest-IsKept content cfg) hash xs h) m d
