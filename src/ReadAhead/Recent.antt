-- ===== src/ReadAhead/Recent.antt =====
-- main.go: what a read gives after a put.
use Prim.Native.String.{String}
use gostream.Prelude.{
  ℕ, ◌+◌, ◌-◌, ◌≤◌, leb, ◌≡◌, ap, ◌∙◌, if_of_true, Option-cases, Bool, true, ◌&&◌, List, [], ◌∷◌,
  some, All, length, take, drop, inl, inr, arith, get_elem?, get_elem?-none, ◌/◌,
  get_elem?-set_self, set,
}
use gostream.ReadAhead.{Config, RaBuffer, Shard, one, locate, hit, slice, get_found, get, copy_one}
use gostream.ReadAhead.Cache.{
  ReadAheadCache, new_read_ahead_cache, put, get_cached, Call, run, shard_of,
}
use gostream.ReadAhead.{ra_chunk_key}
use gostream.ReadAhead.Shards.{Shares, shard_at, run-Shares}
use gostream.ReadAhead.{RaBuffer, chunk_size, find_buffer, locate_in}
use gostream.ReadAhead.Store.{Held, put_shard}
use gostream.ReadAhead.Cache.{session_of}
use gostream.ReadAhead.Shards.{IsKept}
use gostream.ReadAhead.Order.{IsOrderedShard}
use gostream.ReadAhead.Newest.{put_shard_lem}
use gostream.ReadAhead.Ordered.{
  evict_path_shard-IsOrdered, evict_shard-IsOrdered, Stored-touch_found,
}

ordered-IsKept : (cfg : Config) → IsKept cfg IsOrderedShard (λ x. Unit)
ordered-IsKept cfg = record {
  empty = (tt, tt);
  touched =
      λ p off end now f s i. (i.0, Stored-touch_found cfg p off end now f s.buffers s.order i.1);
  added = λ p start end bytes now responsive h session ok i.
      (put_shard_lem cfg h (ra_chunk_key cfg p start) _ i).0;
  path = evict_path_shard-IsOrdered;
  stale = evict_shard-IsOrdered;
}

-- A read that one chunk covers.
get_one :
    (cfg : Config) (s : Shard) (p : String) (off e now : ℕ) (b : RaBuffer)
    → find_buffer (ra_chunk_key cfg p off) s.buffers ≡ some b
    → b.start ≤ off
    → off ≤ e
    → e ≤ b.end
    → length b.bytes ≡ b.end + 1 - b.start
    → (get cfg s p off e now).1 ≡ hit (take (e - off + 1) (drop (off - b.start) b.bytes))
unfolding get locate locate_in get_found
get_one cfg s p off e now b found l m r n =
    ap (λ o. get_found off e (locate_in cfg s.buffers p off e o)) found
    ∙ ap (get_found off e) in_one
    ∙ ap copy_one sliced
  where
    covers : (leb b.start off && leb off b.end) ≡ true
    covers = ground arith

    fits : leb e b.end ≡ true
    fits = ground arith

    in_one : locate_in cfg s.buffers p off e (some b) ≡ one b
    in_one = if_of_true _ _ covers ∙ if_of_true _ _ fits

    bounds :
        (leb (off - b.start) (e - b.start + 1) && leb (e - b.start + 1) (length b.bytes)) ≡ true
    bounds = ground (arith, n)

    sliced :
        slice b.bytes (off - b.start) (e - b.start + 1)
        ≡ some (take (e - off + 1) (drop (off - b.start) b.bytes))
    sliced =
        if_of_true _ _ bounds ∙ ap (λ k. some (take k (drop (off - b.start) b.bytes))) (omega arith)

All_unit : (xs : List Call) → All (λ x. Unit {0}) xs
All_unit [] = tt
All_unit (x ∷ xs) = (tt, All_unit xs)

module _ (cfg : Config) (hash : String → ℕ) where
  -- After any calls, a put of a chunk whose bytes are as many as it says is followed by a hit: a read
  -- that lies in the chunk and has the chunk's index gets those bytes, whatever the put evicted.
  pub get_cached-put :
      (xs : List Call) (p : String) (start end : ℕ) (bytes : List ℕ) (now : ℕ) (responsive : Bool)
      (off e later : ℕ)
      → start ≤ off
      → off ≤ e
      → e ≤ end
      → length bytes ≡ end + 1 - start
      → off / chunk_size cfg ≡ start / chunk_size cfg
      → (get_cached cfg hash
          (put cfg hash (run cfg hash new_read_ahead_cache xs) p start end bytes now responsive).0
          p
          off
          e
          later).1
        ≡ hit (take (e - off + 1) (drop (off - start) bytes))
  unfolding put get_cached
  get_cached-put xs p start end bytes now responsive off e later l m r n i =
      elim (Option-cases (get_elem? c.shards k)) [
        | inl out ↦ absurd (omega (arith, get_elem?-none c.shards k out, ok.0))
        | inr (s, at) ↦
            let b : RaBuffer = record {
              start = start;
              end = end;
              bytes = bytes;
              last_access = now;
              session_id = session_of cfg hash c p;
              responsive_only = responsive;
            } in
            let h : Held = record { shard = s; used = c.used } in
            let s' : Shard = (put_shard cfg h (ra_chunk_key cfg p start) b).0.shard in
            let there : find_buffer (ra_chunk_key cfg p off) s'.buffers ≡ some b =
              ap (λ (i : ℕ). find_buffer (record { path = p; index = i }) s'.buffers) i
              ∙ (put_shard_lem cfg h (ra_chunk_key cfg p start) b
                  (shard_at (ordered-IsKept cfg) hash c k s ok at)).1 in
            let same : get_elem? (set c.shards k s') k ≡ some s' =
              get_elem?-set_self c.shards k s' (omega (arith, ok.0)) in
            rw (at, put) (rw (same, get_cached) (get_one cfg s' p off e later b there l m r n))
      ]
    where
      c : ReadAheadCache
      c = run cfg hash new_read_ahead_cache xs

      k : ℕ
      k = shard_of cfg hash p

      ok : Shares (ordered-IsKept cfg) hash c
      ok = run-Shares (ordered-IsKept cfg) hash xs (All_unit xs)
