-- ===== src/ReadAhead/Tests.antt =====
-- A cache with chunks of four bytes and a budget of ten, for files whose byte at `i` is `i`.
use Prim.Native.String.{String}
use gostream.Prelude.{ℕ, ◌≤◌, ◌≡◌, ◌⊎◌, refl, true, false, List, [], ◌∷◌, All, length, take, arith}
use gostream.ReadAhead.{Config, ChunkKey, RaBuffer, miss, hit}
use gostream.ReadAhead.Store.{Held, put_shard, budget}
use gostream.ReadAhead.Cache.{
  ReadAheadCache, new_read_ahead_cache, put, get_cached, copy_cached, Call, gets, puts, switches,
  evicts, run,
}
use gostream.ReadAhead.Bytes.{file_bytes}
use gostream.ReadAhead.Content.{IsAnswer}
use gostream.ReadAhead.Honest.{IsHonestCall}
use gostream.ReadAhead.Reads.{get_cached-run}
use gostream.ReadAhead.Recent.{get_cached-put}
use gostream.ReadAhead.Limits.{put_shard-within_budget}
use gostream.ReadAhead.Totals.{IsAccounted, run-IsAccounted}

abbrev cfg : Config
cfg = record { read_ahead_base = 4; read_ahead_budget = 10 }

abbrev hash : String → ℕ
hash p = 5

abbrev content : String → ℕ → ℕ
content p i = i

-- The third put is over the budget.
abbrev calls : List Call
calls =
    switches "/a.mkv"
    ∷ puts "/a.mkv" 0 3 (0 ∷ 1 ∷ 2 ∷ 3 ∷ []) 10 false
    ∷ puts "/a.mkv" 4 7 (4 ∷ 5 ∷ 6 ∷ 7 ∷ []) 20 false
    ∷ gets "/a.mkv" 2 5 30
    ∷ puts "/b.mkv" 0 3 (0 ∷ 1 ∷ 2 ∷ 3 ∷ []) 40 true
    ∷ evicts "/a.mkv" 1 50 []
    ∷ []

calls-IsHonest : All (IsHonestCall content) calls
unfolding file_bytes
calls-IsHonest =
    (tt, ((omega arith, refl), ((omega arith, refl), (tt, ((omega arith, refl), (tt, tt))))))

abbrev after : ReadAheadCache
after = run cfg hash new_read_ahead_cache calls

abbrev dest : List ℕ
dest = 9 ∷ 9 ∷ []

-- A read across two chunks, before the first is evicted.
stitched :
    (get_cached cfg hash (run cfg hash new_read_ahead_cache (take 3 calls)) "/a.mkv" 2 5 30).1
    ≡ hit (2 ∷ 3 ∷ 4 ∷ 5 ∷ [])
unfolding run get_cached new_read_ahead_cache
stitched = refl

evicted : (get_cached cfg hash after "/a.mkv" 2 3 60).1 ≡ miss
unfolding run get_cached new_read_ahead_cache
evicted = refl

counted : after.used ≡ 4
unfolding run new_read_ahead_cache
counted = refl

get_cached-run_example :
    IsAnswer content "/a.mkv" 5 6 dest
      (get_cached cfg hash after "/a.mkv" 5 6 60).1
      (copy_cached cfg hash after "/a.mkv" 5 6 dest 60).1
get_cached-run_example =
    get_cached-run content cfg hash calls "/a.mkv" 5 6 60 dest calls-IsHonest (omega arith) refl

get_cached-put_example :
    (get_cached cfg hash
      (put cfg hash after "/a.mkv" 8 11 (8 ∷ 9 ∷ 10 ∷ 11 ∷ []) 70 false).0
      "/a.mkv"
      9
      10
      80).1
    ≡ hit (9 ∷ 10 ∷ [])
get_cached-put_example =
    get_cached-put cfg hash calls "/a.mkv" 8 11 (8 ∷ 9 ∷ 10 ∷ 11 ∷ []) 70 false 9 10 80
      (omega arith) (omega arith) (omega arith) refl refl

run-IsAccounted_example : IsAccounted (run cfg hash new_read_ahead_cache calls)
run-IsAccounted_example = run-IsAccounted cfg hash calls

abbrev key : ChunkKey
key = record { path = "/a.mkv"; index = 0 }

abbrev chunk : RaBuffer
chunk = record {
  start = 0;
  end = 3;
  bytes = 0 ∷ 1 ∷ 2 ∷ 3 ∷ [];
  last_access = 0;
  session_id = 0;
  responsive_only = false;
}

abbrev held : Held
held = record { shard = record { buffers = []; order = []; total = 0 }; used = 9 }

put_shard-within_budget_example :
    ((put_shard cfg held key chunk).0.used ≤ budget cfg)
    ⊎ ((length (put_shard cfg held key chunk).0.shard.order ≤ 1)
        × ((put_shard cfg held key chunk).1 ≡ true))
put_shard-within_budget_example = put_shard-within_budget cfg held key chunk
