-- ===== src/LruCache/Tests.antt =====
-- Runs of the metadata cache on small inputs.
use Prim.Native.String.{String}
use gostream.Prelude.{ℕ, ◌+◌, ◌≤◌, ◌<◌, ◌≡◌, refl, List, [], ◌∷◌, none, some, arith}
use gostream.LruCache.{
  SimpleLruCache, Element, back, remove_element, new_simple_lru_cache, element, find_id, remove_id,
  get, put, cleanup_expired,
}
use gostream.LruCache.Valid.{IsValid}
use gostream.LruCache.Evict
use gostream.LruCache.Evict.{PutNew}
use gostream.LruCache.Run.{Call, puts, gets, run, run-new-IsValid}
use gostream.LruCache.Shards
use gostream.LruCache.Shards.{
  LruCache, AreValid, new_lru_cache, stats, num_shards, shard_index, get_shard,
}

program : Unit {0}
unfolding new_simple_lru_cache run get put cleanup_expired back find_id remove_id remove_element
program = tt

abbrev fills : List (Call ℕ)
fills = puts "a" 1 60 0 0 ∷ puts "b" 2 30 1 1 ∷ gets "a" 2 2 ∷ []

abbrev shard : SimpleLruCache ℕ
shard = run (new_simple_lru_cache 100 50) fills

shard-IsValid : IsValid shard
shard-IsValid = run-new-IsValid 100 50 fills

shard_runs : shard.current_size ≡ 90
unfolding program
shard_runs = refl

evicts_oldest : (get (put shard "c" 3 20 3 3) "b" 4 4).1 ≡ none
unfolding program
evicts_oldest = refl

keeps_recent : (get (put shard "c" 3 20 3 3) "a" 4 4).1 ≡ some 1
unfolding program
keeps_recent = refl

expires : (get shard "a" 51 51).1 ≡ none
unfolding program
expires = refl

cleans_both : (cleanup_expired shard 60).1 ≡ 2
unfolding program
cleans_both = refl

absent_c : element shard "c" ≡ none
unfolding program
absent_c = refl

run-new-IsValid_example : IsValid (run (new_simple_lru_cache {V = ℕ} 100 50) fills)
run-new-IsValid_example = run-new-IsValid 100 50 fills

put-PutNew_example : PutNew shard (put shard "c" 3 20 3 3) "c" 3 20
put-PutNew_example = Evict.put-PutNew shard "c" 3 20 3 3 shard-IsValid absent_c

abbrev stored_a : Element ℕ
stored_a = record { id = 0; key = "a"; value = 1; size = 60; expires_at = 50; last_promoted = 2 }

element_a : element shard "a" ≡ some stored_a
unfolding program
element_a = refl

cache_valid :
    AreValid (new_lru_cache {V = ℕ} 1000 50)
    × ((stats (new_lru_cache {V = ℕ} 1000 50)).capacity ≤ 1000)
    × (1000 < (stats (new_lru_cache {V = ℕ} 1000 50)).capacity + num_shards)
cache_valid = Shards.new_lru_cache-AreValid 1000 50 (omega arith)

abbrev cache : LruCache ℕ
cache = new_lru_cache 1000 50

abbrev constant_hash : String → ℕ
constant_hash key = 77
