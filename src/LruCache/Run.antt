-- ===== src/LruCache/Run.antt =====
-- Histories of a shard. Each operation holds the shard's mutex, so a history is a sequence of calls.
use Prim.Native.String.{String}
use gostream.Prelude.{ℕ, List, [], ◌∷◌}
use gostream.LruCache.{
  SimpleLruCache, new_simple_lru_cache, get, put, delete, clear, cleanup_expired,
}
use gostream.LruCache.Valid.{
  IsValid, new_simple_lru_cache-IsValid, get-IsValid, delete-IsValid, clear-IsValid,
}
use gostream.LruCache.Evict.{put-IsValid}
use gostream.LruCache.Reads.{cleanup_expired-alive}

-- The operations, each with its readings of the clock.
pub data Call {ℓ} (V : Type ℓ) : Type ℓ where
  gets : String → ℕ → ℕ → Call V
  puts : String → V → ℕ → ℕ → ℕ → Call V
  deletes : String → Call V
  cleans : ℕ → Call V
  clears : Call V

module _ {ℓ} {V : Type ℓ} where
  unfoldable pub step : SimpleLruCache V → Call V → SimpleLruCache V
  step c (gets key now promoted) = (get c key now promoted).0
  step c (puts key value size now promoted) = put c key value size now promoted
  step c (deletes key) = delete c key
  step c (cleans now) = (cleanup_expired c now).0
  step c clears = clear c

  unfoldable pub run : SimpleLruCache V → List (Call V) → SimpleLruCache V
  unfolding step
  run c [] = c
  run c (x ∷ xs) = run (step c x) xs

  step-IsValid : (c : SimpleLruCache V) (x : Call V) → IsValid c → IsValid (step c x)
  unfolding step
  step-IsValid c (gets key now promoted) v = get-IsValid c key now promoted v
  step-IsValid c (puts key value size now promoted) v = put-IsValid c key value size now promoted v
  step-IsValid c (deletes key) v = delete-IsValid c key v
  step-IsValid c (cleans now) v = (cleanup_expired-alive c now v).0
  step-IsValid c clears v = clear-IsValid c

  run-IsValid : (c : SimpleLruCache V) (xs : List (Call V)) → IsValid c → IsValid (run c xs)
  unfolding run
  run-IsValid c [] v = v
  run-IsValid c (x ∷ xs) v = run-IsValid (step c x) xs (step-IsValid c x v)

  -- After any history of a new shard the map and the list agree key by key, ids and keys are
  -- distinct, and the recorded size is the sum of the sizes of the entries.
  pub run-new-IsValid :
      (capacity ttl : ℕ) (xs : List (Call V))
      → IsValid (run (new_simple_lru_cache {V = V} capacity ttl) xs)
  run-new-IsValid capacity ttl xs = run-IsValid _ xs (new_simple_lru_cache-IsValid capacity ttl)
