-- ===== src/LruCache/Shards.antt =====
-- The cache that callers see: 32 shards, chosen by a hash of the key.
--
-- The hash is `xxhash.Sum64String` of another library, so it is a parameter. Nothing is assumed of it.
use Prim.Native.Nat.{bit_and, bit_and-bitwise, digits, min}
use Prim.Native.String.{String}
use gostream.Prelude.{
  ℕ, zero, suc, ◌+◌, ◌*◌, ◌/◌, ◌-◌, ◌≤◌, ◌<◌, ◌≡◌, ◌≢◌, refl, ◌∙◌, ◌==◌, if◌then◌else◌, false, List,
  [], ◌∷◌, Option, none, some, All, arith, length, replicate, get_elem?, set, length-set,
  get_elem?-set_self, get_elem?-set_ne,
}
use gostream.LruCache.{
  SimpleLruCache, new_simple_lru_cache, get as shard_get, put as shard_put, delete as shard_delete,
  clear as shard_clear, cleanup_expired as shard_cleanup,
}
use gostream.LruCache.Valid.{IsValid, new_simple_lru_cache-IsValid}
use gostream.LruCache.Evict.{put-IsValid}
use gostream.LruCache.Reads.{get-put}

abbrev pub num_shards : ℕ
num_shards = 32

pub record LruCache {ℓ} (V : Type ℓ) : Type ℓ where
  pub shards : List (SimpleLruCache V)
  pub shard_mask : ℕ

pub record CacheStats : Type 0 where
  pub size : ℕ
  pub capacity : ℕ
  pub entries : ℕ

digits-le : (n a b : ℕ) → digits (λ x. zero) min n a b ≤ b
digits-le zero a b = omega arith
digits-le (suc n) zero b = omega arith
digits-le (suc n) (suc a) b = omega (arith, digits-le n (suc a / 2) (b / 2))

bit_and-le : (a b : ℕ) → bit_and a b ≤ b
bit_and-le a b = omega (arith, bit_and-bitwise a b, digits-le a a b)

module _ {ℓ} {V : Type ℓ} where
  unfoldable pub new_lru_cache : ℕ → ℕ → LruCache V
  new_lru_cache capacity ttl =
      let shard_cap = capacity / num_shards in
      let shard_cap' = if shard_cap == 0 then 1024 * 1024 else shard_cap in
      record {
        shards = replicate num_shards (new_simple_lru_cache shard_cap' ttl);
        shard_mask = num_shards - 1;
      }

  unfoldable pub len_all : List (SimpleLruCache V) → ℕ
  len_all [] = 0
  len_all (s ∷ ss) = length s.order + len_all ss

  unfoldable pub clear_all : List (SimpleLruCache V) → List (SimpleLruCache V)
  clear_all [] = []
  clear_all (s ∷ ss) = shard_clear s ∷ clear_all ss

  unfoldable pub cleanup_all : List (SimpleLruCache V) → ℕ → List (SimpleLruCache V) × ℕ
  cleanup_all [] now = ([], 0)
  cleanup_all (s ∷ ss) now =
      let (s', removed) = shard_cleanup s now in
      let (ss', total) = cleanup_all ss now in (s' ∷ ss', removed + total)

  unfoldable pub stats_all : List (SimpleLruCache V) → CacheStats
  stats_all [] = record { size = 0; capacity = 0; entries = 0 }
  stats_all (s ∷ ss) =
      let st = stats_all ss in
      record {
        size = s.current_size + st.size;
        capacity = s.capacity + st.capacity;
        entries = length s.order + st.entries;
      }

  unfoldable pub len : LruCache V → ℕ
  unfolding len_all
  len c = len_all c.shards

  unfoldable pub clear : LruCache V → LruCache V
  unfolding clear_all
  clear c = record c { shards = clear_all c.shards }

  unfoldable pub cleanup_expired : LruCache V → ℕ → LruCache V × ℕ
  unfolding cleanup_all
  cleanup_expired c now =
      let (shards', total) = cleanup_all c.shards now in (record c { shards = shards' }, total)

  unfoldable pub stats : LruCache V → CacheStats
  unfolding stats_all
  stats c = stats_all c.shards

  pub record AreValid (c : LruCache V) : Type ℓ where
    pub count : length c.shards ≡ num_shards
    pub mask : c.shard_mask ≡ num_shards - 1
    pub each : All IsValid c.shards

  All-get_elem? :
      (P : SimpleLruCache V → Type ℓ) (l : List (SimpleLruCache V)) (i : ℕ)
      → All P l
      → i < length l
      → (s : SimpleLruCache V) × (get_elem? l i ≡ some s) × P s
  All-get_elem? P [] i h b = elim b [ ]
  All-get_elem? P (x ∷ xs) zero h b = (x, refl, h.0)
  All-get_elem? P (x ∷ xs) (suc i) h b = All-get_elem? P xs i h.1 (omega arith)

  All-set :
      (P : SimpleLruCache V → Type ℓ) (l : List (SimpleLruCache V)) (i : ℕ) (s : SimpleLruCache V)
      → All P l
      → P s
      → All P (set l i s)
  All-set P [] i s h p = tt
  All-set P (x ∷ xs) zero s h p = (p, h.1)
  All-set P (x ∷ xs) (suc i) s h p = (h.0, All-set P xs i s h.1 p)

  All-replicate :
      (P : SimpleLruCache V → Type ℓ) (n : ℕ) (s : SimpleLruCache V) → P s → All P (replicate n s)
  All-replicate P zero s p = tt
  All-replicate P (suc n) s p = (p, All-replicate P n s p)

  stats_all-replicate :
      (n : ℕ) (s : SimpleLruCache V) → (stats_all (replicate n s)).capacity ≡ n * s.capacity
  unfolding stats_all
  stats_all-replicate zero s = omega arith
  stats_all-replicate (suc n) s = omega (arith, stats_all-replicate n s)

  -- A new cache has 32 valid shards. From a capacity of 32 bytes on, the shards together have at most
  -- that capacity, and miss it by less than 32 bytes.
  pub new_lru_cache-AreValid :
      (capacity ttl : ℕ)
      → num_shards ≤ capacity
      → AreValid (new_lru_cache capacity ttl)
        × ((stats (new_lru_cache capacity ttl)).capacity ≤ capacity)
        × (capacity < (stats (new_lru_cache capacity ttl)).capacity + num_shards)
  unfolding new_lru_cache stats
  new_lru_cache-AreValid capacity ttl h =
      let s : SimpleLruCache V = new_simple_lru_cache (capacity / num_shards) ttl in
      let q : s.capacity ≡ capacity / num_shards = unfold new_simple_lru_cache in ground arith in
      let t = stats_all-replicate num_shards s in
      let positive : ((capacity / num_shards) == 0) ≡ false = ground arith in
      rw positive (
        record {
          count = refl;
          mask = refl;
          each = All-replicate IsValid num_shards s (new_simple_lru_cache-IsValid _ ttl);
        },
        omega (arith, t, q),
        omega (arith, t, q),
      )

  module _ (sum64 : String → ℕ) where
    abbrev pub shard_index : LruCache V → String → ℕ
    shard_index c key = bit_and (sum64 key) c.shard_mask

    -- `none` is an index out of range.
    unfoldable pub get_shard : LruCache V → String → Option (SimpleLruCache V)
    get_shard c key = get_elem? c.shards (shard_index c key)

    abbrev with_shard : LruCache V → String → SimpleLruCache V → LruCache V
    with_shard c key s = record c { shards = set c.shards (shard_index c key) s }

    unfoldable pub get : LruCache V → String → ℕ → ℕ → Option (LruCache V × Option V)
    unfolding get_shard
    get c key now promoted = elim (get_shard c key) [
      | none ↦ none
      | some s ↦ let (s', found) = shard_get s key now promoted in some (with_shard c key s', found)
    ]

    unfoldable pub put : LruCache V → String → V → ℕ → ℕ → ℕ → Option (LruCache V)
    unfolding get_shard
    put c key value size now promoted = elim (get_shard c key) [
      | none ↦ none
      | some s ↦ some (with_shard c key (shard_put s key value size now promoted))
    ]

    unfoldable pub delete : LruCache V → String → Option (LruCache V)
    unfolding get_shard
    delete c key = elim (get_shard c key) [
      | none ↦ none
      | some s ↦ some (with_shard c key (shard_delete s key))
    ]

    -- The mask keeps every index in range, whatever the hash is.
    get_shard-total :
        (c : LruCache V) (key : String)
        → AreValid c
        → (s : SimpleLruCache V) × (get_shard c key ≡ some s) × IsValid s
    unfolding get_shard
    get_shard-total c key v =
        All-get_elem? IsValid c.shards (shard_index c key) v.each
          (omega (arith, bit_and-le (sum64 key) c.shard_mask, v.count, v.mask))

    with_shard-AreValid :
        (c : LruCache V) (key : String) (s : SimpleLruCache V)
        → AreValid c
        → IsValid s
        → AreValid (with_shard c key s)
    with_shard-AreValid c key s v w = record {
      count = length-set c.shards (shard_index c key) s ∙ v.count;
      mask = v.mask;
      each = All-set IsValid c.shards (shard_index c key) s v.each w;
    }

    get_shard-with_shard :
        (c : LruCache V) (key : String) (s : SimpleLruCache V)
        → AreValid c
        → get_shard (with_shard c key s) key ≡ some s
    unfolding get_shard
    get_shard-with_shard c key s v =
        get_elem?-set_self c.shards (shard_index c key) s
          (omega (arith, bit_and-le (sum64 key) c.shard_mask, v.count, v.mask))

    -- `Put` never fails on a valid cache and leaves a valid one. Only the key's shard changes, and a
    -- `Get` of the key returns the value until the shard's time to live has passed.
    get-put_shards :
        (c : LruCache V) (key : String) (value : V) (size now promoted later again : ℕ)
        → AreValid c
        → (s : SimpleLruCache V) × (c' : LruCache V) × (get_shard c key ≡ some s)
          × (put c key value size now promoted ≡ some c')
          × AreValid c'
          × ((i : ℕ) → shard_index c key ≢ i → get_elem? c'.shards i ≡ get_elem? c.shards i)
          × (later ≤ now + s.ttl
              → (c'' : LruCache V) × (get c' key later again ≡ some (c'', some value)))
    unfolding put get
    get-put_shards c key value size now promoted later again v =
        let (s, here, w) = get_shard-total c key v in
        let s' = shard_put s key value size now promoted in
        let c' = with_shard c key s' in
        let w' = put-IsValid s key value size now promoted w in
        (
          s,
          c',
          here,
          ground (arith, here),
          with_shard-AreValid c key s' v w',
          λ i other. get_elem?-set_ne c.shards s' other,
          λ fresh. (
            with_shard c' key (shard_get s' key later again).0,
            ground (
              arith,
              get_shard-with_shard c key s' v,
              get-put s key value size now promoted later again w fresh,
            ),
          ),
        )
