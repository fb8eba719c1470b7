-- ===== src/SyncCache.antt =====
-- synccache.go: what the synchronization has learnt about torrents, in memory and saved.
--
-- A hash is the list of its bytes, a time the nanoseconds since the zero time of Go. The saved caches
-- are those of the database, or of the two JSON files where there is none; which of the writes succeed
-- is an argument. Saved times are in seconds.
pub mod Saved
mod Tests
use gostream.Prelude.{
  ℕ, zero, suc, ◌+◌, ◌*◌, ◌-◌, ◌/◌, ◌^◌, ◌==◌, ltb, if◌then◌else◌, Bool, true, false, not, ◌&&◌,
  List, [], ◌∷◌, length, map,
}

pub record FullpackCacheEntry : Type 0 where
  pub title : List ℕ
  pub processed_at : ℕ

pub record SyncCacheManager : Type 0 where
  pub negative_cache : List (List ℕ × ℕ)
  pub fullpack_cache : List (List ℕ × FullpackCacheEntry)
  pub dirty : Bool

abbrev pub bytes_eq : List ℕ → List ℕ → Bool
bytes_eq [] [] = true
bytes_eq [] (y ∷ ys) = false
bytes_eq (x ∷ xs) [] = false
bytes_eq (x ∷ xs) (y ∷ ys) = x == y && bytes_eq xs ys

module _ {V : Type 0} where
  abbrev pub has_key : List ℕ → List (List ℕ × V) → Bool
  has_key k [] = false
  has_key k ((j, v) ∷ m) = if bytes_eq j k then true else has_key k m

  unfoldable pub delete_key : List ℕ → List (List ℕ × V) → List (List ℕ × V)
  delete_key k [] = []
  delete_key k ((j, v) ∷ m) =
      let rest = delete_key k m in if bytes_eq j k then rest else (j, v) ∷ rest

  -- The entries that are not older than `ttl`, by the time `at` that each has.
  unfoldable pub not_older : (V → ℕ) → ℕ → ℕ → List (List ℕ × V) → List (List ℕ × V)
  not_older at ttl now [] = []
  not_older at ttl now ((k, v) ∷ m) =
      let rest = not_older at ttl now m in
      let age = if ltb (2 ^ 63 - 1) (now - at v) then 2 ^ 63 - 1 else now - at v in
      if ltb ttl age then rest else (k, v) ∷ rest

-- The cache, and whether `hash[:8]` panics.
unfoldable pub clear_negative_cache : SyncCacheManager → List ℕ → SyncCacheManager × Bool
unfolding delete_key
clear_negative_cache s hash =
    if has_key hash s.negative_cache
    then (
      record s { negative_cache = delete_key hash s.negative_cache; dirty = true },
      ltb (length hash) 8,
    )
    else (s, false)

unfoldable pub clear_fullpack_cache : SyncCacheManager → List ℕ → SyncCacheManager × Bool
unfolding delete_key
clear_fullpack_cache s hash =
    if has_key hash s.fullpack_cache
    then (
      record s { fullpack_cache = delete_key hash s.fullpack_cache; dirty = true },
      ltb (length hash) 8,
    )
    else (s, false)

abbrev pub timestamp : ℕ → ℕ
timestamp t = t

abbrev pub processed : FullpackCacheEntry → ℕ
processed e = e.processed_at

unfoldable pub cleanup_stale_entries : SyncCacheManager → ℕ → ℕ → ℕ → SyncCacheManager
unfolding not_older
cleanup_stale_entries s negative_ttl fullpack_ttl now =
    let negative = not_older timestamp negative_ttl now s.negative_cache in
    let fullpack = not_older processed fullpack_ttl now s.fullpack_cache in
    let removed =
      (length s.negative_cache - length negative) + (length s.fullpack_cache - length fullpack) in
    record {
      negative_cache = negative;
      fullpack_cache = fullpack;
      dirty = if ltb 0 removed then true else s.dirty;
    }

-- What is saved: the times of the hashes, and the titles with their times.
pub record SavedCaches : Type 0 where
  pub negative : List (List ℕ × ℕ)
  pub fullpack : List (List ℕ × FullpackCacheEntry)

abbrev pub second : ℕ
second = 1_000_000_000

abbrev pub in_seconds : List ℕ × ℕ → List ℕ × ℕ
in_seconds (k, t) = (k, t / second)

abbrev pub entry_in_seconds : List ℕ × FullpackCacheEntry → List ℕ × FullpackCacheEntry
entry_in_seconds (k, e) = (k, record e { processed_at = e.processed_at / second })

abbrev pub copy_caches : SyncCacheManager → SavedCaches
copy_caches s = record {
  negative = map in_seconds s.negative_cache;
  fullpack = map entry_in_seconds s.fullpack_cache;
}

-- Which writes succeed: both, that of the first file alone, or none. A transaction has no middle.
pub data Outcome : Type 0 where
  both_saved : Outcome
  first_saved : Outcome
  none_saved : Outcome

abbrev pub save : SavedCaches → SavedCaches → Outcome → SavedCaches × Bool
save old new both_saved = (new, true)
save old new first_saved = (record old { negative = new.negative }, false)
save old new none_saved = (old, false)

-- The cache, what is saved then, and whether there is no error.
unfoldable pub sync_to_disk :
    SyncCacheManager → SavedCaches → Outcome → SyncCacheManager × (SavedCaches × Bool)
sync_to_disk s saved o =
    if not s.dirty
    then (s, (saved, true))
    else (record s { dirty = false }, save saved (copy_caches s) o)

abbrev pub from_seconds : List ℕ × ℕ → List ℕ × ℕ
from_seconds (k, t) = (k, t * second)

abbrev pub entry_from_seconds : List ℕ × FullpackCacheEntry → List ℕ × FullpackCacheEntry
entry_from_seconds (k, e) = (k, record e { processed_at = e.processed_at * second })

-- `LoadCachesFromDisk` from the database.
unfoldable pub load_from_db : SavedCaches → SyncCacheManager
load_from_db saved = record {
  negative_cache = map from_seconds saved.negative;
  fullpack_cache = map entry_from_seconds saved.fullpack;
  dirty = false;
}

-- The files name the time of a full pack `Timestamp`, and it is read from `processed_at`: it stays at
-- the zero time.
abbrev pub entry_from_json : List ℕ × FullpackCacheEntry → List ℕ × FullpackCacheEntry
entry_from_json (k, e) = (k, record e { processed_at = 0 })

unfoldable pub load_from_json : SavedCaches → SyncCacheManager
load_from_json saved = record {
  negative_cache = map from_seconds saved.negative;
  fullpack_cache = map entry_from_json saved.fullpack;
  dirty = false;
}

-- The cache with what is saved of it.
pub record Synced : Type 0 where
  pub manager : SyncCacheManager
  pub saved : SavedCaches

pub data SyncCall : Type 0 where
  clears_negative : List ℕ → SyncCall
  clears_fullpack : List ℕ → SyncCall
  cleans_up : ℕ → ℕ → ℕ → SyncCall
  syncs : Outcome → SyncCall

unfoldable pub step : Synced → SyncCall → Synced
unfolding clear_negative_cache clear_fullpack_cache cleanup_stale_entries sync_to_disk
step s (clears_negative hash) = record s { manager = (clear_negative_cache s.manager hash).0 }
step s (clears_fullpack hash) = record s { manager = (clear_fullpack_cache s.manager hash).0 }
step s (cleans_up n f now) = record s { manager = cleanup_stale_entries s.manager n f now }
step s (syncs o) =
    let (m, (saved, fine)) = sync_to_disk s.manager s.saved o in
    record { manager = m; saved = saved }

unfoldable pub run : Synced → List SyncCall → Synced
unfolding step
run s [] = s
run s (x ∷ xs) = run (step s x) xs
