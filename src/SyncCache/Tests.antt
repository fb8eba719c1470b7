-- ===== src/SyncCache/Tests.antt =====
-- One hash without video files and one full pack, that was processed 99 seconds after the zero time.
use gostream.Prelude.{◌≡◌, refl, ◌*◌, List, [], ◌∷◌, ℕ, true, false}
use gostream.SyncCache.{
  SyncCacheManager, SavedCaches, cleanup_stale_entries, clear_negative_cache, sync_to_disk,
  load_from_db, both_saved, none_saved, SyncCall, clears_negative, cleans_up, syncs, second,
}
use gostream.SyncCache.Saved.{sync_to_disk-failed}

abbrev film : List ℕ
film = 97 ∷ 98 ∷ 99 ∷ 100 ∷ 101 ∷ 102 ∷ 103 ∷ 104 ∷ []

abbrev full_pack : List ℕ
full_pack = 49 ∷ 50 ∷ 51 ∷ 52 ∷ 53 ∷ 54 ∷ 55 ∷ 56 ∷ []

abbrev saved : SavedCaches
saved = record {
  negative = (film, 50) ∷ [];
  fullpack = (full_pack, record { title = 83 ∷ []; processed_at = 99 }) ∷ [];
}

abbrev calls : List SyncCall
calls = clears_negative film ∷ cleans_up 10 10 100 ∷ syncs both_saved ∷ []

abbrev changed : SyncCacheManager
changed = (clear_negative_cache (load_from_db saved) film).0

abbrev remaining : SyncCacheManager
remaining = record changed { dirty = false }

-- Loaded from the database, the full pack survives a cleanup; loaded from the files, it does not.
kept :
    (cleanup_stale_entries
      (load_from_db saved)
      (10 * second)
      (10 * second)
      (100 * second)).fullpack_cache
    ≡ (load_from_db saved).fullpack_cache
unfolding cleanup_stale_entries load_from_db
kept = refl

sync_to_disk-failed_example :
    (sync_to_disk changed saved none_saved ≡ (remaining, (saved, false)))
    × (sync_to_disk remaining saved both_saved ≡ (remaining, (saved, true)))
unfolding clear_negative_cache load_from_db
sync_to_disk-failed_example =
    sync_to_disk-failed changed saved saved none_saved both_saved refl refl
