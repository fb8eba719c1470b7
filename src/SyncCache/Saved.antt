-- ===== src/SyncCache/Saved.antt =====
-- synccache.go: that what is learnt is saved, and what is lost.
use gostream.Prelude.{
  ℕ, ◌-◌, ◌^◌, ◌<◌, ltb, ◌≡◌, refl, ap, ◌∙◌, if◌then◌else◌, if_of_true, if_of_false, Bool, true,
  false, not, List, [], ◌∷◌, map, arith,
}
use gostream.SyncCache.{
  FullpackCacheEntry, SyncCacheManager, not_older, processed, cleanup_stale_entries, SavedCaches,
  copy_caches, Outcome, both_saved, save, sync_to_disk, load_from_db, entry_from_json,
  load_from_json, Synced, SyncCall, clears_negative, clears_fullpack, cleans_up, syncs,
}

-- What is not marked as changed is saved.
abbrev IsClean : Synced → Type 0
IsClean s = s.manager.dirty ≡ false → s.saved ≡ copy_caches s.manager

abbrev pub Succeeds : SyncCall → Type 0
Succeeds (clears_negative hash) = Unit
Succeeds (clears_fullpack hash) = Unit
Succeeds (cleans_up n f now) = Unit
Succeeds (syncs o) = o ≡ both_saved

abbrev pub loaded : SavedCaches → Synced
loaded saved = record { manager = load_from_db saved; saved = saved }

-- A sync of changes that fails returns an error and forgets that there are changes: the next sync
-- writes nothing, whatever could be written, and returns no error.
pub sync_to_disk-failed :
    (m : SyncCacheManager) (saved new : SavedCaches) (o later : Outcome)
    → m.dirty ≡ true
    → save saved (copy_caches m) o ≡ (new, false)
    → (sync_to_disk m saved o ≡ (record m { dirty = false }, (new, false)))
      × (sync_to_disk (record m { dirty = false }) new later
          ≡ (record m { dirty = false }, (new, true)))
unfolding sync_to_disk
sync_to_disk-failed m saved new o later d e = (
  if_of_false {b = not m.dirty} _ _ (ap not d)
      ∙ ap (λ (x : SavedCaches × Bool). (record m { dirty = false }, x)) e,
  refl,
)

too_old :
    (f now : ℕ) (m : List (List ℕ × FullpackCacheEntry))
    → f < now
    → f < 2 ^ 63 - 1
    → not_older processed f now (map entry_from_json m) ≡ []
unfolding not_older
too_old f now [] h l = refl
too_old f now ((k, e) ∷ m) h l =
    if_of_true {b = ltb f (if ltb (2 ^ 63 - 1) (now - 0) then 2 ^ 63 - 1 else now - 0)} _ _
      (ground (arith, h, l))
    ∙ too_old f now m h l

-- What is read from the JSON files has lost the times of the full packs: the first cleanup removes all
-- of them, however lately they were processed, if it is called later than the zero time and one limit of
-- age, a limit below that of a duration.
cleanup-load_from_json :
    (saved : SavedCaches) (n f now : ℕ)
    → f < now
    → f < 2 ^ 63 - 1
    → (cleanup_stale_entries (load_from_json saved) n f now).fullpack_cache ≡ []
unfolding cleanup_stale_entries load_from_json
cleanup-load_from_json saved n f now h l = too_old f now saved.fullpack h l
