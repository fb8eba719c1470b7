-- ===== src/Locks/Tests.antt =====
-- The manager's theorems at two goroutines that want one file.
use gostream.Prelude.{◌≡◌, ◌≤◌, refl, true, false, List, [], ◌∷◌, none}
use gostream.Locks.{
  Goroutine, idle, waiting, trying, holding, leaving, Manager, new_lock_manager, acquire_entry,
  release_entry, set_held, with_goroutines, lock_enters, try_enters, lock_acquires, try_fails,
  unlocks, leaves, Reach, here, next,
}
use gostream.Locks.Exclusion.{holders, reach-exclusive, reach-idle-empty}

program : Unit {0}
unfolding new_lock_manager acquire_entry release_entry
program = tt

abbrev two : List Goroutine
two = idle ∷ idle ∷ []

abbrev start : Manager
start = new_lock_manager two

abbrev waits : Manager
waits = with_goroutines (acquire_entry start "a.mkv").0 (waiting "a.mkv" 0 ∷ idle ∷ [])

abbrev locked : Manager
locked = with_goroutines (set_held waits 0 true) (holding "a.mkv" 0 ∷ idle ∷ [])

abbrev tries : Manager
tries = with_goroutines (acquire_entry locked "a.mkv").0 (holding "a.mkv" 0 ∷ trying "a.mkv" 0 ∷ [])

abbrev fails : Manager
fails = with_goroutines tries (holding "a.mkv" 0 ∷ leaving "a.mkv" 0 ∷ [])

abbrev alone : Manager
alone = with_goroutines (release_entry fails "a.mkv" 0) (holding "a.mkv" 0 ∷ idle ∷ [])

abbrev unlocked : Manager
unlocked = with_goroutines (set_held alone 0 false) (leaving "a.mkv" 0 ∷ idle ∷ [])

abbrev done : Manager
done = with_goroutines (release_entry unlocked "a.mkv" 0) two

abbrev reach_tries : Reach start tries
unfolding new_lock_manager acquire_entry release_entry
reach_tries =
    next
      (next (next here (lock_enters [] (idle ∷ []) "a.mkv" refl))
        (lock_acquires [] (idle ∷ []) "a.mkv" 0 refl refl))
      (try_enters (holding "a.mkv" 0 ∷ []) [] "a.mkv" refl)

abbrev reach_done : Reach start done
unfolding new_lock_manager acquire_entry release_entry
reach_done =
    next
      (next
        (next (next reach_tries (try_fails (holding "a.mkv" 0 ∷ []) [] "a.mkv" 0 refl refl))
          (leaves (holding "a.mkv" 0 ∷ []) [] "a.mkv" 0 refl))
        (unlocks [] (idle ∷ []) "a.mkv" 0 refl))
      (leaves [] (idle ∷ []) "a.mkv" 0 refl)

reach-exclusive_example : holders "a.mkv" tries.goroutines ≤ 1
reach-exclusive_example = reach-exclusive two tries "a.mkv" (refl, (refl, tt)) reach_tries

reach-idle-empty_example : done.locks "a.mkv" ≡ none
reach-idle-empty_example =
    reach-idle-empty two done "a.mkv" (refl, (refl, tt)) reach_done (refl, (refl, tt))
