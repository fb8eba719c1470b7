-- ===== src/Scheduler/Tests.antt =====
-- A job at half past two on Mondays, and two runs of it that overlap.
use gostream.Prelude.{ℕ, ◌+◌, ◌*◌, ◌≤◌, ◌<◌, ◌≡◌, ◌⊎◌, refl, arith, true, false, [], ◌∷◌}
use gostream.Scheduler.{
  JobState, DailyJobConfig, SchedulerConfig, movies, hour_length, at_time, next_run_time,
  should_run, next_of, set_next_run, next_from,
}
use gostream.Scheduler.Times.{IsTime, IsScheduled, next_run_time-earliest}
use gostream.Scheduler.Missed.{should_run-missed, should_run-due}
use gostream.Scheduler.Runs.{
  Job, starting, begun, working, returned, saved, fine, status_of, new_job, stop_job, trigger_run,
  with_goroutines, begin_run, store_cancel, end_run, save_status, delete_cancel, triggers, begins,
  stores, returns, saves, leaves, Reach, here, next,
}
use gostream.Scheduler.Safe.{count_of, is_busy, has_stored, shown, stored, Reach-owned}

abbrev mondays : DailyJobConfig
mondays = record { enabled = true; days_of_week = 1 ∷ []; hour = 2; minute = 30 }

abbrev cfg : SchedulerConfig
cfg = record {
  movies_sync = mondays;
  tv_sync = mondays;
  watchlist_sync = record { enabled = false; interval_hours = 0 };
  tv_channels = [];
}

abbrev never : JobState
never = record { last_run = 0; next_run = 0; running = false; last_error = ""; last_status = "" }

half_past_two : IsTime mondays
half_past_two = record { hour_fits = omega arith; minute_fits = omega arith }

-- The second Monday, from the first Monday at three o'clock on.
abbrev three : ℕ
three = 3 * hour_length

next_monday : next_run_time mondays three ≡ at_time mondays 7
unfolding next_run_time next_from
next_monday = refl

next_run_time-earliest_example :
    (IsScheduled mondays (next_run_time mondays three)
      × (three < next_run_time mondays three)
      × ((u : ℕ) → IsScheduled mondays u → three < u → next_run_time mondays three ≤ u))
    ⊎ ((next_run_time mondays three ≡ 0) × ((u : ℕ) → three < u → ¬ IsScheduled mondays u))
next_run_time-earliest_example = next_run_time-earliest mondays three half_past_two refl

should_run-missed_example :
    should_run cfg movies (set_next_run never (next_of cfg movies never three)) (4 * hour_length)
    ≡ false
should_run-missed_example =
    should_run-missed cfg never three (4 * hour_length) half_past_two refl (omega arith) refl

planned : next_of cfg movies never three ≡ at_time mondays 7
unfolding next_of next_run_time next_from
planned = refl

should_run-due_example :
    should_run cfg movies
      (set_next_run never (next_of cfg movies never three))
      (at_time mondays 7 + 5)
    ≡ true
should_run-due_example =
    should_run-due cfg never three (at_time mondays 7 + 5) half_past_two refl
      (omega (arith, planned)) (omega (arith, planned)) (omega (arith, planned)) refl (omega arith)

-- Both runs have seen that the job is not running.
abbrev asked_twice : Job
asked_twice = trigger_run (trigger_run (new_job never))

abbrev one_works : Job
one_works =
    with_goroutines
      (store_cancel (with_goroutines (begin_run asked_twice) (starting 1 ∷ begun 0 ∷ [])) 0)
      (starting 1 ∷ working 0 ∷ [])

abbrev both_work : Job
both_work =
    with_goroutines
      (store_cancel (with_goroutines (begin_run one_works) (begun 1 ∷ working 0 ∷ [])) 1)
      (working 1 ∷ working 0 ∷ [])

abbrev one_left : Job
one_left =
    with_goroutines
      (delete_cancel (
        with_goroutines
          (save_status (with_goroutines (end_run both_work) (working 1 ∷ returned 0 "ok" "" ∷ [])) 9
            "ok" "")
          (working 1 ∷ saved 0 ∷ [])))
      (working 1 ∷ [])

both : Reach (new_job never) both_work
unfolding new_job
both =
    next
      (next
        (next
          (next (next (next here (triggers refl)) (triggers refl))
            (begins (starting 1 ∷ []) [] 0 refl))
          (stores (starting 1 ∷ []) [] 0 refl))
        (begins [] (working 0 ∷ []) 1 refl))
      (stores [] (working 0 ∷ []) 1 refl)

overlap : Reach (new_job never) one_left
unfolding new_job status_of
overlap =
    next
      (next (next both (returns (working 1 ∷ []) [] 0 fine refl))
        (saves (working 1 ∷ []) [] 0 9 "ok" "" refl))
      (leaves (working 1 ∷ []) [] 0 refl)

-- The second run is at work, the job is shown as not running, and cannot be stopped.
not_stopped : (stop_job one_left).0 ≡ false
unfolding stop_job
not_stopped = refl

not_shown : one_left.state.running ≡ false
not_shown = refl

Reach-owned_example :
    (shown one_left.state.running ≤ count_of is_busy one_left.goroutines)
    × (stored one_left.cancel ≤ count_of has_stored one_left.goroutines)
Reach-owned_example = Reach-owned never one_left overlap
