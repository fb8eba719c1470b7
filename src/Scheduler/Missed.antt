-- ===== src/Scheduler/Missed.antt =====
-- Which ticks start a daily job.
use gostream.Prelude.{
  ℕ, ◌+◌, ◌%◌, ◌≤◌, ◌<◌, ◌==◌, ltb, leb, if_holds, if_of_false, Bool-cases, true, false, not, ◌&&◌,
  ◌≡◌, refl, sym, subst, ◌∙◌, ap, inl, inr, arith,
}
use gostream.Scheduler.{
  JobState, DailyJobConfig, SchedulerConfig, movies, day_of, weekday, at_time, has_day, candidate,
  next_run_time, should_run_daily, should_run, next_of, set_next_run,
}
use gostream.Scheduler.Times.{IsTime, IsScheduled, day_of-at_time, next_run_time-earliest}

weekday_today :
    (c : DailyJobConfig) (now : ℕ) → IsTime c → weekday (candidate c now 0) ≡ (day_of now + 1) % 7
weekday_today c now fits =
    ap (λ n. (n + 1) % 7) (day_of-at_time c (day_of now + 0) fits ∙ omega arith)

-- Before the next run nothing is due.
waits :
    (state : JobState) (c : DailyJobConfig) (now : ℕ)
    → now < state.next_run
    → should_run_daily state c now ≡ false
unfolding should_run_daily
waits state c now early =
    let set : (state.next_run == 0) ≡ false = ground (arith, early) in
    let before : ltb now state.next_run ≡ true = ground (arith, early) in
    rw (set, should_run_daily, before) (if_holds (λ b. b ≡ false) (not c.enabled) false _ refl refl)

-- Nothing is due on a day that the schedule does not name.
not_named :
    (state : JobState) (c : DailyJobConfig) (now : ℕ)
    → has_day c.days_of_week (weekday (candidate c now 0)) ≡ false
    → should_run_daily state c now ≡ false
unfolding should_run_daily
not_named state c now unnamed =
    rw (unnamed, should_run_daily)
      (if_holds (λ b. b ≡ false) (not c.enabled) false _ refl
        (if_holds (λ b. b ≡ false) (not (state.next_run == 0) && ltb now state.next_run) false _
          refl refl))

missed :
    (state : JobState) (c : DailyJobConfig) (now later : ℕ)
    → IsTime c
    → c.enabled ≡ true
    → at_time c (day_of now) ≤ now
    → day_of later ≡ day_of now
    → should_run_daily (set_next_run state (next_run_time c now)) c later ≡ false
missed state c now later fits on passed same = elim (next_run_time-earliest c now fits on) [
  | inl (h, after, least) ↦
      let d = day_of-at_time c h.day fits in
      let early : later < next_run_time c now = omega (arith, h.at_its_time, after, passed, same) in
      waits (set_next_run state (next_run_time c now)) c later early
  | inr (zero_time, none_later) ↦
      elim (Bool-cases (has_day c.days_of_week ((day_of now + 1) % 7))) [
        | inl named ↦
            let next_week : (day_of now + 7 + 1) % 7 ≡ (day_of now + 1) % 7 = omega arith in
            let late : now < at_time c (day_of now + 7) = omega arith in
            let again : IsScheduled c (at_time c (day_of now + 7)) = record {
              day = day_of now + 7;
              at_its_time = refl;
              on_its_day = subst (λ n. has_day c.days_of_week n ≡ true) (sym next_week) named;
            } in
            absurd (none_later (at_time c (day_of now + 7)) late again)
        | inr unnamed ↦ not_named (set_next_run state (next_run_time c now)) c later (
            subst (λ n. has_day c.days_of_week n ≡ false)
              (sym (weekday_today c later fits ∙ ap (λ n. (n + 1) % 7) same)) unnamed)
      ]
]

due :
    (state : JobState) (c : DailyJobConfig) (now : ℕ)
    → c.enabled ≡ true
    → ltb now state.next_run ≡ false
    → has_day c.days_of_week (weekday (candidate c now 0)) ≡ true
    → ltb now (candidate c now 0) ≡ false
    → leb (day_of now) (day_of state.last_run) ≡ false
    → should_run_daily state c now ≡ true
unfolding should_run_daily
due state c now on reached named begun fresh =
    let planned : (not (state.next_run == 0) && ltb now state.next_run) ≡ false =
      ground (arith, reached) in
    let ran : (not (state.last_run == 0) && leb (day_of now) (day_of state.last_run)) ≡ false =
      ground (arith, fresh) in
    if_of_false false _ (ap not on)
    ∙ if_of_false false _ planned
    ∙ if_of_false false _ (ap not named)
    ∙ if_of_false false _ begun
    ∙ if_of_false false true ran

-- A daily run of the films, enabled and at an hour below 24 and a minute below 60, whose time has
-- passed when the next runs are determined, at the start, or at a tick at which it did not start,
-- is not made up for: the job is not due for the rest of that day, whenever it ran last.
pub should_run-missed :
    (s : SchedulerConfig) (state : JobState) (now later : ℕ)
    → IsTime s.movies_sync
    → s.movies_sync.enabled ≡ true
    → at_time s.movies_sync (day_of now) ≤ now
    → day_of later ≡ day_of now
    → should_run s movies (set_next_run state (next_of s movies state now)) later ≡ false
unfolding should_run next_of
should_run-missed s state now later fits on passed same =
    if_holds (λ b. b ≡ false) state.running false _ refl
      (missed state s.movies_sync now later fits on passed same)

-- The daily job of the films, enabled and at an hour below 24 and a minute below 60, whose next run
-- was determined before and is not the zero time, is due at each moment of the day of that run from
-- its time on, if it is not running and did not run on that day.
pub should_run-due :
    (s : SchedulerConfig) (state : JobState) (now later : ℕ)
    → IsTime s.movies_sync
    → s.movies_sync.enabled ≡ true
    → 0 < next_of s movies state now
    → next_of s movies state now ≤ later
    → day_of later ≡ day_of (next_of s movies state now)
    → state.running ≡ false
    → day_of state.last_run < day_of later
    → should_run s movies (set_next_run state (next_of s movies state now)) later ≡ true
unfolding should_run next_of
should_run-due s state now later fits on planned reached same idle fresh =
    let c = s.movies_sync in
    elim (next_run_time-earliest c now fits on) [
      | inr (zero_time, none_later) ↦ absurd (omega (arith, zero_time, planned))
      | inl (h, after, least) ↦
          let d : day_of (next_run_time c now) ≡ h.day =
            ap day_of h.at_its_time ∙ day_of-at_time c h.day fits in
          let on_day : weekday (candidate c later 0) ≡ (h.day + 1) % 7 =
            weekday_today c later fits ∙ ap (λ n. (n + 1) % 7) (same ∙ d) in
          let named : has_day c.days_of_week (weekday (candidate c later 0)) ≡ true =
            subst (λ n. has_day c.days_of_week n ≡ true) (sym on_day) h.on_its_day in
          let begun : ltb later (candidate c later 0) ≡ false =
            let there : candidate c later 0 ≡ next_run_time c now =
              ap (at_time c) (omega (arith, same, d)) ∙ sym h.at_its_time in
            subst (λ n. ltb later n ≡ false) (sym there) (ground (arith, reached)) in
          let now_due : ltb later (next_run_time c now) ≡ false = ground (arith, reached) in
          let not_ran : leb (day_of later) (day_of state.last_run) ≡ false =
            ground (arith, fresh) in
          if_of_false false _ idle
          ∙ due (set_next_run state (next_run_time c now)) c later on now_due named begun not_ran
    ]
