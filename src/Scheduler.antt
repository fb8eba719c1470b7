-- ===== src/Scheduler.antt =====
-- internal/syncer/scheduler/scheduler.go: when the jobs of the synchronization are due.
--
-- Times are nanoseconds since the zero time of Go, a Monday, by the clock of one place whose days have 24
-- hours; 0 is the zero time. A job has the kind that its name stands for in the switches. What runs a job
-- is Scheduler/Runs.
pub mod Times
pub mod Missed
pub mod Runs
pub mod Safe
mod Tests
use Prim.Native.String.{String}
use text.Mathlib.Text.{◌==◌ as str_eq}
use gostream.Prelude.{
  ℕ, zero, suc, ◌+◌, ◌-◌, ◌*◌, ◌/◌, ◌%◌, ◌==◌, ltb, leb, if◌then◌else◌, Bool, true, false, not,
  ◌&&◌, List, [], ◌∷◌, ◌++◌, Option, none, some,
}

pub record JobState : Type 0 where
  pub last_run : ℕ
  pub next_run : ℕ
  pub running : Bool
  pub last_error : String
  pub last_status : String

pub record DailyJobConfig : Type 0 where
  pub enabled : Bool
  pub days_of_week : List ℕ
  pub hour : ℕ
  pub minute : ℕ

pub record WatchlistSyncConfig : Type 0 where
  pub enabled : Bool
  pub interval_hours : ℕ

-- The schedule of a channel is that of a daily job.
pub record TvChannelSchedule : Type 0 where
  pub name : String
  pub daily : DailyJobConfig

pub record SchedulerConfig : Type 0 where
  pub movies_sync : DailyJobConfig
  pub tv_sync : DailyJobConfig
  pub watchlist_sync : WatchlistSyncConfig
  pub tv_channels : List TvChannelSchedule

pub data JobName : Type 0 where
  movies : JobName
  tv : JobName
  watchlist : JobName
  -- "tv:" and the name of a channel
  channel : String → JobName
  other : String → JobName

abbrev pub minute_length : ℕ
minute_length = 60_000_000_000

abbrev pub hour_length : ℕ
hour_length = 3_600_000_000_000

abbrev pub day_length : ℕ
day_length = 86_400_000_000_000

abbrev pub day_of : ℕ → ℕ
day_of t = t / day_length

-- Sunday is 0.
abbrev pub weekday : ℕ → ℕ
weekday t = (day_of t + 1) % 7

-- `time.Date` for a day and a time of it.
abbrev pub at_time : DailyJobConfig → ℕ → ℕ
at_time c day = day * day_length + c.hour * hour_length + c.minute * minute_length

abbrev pub has_day : List ℕ → ℕ → Bool
has_day [] w = false
has_day (d ∷ ds) w = if d == w then true else has_day ds w

abbrev pub candidate : DailyJobConfig → ℕ → ℕ → ℕ
candidate c now offset = at_time c (day_of now + offset)

-- Whether the candidate is returned. That of today has to be later than now.
abbrev pub is_next : DailyJobConfig → ℕ → ℕ → Bool
is_next c now offset =
    has_day c.days_of_week (weekday (candidate c now offset))
    && (if offset == 0 then ltb now (candidate c now offset) else true)

-- The offsets from `offset` on, as many as are left.
unfoldable pub next_from : DailyJobConfig → ℕ → ℕ → ℕ → ℕ
next_from c now offset zero = 0
next_from c now offset (suc left) =
    let rest = next_from c now (offset + 1) left in
    if is_next c now offset then candidate c now offset else rest

unfoldable pub next_run_time : DailyJobConfig → ℕ → ℕ
unfolding next_from
next_run_time c now = if not c.enabled then 0 else next_from c now 0 8

unfoldable pub should_run_daily : JobState → DailyJobConfig → ℕ → Bool
should_run_daily state c now =
    if not c.enabled
    then false
    else if not (state.next_run == 0) && ltb now state.next_run
    then false
    else if not (has_day c.days_of_week (weekday (candidate c now 0)))
    then false
    else if ltb now (candidate c now 0)
    then false
    else if not (state.last_run == 0) && leb (day_of now) (day_of state.last_run)
    then false
    else true

unfoldable pub should_run_interval : JobState → WatchlistSyncConfig → ℕ → Bool
should_run_interval state c now =
    if not c.enabled
    then false
    else if c.interval_hours == 0
    then false
    else if state.last_run == 0
    then true
    else leb (c.interval_hours * hour_length) (now - state.last_run)

abbrev pub find_channel : List TvChannelSchedule → String → Option DailyJobConfig
find_channel [] name = none
find_channel (ch ∷ chs) name = if str_eq ch.name name then some ch.daily else find_channel chs name

abbrev pub or_legacy : DailyJobConfig → Option DailyJobConfig → DailyJobConfig
or_legacy legacy none = legacy
or_legacy legacy (some c) = c

unfoldable pub should_run : SchedulerConfig → JobName → JobState → ℕ → Bool
unfolding should_run_daily should_run_interval
should_run s movies state now =
    if state.running then false else should_run_daily state s.movies_sync now
should_run s tv state now = if state.running then false else should_run_daily state s.tv_sync now
should_run s watchlist state now =
    if state.running then false else should_run_interval state s.watchlist_sync now
should_run s (channel name) state now =
    if state.running
    then false
    else should_run_daily state (or_legacy s.tv_sync (find_channel s.tv_channels name)) now
should_run s (other name) state now = false

-- A channel that is not found has no next run, though it is due by the legacy schedule.
abbrev pub next_of_channel : Option DailyJobConfig → ℕ → ℕ
next_of_channel none now = 0
next_of_channel (some c) now = next_run_time c now

unfoldable pub next_of : SchedulerConfig → JobName → JobState → ℕ → ℕ
unfolding next_run_time
next_of s movies state now = next_run_time s.movies_sync now
next_of s tv state now = next_run_time s.tv_sync now
next_of s watchlist state now =
    if s.watchlist_sync.enabled && not (s.watchlist_sync.interval_hours == 0)
    then state.last_run + s.watchlist_sync.interval_hours * hour_length
    else 0
next_of s (channel name) state now = next_of_channel (find_channel s.tv_channels name) now
next_of s (other name) state now = 0

abbrev pub set_next_run : JobState → ℕ → JobState
set_next_run state next = record state { next_run = next }

abbrev pub set_running : JobState → Bool → JobState
set_running state b = record state { running = b }

abbrev pub set_status : JobState → ℕ → String → String → JobState
set_status state now status error = record state {
  last_status = status;
  last_error = error;
  last_run = now;
}

unfoldable pub update_next_runs :
    SchedulerConfig → ℕ → List (JobName × JobState) → List (JobName × JobState)
unfolding next_of
update_next_runs s now [] = []
update_next_runs s now ((name, state) ∷ jobs) =
    (name, set_next_run state (next_of s name state now)) ∷ update_next_runs s now jobs

unfoldable pub due_jobs : SchedulerConfig → ℕ → List (JobName × JobState) → List JobName
unfolding should_run
due_jobs s now [] = []
due_jobs s now ((name, state) ∷ jobs) =
    let rest = due_jobs s now jobs in if should_run s name state now then name ∷ rest else rest

-- The jobs that are started, at one reading of the clock, and then the next runs, at another.
unfoldable pub tick_jobs :
    SchedulerConfig → ℕ → ℕ → List (JobName × JobState) → List JobName × List (JobName × JobState)
unfolding due_jobs update_next_runs
tick_jobs s now later jobs = (due_jobs s now jobs, update_next_runs s later jobs)

abbrev pub reset_running : List (JobName × JobState) → List (JobName × JobState)
reset_running [] = []
reset_running ((name, state) ∷ jobs) = (name, set_running state false) ∷ reset_running jobs

-- `New`, over the states that were saved.
unfoldable pub new_scheduler :
    SchedulerConfig → ℕ → List (JobName × JobState) → List (JobName × JobState)
unfolding update_next_runs
new_scheduler s now saved = update_next_runs s now (reset_running saved)
