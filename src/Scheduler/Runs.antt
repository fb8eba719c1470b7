-- ===== src/Scheduler/Runs.antt =====
-- internal/syncer/scheduler/scheduler.go: the goroutines that run one job, and those that start and stop it.
--
-- Jobs do not share what is modelled here. A goroutine is where it stands in `runJob`, with a number of its
-- own, which is its context and the cancel function of that. What is done under one mutex is one step.
use Prim.Native.String.{String}
use gostream.Prelude.{
  ℕ, suc, ◌==◌, ◌≡◌, if◌then◌else◌, Bool, true, false, List, [], ◌∷◌, ◌++◌, Option, none, some,
}
use gostream.Scheduler.{JobState, set_running, set_status}

pub data Goroutine : Type 0 where
  -- behind the look at `Running` in `TriggerRun` or `shouldRun`, before `SetRunning(true)`
  starting : ℕ → Goroutine
  -- before the cancel function is stored
  begun : ℕ → Goroutine
  -- in `syncer.Run`
  working : ℕ → Goroutine
  -- behind `SetRunning(false)`, with what `SetStatus` is called with
  returned : ℕ → String → String → Goroutine
  -- before the cancel function is deleted
  saved : ℕ → Goroutine

pub record Job : Type 0 where
  pub state : JobState
  pub cancel : Option ℕ
  pub cancelled : ℕ → Bool
  pub goroutines : List Goroutine
  pub next_id : ℕ

-- What `syncer.Run` comes to.
pub data Outcome : Type 0 where
  fine : Outcome
  fails : String → Outcome
  panics : String → Outcome

-- The status, and the error.
unfoldable pub status_of : Bool → Outcome → String × String
status_of stopped (panics message) = ("failed", message)
status_of true fine = ("stopped", "")
status_of true (fails message) = ("stopped", "")
status_of false fine = ("ok", "")
status_of false (fails message) = ("failed", message)

unfoldable pub new_job : JobState → Job
new_job state = record {
  state = set_running state false;
  cancel = none;
  cancelled = λ i. false;
  goroutines = [];
  next_id = 0;
}

abbrev pub with_goroutines : Job → List Goroutine → Job
with_goroutines m gs = record m { goroutines = gs }

-- The change that a goroutine makes.
abbrev pub trigger_run : Job → Job
trigger_run m = record m { goroutines = starting m.next_id ∷ m.goroutines; next_id = suc m.next_id }

abbrev pub begin_run : Job → Job
begin_run m = record m { state = set_running m.state true }

abbrev pub store_cancel : Job → ℕ → Job
store_cancel m i = record m { cancel = some i }

abbrev pub end_run : Job → Job
end_run m = record m { state = set_running m.state false }

abbrev pub save_status : Job → ℕ → String → String → Job
save_status m now status error = record m { state = set_status m.state now status error }

abbrev pub delete_cancel : Job → Job
delete_cancel m = record m { cancel = none }

-- Whether `StopJob` finds the job, and the job.
unfoldable pub stop_job : Job → Bool × Job
stop_job m = elim m.cancel [
  | none ↦ (false, m)
  | some i ↦ (true, record m { cancelled = λ j. if j == i then true else m.cancelled j })
]

pub data Step (m : Job) : Job → Type 0 where
  triggers : m.state.running ≡ false → Step m (trigger_run m)
  begins :
      (before after : List Goroutine) (i : ℕ)
      → m.goroutines ≡ before ++ starting i ∷ after
      → Step m (with_goroutines (begin_run m) (before ++ begun i ∷ after))
  stores :
      (before after : List Goroutine) (i : ℕ)
      → m.goroutines ≡ before ++ begun i ∷ after
      → Step m (with_goroutines (store_cancel m i) (before ++ working i ∷ after))
  returns :
      (before after : List Goroutine) (i : ℕ) (o : Outcome)
      → m.goroutines ≡ before ++ working i ∷ after
      → Step m (
          with_goroutines (end_run m) (
            before
            ++ returned i (status_of (m.cancelled i) o).0 (status_of (m.cancelled i) o).1 ∷ after))
  saves :
      (before after : List Goroutine) (i now : ℕ) (status error : String)
      → m.goroutines ≡ before ++ returned i status error ∷ after
      → Step m (with_goroutines (save_status m now status error) (before ++ saved i ∷ after))
  leaves :
      (before after : List Goroutine) (i : ℕ)
      → m.goroutines ≡ before ++ saved i ∷ after
      → Step m (with_goroutines (delete_cancel m) (before ++ after))
  stops : Step m (stop_job m).1

pub data Reach (m : Job) : Job → Type 0 where
  here : Reach m m
  next : {n k : Job} → Reach m n → Step n k → Reach m k
