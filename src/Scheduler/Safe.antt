-- ===== src/Scheduler/Safe.antt =====
-- What a job shows follows from the goroutines that run it.
use gostream.Prelude.{
  ℕ, ◌+◌, ◌≤◌, ◌<◌, ◌≡◌, ◌≢◌, refl, ap, ◌∙◌, if◌then◌else◌, Option-cases, Bool-cases, Bool, true,
  List, [], ◌∷◌, ◌++◌, Option, none, some, inl, inr, arith,
}
use gostream.Scheduler.{JobState}
use gostream.Scheduler.Runs.{
  Goroutine, starting, begun, working, returned, saved, Job, status_of, new_job, stop_job, Step,
  triggers, begins, stores, returns, saves, leaves, stops, Reach, here, next,
}

-- The goroutines behind `SetRunning(true)` and before `SetRunning(false)`.
abbrev pub is_busy : Goroutine → ℕ
is_busy (starting i) = 0
is_busy (begun i) = 1
is_busy (working i) = 1
is_busy (returned i status error) = 0
is_busy (saved i) = 0

-- Those that have stored their cancel function.
abbrev pub has_stored : Goroutine → ℕ
has_stored (starting i) = 0
has_stored (begun i) = 0
has_stored (working i) = 1
has_stored (returned i status error) = 1
has_stored (saved i) = 1

abbrev pub count_of : (Goroutine → ℕ) → List Goroutine → ℕ
count_of f [] = 0
count_of f (g ∷ gs) = f g + count_of f gs

count_of-append :
    (f : Goroutine → ℕ) (gs hs : List Goroutine)
    → count_of f (gs ++ hs) ≡ count_of f gs + count_of f hs
count_of-append f [] hs = omega arith
count_of-append f (g ∷ gs) hs = omega (arith, count_of-append f gs hs)

-- A running job is run, and a cancel function that is stored is that of a goroutine that lives.
pub record IsHonest (m : Job) : Type 0 where
  pub is_run : m.state.running ≡ true → 0 < count_of is_busy m.goroutines
  pub is_owned : m.cancel ≢ none → 0 < count_of has_stored m.goroutines

-- A goroutine goes on, to a place that counts as much.
goes_on :
    (f : Goroutine → ℕ) (m : Job) (before after : List Goroutine) (g k : Goroutine)
    → m.goroutines ≡ before ++ g ∷ after
    → f g ≤ f k
    → 0 < count_of f m.goroutines
    → 0 < count_of f (before ++ k ∷ after)
goes_on f m before after g k e h positive =
    let old : count_of f m.goroutines ≡ count_of f before + (f g + count_of f after) =
      ap (count_of f) e ∙ count_of-append f before (g ∷ after) in
    omega (arith, old, count_of-append f before (k ∷ after), h, positive)

-- One that counts is there.
counts_one :
    (f : Goroutine → ℕ) (before after : List Goroutine) (k : Goroutine)
    → f k ≡ 1
    → 0 < count_of f (before ++ k ∷ after)
counts_one f before after k h = omega (arith, count_of-append f before (k ∷ after), h)

Step-IsHonest : (m n : Job) → Step m n → IsHonest m → IsHonest n
unfolding stop_job
Step-IsHonest m n (triggers idle) h = record {
  is_run = λ t. omega (arith, h.is_run t);
  is_owned = λ t. omega (arith, h.is_owned t);
}
Step-IsHonest m n (begins before after i e) h = record {
  is_run = λ t. counts_one is_busy before after (begun i) refl;
  is_owned =
      λ t. goes_on has_stored m before after (starting i) (begun i) e (omega arith) (h.is_owned t);
}
Step-IsHonest m n (stores before after i e) h = record {
  is_run = λ t. goes_on is_busy m before after (begun i) (working i) e (omega arith) (h.is_run t);
  is_owned = λ t. counts_one has_stored before after (working i) refl;
}
Step-IsHonest m n (returns before after i o e) h =
    let out = status_of (m.cancelled i) o in
    record {
      is_run = λ t. absurd cc;
      is_owned = λ t.
          goes_on has_stored m before after (working i) (returned i out.0 out.1) e (omega arith)
            (h.is_owned t);
    }
Step-IsHonest m n (saves before after i now status error e) h = record {
  is_run = λ t.
      goes_on is_busy m before after (returned i status error) (saved i) e (omega arith)
        (h.is_run t);
  is_owned = λ t. counts_one has_stored before after (saved i) refl;
}
Step-IsHonest m n (leaves before after i e) h = record {
  is_run = λ t. omega (
    arith,
    goes_on is_busy m before after (saved i) (saved i) e (omega arith) (h.is_run t),
    count_of-append is_busy before (saved i ∷ after),
    count_of-append is_busy before after,
  );
  is_owned = λ t. absurd (t refl);
}
Step-IsHonest m n stops h = elim (Option-cases m.cancel) [
  | inl e ↦ rw (e, stop_job) h
  | inr (i, e) ↦ rw (e, stop_job) (record { is_run = h.is_run; is_owned = h.is_owned })
]

new-IsHonest : (state : JobState) → IsHonest (new_job state)
unfolding new_job
new-IsHonest state = record { is_run = λ t. absurd cc; is_owned = λ t. absurd (t refl) }

Reach-IsHonest : (m n : Job) → Reach m n → IsHonest m → IsHonest n
Reach-IsHonest m n here h = h
Reach-IsHonest m n (next {n = k} r t) h = Step-IsHonest k n t (Reach-IsHonest m k r h)

abbrev pub shown : Bool → ℕ
shown b = if b then 1 else 0

abbrev pub stored : Option ℕ → ℕ
stored none = 0
stored (some i) = 1

-- However runs of a job are started, stopped and interleaved from the start on: a job that is shown as
-- running has a goroutine behind `SetRunning(true)` and before `SetRunning(false)`, and where a cancel function
-- is stored there is a goroutine that has stored its own and not yet deleted it.
pub Reach-owned :
    (state : JobState) (m : Job)
    → Reach (new_job state) m
    → (shown m.state.running ≤ count_of is_busy m.goroutines)
      × (stored m.cancel ≤ count_of has_stored m.goroutines)
Reach-owned state m r =
    let h = Reach-IsHonest (new_job state) m r (new-IsHonest state) in
    (
      elim (Bool-cases m.state.running) [
        | inl t ↦ rw t (omega (arith, h.is_run t))
        | inr t ↦ rw t (omega arith)
      ],
      elim (Option-cases m.cancel) [
        | inl t ↦ rw t (omega arith)
        | inr (i, t) ↦ rw t (omega (arith, h.is_owned (λ k. absurd cc)))
      ],
    )
