-- ===== src/Locks.antt =====
-- locks.go: a lock per file, shared by any number of goroutines.
--
-- An entry of the map is a pointer: the map holds its `id`, and `refs` and `held` are its fields. A
-- goroutine is where it stands in `Lock`, `TryLock` or the function that they return. What it does under
-- the manager's own mutex is one step, and so is each operation on the entry's mutex.
pub mod Counts
pub mod Sound
pub mod Enter
pub mod Leave
pub mod Exclusion
mod Tests
use Prim.Native.String.{String}
use text.Mathlib.Text.{◌==◌ as str_eq}
use gostream.Prelude.{
  ℕ, suc, ◌+◌, ◌-◌, ◌==◌, ◌≡◌, leb, if◌then◌else◌, Bool, true, false, List, [], ◌∷◌, ◌++◌, Option,
  none, some,
}

pub data Goroutine : Type 0 where
  idle : Goroutine
  -- behind the first section of `Lock`, before `entry.mu.Lock()` returns
  waiting : String → ℕ → Goroutine
  -- behind the first section of `TryLock`
  trying : String → ℕ → Goroutine
  holding : String → ℕ → Goroutine
  -- behind `entry.mu.Unlock()`, or behind a `TryLock` that failed
  leaving : String → ℕ → Goroutine

pub record Manager : Type 0 where
  pub locks : String → Option ℕ
  pub refs : ℕ → ℕ
  pub held : ℕ → Bool
  pub next_id : ℕ
  pub goroutines : List Goroutine

abbrev pub assign : (String → Option ℕ) → String → Option ℕ → String → Option ℕ
assign m k v j = if str_eq j k then v else m j

abbrev pub update {ℓ} : {A : Type ℓ} → (ℕ → A) → ℕ → A → ℕ → A
update f i v j = if j == i then v else f j

unfoldable pub new_lock_manager : List Goroutine → Manager
new_lock_manager goroutines = record {
  locks = λ path. none;
  refs = λ e. 0;
  held = λ e. false;
  next_id = 0;
  goroutines = goroutines;
}

-- The section that finds or makes the entry, and counts the caller.
unfoldable pub acquire_entry : Manager → String → Manager × ℕ
acquire_entry m path = elim (m.locks path) [
  | some e ↦ (record m { refs = update m.refs e (m.refs e + 1) }, e)
  | none ↦ (
    record m {
      locks = assign m.locks path (some m.next_id);
      refs = update m.refs m.next_id (0 + 1);
      held = update m.held m.next_id false;
      next_id = suc m.next_id;
    },
    m.next_id,
  )
]

-- The section that counts the caller out, and drops the entry that nobody uses.
unfoldable pub release_entry : Manager → String → ℕ → Manager
release_entry m path e =
    let n = m.refs e - 1 in
    record m {
      refs = update m.refs e n;
      locks = if leb n 0 then assign m.locks path none else m.locks;
    }

abbrev pub set_held : Manager → ℕ → Bool → Manager
set_held m e b = record m { held = update m.held e b }

abbrev pub with_goroutines : Manager → List Goroutine → Manager
with_goroutines m gs = record m { goroutines = gs }

-- One goroutine, `g`, takes a step among the others.
pub data Step (m : Manager) : Manager → Type 0 where
  lock_enters :
      (before after : List Goroutine) (path : String)
      → m.goroutines ≡ before ++ idle ∷ after
      → Step m (
          with_goroutines
            (acquire_entry m path).0
            (before ++ waiting path (acquire_entry m path).1 ∷ after))
  try_enters :
      (before after : List Goroutine) (path : String)
      → m.goroutines ≡ before ++ idle ∷ after
      → Step m (
          with_goroutines
            (acquire_entry m path).0
            (before ++ trying path (acquire_entry m path).1 ∷ after))
  lock_acquires :
      (before after : List Goroutine) (path : String) (e : ℕ)
      → m.goroutines ≡ before ++ waiting path e ∷ after
      → m.held e ≡ false
      → Step m (with_goroutines (set_held m e true) (before ++ holding path e ∷ after))
  try_acquires :
      (before after : List Goroutine) (path : String) (e : ℕ)
      → m.goroutines ≡ before ++ trying path e ∷ after
      → m.held e ≡ false
      → Step m (with_goroutines (set_held m e true) (before ++ holding path e ∷ after))
  try_fails :
      (before after : List Goroutine) (path : String) (e : ℕ)
      → m.goroutines ≡ before ++ trying path e ∷ after
      → m.held e ≡ true
      → Step m (with_goroutines m (before ++ leaving path e ∷ after))
  unlocks :
      (before after : List Goroutine) (path : String) (e : ℕ)
      → m.goroutines ≡ before ++ holding path e ∷ after
      → Step m (with_goroutines (set_held m e false) (before ++ leaving path e ∷ after))
  leaves :
      (before after : List Goroutine) (path : String) (e : ℕ)
      → m.goroutines ≡ before ++ leaving path e ∷ after
      → Step m (with_goroutines (release_entry m path e) (before ++ idle ∷ after))

pub data Reach (m : Manager) : Manager → Type 0 where
  here : Reach m m
  next : {n k : Manager} → Reach m n → Step n k → Reach m k

abbrev pub AllIdle : List Goroutine → Type 0
AllIdle [] = Unit
AllIdle (g ∷ gs) = (g ≡ idle) × AllIdle gs
