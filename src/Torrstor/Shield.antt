-- ===== src/Torrstor/Shield.antt =====
-- internal/gostorm/torr/storage/torrstor/piece.go: the adaptive shield, which stops serving unchecked
-- data after repeated corruption, until a clean streak.
--
-- The global atomics are one record. Every operation on one of them is a step of a goroutine, so that
-- MarkNotComplete, the watchdogs and ResetShield interleave as they may. Where a goroutine stands is
-- named for what it does next. The one that starts a watchdog has nothing else left to do, and is shown
-- as the watchdog. Times are in seconds, `now_nano` in nanoseconds; an elapsed time below 0 is 0.
pub mod Stuck
pub mod Raced
mod Tests
use gostream.Prelude.{
  ℕ, ◌+◌, ◌-◌, ◌*◌, ◌==◌, ltb, leb, if◌then◌else◌, Bool, true, false, ◌&&◌, not, List, [], ◌∷◌,
}

pub record Shield : Type 0 where
  pub last_corruption : ℕ
  pub shield_active : Bool
  pub is_watchdog_running : Bool
  pub corruption_count : ℕ
  pub strict_cycle_count : ℕ

abbrev pub initial : Shield
initial = record {
  last_corruption = 0;
  shield_active = false;
  is_watchdog_running = false;
  corruption_count = 0;
  strict_cycle_count = 0;
}

abbrev pub second : ℕ
second = 1_000_000_000

unfoldable pub is_responsive : Bool → Shield → Bool
is_responsive responsive_mode a = responsive_mode && not a.shield_active

-- Where a goroutine stands. `stores_time` holds whether both settings are on, and the clock;
-- `compares` holds the time that has elapsed since the last corruption.
pub data Position : Type 0 where
  outside : Position
  stores_time : Bool → ℕ → Position
  tests_shield : Bool → Position
  counts : Position
  escalates : Position
  raises : Position
  tests_count : Position
  starts_watchdog : Position
  sleeps : Position
  compares : ℕ → Position
  lowers : Position
  clears_count : Position
  releases : Position
  resets_watchdog : Position
  resets_count : Position
  resets_cycle : Position

-- How many seconds without corruption a watchdog waits for.
unfoldable pub clean_needed : ℕ → ℕ
clean_needed cycle =
    let needed = 30 * cycle in if ltb needed 30 then 30 else if ltb 120 needed then 120 else needed

-- The next operation of a goroutine on the atomics.
unfoldable pub move : ℕ → Position → Shield → Shield × Position
unfolding clean_needed
move now_nano outside a = (a, outside)
move now_nano (stores_time enabled now) a =
    (record a { last_corruption = now }, tests_shield enabled)
move now_nano (tests_shield enabled) a =
    (a, if enabled && not a.shield_active then counts else tests_count)
move now_nano counts a = (
  record a { corruption_count = a.corruption_count + 1 },
  if ltb 1 (a.corruption_count + 1) then escalates else tests_count,
)
move now_nano escalates a = (record a { strict_cycle_count = a.strict_cycle_count + 1 }, raises)
move now_nano raises a = (record a { shield_active = true }, tests_count)
move now_nano tests_count a = (a, if leb 1 a.corruption_count then starts_watchdog else outside)
move now_nano starts_watchdog a =
    (record a { is_watchdog_running = true }, if a.is_watchdog_running then outside else sleeps)
move now_nano sleeps a = (a, compares (now_nano - a.last_corruption * second))
move now_nano (compares elapsed) a =
    (a, if ltb (clean_needed a.strict_cycle_count * second) elapsed then lowers else sleeps)
move now_nano lowers a = (record a { shield_active = false }, clears_count)
move now_nano clears_count a = (record a { corruption_count = 0 }, releases)
move now_nano releases a = (record a { is_watchdog_running = false }, outside)
move now_nano resets_watchdog a = (record a { is_watchdog_running = false }, resets_count)
move now_nano resets_count a = (record a { corruption_count = 0 }, resets_cycle)
move now_nano resets_cycle a = (record a { strict_cycle_count = 0 }, outside)

pub record ShieldState : Type 0 where
  pub shield : Shield
  pub goroutines : ℕ → Position

abbrev pub initial_state : ShieldState
initial_state = record { shield = initial; goroutines = λ i. outside }

-- `marks` is a call of MarkNotComplete, with whether the piece has a buffer (one without was evicted,
-- not corrupt), the settings of the adaptive shield and of the responsive mode, and the clock.
-- `resets` is the first operation of ResetShield.
pub data Event : Type 0 where
  marks : ℕ → Bool → Bool → Bool → ℕ → Event
  moves : ℕ → ℕ → Event
  resets : ℕ → Event

abbrev pub set_position : (ℕ → Position) → ℕ → Position → ℕ → Position
set_position g i p j = if j == i then p else g j

-- A call starts only in a goroutine that is outside.
abbrev pub begin_mark : Bool → Bool → ℕ → Position → Position
begin_mark has_data enabled now outside = if has_data then stores_time enabled now else outside
begin_mark has_data enabled now p = p

abbrev pub begin_reset : Shield → Position → Shield × Position
begin_reset a outside = (record a { shield_active = false }, resets_watchdog)
begin_reset a p = (a, p)

unfoldable pub step : ShieldState → Event → ShieldState
unfolding move
step s (marks i has_data adaptive_shield responsive_mode now) = record s {
  goroutines =
      set_position s.goroutines i
        (begin_mark has_data (adaptive_shield && responsive_mode) now (s.goroutines i));
}
step s (moves i now_nano) =
    let (a, p) = move now_nano (s.goroutines i) s.shield in
    record { shield = a; goroutines = set_position s.goroutines i p }
step s (resets i) =
    let (a, p) = begin_reset s.shield (s.goroutines i) in
    record { shield = a; goroutines = set_position s.goroutines i p }

unfoldable pub run : ShieldState → List Event → ShieldState
unfolding step
run s [] = s
run s (e ∷ es) = run (step s e) es
