-- ===== src/Torrstor/Shield/Stuck.antt =====
-- A shield that stays up.
use gostream.Prelude.{
  ℕ, ◌==◌, leb, ◌≡◌, refl, ◌∙◌, ap, Bool, true, false, Bool-cases, ◌&&◌, not, List, [], ◌∷◌, All,
  inl, inr, if_of_true, if_of_false, arith,
}
use gostream.Torrstor.Shield.{
  Shield, Position, outside, stores_time, tests_shield, counts, escalates, raises, tests_count,
  starts_watchdog, sleeps, compares, lowers, clears_count, releases, resets_watchdog, resets_count,
  resets_cycle, ShieldState, Event, marks, moves, resets, set_position, begin_mark, move, step, run,
}

-- A goroutine that will neither lower a raised shield nor count a corruption.
abbrev pub harmless : Position → Bool
harmless outside = true
harmless (stores_time enabled now) = true
harmless (tests_shield enabled) = true
harmless tests_count = true
harmless p = false

-- The shield is up, no corruption is counted, and no watchdog is there.
abbrev pub StuckAt : Shield → Type 0
StuckAt a = (a.shield_active ≡ true) × (a.corruption_count ≡ 0)

abbrev pub IsStuck : ShieldState → Type 0
IsStuck s = StuckAt s.shield × ((j : ℕ) → harmless (s.goroutines j) ≡ true)

abbrev pub is_reset : Event → Bool
is_reset (resets i) = true
is_reset e = false

move-stuck :
    (t : ℕ) (p : Position) (a : Shield)
    → StuckAt a
    → harmless p ≡ true
    → StuckAt (move t p a).0 × (harmless (move t p a).1 ≡ true)
unfolding move
move-stuck t outside a h k = (h, refl)
move-stuck t (stores_time enabled now) a h k = (h, refl)
move-stuck t (tests_shield enabled) a h k =
    (h, ap harmless (if_of_false {b = enabled && not a.shield_active} _ _ (ground (arith, h.0))))
move-stuck t counts a h k = absurd (cc k)
move-stuck t escalates a h k = absurd (cc k)
move-stuck t raises a h k = absurd (cc k)
move-stuck t tests_count a h k =
    (h, ap harmless (if_of_false {b = leb 1 a.corruption_count} _ _ (ground (arith, h.1))))
move-stuck t starts_watchdog a h k = absurd (cc k)
move-stuck t sleeps a h k = absurd (cc k)
move-stuck t (compares elapsed) a h k = absurd (cc k)
move-stuck t lowers a h k = absurd (cc k)
move-stuck t clears_count a h k = absurd (cc k)
move-stuck t releases a h k = absurd (cc k)
move-stuck t resets_watchdog a h k = absurd (cc k)
move-stuck t resets_count a h k = absurd (cc k)
move-stuck t resets_cycle a h k = absurd (cc k)

set_position-harmless :
    (g : ℕ → Position) (i : ℕ) (p : Position)
    → ((j : ℕ) → harmless (g j) ≡ true)
    → harmless p ≡ true
    → (j : ℕ) → harmless (set_position g i p j) ≡ true
set_position-harmless g i p h k j = elim (Bool-cases (j == i)) [
  | inl e ↦ ap harmless (if_of_true _ _ e) ∙ k
  | inr e ↦ ap harmless (if_of_false _ _ e) ∙ h j
]

begin_mark-harmless :
    (has_data enabled : Bool) (now : ℕ) (p : Position)
    → harmless p ≡ true
    → harmless (begin_mark has_data enabled now p) ≡ true
begin_mark-harmless true enabled now outside k = refl
begin_mark-harmless false enabled now outside k = refl
begin_mark-harmless d enabled now (stores_time b n) k = refl
begin_mark-harmless d enabled now (tests_shield b) k = refl
begin_mark-harmless d enabled now counts k = k
begin_mark-harmless d enabled now escalates k = k
begin_mark-harmless d enabled now raises k = k
begin_mark-harmless d enabled now tests_count k = k
begin_mark-harmless d enabled now starts_watchdog k = k
begin_mark-harmless d enabled now sleeps k = k
begin_mark-harmless d enabled now (compares n) k = k
begin_mark-harmless d enabled now lowers k = k
begin_mark-harmless d enabled now clears_count k = k
begin_mark-harmless d enabled now releases k = k
begin_mark-harmless d enabled now resets_watchdog k = k
begin_mark-harmless d enabled now resets_count k = k
begin_mark-harmless d enabled now resets_cycle k = k

step-IsStuck : (s : ShieldState) (e : Event) → is_reset e ≡ false → IsStuck s → IsStuck (step s e)
unfolding step
step-IsStuck s (marks i has_data adaptive responsive now) n (a, g) = (
  a,
  set_position-harmless s.goroutines i _ g
      (begin_mark-harmless has_data (adaptive && responsive) now (s.goroutines i) (g i)),
)
step-IsStuck s (moves i t) n (a, g) =
    let (b, k) = move-stuck t (s.goroutines i) s.shield a (g i) in
    (b, set_position-harmless s.goroutines i _ g k)
step-IsStuck s (resets i) n h = absurd (cc n)

-- A shield that is up with no corruption counted and no watchdog stays up, whatever the goroutines do
-- but for a reset.
pub run-IsStuck :
    (s : ShieldState) (es : List Event)
    → All (λ e. is_reset e ≡ false) es
    → IsStuck s
    → IsStuck (run s es)
unfolding run
run-IsStuck s [] n h = h
run-IsStuck s (e ∷ es) (n, ns) h = run-IsStuck (step s e) es ns (step-IsStuck s e n h)
