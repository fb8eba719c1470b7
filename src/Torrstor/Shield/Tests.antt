-- ===== src/Torrstor/Shield/Tests.antt =====
-- Runs of the shield.
use gostream.Prelude.{
  ℕ, ◌*◌, ◌==◌, ◌≡◌, refl, true, false, Bool-cases, inl, inr, List, [], ◌∷◌, ◌++◌, All,
}
use gostream.Torrstor.Shield.{
  ShieldState, Event, moves, initial_state, second, clears_count, outside, is_responsive, run,
}
use gostream.Torrstor.Shield.Stuck.{is_reset}
use gostream.Torrstor.Shield.Raced.{race, marking, lowered, race-is_responsive}

program : Unit {0}
unfolding run is_responsive
program = tt

-- Two corruptions, the first of which starts the watchdog in goroutine 0.
abbrev twice : List Event
twice = marking 0 10 0 ++ marking 1 12 0

raised_shield : is_responsive true (run initial_state twice).shield ≡ false
unfolding program
raised_shield = refl

-- A round of the watchdog after a clean streak, up to the lowering of the shield.
abbrev round : List Event
round = moves 0 (140 * second) ∷ moves 0 (140 * second) ∷ moves 0 (140 * second) ∷ []

abbrev at_lowered : ShieldState
at_lowered = run initial_state (twice ++ round)

lowered_again : is_responsive true at_lowered.shield ≡ true
unfolding program
lowered_again = refl

others_outside : (j : ℕ) → j == 0 ≡ false → at_lowered.goroutines j ≡ outside
unfolding program
others_outside j e = elim (Bool-cases (j == 1)) [ inl k ↦ rw (e, k) refl | inr k ↦ rw (e, k) refl ]

at_lowered-shield : at_lowered.shield ≡ lowered 12 1 1
unfolding program
at_lowered-shield = refl

at_lowered-clears : at_lowered.goroutines 0 ≡ clears_count
unfolding program
at_lowered-clears = refl

-- Two more corruptions.
abbrev later : List Event
later = marking 2 400 0 ++ marking 3 900 0

none_resets : All (λ e. is_reset e ≡ false) later
none_resets = (
  refl,
  (
    refl,
    (
      refl,
      (
        refl,
        (
          refl,
          (
            refl,
            (refl, (refl, (refl, (refl, (refl, (refl, (refl, (refl, (refl, (refl, tt)))))))))),
          ),
        ),
      ),
    ),
  ),
)

race-is_responsive_example :
    is_responsive true (run (run at_lowered (race 1 0 200 0)) later).shield ≡ false
race-is_responsive_example =
    race-is_responsive 1 0 200 0 12 1 1 true at_lowered later at_lowered-shield at_lowered-clears
      others_outside refl none_resets
