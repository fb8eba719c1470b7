-- ===== src/Torrstor/Shield/Raced.antt =====
-- A corruption between the two last steps of a watchdog.
use gostream.Prelude.{
  ℕ, suc, ◌+◌, ◌==◌, ltb, leb, ◌≡◌, refl, ◌∙◌, sym, ap, subst, Bool, true, false, Bool-cases, List,
  [], ◌∷◌, ◌++◌, All, inl, inr, if_of_true, if_of_false, arith,
}
use gostream.Torrstor.Shield.{
  Shield, Position, outside, stores_time, tests_shield, counts, escalates, raises, tests_count,
  starts_watchdog, clears_count, releases, ShieldState, Event, marks, moves, begin_mark,
  is_responsive, move, step, run,
}
use gostream.Torrstor.Shield.Stuck.{harmless, StuckAt, IsStuck, is_reset, run-IsStuck}

-- What the atomics are, where one goroutine stands, and that the others stand where they stood.
abbrev Solo : (ℕ → Position) → ℕ → Position → Shield → ShieldState → Type 0
Solo g i p a s =
    (s.goroutines i ≡ p) × (s.shield ≡ a) × ((j : ℕ) → j == i ≡ false → s.goroutines j ≡ g j)

move-Solo :
    (g : ℕ → Position) (i t : ℕ) (p : Position) (a : Shield) (s : ShieldState)
    → Solo g i p a s
    → Solo g i (move t p a).1 (move t p a).0 (step s (moves i t))
unfolding step
move-Solo g i t p a s (x, y, z) = (
  if_of_true {b = i == i} _ _ (ground arith)
      ∙ (ap (λ q. (move t q s.shield).1) x ∙ ap (λ b. (move t p b).1) y),
  ap (λ q. (move t q s.shield).0) x ∙ ap (λ b. (move t p b).0) y,
  λ j n. if_of_false _ _ n ∙ z j n,
)

-- A watchdog is about to clear the count: it has lowered the shield, `n + 1` corruptions are counted.
abbrev pub lowered : ℕ → ℕ → ℕ → Shield
lowered last n cycle = record {
  last_corruption = last;
  shield_active = false;
  is_watchdog_running = true;
  corruption_count = suc n;
  strict_cycle_count = cycle;
}

-- The call of MarkNotComplete in goroutine `m`.
abbrev pub marking : ℕ → ℕ → ℕ → List Event
marking m now t =
    marks m true true true now
    ∷ moves m t
    ∷ moves m t
    ∷ moves m t
    ∷ moves m t
    ∷ moves m t
    ∷ moves m t
    ∷ moves m t
    ∷ []

-- The whole call, and then the two last steps of the watchdog in goroutine `w`.
abbrev pub race : ℕ → ℕ → ℕ → ℕ → List Event
race m w now t = marking m now t ++ (moves w t ∷ moves w t ∷ [])

-- The shield is raised again, while the watchdog is still marked as running.
abbrev reraised : ℕ → ℕ → ℕ → Shield
reraised now n cycle = record {
  last_corruption = now;
  shield_active = true;
  is_watchdog_running = true;
  corruption_count = suc n + 1;
  strict_cycle_count = cycle + 1;
}

begin-Solo :
    (m now : ℕ) (a : Shield) (s : ShieldState)
    → s.goroutines m ≡ outside
    → s.shield ≡ a
    → Solo s.goroutines m (stores_time true now) a (step s (marks m true true true now))
unfolding step
begin-Solo m now a s o y = (
  if_of_true {b = m == m} _ _ (ground arith) ∙ ap (begin_mark true true now) o,
  y,
  λ j n. if_of_false _ _ n,
)

-- A corruption that is counted raises the shield, and finds the watchdog marked as running.
marking-Solo :
    (m now t last n cycle : ℕ) (s : ShieldState)
    → s.goroutines m ≡ outside
    → s.shield ≡ lowered last n cycle
    → Solo s.goroutines m outside (reraised now n cycle) (run s (marking m now t))
unfolding run move
marking-Solo m now t last n cycle s o y =
    let g = s.goroutines in
    let s0 = step s (marks m true true true now) in
    let s1 = step s0 (moves m t) in
    let s2 = step s1 (moves m t) in
    let s3 = step s2 (moves m t) in
    let s4 = step s3 (moves m t) in
    let s5 = step s4 (moves m t) in
    let s6 = step s5 (moves m t) in
    let a0 = lowered last n cycle in
    let a1 : Shield = record a0 { last_corruption = now } in
    let a3 : Shield = record a1 { corruption_count = suc n + 1 } in
    let a4 : Shield = record a3 { strict_cycle_count = cycle + 1 } in
    let a5 = reraised now n cycle in
    let h0 = begin-Solo m now a0 s o y in
    let h1 = move-Solo g m t (stores_time true now) a0 s0 h0 in
    let h2 = move-Solo g m t (tests_shield true) a1 s1 h1 in
    let h3 : Solo g m escalates a3 s3 =
      subst (λ p. Solo g m p a3 s3)
        (if_of_true {b = ltb 1 (suc n + 1)} escalates tests_count (ground arith))
        (move-Solo g m t counts a1 s2 h2) in
    let h4 = move-Solo g m t escalates a3 s3 h3 in
    let h5 = move-Solo g m t raises a4 s4 h4 in
    let h6 : Solo g m starts_watchdog a5 s6 =
      subst (λ p. Solo g m p a5 s6)
        (if_of_true {b = leb 1 (suc n + 1)} starts_watchdog outside (ground arith))
        (move-Solo g m t tests_count a5 s5 h5) in
    move-Solo g m t starts_watchdog a5 s6 h6

-- The last two steps of a watchdog.
releasing-Solo :
    (g : ℕ → Position) (w t : ℕ) (a : Shield) (s : ShieldState)
    → Solo g w clears_count a s
    → Solo g w outside
        (record a { corruption_count = 0; is_watchdog_running = false })
        (step (step s (moves w t)) (moves w t))
unfolding move
releasing-Solo g w t a s h =
    move-Solo g w t releases (record a { corruption_count = 0 }) (step s (moves w t))
      (move-Solo g w t clears_count a s h)

-- First one goroutine went on and ended, then another one, and the rest was outside.
ended-IsStuck :
    (g : ℕ → Position) (m w : ℕ) (a b : Shield) (s s' : ShieldState)
    → ((j : ℕ) → j == w ≡ false → g j ≡ outside)
    → Solo g m outside a s
    → Solo s.goroutines w outside b s'
    → StuckAt b
    → IsStuck s'
ended-IsStuck g m w a b s s' o (x, y, f) (x', y', f') k =
    (subst StuckAt (sym y') k, λ j. ap harmless (stands j))
  where
    before : (j : ℕ) → j == w ≡ false → s.goroutines j ≡ outside
    before j e = elim (Bool-cases (j == m)) [
      | inl k ↦ ap s.goroutines (ground (arith, k)) ∙ x
      | inr k ↦ f j k ∙ o j e
    ]

    stands : (j : ℕ) → s'.goroutines j ≡ outside
    stands j = elim (Bool-cases (j == w)) [
      | inl e ↦ ap s'.goroutines (ground (arith, e)) ∙ x'
      | inr e ↦ f' j e ∙ before j e
    ]

run-race :
    (s : ShieldState) (m w now t : ℕ)
    → run s (race m w now t) ≡ step (step (run s (marking m now t)) (moves w t)) (moves w t)
unfolding run
run-race s m w now t = refl

race-IsStuck :
    (m w now t last n cycle : ℕ) (s : ShieldState)
    → s.shield ≡ lowered last n cycle
    → s.goroutines w ≡ clears_count
    → ((j : ℕ) → j == w ≡ false → s.goroutines j ≡ outside)
    → m == w ≡ false
    → IsStuck (run s (race m w now t))
race-IsStuck m w now t last n cycle s y c o d =
    let s1 = run s (marking m now t) in
    let s2 = step (step s1 (moves w t)) (moves w t) in
    let a = reraised now n cycle in
    let b : Shield = record a { corruption_count = 0; is_watchdog_running = false } in
    let marked = marking-Solo m now t last n cycle s (o m d) y in
    let w_stays : w == m ≡ false = ground (arith, d) in
    let cleared : Solo s1.goroutines w clears_count a s1 =
      (marked.2 w w_stays ∙ c, marked.1, λ j n. refl) in
    subst IsStuck (sym (run-race s m w now t)) (
      ended-IsStuck s.goroutines m w a b s1 s2 o marked
        (releasing-Solo s1.goroutines w t a s1 cleared) (refl, refl))

-- A watchdog has lowered the shield and is about to clear the count, with at least one corruption
-- counted, and no other call is under way. A corrupt piece is then marked in another goroutine, with
-- both settings on, before the watchdog does its two last steps. Whatever happens from then on,
-- however many corruptions or steps of whichever goroutines, but for a reset: the shield stays up, and
-- the responsive mode is off.
pub race-is_responsive :
    (m w now t last n cycle : ℕ) (responsive_mode : Bool) (s : ShieldState) (es : List Event)
    → s.shield ≡ lowered last n cycle
    → s.goroutines w ≡ clears_count
    → ((j : ℕ) → j == w ≡ false → s.goroutines j ≡ outside)
    → m == w ≡ false
    → All (λ e. is_reset e ≡ false) es
    → is_responsive responsive_mode (run (run s (race m w now t)) es).shield ≡ false
unfolding is_responsive
race-is_responsive m w now t last n cycle responsive_mode s es y c o d k =
    let stuck =
      run-IsStuck (run s (race m w now t)) es k (race-IsStuck m w now t last n cycle s y c o d) in
    ground (arith, stuck.0.0)
