-- ===== src/RateLimiter/Rate.antt =====
-- How many tokens callers get.
use gostream.Prelude.{
  ℕ, zero, suc, ◌+◌, ◌*◌, ◌≤◌, ◌≡◌, refl, ltb, Bool-cases, inl, inr, if_of_true, if_of_false, subst,
  sym, ◌&&◌, List, [], ◌∷◌, arith,
}
use gostream.RateLimiter.{
  Phase, waiting, draining, refilling, RateLimiter, new_rate_limiter, acquire, tick, drain, refill,
  proceed, stop, Event, acquires, ticks, proceeds, stops, step, run,
}

-- What the resets have brought back so far, beside the full rounds before.
abbrev brought : ℕ → Phase → ℕ
brought capacity waiting = capacity
brought capacity draining = 0
brought capacity (refilling i) = i

-- Of a limiter with capacity `n`, in a phase.
abbrev InBudget : ℕ → RateLimiter → Phase → Type 0
InBudget n rl p =
    (rl.capacity ≡ n)
    × (rl.sem ≤ n)
    × (rl.granted + rl.sem ≤ n * rl.resets + brought n p)
    × (brought n p ≤ n)

tick-budget : (n g r : ℕ) → g ≤ n * r + n → g ≤ n * (r + 1) + 0
tick-budget n g r h = omega arith

-- The invariant of a limiter with capacity `n`.
abbrev Kept : ℕ → RateLimiter → Type 0
Kept n rl = InBudget n rl rl.phase

acquire-Kept : (n : ℕ) (rl : RateLimiter) (k : ℕ) → rl.sem ≡ k → Kept n rl → Kept n (acquire rl k)
unfolding acquire
acquire-Kept n rl zero e h = h
acquire-Kept n rl (suc k) e h = (h.0, omega (arith, e, h.1), omega (arith, e, h.2), h.3)

tick-Kept : (n : ℕ) (rl : RateLimiter) (p : Phase) → rl.phase ≡ p → Kept n rl → Kept n (tick rl p)
unfolding tick
tick-Kept n rl waiting e h = elim (Bool-cases rl.stopped) [
  | inl t ↦ subst (Kept n) (sym (if_of_true _ _ t)) h
  | inr t ↦ subst (Kept n) (sym (if_of_false _ _ t)) (
      let k = subst (InBudget n rl) e h in
      (k.0, k.1, tick-budget n (rl.granted + rl.sem) rl.resets k.2, omega arith))
]
tick-Kept n rl draining e h = h
tick-Kept n rl (refilling i) e h = h

stop-Kept : (n : ℕ) (rl : RateLimiter) (p : Phase) → Kept n rl → Kept n (stop rl p)
unfolding stop
stop-Kept n rl waiting h = h
stop-Kept n rl draining h = h
stop-Kept n rl (refilling i) h = h

drain-Kept :
    (n : ℕ) (rl : RateLimiter) (k : ℕ)
    → rl.sem ≡ k
    → rl.phase ≡ draining
    → Kept n rl
    → Kept n (drain rl k)
unfolding drain
drain-Kept n rl zero e p h = let b = subst (InBudget n rl) p h in (b.0, b.1, b.2, omega arith)
drain-Kept n rl (suc k) e p h = (h.0, omega (arith, e, h.1), omega (arith, e, h.2), h.3)

refill-Kept :
    (n : ℕ) (rl : RateLimiter) (i : ℕ) → InBudget n rl (refilling i) → Kept n (refill rl i)
unfolding refill
refill-Kept n rl i h = elim (Bool-cases (ltb i rl.capacity && ltb rl.sem rl.capacity)) [
  | inl t ↦
      subst (Kept n) (sym (if_of_true _ _ t))
        (h.0, ground (arith, h.0), omega (arith, h.2), ground (arith, h.0))
  | inr t ↦
      subst (Kept n) (sym (if_of_false _ _ t)) (h.0, h.1, omega (arith, h.2, h.3), omega arith)
]

proceed-Kept :
    (n : ℕ) (rl : RateLimiter) (p : Phase) → rl.phase ≡ p → Kept n rl → Kept n (proceed rl p)
unfolding proceed
proceed-Kept n rl waiting e h = h
proceed-Kept n rl draining e h = drain-Kept n rl rl.sem refl e h
proceed-Kept n rl (refilling i) e h = refill-Kept n rl i (subst (InBudget n rl) e h)

Step-Kept : (n : ℕ) (rl : RateLimiter) (e : Event) → Kept n rl → Kept n (step rl e)
unfolding step
Step-Kept n rl acquires h = acquire-Kept n rl rl.sem refl h
Step-Kept n rl ticks h = tick-Kept n rl rl.phase refl h
Step-Kept n rl proceeds h = proceed-Kept n rl rl.phase refl h
Step-Kept n rl stops h = stop-Kept n rl rl.phase h

run-Kept : (n : ℕ) (rl : RateLimiter) (es : List Event) → Kept n rl → Kept n (run rl es)
unfolding run
run-Kept n rl [] h = h
run-Kept n rl (e ∷ es) h = run-Kept n (step rl e) es (Step-Kept n rl e h)

-- The rate is kept, however callers, ticks, the operations of a reset and a stop interleave: with the
-- resets that have begun, callers have got at most one capacity more than one for each of them, and the
-- channel never holds more than its capacity.
pub run-granted :
    (n : ℕ) (es : List Event)
    → let rl = run (new_rate_limiter n) es in (rl.granted ≤ n * (rl.resets + 1)) × (rl.sem ≤ n)
unfolding new_rate_limiter
run-granted n es =
    let rl = run (new_rate_limiter n) es in
    let h = run-Kept n (new_rate_limiter n) es (refl, omega arith, omega arith, omega arith) in
    (omega (arith, h.2, h.3), h.1)
