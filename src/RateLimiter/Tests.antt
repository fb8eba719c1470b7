-- ===== src/RateLimiter/Tests.antt =====
-- A limiter of two requests per interval.
use gostream.Prelude.{◌+◌, ◌*◌, ◌≤◌, ◌≡◌, refl, List, [], ◌∷◌}
use gostream.RateLimiter.{new_rate_limiter, Event, acquires, ticks, proceeds, stops, run}
use gostream.RateLimiter.Rate.{run-granted}

program : Unit {0}
unfolding run new_rate_limiter
program = tt

abbrev events : List Event
events =
    acquires ∷ acquires ∷ acquires ∷ ticks ∷ proceeds ∷ proceeds ∷ acquires ∷ proceeds ∷ proceeds
    ∷ acquires ∷ acquires ∷ stops ∷ ticks ∷ proceeds ∷ acquires ∷ []

grants_four : (run (new_rate_limiter 2) events).granted ≡ 4
unfolding program
grants_four = refl

run-granted_example :
    let rl = run (new_rate_limiter 2) events in (rl.granted ≤ 2 * (rl.resets + 1)) × (rl.sem ≤ 2)
run-granted_example = run-granted 2 events
