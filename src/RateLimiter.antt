-- ===== src/RateLimiter.antt =====
-- ratelimit.go: the token bucket.
--
-- `sem` is the number of tokens in the channel. Callers of `Acquire` take tokens between any two channel
-- operations of a reset, so each of these operations is one step. `Stop` waits for the mutex that a reset
-- holds. `granted` counts the tokens that callers took, and `resets` the resets that have begun.
pub mod Rate
mod Tests
use gostream.Prelude.{ℕ, zero, suc, ◌+◌, ltb, if◌then◌else◌, Bool, true, false, ◌&&◌, List, [], ◌∷◌}

-- Where the goroutine of `resetLoop` is.
pub data Phase : Type 0 where
  waiting : Phase
  draining : Phase
  -- with the index of the refill loop
  refilling : ℕ → Phase

pub record RateLimiter : Type 0 where
  pub sem : ℕ
  pub capacity : ℕ
  pub stopped : Bool
  pub phase : Phase
  pub granted : ℕ
  pub resets : ℕ

unfoldable pub new_rate_limiter : ℕ → RateLimiter
new_rate_limiter capacity = record {
  sem = capacity;
  capacity = capacity;
  stopped = false;
  phase = waiting;
  granted = 0;
  resets = 0;
}

-- Without a token the caller waits.
unfoldable pub acquire : RateLimiter → ℕ → RateLimiter
acquire rl zero = rl
acquire rl (suc n) = record rl { sem = n; granted = rl.granted + 1 }

-- A tick of the ticker, at which `reset` begins. While one runs, the ticker waits.
unfoldable pub tick : RateLimiter → Phase → RateLimiter
tick rl waiting = if rl.stopped then rl else record rl { phase = draining; resets = rl.resets + 1 }
tick rl draining = rl
tick rl (refilling i) = rl

unfoldable pub drain : RateLimiter → ℕ → RateLimiter
drain rl zero = record rl { phase = refilling 0 }
drain rl (suc n) = record rl { sem = n }

-- The channel has room for `capacity` tokens.
unfoldable pub refill : RateLimiter → ℕ → RateLimiter
refill rl i =
    if ltb i rl.capacity && ltb rl.sem rl.capacity
    then record rl { sem = rl.sem + 1; phase = refilling (i + 1) }
    else record rl { phase = waiting }

-- The next operation of a reset.
unfoldable pub proceed : RateLimiter → Phase → RateLimiter
unfolding drain refill
proceed rl waiting = rl
proceed rl draining = drain rl rl.sem
proceed rl (refilling i) = refill rl i

unfoldable pub stop : RateLimiter → Phase → RateLimiter
stop rl waiting = record rl { stopped = true }
stop rl draining = rl
stop rl (refilling i) = rl

pub data Event : Type 0 where
  acquires : Event
  ticks : Event
  proceeds : Event
  stops : Event

unfoldable pub step : RateLimiter → Event → RateLimiter
unfolding acquire tick proceed stop
step rl acquires = acquire rl rl.sem
step rl ticks = tick rl rl.phase
step rl proceeds = proceed rl rl.phase
step rl stops = stop rl rl.phase

unfoldable pub run : RateLimiter → List Event → RateLimiter
unfolding step
run rl [] = rl
run rl (e ∷ es) = run (step rl e) es
