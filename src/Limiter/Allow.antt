-- ===== src/Limiter/Allow.antt =====
-- `HybridRateLimiter.allow`: the script behind the circuit breaker, with the fallback. Redis is not
-- part of the program: how a call of the script ends is given. A call may also run the script and lose
-- the answer, which the caller cannot tell from no call.
use ticket_selling_system.Prelude.{ℕ, ◌+◌, ◌<◌, ◌≡◌, refl, true, false, if◌then◌else◌, lt→ltb}
use ticket_selling_system.Breaker.{RedisCircuitBreaker, is_open, record_failure, record_success}
use ticket_selling_system.Limiter.{Limits, Keys, Reason, script, LocalState, allow_local_fallback}

-- How the call ends. `rejects` is another error of Redis, such as OOM or READONLY, with which the script
-- does not run, and which `allow` does not catch. Any other error comes with the time of `time.monotonic()` at which it is recorded, which
-- the fallback takes too.
pub data Connection : Type 0 where
  answers : Connection
  rejects : Connection
  refuses loses_answer : ℕ → Connection

-- The limiter of a process with its breaker, and the keys in Redis.
pub record World : Type 0 where
  pub breaker : RedisCircuitBreaker
  pub local : LocalState
  pub redis : Keys

-- Which of the two has answered; `uncaught` is an error that `allow` raises.
pub data Answer : Type 0 where
  by_script : Reason → Answer
  by_fallback : Reason → Answer
  uncaught : Answer

abbrev pub fall_back : Limits → ℕ → World → Answer × World
fall_back c mono w =
    let (reason, l) = allow_local_fallback c mono w.local in
    (by_fallback reason, record w { local = l })

abbrev pub call_script : Limits → ℕ → Connection → World → Answer × World
call_script c wall answers w =
    let (reason, k) = script c wall w.redis in
    (by_script reason, record w { breaker = record_success w.breaker; redis = k })
call_script c wall rejects w = (uncaught, w)
call_script c wall (refuses t) w = fall_back c t (record w { breaker = record_failure t w.breaker })
call_script c wall (loses_answer t) w =
    fall_back c t
      (record w { breaker = record_failure t w.breaker; redis = (script c wall w.redis).1 })

-- `mono` and `wall` are the readings of `time.monotonic()` and `time.time()`.
unfoldable pub allow : Limits → ℕ → ℕ → Connection → World → Answer × World
allow c mono wall conn w =
    if is_open mono w.breaker then fall_back c mono w else call_script c wall conn w

allow_open :
    (c : Limits) (mono wall : ℕ) (conn : Connection) (w : World)
    → is_open mono w.breaker ≡ true
    → allow c mono wall conn w ≡ fall_back c mono w
unfolding allow
allow_open c mono wall conn w h = rw h

pub allow_refused :
    (c : Limits) (mono wall t : ℕ) (w : World)
    → is_open mono w.breaker ≡ false
    → allow c mono wall (refuses t) w
      ≡ fall_back c t (record w { breaker = record_failure t w.breaker })
unfolding allow
allow_refused c mono wall t w h = rw h

pub open_after_failure :
    (b : RedisCircuitBreaker) (t u : ℕ) → u < t + b.cooldown → is_open u (record_failure t b) ≡ true
unfolding is_open record_failure
open_after_failure b t u h = lt→ltb _ _ h

-- If a call of `allow` finds the breaker closed and Redis does not answer it, then the next call,
-- before the cooldown since the error is over, leaves Redis and the breaker alone and answers by
-- the fallback, also if Redis is back.
pub outage_is_remembered :
    (c : Limits) (mono wall t u wall' : ℕ) (conn : Connection) (w : World)
    → is_open mono w.breaker ≡ false
    → u < t + w.breaker.cooldown
    → let v = (allow c mono wall (refuses t) w).1 in
      let (answer, v') = allow c u wall' conn v in
      (answer ≡ by_fallback (allow_local_fallback c u v.local).0)
      × (v'.redis ≡ w.redis)
      × (v'.breaker ≡ v.breaker)
outage_is_remembered c mono wall t u wall' conn w closed soon =
    rw (allow_refused c mono wall t w closed) (
      rw (allow_open c u wall' conn failed (open_after_failure w.breaker t u soon))
        (refl, refl, refl))
  where
    failed : World
    failed = (fall_back c t (record w { breaker = record_failure t w.breaker })).1
