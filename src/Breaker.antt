-- ===== src/Breaker.antt =====
-- distributed/app/circuit_breaker.py. Times of `time.monotonic()` are natural numbers of some unit,
-- and each call is given the time at which it reads the clock. `record_failure` also asks the
-- connection pool to disconnect, best effort: that touches no field of the breaker.
use ticket_selling_system.Prelude.{
  ℕ, ◌+◌, ◌<◌, ◌≡◌, ◌↔◌, Bool, true, Option, none, some, List, [], ◌∷◌, ltb, ltb→lt, lt→ltb, arith,
}

pub record RedisCircuitBreaker : Type 0 where
  pub cooldown : ℕ
  pub open_until : ℕ

abbrev pub new_breaker : ℕ → RedisCircuitBreaker
new_breaker cooldown = record { cooldown = cooldown; open_until = 0 }

unfoldable pub is_open : ℕ → RedisCircuitBreaker → Bool
is_open now b = ltb now b.open_until

unfoldable pub record_failure : ℕ → RedisCircuitBreaker → RedisCircuitBreaker
record_failure now b = record b { open_until = now + b.cooldown }

unfoldable pub record_success : RedisCircuitBreaker → RedisCircuitBreaker
record_success b = record b { open_until = 0 }

-- What the limiter, the handler and the consumer report to the one breaker of their process.
pub data Report : Type 0 where
  failure_at : ℕ → Report
  success : Report

unfoldable pub report : Report → RedisCircuitBreaker → RedisCircuitBreaker
unfolding record_failure record_success
report (failure_at now) b = record_failure now b
report success b = record_success b

unfoldable pub reports : List Report → RedisCircuitBreaker → RedisCircuitBreaker
unfolding report
reports [] b = b
reports (r ∷ rs) b = reports rs (report r b)

-- The time of the last report, if that was a failure; `t` is the answer for no report.
abbrev pub last_failure : Option ℕ → List Report → Option ℕ
last_failure t [] = t
last_failure t (failure_at now ∷ rs) = last_failure (some now) rs
last_failure t (success ∷ rs) = last_failure none rs

-- The breaker is open until one cooldown after the given failure.
abbrev pub IsOpenAfter : ℕ → ℕ → Option ℕ → Type 0
IsOpenAfter cooldown now none = ⊥
IsOpenAfter cooldown now (some t) = now < t + cooldown

opens :
    (rs : List Report) (b : RedisCircuitBreaker) (now : ℕ) (t : Option ℕ)
    → (is_open now b ≡ true) ↔ IsOpenAfter b.cooldown now t
    → (is_open now (reports rs b) ≡ true) ↔ IsOpenAfter b.cooldown now (last_failure t rs)
unfolding is_open reports
opens [] b now t h = h
opens (failure_at u ∷ rs) b now t h =
    opens rs (record_failure u b) now (some u)
      (unfold record_failure is_open in (ltb→lt _ _, lt→ltb _ _))
opens (success ∷ rs) b now t h = opens rs (record_success b) now none (
    unfold record_success is_open in
    ((λ e. absurd (omega (arith, ltb→lt now 0 e))), (λ e. absurd e)))

-- Whatever was reported to a new breaker, it is open exactly if the last report was a failure,
-- and its cooldown is not over yet.
pub open_iff_last_failed :
    (cooldown now : ℕ) (rs : List Report)
    → (is_open now (reports rs (new_breaker cooldown)) ≡ true)
      ↔ IsOpenAfter cooldown now (last_failure none rs)
unfolding is_open
open_iff_last_failed cooldown now rs =
    opens rs (new_breaker cooldown) now none
      ((λ e. absurd (omega (arith, ltb→lt now 0 e))), (λ e. absurd e))
