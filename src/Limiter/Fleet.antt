-- ===== src/Limiter/Fleet.antt =====
-- `HybridRateLimiter.allow` in the replicas of distributed/app: each process has a limiter and a
-- breaker of its own, and all call the script on the same keys in Redis, which keeps them meanwhile.
pub mod Script
pub mod Totals
use ticket_selling_system.Prelude.{ℕ, ◌+◌, ◌*◌, ◌≤◌, ◌<◌, List, [], ◌∷◌}
use ticket_selling_system.Naive.{update}
use ticket_selling_system.Breaker.{Report, RedisCircuitBreaker, reports}
use ticket_selling_system.Limiter.{Limits, Keys, LocalState}
use ticket_selling_system.Limiter.Bound.{spent}
use ticket_selling_system.Limiter.Allow.{
  Connection, World, Answer, by_script, by_fallback, uncaught, allow,
}
use ticket_selling_system.Limiter.Outage.{ends_at}

pub record Replica : Type 0 where
  pub breaker : RedisCircuitBreaker
  pub local : LocalState

pub record Fleet : Type 0 where
  pub keys : Keys
  pub replica : ℕ → Replica

-- A call in one of the replicas, with what other tasks of it have reported to its breaker before.
pub record Ask : Type 0 where
  pub who : ℕ
  pub reported : List Report
  pub mono : ℕ
  pub wall : ℕ
  pub conn : Connection

abbrev pub world_of : Ask → Fleet → World
world_of a f = record {
  breaker = reports a.reported (f.replica a.who).breaker;
  local = (f.replica a.who).local;
  redis = f.keys;
}

abbrev pub back_in : ℕ → World → Fleet → Fleet
back_in i w f = record {
  keys = w.redis;
  replica = update f.replica i (record { breaker = w.breaker; local = w.local });
}

-- 1 if the request is admitted, by the script or by the fallback.
abbrev pub spent_by : Answer → ℕ
spent_by (by_script r) = spent r
spent_by (by_fallback r) = spent r
spent_by uncaught = 0

unfoldable pub fleet_admitted : Limits → List Ask → Fleet → ℕ × Fleet
unfolding allow
fleet_admitted c [] f = (0, f)
fleet_admitted c (a ∷ asks) f =
    let (answer, w) = allow c a.mono a.wall a.conn (world_of a f) in
    let (n, f') = fleet_admitted c asks (back_in a.who w f) in (spent_by answer + n, f')

-- The calls are made by the replicas below `n`; no clock of a process falls or passes its horizon, and
-- neither does the wall clock that goes to the script.
abbrev pub IsTimed : ℕ → (ℕ → ℕ) → ℕ → (ℕ → ℕ) → ℕ → List Ask → Type 0
IsTimed n horizon wall_end clock wall [] = Unit
IsTimed n horizon wall_end clock wall (a ∷ asks) =
    (a.who < n)
    × (clock a.who ≤ a.mono)
    × (a.mono ≤ ends_at a.mono a.conn)
    × (ends_at a.mono a.conn ≤ horizon a.who)
    × (wall ≤ a.wall)
    × (a.wall ≤ wall_end)
    × IsTimed n horizon wall_end (update clock a.who (ends_at a.mono a.conn)) a.wall asks
