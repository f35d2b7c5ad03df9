-- ===== src/Tests/Limits.antt =====
-- distributed/app/circuit_breaker.py and distributed/app/rate_limiter.py at small limits: three tokens,
-- two of them a second, in seconds of ten ticks.
use ticket_selling_system.Prelude.{
  ℕ, List, ℕ_discrete, ◌+◌, ◌-◌, ◌*◌, ◌≤◌, ◌≡◌, ◌↔◌, refl, true, false, none, [], ◌∷◌, arith,
}
use ticket_selling_system.Limiter.Process.{new_local}
use ticket_selling_system.Limiter.Allow
use ticket_selling_system.Limiter.Allow.{Connection, answers, refuses, loses_answer}
use ticket_selling_system.Limiter.Fleet.{Fleet, Ask, fleet_admitted}
use ticket_selling_system.Limiter.Fleet.Totals.{fleet_admitted-le_refills}
use ticket_selling_system.Breaker.{
  is_open, reports, new_breaker, failure_at, success, IsOpenAfter, last_failure,
  open_iff_last_failed,
}
use ticket_selling_system.Limiter.{
  Limits, Keys, ok, token_bucket_exhausted, leaky_bucket_full, written, script, admitted,
  LocalState, allow_local_fallback,
}
use ticket_selling_system.Limiter.Bound.{last_time, admitted-le_refill}
use ticket_selling_system.Limiter.Local.{keys_of, fallback_forgets_leak}
use ticket_selling_system.Limiter.Skew.{turns, skewed_clocks_admit_all}
use ticket_selling_system.Limiter.Allow.{World}

abbrev limits : Limits
limits = record {
  unit = 10;
  token_capacity = 3;
  token_refill_rate = 2;
  leaky_capacity = 2;
  leaky_leak_rate = 2;
}

abbrev no_keys : Keys
no_keys = record { tb = none; lb = none }

-- A token and a half, and a full bucket, at the time 100.
abbrev local_full_bucket : LocalState
local_full_bucket = record { local_tokens = 15; local_level = 20; local_ts = 100 }

abbrev local_spent : LocalState
local_spent = record { local_tokens = 0; local_level = 35; local_ts = 100 }

abbrev leaky_twenty : Limits
leaky_twenty = record limits { leaky_leak_rate = 3 }

abbrev world : World
world = record { breaker = new_breaker 20; local = local_full_bucket; redis = no_keys }

three_tokens : (admitted limits (100 ∷ 100 ∷ 100 ∷ 110 ∷ []) no_keys).0 ≡ 3
unfolding admitted script
three_tokens = refl

-- Each theorem at an input.
open_iff_last_failed_example :
    (is_open 45 (reports (failure_at 10 ∷ success ∷ failure_at 30 ∷ []) (new_breaker 20)) ≡ true)
    ↔ IsOpenAfter 20 45 (last_failure none (failure_at 10 ∷ success ∷ failure_at 30 ∷ []))
open_iff_last_failed_example =
    open_iff_last_failed 20 45 (failure_at 10 ∷ success ∷ failure_at 30 ∷ [])

admitted-le_refill_example :
    (admitted limits (100 ∷ 100 ∷ 100 ∷ 110 ∷ []) no_keys).0 * 10
    ≤ 3 * 10 + (last_time 100 (100 ∷ 100 ∷ 110 ∷ []) - 100) * 2
admitted-le_refill_example =
    admitted-le_refill limits 100 (100 ∷ 100 ∷ 110 ∷ []) no_keys (omega arith)
      (omega arith, (omega arith, (omega arith, tt)))

fallback_forgets_leak_example :
    ((script leaky_twenty 104 (keys_of local_spent)).0 ≡ token_bucket_exhausted)
    × ((allow_local_fallback leaky_twenty 104 local_spent).0 ≡ token_bucket_exhausted)
    × ((script leaky_twenty 106 (script leaky_twenty 104 (keys_of local_spent)).1).0 ≡ ok)
    × ((allow_local_fallback leaky_twenty 106
          (allow_local_fallback leaky_twenty 104 local_spent).1).0
        ≡ leaky_bucket_full)
unfolding script
fallback_forgets_leak_example =
    fallback_forgets_leak leaky_twenty 104 106 local_spent (omega arith) (omega arith) (omega arith)
      (omega arith) (omega arith) (omega arith)

skewed_clocks_admit_all_example :
    (admitted limits (turns 100 110 5) (record { tb = written 0 100; lb = written 20 100 })).0 ≡ 10
skewed_clocks_admit_all_example =
    skewed_clocks_admit_all limits 100 110 5 0 20
      (record { tb = written 0 100; lb = written 20 100 })
      (record {
        some_unit = omega arith;
        room_for_tokens = omega arith;
        room_for_level = omega arith;
        refills_two = omega arith;
        leaks_two = omega arith;
      })
      refl refl (omega arith)

world_closed : is_open 48 world.breaker ≡ false
unfolding is_open
world_closed = refl

-- Two replicas, in the fifth and the sixth tick of their clocks.
abbrev starts : ℕ → ℕ
starts j = 5 + j

abbrev fleet : Fleet
fleet = record {
  keys = no_keys;
  replica = λ j. record { breaker = new_breaker 20; local = new_local limits (starts j) };
}

abbrev asked : ℕ → ℕ → Connection → Ask
asked i after conn = record {
  who = i;
  reported = [];
  mono = starts i + after;
  wall = 100 + after;
  conn = conn;
}

-- The script admits two, then both replicas lose Redis, and their fallbacks admit two each.
abbrev six_asks : List Ask
six_asks =
    asked 0 0 answers
    ∷ asked 1 0 answers
    ∷ asked 0 1 (refuses 6)
    ∷ asked 0 1 answers
    ∷ asked 1 2 (loses_answer 8)
    ∷ asked 1 2 answers
    ∷ []

fleet_admits_six : (fleet_admitted limits six_asks fleet).0 ≡ 6
unfolding fleet_admitted reports Allow.allow allow_local_fallback is_open script ℕ_discrete
fleet_admits_six = refl

fleet_admitted-le_refills_example :
    (fleet_admitted limits six_asks fleet).0 * 10 ≤ (2 + 1) * (3 * 10 + 2 * 2)
fleet_admitted-le_refills_example =
    fleet_admitted-le_refills limits 2 2 starts 100 six_asks fleet (omega arith) (λ j. refl)
      (ground arith)
