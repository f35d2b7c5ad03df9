-- ===== src/Limiter/Process.antt =====
-- `HybridRateLimiter.__init__`, and what a call of the fallback pays for.
use ticket_selling_system.Prelude.{
  ℕ, ◌+◌, ◌-◌, ◌*◌, ◌≤◌, ◌≡◌, refl, arith, Bool-cases, inl, inr, ltb, leb, min,
}
use ticket_selling_system.Limiter.{Limits, Reason, LocalState, allow_local_fallback}
use ticket_selling_system.Limiter.Bound.{elapsed_refill, spent, not_ltb}

-- The local state of a new limiter; `now` is `time.monotonic()`.
abbrev pub new_local : Limits → ℕ → LocalState
new_local c now = record {
  local_tokens = c.token_capacity * c.unit;
  local_level = 0;
  local_ts = now;
}

abbrev pub tokens_at : Limits → ℕ → LocalState → ℕ
tokens_at c now l =
    min (c.token_capacity * c.unit) (l.local_tokens + (now - l.local_ts) * c.token_refill_rate)

abbrev pub level_at : Limits → ℕ → LocalState → ℕ
level_at c now l = l.local_level - (now - l.local_ts) * c.leaky_leak_rate

-- A call writes the time, and pays for what it admits.
pub record Pays (c : Limits) (now : ℕ) (l : LocalState) (r : Reason × LocalState) : Type 0 where
  pub at : r.1.local_ts ≡ now
  pub paid :
      spent r.0 * c.unit + r.1.local_tokens + l.local_ts * c.token_refill_rate
      ≤ l.local_tokens + now * c.token_refill_rate

pub fallback-Pays :
    (c : Limits) (now : ℕ) (l : LocalState)
    → l.local_ts ≤ now
    → Pays c now l (allow_local_fallback c now l)
unfolding allow_local_fallback
fallback-Pays c now l h = elim (Bool-cases (ltb (tokens_at c now l) c.unit)) [
  | inl short ↦ rw short (record { at = refl; paid = omega (arith, refilled) })
  | inr enough ↦ elim (Bool-cases (leb (c.leaky_capacity * c.unit) (level_at c now l))) [
    | inl over ↦ rw (enough, over) (record { at = refl; paid = omega (arith, refilled) })
    | inr room ↦
        rw (enough, room) (record { at = refl; paid = omega (arith, refilled, not_ltb _ _ enough) })
  ]
]
  where
    refilled :
        (now - l.local_ts) * c.token_refill_rate + l.local_ts * c.token_refill_rate
        ≡ now * c.token_refill_rate
    refilled = elapsed_refill l.local_ts now c.token_refill_rate h
