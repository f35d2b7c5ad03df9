-- ===== src/Limiter/Local.antt =====
-- The fallback in the process beside the script: where they agree, and where they do not.
use ticket_selling_system.Prelude.{
  ℕ, ◌-◌, ◌*◌, ◌≤◌, ◌<◌, ◌≡◌, ◌∙◌, refl, inl, inr, arith, ap, lt→ltb, le→leb,
}
use ticket_selling_system.Limiter.Bound.{
  script_short, script_admits, ge→ltb, mul_mono, tokens_cases,
}
use ticket_selling_system.Limiter.Process.{tokens_at, level_at}
use ticket_selling_system.Limiter.{
  Limits, Keys, ok, token_bucket_exhausted, leaky_bucket_full, tokens_of, level_of, written, script,
  LocalState, allow_local_fallback,
}

-- The keys in Redis that say what the local state says.
abbrev pub keys_of : LocalState → Keys
keys_of l = record { tb = written l.local_tokens l.local_ts; lb = written l.local_level l.local_ts }

local_short :
    (c : Limits) (now : ℕ) (l : LocalState)
    → tokens_at c now l < c.unit
    → allow_local_fallback c now l
      ≡ (token_bucket_exhausted, record l { local_tokens = tokens_at c now l; local_ts = now })
unfolding allow_local_fallback
local_short c now l h = rw (lt→ltb _ _ h)

local_full :
    (c : Limits) (now : ℕ) (l : LocalState)
    → c.unit ≤ tokens_at c now l
    → c.leaky_capacity * c.unit ≤ level_at c now l
    → (allow_local_fallback c now l).0 ≡ leaky_bucket_full
unfolding allow_local_fallback
local_full c now l h over = rw (ge→ltb _ _ h, le→leb _ _ over)

tokens_of-le : (c : Limits) (now : ℕ) (k : Keys) → tokens_of c now k ≤ c.token_capacity * c.unit
tokens_of-le c now k = omega arith

-- If the bucket has fewer tokens than one, of which it can hold one, then the hash lives.
keys_of-tokens :
    (c : Limits) (now : ℕ) (l : LocalState)
    → tokens_of c now (keys_of l) < c.unit
    → c.unit ≤ c.token_capacity * c.unit
    → tokens_of c now (keys_of l) ≡ tokens_at c now l
keys_of-tokens c now l short holds =
    elim (tokens_cases c now l.local_tokens l.local_ts (keys_of l) refl) [
      | inl (new, same) ↦ same
      | inr (old, same) ↦ absurd (omega (arith, same, short, holds))
    ]

-- What the script finds when it has expired, the fallback has got by its refill.
later_tokens :
    (c : Limits) (later amount ts : ℕ) (l : LocalState) (k : Keys)
    → 0 < c.token_refill_rate
    → c.unit ≤ tokens_of c later k
    → k.tb ≡ written amount ts
    → c.unit ≤ tokens_at c later (record l { local_tokens = amount; local_ts = ts })
later_tokens c later amount ts l k fast enough e = elim (tokens_cases c later amount ts k e) [
  | inl (new, same) ↦ omega (arith, same, enough)
  | inr (old, same) ↦ omega (
    arith,
    same,
    enough,
    mul_mono (300 * c.unit) (later - ts) c.token_refill_rate (omega (arith, old)),
    scaled (300 * c.unit) c.token_refill_rate fast,
  )
]
  where
    scaled : (a r : ℕ) → 0 < r → a ≤ a * r
    scaled a r h = grind arith

-- If tokens are refilled at all and, from equal states, no token is there now, and one is later,
-- and the level leaks below the capacity until then, but not if it leaks from now on only, then
-- script and fallback both refuse now for want of a token, and later the script admits, while the
-- fallback says that the leaky bucket is full.
pub fallback_forgets_leak :
    (c : Limits) (now later : ℕ) (l : LocalState)
    → now ≤ later
    → 0 < c.token_refill_rate
    → tokens_of c now (keys_of l) < c.unit
    → c.unit ≤ tokens_of c later (script c now (keys_of l)).1
    → level_of c later (keys_of l) < c.leaky_capacity * c.unit
    → c.leaky_capacity * c.unit ≤ l.local_level - (later - now) * c.leaky_leak_rate
    → ((script c now (keys_of l)).0 ≡ token_bucket_exhausted)
      × ((allow_local_fallback c now l).0 ≡ token_bucket_exhausted)
      × ((script c later (script c now (keys_of l)).1).0 ≡ ok)
      × ((allow_local_fallback c later (allow_local_fallback c now l).1).0 ≡ leaky_bucket_full)
fallback_forgets_leak c now later l up fast short enough room over =
    (ap (λ r. r.0) in_redis, ap (λ r. r.0) in_process, admitted_in_redis, refused_in_process)
  where
    in_redis : script c now (keys_of l) ≡ (
      token_bucket_exhausted,
      record (keys_of l) { tb = written (tokens_of c now (keys_of l)) now },
    )
    in_redis = script_short c now (keys_of l) short

    same : tokens_of c now (keys_of l) ≡ tokens_at c now l
    same =
        keys_of-tokens c now l short
          (omega (arith, enough, tokens_of-le c later (script c now (keys_of l)).1))

    in_process :
        allow_local_fallback c now l
        ≡ (token_bucket_exhausted, record l { local_tokens = tokens_at c now l; local_ts = now })
    in_process = local_short c now l (omega (arith, same, short))

    admitted_in_redis : (script c later (script c now (keys_of l)).1).0 ≡ ok
    admitted_in_redis =
        ap (λ r. r.0) (script_admits c later (script c now (keys_of l)).1 enough (rw in_redis room))

    refused_in_process :
        (allow_local_fallback c later (allow_local_fallback c now l).1).0 ≡ leaky_bucket_full
    refused_in_process = rw in_process (
        local_full c later (record l { local_tokens = tokens_at c now l; local_ts = now })
          (later_tokens c later (tokens_at c now l) now l (script c now (keys_of l)).1 fast enough
            (ap (λ r. r.1.tb) in_redis ∙ ap (λ a. written a now) same))
          over)
