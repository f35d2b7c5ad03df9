-- ===== src/Limiter.antt =====
-- distributed/app/rate_limiter.py: the Lua script over the two Redis hashes, and the fallback in the
-- process. Floats are scaled integers: a time is a number of ticks, `unit` of which make a second, and
-- an amount of tokens or of level is a number of parts, `unit` of which make one. With rates in whole
-- tokens a second a refill of `elapsed * rate` parts is then exact. Subtraction on ℕ stops at 0, as
-- the source's `max(0, …)` does.
pub mod Bound
pub mod Local
pub mod Process
pub mod Outage
pub mod Skew
pub mod Fleet
pub mod Allow
use ticket_selling_system.Prelude.{
  ℕ, ◌+◌, ◌-◌, ◌*◌, Bool, true, false, Option, none, some, ltb, leb, if◌then◌else◌, min, List, [],
  ◌∷◌,
}

pub record Limits : Type 0 where
  pub unit : ℕ
  pub token_capacity : ℕ
  pub token_refill_rate : ℕ
  pub leaky_capacity : ℕ
  pub leaky_leak_rate : ℕ

-- The fields of a hash: `tokens` or `level`, and `ts`.
pub record Hash : Type 0 where
  pub amount : ℕ
  pub ts : ℕ

-- `ratelimit:tb:…` and `ratelimit:lb:…`; none where the key does not exist.
pub record Keys : Type 0 where
  pub tb : Option Hash
  pub lb : Option Hash

pub data Reason : Type 0 where
  ok token_bucket_exhausted leaky_bucket_full : Reason

abbrev pub allowed : Reason → Bool
allowed ok = true
allowed _ = false

-- What `HMGET` gives, or the values for a key that does not exist.
abbrev pub read_or : ℕ → ℕ → Option Hash → Hash
read_or amount now none = record { amount = amount; ts = now }
read_or amount now (some h) = h

-- `EXPIRE key 300` with every write: the key is gone 300 seconds after the time that it holds.
abbrev pub lifetime : Limits → ℕ
lifetime c = 300 * c.unit

abbrev pub alive : Limits → ℕ → Option Hash → Option Hash
alive c now none = none
alive c now (some h) = if leb (h.ts + lifetime c) now then none else some h

abbrev pub refilled : Limits → ℕ → Hash → ℕ
refilled c now h = min (c.token_capacity * c.unit) (h.amount + (now - h.ts) * c.token_refill_rate)

abbrev pub drained : Limits → ℕ → Hash → ℕ
drained c now h = h.amount - (now - h.ts) * c.leaky_leak_rate

abbrev pub tokens_of : Limits → ℕ → Keys → ℕ
tokens_of c now k = refilled c now (read_or (c.token_capacity * c.unit) now (alive c now k.tb))

abbrev pub level_of : Limits → ℕ → Keys → ℕ
level_of c now k = drained c now (read_or 0 now (alive c now k.lb))

-- `HMSET` of both fields.
abbrev pub written : ℕ → ℕ → Option Hash
written amount now = some (record { amount = amount; ts = now })

unfoldable pub script : Limits → ℕ → Keys → Reason × Keys
script c now k =
    let tokens = tokens_of c now k in
    let level = level_of c now k in
    if ltb tokens c.unit
    then (token_bucket_exhausted, record k { tb = written tokens now })
    else if leb (c.leaky_capacity * c.unit) level
    then (leaky_bucket_full, record { tb = written tokens now; lb = written level now })
    else (ok, record { tb = written (tokens - c.unit) now; lb = written (level + c.unit) now })

-- `_local_tokens`, `_local_level` and `_local_ts`.
pub record LocalState : Type 0 where
  pub local_tokens : ℕ
  pub local_level : ℕ
  pub local_ts : ℕ

unfoldable pub allow_local_fallback : Limits → ℕ → LocalState → Reason × LocalState
allow_local_fallback c now l =
    let elapsed = now - l.local_ts in
    let tokens = min (c.token_capacity * c.unit) (l.local_tokens + elapsed * c.token_refill_rate) in
    let level = l.local_level - elapsed * c.leaky_leak_rate in
    let l' : LocalState = record l { local_tokens = tokens; local_ts = now } in
    if ltb tokens c.unit
    then (token_bucket_exhausted, l')
    else if leb (c.leaky_capacity * c.unit) level
    then (leaky_bucket_full, record l' { local_level = level })
    else (ok, record l' { local_tokens = tokens - c.unit; local_level = level + c.unit })

-- Requests at the given times, and how many of them are admitted.
unfoldable pub admitted : Limits → List ℕ → Keys → ℕ × Keys
unfolding script
admitted c [] k = (0, k)
admitted c (t ∷ ts) k =
    let (reason, k') = script c t k in
    let (n, k'') = admitted c ts k' in ((if allowed reason then 1 else 0) + n, k'')
