-- ===== src/Limiter/Outage.antt =====
-- One process's calls of `allow` from its start on, whatever Redis, the breaker and other processes do.
use ticket_selling_system.Prelude.{
  ℕ, ◌+◌, ◌-◌, ◌*◌, ◌≤◌, ◌≡◌, ap, subst, List, [], ◌∷◌, arith, Bool-cases, inl, inr,
}
use ticket_selling_system.Breaker.{Report, reports, is_open}
use ticket_selling_system.Limiter.{Limits, Keys, LocalState}
use ticket_selling_system.Limiter.Bound.{elapsed_refill, spent}
use ticket_selling_system.Limiter.Process.{new_local, fallback-Pays}
use ticket_selling_system.Limiter.Allow.{
  Connection, answers, rejects, uncaught, refuses, loses_answer, World, Answer, by_script,
  by_fallback, fall_back, call_script, allow,
}

-- A call, with what other tasks have reported to the breaker and other processes have written before.
pub record Call : Type 0 where
  pub reported : List Report
  pub keys : Keys
  pub mono : ℕ
  pub wall : ℕ
  pub conn : Connection

-- The time at which the call ends, for the process.
abbrev pub ends_at : ℕ → Connection → ℕ
ends_at mono answers = mono
ends_at mono rejects = mono
ends_at mono (refuses t) = t
ends_at mono (loses_answer t) = t

-- The times of a process do not fall, within a call and from one to the next.
abbrev pub Rises : ℕ → List Call → Type 0
Rises start [] = Unit
Rises start (v ∷ vs) =
    (start ≤ v.mono) × (v.mono ≤ ends_at v.mono v.conn) × Rises (ends_at v.mono v.conn) vs

abbrev pub last_end : ℕ → List Call → ℕ
last_end start [] = start
last_end start (v ∷ vs) = last_end (ends_at v.mono v.conn) vs

-- 1 if the fallback has admitted the request.
abbrev pub spent_by_fallback : Answer → ℕ
spent_by_fallback (by_script r) = 0
spent_by_fallback (by_fallback r) = spent r
spent_by_fallback uncaught = 0

unfoldable pub fallback_admitted : Limits → List Call → World → ℕ × World
unfolding allow
fallback_admitted c [] w = (0, w)
fallback_admitted c (v ∷ vs) w =
    let (answer, w') =
      allow c v.mono v.wall v.conn
        (record w { breaker = reports v.reported w.breaker; redis = v.keys }) in
    let (n, w'') = fallback_admitted c vs w' in (spent_by_fallback answer + n, w'')

-- A call pays for what the fallback admits, and its times are those of the process.
pub record PaysFor (c : Limits) (l : LocalState) (latest : ℕ) (r : Answer × World) : Type 0 where
  pub after : l.local_ts ≤ r.1.local.local_ts
  pub by_then : r.1.local.local_ts ≤ latest
  pub paid :
      spent_by_fallback r.0 * c.unit + r.1.local.local_tokens + l.local_ts * c.token_refill_rate
      ≤ l.local_tokens + r.1.local.local_ts * c.token_refill_rate

fall_back-PaysFor :
    (c : Limits) (now latest : ℕ) (w : World)
    → w.local.local_ts ≤ now
    → now ≤ latest
    → PaysFor c w.local latest (fall_back c now w)
fall_back-PaysFor c now latest w h k =
    let p = fallback-Pays c now w.local h in
    record {
      after = omega (arith, p.at, h);
      by_then = omega (arith, p.at, k);
      paid = rw p.at p.paid;
    }

call_script-PaysFor :
    (c : Limits) (mono wall : ℕ) (conn : Connection) (w : World)
    → w.local.local_ts ≤ mono
    → mono ≤ ends_at mono conn
    → PaysFor c w.local (ends_at mono conn) (call_script c wall conn w)
call_script-PaysFor c mono wall answers w h k = record {
  after = omega arith;
  by_then = omega arith;
  paid = omega arith;
}
call_script-PaysFor c mono wall rejects w h k = record {
  after = omega arith;
  by_then = omega arith;
  paid = omega arith;
}
call_script-PaysFor c mono wall (refuses t) w h k =
    fall_back-PaysFor c t t _ (omega arith) (omega arith)
call_script-PaysFor c mono wall (loses_answer t) w h k =
    fall_back-PaysFor c t t _ (omega arith) (omega arith)

pub allow-PaysFor :
    (c : Limits) (mono wall : ℕ) (conn : Connection) (w : World)
    → w.local.local_ts ≤ mono
    → mono ≤ ends_at mono conn
    → PaysFor c w.local (ends_at mono conn) (allow c mono wall conn w)
unfolding allow
allow-PaysFor c mono wall conn w h k = elim (Bool-cases (is_open mono w.breaker)) [
  | inl open_ ↦ rw open_ (fall_back-PaysFor c mono (ends_at mono conn) w h k)
  | inr closed ↦ rw closed (call_script-PaysFor c mono wall conn w h k)
]

fallback_admitted_from :
    (c : Limits) (vs : List Call) (start : ℕ) (w : World)
    → w.local.local_ts ≤ start
    → Rises start vs
    → (fallback_admitted c vs w).0 * c.unit + w.local.local_ts * c.token_refill_rate
      ≤ w.local.local_tokens + last_end start vs * c.token_refill_rate
unfolding fallback_admitted
fallback_admitted_from c [] start w h up =
    omega (arith, elapsed_refill w.local.local_ts start c.token_refill_rate h)
fallback_admitted_from c (v ∷ vs) start w h up =
    let w0 : World = record w { breaker = reports v.reported w.breaker; redis = v.keys } in
    let p = allow-PaysFor c v.mono v.wall v.conn w0 (omega (arith, h, up.0)) up.1 in
    let rest =
      fallback_admitted_from c vs (ends_at v.mono v.conn) (allow c v.mono v.wall v.conn w0).1
        p.by_then up.2 in
    omega (arith, p.paid, rest)

last_end-le : (start : ℕ) (vs : List Call) → Rises start vs → start ≤ last_end start vs
last_end-le start [] up = omega arith
last_end-le start (v ∷ vs) up = omega (arith, last_end-le (ends_at v.mono v.conn) vs up.2)

-- Whatever Redis answers to the calls of `allow` in one process, whatever other tasks report to
-- its breaker and other processes write to Redis: if the process's times do not fall, then from
-- its start on, the fallback admits at most as many requests as the token bucket's capacity and
-- the refill since then allow together.
pub fallback_admitted-le_refill :
    (c : Limits) (start : ℕ) (vs : List Call) (w : World)
    → w.local ≡ new_local c start
    → Rises start vs
    → (fallback_admitted c vs w).0 * c.unit
      ≤ c.token_capacity * c.unit + (last_end start vs - start) * c.token_refill_rate
fallback_admitted-le_refill c start vs w e up =
    let began : w.local.local_ts ≡ start = ap (λ (l : LocalState). l.local_ts) e in
    let filled : w.local.local_tokens ≡ c.token_capacity * c.unit =
      ap (λ (l : LocalState). l.local_tokens) e in
    omega (
      arith,
      subst
          (λ u.
            (fallback_admitted c vs w).0 * c.unit + u * c.token_refill_rate
            ≤ w.local.local_tokens + last_end start vs * c.token_refill_rate)
          began (fallback_admitted_from c vs start w (omega (arith, began)) up),
      filled,
      elapsed_refill start (last_end start vs) c.token_refill_rate (last_end-le start vs up),
    )
