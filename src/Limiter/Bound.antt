-- ===== src/Limiter/Bound.antt =====
-- How many requests the script can admit in a stretch of time.
use ticket_selling_system.Prelude.{
  ℕ, ◌+◌, ◌-◌, ◌*◌, ◌≤◌, ◌<◌, ◌≡◌, refl, false, ltb, leb, if◌then◌else◌, List, [], ◌∷◌, arith, min,
  ◌⊎◌, Bool-cases, inl, inr, ltb→lt, lt→ltb, leb→le,
}
use ticket_selling_system.Limiter.{
  Limits, Keys, Reason, ok, token_bucket_exhausted, leaky_bucket_full, allowed, tokens_of, level_of,
  lifetime, written, script, admitted,
}

pub elapsed_refill : (ts now rate : ℕ) → ts ≤ now → (now - ts) * rate + ts * rate ≡ now * rate
elapsed_refill ts now rate h = grind arith

pub ge→ltb : (a b : ℕ) → b ≤ a → ltb a b ≡ false
ge→ltb a b h = ground arith

pub gt→leb : (a b : ℕ) → b < a → leb a b ≡ false
gt→leb a b h = ground arith

pub not_ltb : (a b : ℕ) → ltb a b ≡ false → b ≤ a
not_ltb a b h = ground arith

not_leb : (a b : ℕ) → leb a b ≡ false → b < a
not_leb a b h = ground arith

-- The three ways in which the script ends.
pub data Scripts (c : Limits) (now : ℕ) (k : Keys) (r : Reason × Keys) : Type 0 where
  exhausted :
      tokens_of c now k < c.unit
      → r ≡ (token_bucket_exhausted, record k { tb = written (tokens_of c now k) now })
      → Scripts c now k r
  full :
      c.leaky_capacity * c.unit ≤ level_of c now k
      → r ≡ (
        leaky_bucket_full,
        record { tb = written (tokens_of c now k) now; lb = written (level_of c now k) now },
      )
      → Scripts c now k r
  admits :
      c.unit ≤ tokens_of c now k
      → level_of c now k < c.leaky_capacity * c.unit
      → r ≡ (
        ok,
        record {
          tb = written (tokens_of c now k - c.unit) now;
          lb = written (level_of c now k + c.unit) now;
        },
      )
      → Scripts c now k r

pub script-Scripts : (c : Limits) (now : ℕ) (k : Keys) → Scripts c now k (script c now k)
unfolding script
script-Scripts c now k = elim (Bool-cases (ltb (tokens_of c now k) c.unit)) [
  | inl short ↦ exhausted (ltb→lt _ _ short) (rw short)
  | inr enough ↦ elim (Bool-cases (leb (c.leaky_capacity * c.unit) (level_of c now k))) [
    | inl over ↦ full (leb→le _ _ over) (rw (enough, over))
    | inr room ↦ admits (not_ltb _ _ enough) (not_leb _ _ room) (rw (enough, room))
  ]
]

-- The same in the other direction.
pub script_short :
    (c : Limits) (now : ℕ) (k : Keys)
    → tokens_of c now k < c.unit
    → script c now k ≡ (token_bucket_exhausted, record k { tb = written (tokens_of c now k) now })
unfolding script
script_short c now k h = rw (lt→ltb _ _ h)

pub script_admits :
    (c : Limits) (now : ℕ) (k : Keys)
    → c.unit ≤ tokens_of c now k
    → level_of c now k < c.leaky_capacity * c.unit
    → script c now k ≡ (
      ok,
      record {
        tb = written (tokens_of c now k - c.unit) now;
        lb = written (level_of c now k + c.unit) now;
      },
    )
unfolding script
script_admits c now k h room = rw (ge→ltb _ _ h, gt→leb _ _ room)

abbrev pub spent : Reason → ℕ
spent r = if allowed r then 1 else 0

-- One call writes the time, and pays for what it admits.
record Pays (c : Limits) (now amount ts : ℕ) (r : Reason × Keys) : Type 0 where
  left : ℕ
  holds : r.1.tb ≡ written left now
  paid : spent r.0 * c.unit + left + ts * c.token_refill_rate ≤ amount + now * c.token_refill_rate

Scripts-Pays :
    (c : Limits) (now amount ts : ℕ) (k : Keys) {r : Reason × Keys}
    → Scripts c now k r
    → tokens_of c now k + ts * c.token_refill_rate ≤ amount + now * c.token_refill_rate
    → Pays c now amount ts r
Scripts-Pays c now amount ts k (exhausted short e) h =
    rw e (record { left = tokens_of c now k; holds = refl; paid = omega arith })
Scripts-Pays c now amount ts k (full over e) h =
    rw e (record { left = tokens_of c now k; holds = refl; paid = omega arith })
Scripts-Pays c now amount ts k (admits enough room e) h =
    rw e (record { left = tokens_of c now k - c.unit; holds = refl; paid = omega arith })

-- The token bucket refills while an unused key lives.
abbrev pub IsFast : Limits → Type 0
IsFast c = c.token_capacity ≤ 300 * c.token_refill_rate

pub mul_mono : (a b r : ℕ) → a ≤ b → a * r ≤ b * r
mul_mono a b r h = grind arith

-- What the script reads from a hash that was written: it lives, or it has expired.
pub tokens_cases :
    (c : Limits) (now amount ts : ℕ) (k : Keys)
    → k.tb ≡ written amount ts
    → ((now < ts + lifetime c)
        × (tokens_of c now k
            ≡ min (c.token_capacity * c.unit) (amount + (now - ts) * c.token_refill_rate)))
      ⊎ ((ts + lifetime c ≤ now) × (tokens_of c now k ≡ c.token_capacity * c.unit))
tokens_cases c now amount ts k e = elim (Bool-cases (leb (ts + lifetime c) now)) [
  | inl old ↦ inr (leb→le _ _ old, rw (e, old) (omega arith))
  | inr new ↦ inl (not_leb _ _ new, rw (e, new) refl)
]

pub level_cases :
    (c : Limits) (now amount ts : ℕ) (k : Keys)
    → k.lb ≡ written amount ts
    → (level_of c now k ≡ amount - (now - ts) * c.leaky_leak_rate) ⊎ (level_of c now k ≡ 0)
level_cases c now amount ts k e = elim (Bool-cases (leb (ts + lifetime c) now)) [
  | inl old ↦ inr (rw (e, old) (omega arith))
  | inr new ↦ inl (rw (e, new) refl)
]

pub tokens_after :
    (c : Limits) (now amount ts : ℕ) (k : Keys)
    → IsFast c
    → ts ≤ now
    → k.tb ≡ written amount ts
    → tokens_of c now k + ts * c.token_refill_rate ≤ amount + now * c.token_refill_rate
tokens_after c now amount ts k fast h e = elim (tokens_cases c now amount ts k e) [
  | inl (new, same) ↦ omega (arith, same, elapsed_refill ts now c.token_refill_rate h)
  | inr (old, full_again) ↦ omega (
    arith,
    full_again,
    mul_mono c.token_capacity (300 * c.token_refill_rate) c.unit fast,
    mul_mono (lifetime c) (now - ts) c.token_refill_rate (omega (arith, old)),
    elapsed_refill ts now c.token_refill_rate h,
  )
]

-- The times do not fall, from the given one on; the last of them.
abbrev pub Ascending : ℕ → List ℕ → Type 0
Ascending start [] = Unit
Ascending start (t ∷ ts) = (start ≤ t) × Ascending t ts

abbrev pub last_time : ℕ → List ℕ → ℕ
last_time start [] = start
last_time start (t ∷ ts) = last_time t ts

pub last_time-le : (start : ℕ) (ts : List ℕ) → Ascending start ts → start ≤ last_time start ts
last_time-le start [] up = omega arith
last_time-le start (t ∷ ts) up = omega (arith, last_time-le t ts up.1)

admitted_from :
    (c : Limits) (ts : List ℕ) (start amount : ℕ) (k : Keys)
    → IsFast c
    → k.tb ≡ written amount start
    → Ascending start ts
    → (admitted c ts k).0 * c.unit + start * c.token_refill_rate
      ≤ amount + last_time start ts * c.token_refill_rate
unfolding admitted
admitted_from c [] start amount k fast e up = omega arith
admitted_from c (t ∷ ts) start amount k fast e up =
    let one : Pays c t amount start (script c t k) =
      Scripts-Pays c t amount start k (script-Scripts c t k)
        (tokens_after c t amount start k fast up.0 e) in
    let rest = admitted_from c ts t one.left (script c t k).1 fast one.holds up.1 in
    omega (arith, one.paid, rest)

-- If the token bucket refills in the 300 seconds after which a key expires, then, whatever the
-- hashes hold, requests at times that do not fall are admitted at most as often as the token
-- bucket's capacity and the refill in that time allow together.
pub admitted-le_refill :
    (c : Limits) (t : ℕ) (ts : List ℕ) (k : Keys)
    → IsFast c
    → Ascending t ts
    → (admitted c (t ∷ ts) k).0 * c.unit
      ≤ c.token_capacity * c.unit + (last_time t ts - t) * c.token_refill_rate
unfolding admitted
admitted-le_refill c t ts k fast up =
    let one : Pays c t (c.token_capacity * c.unit) t (script c t k) =
      Scripts-Pays c t (c.token_capacity * c.unit) t k (script-Scripts c t k) (omega arith) in
    let rest = admitted_from c ts t one.left (script c t k).1 fast one.holds up in
    omega (
      arith,
      one.paid,
      rest,
      elapsed_refill t (last_time t ts) c.token_refill_rate (last_time-le t ts up),
    )
