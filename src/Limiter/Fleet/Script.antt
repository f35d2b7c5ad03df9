-- ===== src/Limiter/Fleet/Script.antt =====
-- What a call of `allow` takes from the keys in Redis.
use ticket_selling_system.Prelude.{ℕ, ◌+◌, ◌-◌, ◌*◌, ◌≤◌, ◌≡◌, refl, arith, Bool-cases, inl, inr}
use ticket_selling_system.Breaker.{is_open}
use ticket_selling_system.Limiter.{Limits, Keys, Reason, tokens_of, written, script}
use ticket_selling_system.Limiter.Bound.{
  IsFast, tokens_after, elapsed_refill, spent, Scripts, exhausted, full, admits, script-Scripts,
}
use ticket_selling_system.Limiter.Allow.{
  Connection, answers, rejects, uncaught, refuses, loses_answer, World, Answer, by_script,
  by_fallback, call_script, allow,
}

abbrev pub spent_by_script : Answer → ℕ
spent_by_script (by_script r) = spent r
spent_by_script (by_fallback r) = 0
spent_by_script uncaught = 0

-- From the time on, the keys give no more tokens than the amount and the refill since.
pub record IsFed (c : Limits) (k : Keys) (amount since : ℕ) : Type 0 where
  pub fed :
      (now : ℕ) → since ≤ now → tokens_of c now k ≤ amount + (now - since) * c.token_refill_rate

-- Any keys give at most the capacity.
pub any-IsFed : (c : Limits) (k : Keys) (since : ℕ) → IsFed c k (c.token_capacity * c.unit) since
any-IsFed c k since = record { fed = λ now h. omega arith }

written-IsFed :
    (c : Limits) (k : Keys) (amount now : ℕ)
    → IsFast c
    → k.tb ≡ written amount now
    → IsFed c k amount now
written-IsFed c k amount now fast e = record {
  fed = λ t h.
      omega
        (arith, tokens_after c t amount now k fast h e, elapsed_refill now t c.token_refill_rate h);
}

-- The call leaves an amount from a time on, and pays for what the script admits.
pub record Feeds (c : Limits) (amount since wall : ℕ) (spends : ℕ) (k : Keys) : Type 0 where
  pub left : ℕ
  pub then_since : ℕ
  pub after : since ≤ then_since
  pub before : then_since ≤ wall
  pub is_fed : IsFed c k left then_since
  pub paid :
      spends * c.unit + left + since * c.token_refill_rate
      ≤ amount + then_since * c.token_refill_rate

-- The script leaves no more tokens than there were, less what it admits.
record Spends (c : Limits) (now : ℕ) (k : Keys) (r : Reason × Keys) : Type 0 where
  left : ℕ
  holds : r.1.tb ≡ written left now
  enough : spent r.0 * c.unit + left ≤ tokens_of c now k

Scripts-Spends :
    (c : Limits) (now : ℕ) (k : Keys) {r : Reason × Keys} → Scripts c now k r → Spends c now k r
Scripts-Spends c now k (exhausted short e) =
    rw e (record { left = tokens_of c now k; holds = refl; enough = omega arith })
Scripts-Spends c now k (full over e) =
    rw e (record { left = tokens_of c now k; holds = refl; enough = omega arith })
Scripts-Spends c now k (admits enough room e) =
    rw e (record { left = tokens_of c now k - c.unit; holds = refl; enough = omega arith })

script-Feeds :
    (c : Limits) (amount since wall : ℕ) (k : Keys)
    → IsFast c
    → since ≤ wall
    → IsFed c k amount since
    → Feeds c amount since wall (spent (script c wall k).0) (script c wall k).1
script-Feeds c amount since wall k fast h f =
    let s = Scripts-Spends c wall k (script-Scripts c wall k) in
    record {
      left = s.left;
      then_since = wall;
      after = h;
      before = omega arith;
      is_fed = written-IsFed c (script c wall k).1 s.left wall fast s.holds;
      paid = omega (arith, s.enough, f.fed wall h, elapsed_refill since wall c.token_refill_rate h);
    }

-- A call that does not run the script.
unasked-Feeds :
    (c : Limits) (amount since wall : ℕ) (k : Keys)
    → since ≤ wall
    → IsFed c k amount since
    → Feeds c amount since wall 0 k
unasked-Feeds c amount since wall k h f = record {
  left = amount;
  then_since = since;
  after = omega arith;
  before = h;
  is_fed = f;
  paid = omega arith;
}

-- A call whose answer is lost pays all the same.
lost-Feeds :
    (c : Limits) (amount since wall spends : ℕ) (k : Keys)
    → Feeds c amount since wall spends k
    → Feeds c amount since wall 0 k
lost-Feeds c amount since wall spends k p = record {
  left = p.left;
  then_since = p.then_since;
  after = p.after;
  before = p.before;
  is_fed = p.is_fed;
  paid = omega (arith, p.paid);
}

call_script-Feeds :
    (c : Limits) (amount since wall : ℕ) (conn : Connection) (w : World)
    → IsFast c
    → since ≤ wall
    → IsFed c w.redis amount since
    → let (answer, v) = call_script c wall conn w in
      Feeds c amount since wall (spent_by_script answer) v.redis
call_script-Feeds c amount since wall answers w fast h f =
    script-Feeds c amount since wall w.redis fast h f
call_script-Feeds c amount since wall rejects w fast h f =
    unasked-Feeds c amount since wall w.redis h f
call_script-Feeds c amount since wall (refuses t) w fast h f =
    unasked-Feeds c amount since wall w.redis h f
call_script-Feeds c amount since wall (loses_answer t) w fast h f =
    lost-Feeds c amount since wall _ _ (script-Feeds c amount since wall w.redis fast h f)

pub allow-Feeds :
    (c : Limits) (amount since mono wall : ℕ) (conn : Connection) (w : World)
    → IsFast c
    → since ≤ wall
    → IsFed c w.redis amount since
    → let (answer, v) = allow c mono wall conn w in
      Feeds c amount since wall (spent_by_script answer) v.redis
unfolding allow
allow-Feeds c amount since mono wall conn w fast h f = elim (Bool-cases (is_open mono w.breaker)) [
  | inl open_ ↦ rw open_ (unasked-Feeds c amount since wall w.redis h f)
  | inr closed ↦ rw closed (call_script-Feeds c amount since wall conn w fast h f)
]
