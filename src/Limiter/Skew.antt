-- ===== src/Limiter/Skew.antt =====
-- The times that the script of distributed/app/rate_limiter.py is given: clocks that disagree.
use ticket_selling_system.Prelude.{
  ℕ, zero, suc, ◌+◌, ◌-◌, ◌*◌, ◌≤◌, ◌<◌, ◌≡◌, refl, arith, inl, inr, List, [], ◌∷◌,
}
use ticket_selling_system.Limiter.{Limits, Keys, ok, tokens_of, level_of, written, script, admitted}
use ticket_selling_system.Limiter.Bound.{script_admits, mul_mono, tokens_cases, level_cases}

-- Two replicas whose clocks show `slow` and `fast` take turns.
abbrev pub turns : ℕ → ℕ → ℕ → List ℕ
turns slow fast zero = []
turns slow fast (suc n) = fast ∷ slow ∷ turns slow fast n

-- The clock of `fast` is ahead by as much as two tokens take to refill and to leak away.
pub record IsSkewed (c : Limits) (slow fast : ℕ) : Type 0 where
  pub some_unit : 0 < c.unit
  pub room_for_tokens : 2 ≤ c.token_capacity
  pub room_for_level : 2 ≤ c.leaky_capacity
  pub refills_two : 2 * c.unit ≤ (fast - slow) * c.token_refill_rate
  pub leaks_two : 2 * c.unit ≤ (fast - slow) * c.leaky_leak_rate

admitted_one :
    (c : Limits) (t : ℕ) (ts : List ℕ) (k k' : Keys)
    → script c t k ≡ (ok, k')
    → (admitted c (t ∷ ts) k).0 ≡ 1 + (admitted c ts k').0
unfolding admitted
admitted_one c t ts k k' e = rw e

module _ (c : Limits) (slow fast : ℕ) (skewed : IsSkewed c slow fast) where
  open skewed use {some_unit, room_for_tokens, room_for_level, refills_two, leaks_two}

  abbrev IsRich : ℕ → Keys → Type 0
  IsRich now k = (2 * c.unit ≤ tokens_of c now k) × (level_of c now k ≤ 0)

  -- When the clock has jumped ahead, there are two tokens, and the level is 0.
  jump :
      (tokens level : ℕ) (k : Keys)
      → k.tb ≡ written tokens slow
      → k.lb ≡ written level slow
      → level ≤ 2 * c.unit
      → IsRich fast k
  jump tokens level k tb lb small =
      let two = mul_mono 2 c.token_capacity c.unit room_for_tokens in
      (
        elim (tokens_cases c fast tokens slow k tb) [
          | inl (new, same) ↦ omega (arith, same, two)
          | inr (old, same) ↦ omega (arith, same, two)
        ],
        elim (level_cases c fast level slow k lb) [
          | inl same ↦ omega (arith, same)
          | inr same ↦ omega (arith, same)
        ],
      )

  -- So the request is admitted, and so is one at the slow clock after it.
  record Twice (k : Keys) : Type 0 where
    between : Keys
    after : Keys
    tokens : ℕ
    level : ℕ
    first : script c fast k ≡ (ok, between)
    second : script c slow between ≡ (ok, after)
    tb : after.tb ≡ written tokens slow
    lb : after.lb ≡ written level slow
    small : level ≤ 2 * c.unit

  IsRich-Twice : (k : Keys) → IsRich fast k → Twice k
  IsRich-Twice k (two, drained_out) = record {
    between = mid;
    after = record {
      tb = written (tokens_of c slow mid - c.unit) slow;
      lb = written (level_of c slow mid + c.unit) slow;
    };
    tokens = tokens_of c slow mid - c.unit;
    level = level_of c slow mid + c.unit;
    first = script_admits c fast k (omega arith) (omega (arith, two_levels));
    second =
        script_admits c slow mid
          (elim (tokens_cases c slow (tokens_of c fast k - c.unit) fast mid refl) [
            | inl (new, same) ↦
                omega (arith, same, mul_mono 2 c.token_capacity c.unit room_for_tokens)
            | inr (old, same) ↦
                omega (arith, same, mul_mono 2 c.token_capacity c.unit room_for_tokens)
          ])
          (omega (arith, two_levels, level_one));
    tb = refl;
    lb = refl;
    small = omega (arith, level_one);
  }
    where
      two_levels : 2 * c.unit ≤ c.leaky_capacity * c.unit
      two_levels = mul_mono 2 c.leaky_capacity c.unit room_for_level

      mid : Keys
      mid = record {
        tb = written (tokens_of c fast k - c.unit) fast;
        lb = written (level_of c fast k + c.unit) fast;
      }

      level_one : level_of c slow mid ≤ c.unit
      level_one = elim (level_cases c slow (level_of c fast k + c.unit) fast mid refl) [
        | inl same ↦ omega (arith, same)
        | inr same ↦ omega (arith, same)
      ]

-- If two replicas whose clocks differ by as much as two tokens take to refill and to leak away
-- take turns, two tokens and a level of two fit, and the hashes were last written at the slow
-- clock with a level of at most two, then all their requests are admitted, however many.
pub skewed_clocks_admit_all :
    (c : Limits) (slow fast : ℕ) (n tokens level : ℕ) (k : Keys)
    → IsSkewed c slow fast
    → k.tb ≡ written tokens slow
    → k.lb ≡ written level slow
    → level ≤ 2 * c.unit
    → (admitted c (turns slow fast n) k).0 ≡ 2 * n
skewed_clocks_admit_all c slow fast zero tokens level k skewed tb lb small = unfold admitted in refl
skewed_clocks_admit_all c slow fast (suc n) tokens level k skewed tb lb small =
    let two : Twice c slow fast skewed k =
      IsRich-Twice c slow fast skewed k (jump c slow fast skewed tokens level k tb lb small) in
    omega (
      arith,
      admitted_one c fast (slow ∷ turns slow fast n) k two.between two.first,
      admitted_one c slow (turns slow fast n) two.between two.after two.second,
      skewed_clocks_admit_all c slow fast n two.tokens two.level two.after skewed two.tb two.lb
          two.small,
    )
