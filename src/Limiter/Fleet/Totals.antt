-- ===== src/Limiter/Fleet/Totals.antt =====
-- What all replicas of distributed/app admit together, by the script and by their fallbacks.
use ticket_selling_system.Prelude.{
  ℕ, zero, suc, ◌+◌, ◌-◌, ◌*◌, ◌≤◌, ◌<◌, ◌≡◌, ◌≢◌, refl, sym, ap, subst, List, [], ◌∷◌, arith,
  ℕ_discrete,
}
use ticket_selling_system.Naive.{update}
use ticket_selling_system.Naive.Turns.{update_self, update_other}
use ticket_selling_system.Limiter.{Limits, LocalState}
use ticket_selling_system.Limiter.Bound.{IsFast, elapsed_refill}
use ticket_selling_system.Limiter.Process.{new_local}
use ticket_selling_system.Limiter.Allow.{World, Answer, by_script, by_fallback, uncaught, allow}
use ticket_selling_system.Limiter.Outage.{ends_at, spent_by_fallback, PaysFor, allow-PaysFor}
use ticket_selling_system.Limiter.Fleet.{
  Replica, Fleet, Ask, world_of, back_in, spent_by, fleet_admitted, IsTimed,
}
use ticket_selling_system.Limiter.Fleet.Script.{spent_by_script, IsFed, any-IsFed, allow-Feeds}

abbrev sum_below : ℕ → (ℕ → ℕ) → ℕ
sum_below zero g = 0
sum_below (suc n) g = g n + sum_below n g

sum_below_same :
    (n : ℕ) (g h : ℕ → ℕ) → ((j : ℕ) → j < n → g j ≡ h j) → sum_below n g ≡ sum_below n h
sum_below_same zero g h e = refl
sum_below_same (suc n) g h e =
    omega (arith, e n (omega arith), sum_below_same n g h (λ j k. e j (omega arith)))

-- Sums of functions that differ at one place differ by its values.
sum_below_change :
    (n i : ℕ) (g h : ℕ → ℕ)
    → i < n
    → ((j : ℕ) → j ≢ i → g j ≡ h j)
    → sum_below n g + h i ≡ sum_below n h + g i
sum_below_change zero i g h k e = absurd (omega arith)
sum_below_change (suc n) i g h k e = elim (ℕ_discrete n i) [
  | yes same ↦
      let rest = sum_below_same n g h (λ j l. e j (λ eq. omega (arith, eq, same, l))) in
      rw same (omega (arith, subst (λ m. sum_below m g ≡ sum_below m h) same rest))
  | no ne ↦ omega (arith, sum_below_change n i g h (omega arith) e, e n ne)
]

sum_below_constant : (n x : ℕ) (g : ℕ → ℕ) → ((j : ℕ) → g j ≡ x) → sum_below n g ≡ n * x
sum_below_constant zero x g e = omega arith
sum_below_constant (suc n) x g e = grind (arith, e n, sum_below_constant n x g e)

split_spent : (a : Answer) → spent_by a ≡ spent_by_script a + spent_by_fallback a
split_spent (by_script r) = omega arith
split_spent (by_fallback r) = omega arith
split_spent uncaught = refl

-- What the fallback of a replica can still admit until the horizon, in parts of a token.
abbrev room : Limits → ℕ → LocalState → ℕ
room c horizon l = l.local_tokens + (horizon - l.local_ts) * c.token_refill_rate

paid_room :
    (c : Limits) (horizon latest : ℕ) (l : LocalState) (r : Answer × World)
    → PaysFor c l latest r
    → latest ≤ horizon
    → spent_by_fallback r.0 * c.unit + room c horizon r.1.local ≤ room c horizon l
paid_room c horizon latest l r p h = omega (
  arith,
  p.after,
  p.by_then,
  p.paid,
  elapsed_refill l.local_ts horizon c.token_refill_rate (omega (arith, p.after, p.by_then)),
  elapsed_refill r.1.local.local_ts horizon c.token_refill_rate (omega (arith, p.by_then)),
)

module _ (c : Limits) (n : ℕ) (horizon : ℕ → ℕ) (wall_end : ℕ) where
  abbrev rooms : Fleet → ℕ
  rooms f = sum_below n (λ j. room c (horizon j) (f.replica j).local)

  paid_rooms :
      (i spends : ℕ) (w : World) (f : Fleet)
      → i < n
      → spends * c.unit + room c (horizon i) w.local ≤ room c (horizon i) (f.replica i).local
      → spends * c.unit + rooms (back_in i w f) ≤ rooms f
  paid_rooms i spends w f h p =
      let after : Replica = record { breaker = w.breaker; local = w.local } in
      let own = update_self f.replica i after in
      let moved =
        sum_below_change n i (λ j. room c (horizon j) (f.replica j).local)
          (λ j. room c (horizon j) (update f.replica i after j).local) h
          (λ j ne.
            ap (λ (r : Replica). room c (horizon j) r.local)
              (sym (update_other f.replica i j after ne))) in
      omega (arith, moved, p, ap (λ (r : Replica). room c (horizon i) r.local) own)

  abbrev IsClocked : (ℕ → ℕ) → Fleet → Type 0
  IsClocked clock f = (j : ℕ) → (f.replica j).local.local_ts ≤ clock j

  back_in-IsClocked :
      (i latest : ℕ) (w : World) (clock : ℕ → ℕ) (f : Fleet)
      → IsClocked clock f
      → w.local.local_ts ≤ latest
      → IsClocked (update clock i latest) (back_in i w f)
  back_in-IsClocked i latest w clock f k h j = elim (ℕ_discrete j i) [
    | yes e ↦ ground (arith, k j)
    | no ne ↦ ground (arith, k j)
  ]

  fleet_admitted_cons :
      (a : Ask) (asks : List Ask) (f : Fleet)
      → let r = allow c a.mono a.wall a.conn (world_of a f) in
        (fleet_admitted c (a ∷ asks) f).0
        ≡ spent_by_script r.0
          + spent_by_fallback r.0
          + (fleet_admitted c asks (back_in a.who r.1 f)).0
  unfolding fleet_admitted
  fleet_admitted_cons a asks f =
      let r = allow c a.mono a.wall a.conn (world_of a f) in
      ap (λ x. x + (fleet_admitted c asks (back_in a.who r.1 f)).0) (split_spent r.0)

  fleet_pays :
      (asks : List Ask) (f : Fleet) (clock : ℕ → ℕ) (wall amount since : ℕ)
      → IsFast c
      → IsClocked clock f
      → since ≤ wall
      → wall ≤ wall_end
      → IsFed c f.keys amount since
      → IsTimed n horizon wall_end clock wall asks
      → (fleet_admitted c asks f).0 * c.unit
        ≤ amount + (wall_end - since) * c.token_refill_rate + rooms f
  unfolding fleet_admitted
  fleet_pays [] f clock wall amount since fast k h h' fed t = omega arith
  fleet_pays (a ∷ asks) f clock wall amount since fast k h h' fed
        (who, up, later, early, w, w', t) =
      let w0 = world_of a f in
      let latest = ends_at a.mono a.conn in
      let r = allow c a.mono a.wall a.conn w0 in
      let own = allow-PaysFor c a.mono a.wall a.conn w0 (omega (arith, k a.who, up)) later in
      let fs = allow-Feeds c amount since a.mono a.wall a.conn w0 fast (omega (arith, h, w)) fed in
      let rest =
        fleet_pays asks (back_in a.who r.1 f) (update clock a.who latest) a.wall fs.left
          fs.then_since fast (back_in-IsClocked a.who latest r.1 clock f k own.by_then) fs.before w'
          fs.is_fed t in
      omega (
        arith,
        rest,
        fs.paid,
        ap (λ x. x * c.unit) (fleet_admitted_cons a asks f),
        paid_rooms a.who (spent_by_fallback r.0) r.1 f who
            (paid_room c (horizon a.who) latest w0.local r own early),
        elapsed_refill since wall_end c.token_refill_rate (omega (arith, h, h')),
        elapsed_refill fs.then_since wall_end c.token_refill_rate (omega (arith, fs.before, w')),
      )

since_start : (start time : ℕ) → (start + time) - start ≡ time
since_start start time = omega arith

-- If the token bucket refills in the 300 seconds after which a key expires, and n replicas with
-- new limiters call `allow` in any order, whatever the keys in Redis hold at first, however the
-- calls of the script end, and whatever is reported to the breakers: if no clock of a process and
-- no time sent to the script falls or passes its start by more than a given time, then the script
-- and the fallbacks together admit at most n + 1 times the token bucket's capacity and the refill
-- in that time.
pub fleet_admitted-le_refills :
    (c : Limits) (n time : ℕ) (start : ℕ → ℕ) (wall : ℕ) (asks : List Ask) (f : Fleet)
    → IsFast c
    → ((j : ℕ) → (f.replica j).local ≡ new_local c (start j))
    → IsTimed n (λ j. start j + time) (wall + time) start wall asks
    → (fleet_admitted c asks f).0 * c.unit
      ≤ (n + 1) * (c.token_capacity * c.unit + time * c.token_refill_rate)
fleet_admitted-le_refills c n time start wall asks f fast new timed = omega (
  arith,
  fleet_pays c n (λ j. start j + time) (wall + time) asks f start wall (c.token_capacity * c.unit)
      wall fast (λ j. omega (arith, ap (λ (l : LocalState). l.local_ts) (new j))) (omega arith)
      (omega arith) (any-IsFed c f.keys wall) timed,
  ap (λ t. t * c.token_refill_rate) (since_start wall time),
  sum_below_constant n (c.token_capacity * c.unit + time * c.token_refill_rate)
      (λ j. room c (start j + time) (f.replica j).local) (λ j. rw (new j) (grind arith)),
)
