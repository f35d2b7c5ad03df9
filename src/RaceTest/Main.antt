-- ===== src/RaceTest/Main.antt =====
-- buyer/race_test.py: `main` against the fixed seller. A burst is a schedule of the threads that serve its
-- requests; the script goes on when all have answered. The texts that `uuid.uuid4()` draws are given.
use ticket_selling_system.Prelude.{
  ℕ, ◌≤◌, ◌≡◌, Bool, false, Option, none, some, List, [], ◌∷◌, String, length, length-map, arith,
}
use Prim.Native.String.{◌++◌}
use ticket_selling_system.Prelude.Decimal.{str}
use ticket_selling_system.Store.{State, BuyRequest, BuyResponse, fresh, default_total_tickets}
use ticket_selling_system.Seller.{reset}
use ticket_selling_system.Seller.Lock.{open_shop, run}
use ticket_selling_system.RaceTest.{
  successes, ticket_numbers, distinct_numbers, oversold, has_duplicates, idempotency_broken,
  returned_responses,
}
use ticket_selling_system.RaceTest.Locked.{fixed_seller_raises_no_alarm}

-- `[t for t in ticket_numbers if t is not None]`
abbrev pub not_none : List (Option ℕ) → List (Option ℕ)
not_none [] = []
not_none (none ∷ ts) = not_none ts
not_none (some t ∷ ts) = some t ∷ not_none ts

-- What the first demonstration prints: the counts, and whether its alarm is among the lines.
pub record Overselling : Type 0 where
  pub fired : ℕ
  pub successful : ℕ
  pub distinct : ℕ
  pub duplicates : Bool
  pub alarm : Bool

-- What the second prints.
pub record Idempotency : Type 0 where
  pub fired : ℕ
  pub successful : ℕ
  pub granted : List (Option ℕ)
  pub alarm : Bool

-- The requests of `buy_unique` and of `buy_same_req_id`.
abbrev pub unique_request : (ℕ → String) → ℕ → BuyRequest
unique_request draw i = record { user_id = "user-" ++ str i; req_id = draw i }

abbrev pub same_request : String → ℕ → BuyRequest
same_request id i = record { user_id = "retry-user"; req_id = id }

-- `n` is NUM_REQUESTS, and TOTAL_TICKETS is that of the server.
module _ (n : ℕ) where
  unfoldable pub burst : (ℕ → BuyRequest) → List ℕ → State → List BuyResponse × State
  burst request is s =
      let y = run request is (open_shop s) in (returned_responses n y.place, y.store)

  unfoldable pub print_overselling : List BuyResponse → Overselling
  unfolding successes oversold has_duplicates
  print_overselling results = record {
    fired = n;
    successful = length (successes results);
    distinct = length (distinct_numbers (ticket_numbers (successes results)));
    duplicates = has_duplicates results;
    alarm = oversold default_total_tickets results;
  }

  unfoldable pub print_idempotency : List BuyResponse → Idempotency
  unfolding successes idempotency_broken
  print_idempotency results = record {
    fired = n;
    successful = length (successes results);
    granted = distinct_numbers (not_none (ticket_numbers (successes results)));
    alarm = idempotency_broken results;
  }

  unfoldable pub race_main :
      (ℕ → String) → String → List ℕ → List ℕ → State → (Overselling × Idempotency) × State
  unfolding reset burst print_overselling print_idempotency
  race_main draw shared is js s =
      let (_, s1) = reset s in
      let (results, s2) = burst (unique_request draw) is s1 in
      let (_, s3) = reset s2 in
      let (retries, s4) = burst (same_request shared) js s3 in
      ((print_overselling results, print_idempotency retries), s4)

-- What the first demonstration prints when there is no race.
pub record IsClean (p : Overselling) : Type 0 where
  pub within : p.successful ≤ default_total_tickets
  pub all_distinct : p.distinct ≡ p.successful
  pub no_duplicates : p.duplicates ≡ false
  pub no_alarm : p.alarm ≡ false

-- What the second prints.
pub record IsOnce (p : Idempotency) : Type 0 where
  pub at_most_one : p.successful ≤ 1
  pub one_ticket : length p.granted ≤ 1
  pub no_alarm : p.alarm ≡ false

print_overselling-IsClean :
    (n : ℕ) (rs : List BuyResponse)
    → oversold default_total_tickets rs ≡ false
    → has_duplicates rs ≡ false
    → IsClean (print_overselling n rs)
unfolding print_overselling oversold has_duplicates
print_overselling-IsClean n rs o d = record {
  within = ground arith;
  all_distinct = ground (arith, length-map (λ (r : BuyResponse). r.ticket_number) (successes rs));
  no_duplicates = d;
  no_alarm = o;
}

length-distinct_numbers : (ts : List (Option ℕ)) → length (distinct_numbers ts) ≤ length ts
length-distinct_numbers [] = omega arith
length-distinct_numbers (t ∷ ts) = ground (arith, length-distinct_numbers ts)

length-not_none : (ts : List (Option ℕ)) → length (not_none ts) ≤ length ts
length-not_none [] = omega arith
length-not_none (none ∷ ts) = omega (arith, length-not_none ts)
length-not_none (some t ∷ ts) = omega (arith, length-not_none ts)

print_idempotency-IsOnce :
    (n : ℕ) (rs : List BuyResponse)
    → idempotency_broken rs ≡ false
    → IsOnce (print_idempotency n rs)
unfolding print_idempotency idempotency_broken
print_idempotency-IsOnce n rs h =
    let numbers = ticket_numbers (successes rs) in
    record {
      at_most_one = ground arith;
      one_ticket = ground (
        arith,
        length-distinct_numbers (not_none numbers),
        length-not_none numbers,
        length-map (λ (r : BuyResponse). r.ticket_number) (successes rs),
      );
      no_alarm = h;
    }

-- Against the fixed seller, from any state, whatever requests are drawn and however the threads
-- that serve the two bursts are scheduled, the race test's `main` prints at most total tickets as
-- successful buys, as many distinct ticket numbers as successes, no duplicates and no alarm in
-- its first demonstration, and in its second at most one success, at most one ticket number and
-- no alarm, on the responses that are there.
pub race_main-IsClean :
    (n : ℕ) (draw : ℕ → String) (shared : String) (is js : List ℕ) (s : State)
    → let printed = (race_main n draw shared is js s).0 in IsClean printed.0 × IsOnce printed.1
unfolding race_main burst reset
race_main-IsClean n draw shared is js s =
    let (within, apart, once) =
      fixed_seller_raises_no_alarm (unique_request draw) default_total_tickets n is
        (λ _. "retry-user") shared js in
    (
      print_overselling-IsClean n (burst n (unique_request draw) is (reset s).1).0 within apart,
      print_idempotency-IsOnce n (burst n (same_request shared) js (fresh default_total_tickets)).0
          once,
    )
