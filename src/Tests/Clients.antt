-- ===== src/Tests/Clients.antt =====
-- buyer/load_client_async.py and buyer/race_test.py against the sellers.
use mathlib.Core.List.Perm
use ticket_selling_system.Prelude.{
  length, String, some, ℕ, zero, suc, ◌≡◌, refl, true, false, List, [], ◌∷◌, arith, string_key,
  string_discrete, replicate, ◌++◌, ℕ_discrete, nat_key,
}
use ticket_selling_system.Store.{BuyRequest, fresh}
use ticket_selling_system.Seller.{buy, buy_all}
use ticket_selling_system.Seller.Invariant.{fresh-IsValid}
use ticket_selling_system.Buyer.{RequestResult}
use ticket_selling_system.Buyer.Client.{
  lost_request, lost_answer, answered, finished, Turn, turns, start, main,
}
use ticket_selling_system.Buyer.Client.Finishes.{every_task_finishes}
use ticket_selling_system.Buyer.Client.Threads.{threads_main}
use ticket_selling_system.Buyer.Client.Sellers.{fixed_seller, fixed_main_exits_zero}
use ticket_selling_system.Buyer.Plan.{Draw, build_request_plan}
use ticket_selling_system.Buyer.Plan.Demand.{AreDistinct, plan_sells_the_demand}
use ticket_selling_system.RaceTest.Winner.{one_retry_wins}
use ticket_selling_system.RaceTest.{successes, returned_responses}
use ticket_selling_system.RaceTest.Main.{race_main, IsClean, IsOnce, race_main-IsClean}
use ticket_selling_system.Naive
use ticket_selling_system.Seller.Lock
use ticket_selling_system.Seller.Lock.{open_shop}
use ticket_selling_system.Tests.Consumers.{differ}

abbrev pub requests : ℕ → BuyRequest
requests zero = record { user_id = "ann"; req_id = "r1" }
requests (suc zero) = record { user_id = "bob"; req_id = "r2" }
requests _ = record { user_id = "ann"; req_id = "r1" }

-- The first task loses an answer and then a request.
abbrev load : List (Turn fixed_seller)
load =
    record { who = 0; delivery = lost_answer; env = tt }
    ∷ record { who = 1; delivery = answered; env = tt }
    ∷ record { who = 0; delivery = lost_request; env = tt }
    ∷ record { who = 2; delivery = answered; env = tt }
    ∷ record { who = 0; delivery = answered; env = tt }
    ∷ record { who = 0; delivery = answered; env = tt }
    ∷ []

load_sells_two :
    (turns fixed_seller requests load (start fixed_seller 2 (fresh 2))).store.sold_count ≡ 2
unfolding turns buy ℕ_discrete string_discrete
load_sells_two = refl

abbrev draws : List Draw
draws =
    record { req_id = "r1"; user_id = "ann"; duplicated = true }
    ∷ record { req_id = "r2"; user_id = "bob"; duplicated = false }
    ∷ record { req_id = "r3"; user_id = "ann"; duplicated = true }
    ∷ []

draws_distinct : AreDistinct draws
unfolding string_discrete
draws_distinct =
    ((differ "r2" "r1" refl, (differ "r3" "r1" refl, tt)), ((differ "r3" "r2" refl, tt), (tt, tt)))

-- Threads 2, 0 and 1 go through the block in turn; thread 1 knocks while 0 is inside.
abbrev two_each : List ℕ
two_each = 2 ∷ replicate 12 2 ++ (0 ∷ 1 ∷ []) ++ replicate 12 0 ++ replicate 12 1

-- Each theorem at an input.
every_task_finishes_example :
    (r : RequestResult) × ((turns fixed_seller requests load (start fixed_seller 2 (fresh 2))).task
        0
      ≡ finished r)
    × (r.req_id ≡ "r1")
unfolding ℕ_discrete
every_task_finishes_example =
    every_task_finishes fixed_seller requests 2 load (fresh 2) 0 (omega arith)

fixed_main_exits_zero_example :
    (main fixed_seller requests 3 2 true tt load (fresh 2) ≡ 0)
    × (threads_main fixed_seller requests true tt load (fresh 2) ≡ 0)
fixed_main_exits_zero_example =
    fixed_main_exits_zero requests 3 2 true tt load (fresh 2) (fresh-IsValid 2)

plan_sells_the_demand_example :
    (buy_all (build_request_plan (λ reqs. reqs) 3 draws) (fresh 100)).1.sold_count ≡ 3
plan_sells_the_demand_example =
    plan_sells_the_demand (λ reqs. reqs) 3 100 draws Perm.refl (omega arith) draws_distinct

abbrev draws_of : ℕ → String
draws_of i = (requests i).req_id

-- Thread 2 sells to "r1", thread 1 to "r2"; thread 0 repeats "r1". With one req_id, one of them sells.
race_main_prints :
    let printed = (race_main 3 draws_of "r1" two_each two_each (fresh 1)).0 in
    (printed.0.successful ≡ 2) × (printed.0.distinct ≡ 2) × (printed.1.granted ≡ some 1 ∷ [])
unfolding race_main Lock.run string_discrete ℕ_discrete Naive.advance
race_main_prints = (refl, refl, refl)

race_main-IsClean_example :
    let printed = (race_main 3 draws_of "r1" two_each two_each (fresh 1)).0 in
    IsClean printed.0 × IsOnce printed.1
race_main-IsClean_example = race_main-IsClean 3 draws_of "r1" two_each two_each (fresh 1)

one_retry_wins_example :
    let y =
      Lock.run
        (λ _. record { user_id = "retry-user"; req_id = "r1" })
        two_each
        (open_shop (fresh 1)) in
    length (successes (returned_responses 3 y.place)) ≡ 1
unfolding Lock.run string_discrete ℕ_discrete Naive.advance
one_retry_wins_example =
    one_retry_wins 1 3 0 (λ _. "retry-user") "r1" two_each _ (omega arith) (omega arith) refl
