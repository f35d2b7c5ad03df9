-- ===== src/Tests/Sellers.antt =====
-- The sellers of naive/main.py and seller/main.py and the load client, on a store of two tickets.
use ticket_selling_system.Prelude.{
  replicate, ℕ, zero, suc, ◌+◌, ◌<◌, ◌≡◌, ◌↔◌, refl, inr, true, false, some, none, List, [], ◌∷◌,
  ◌++◌, String, arith, string_discrete, ℕ_discrete, min, string_key,
}
use ticket_selling_system.Store.{State, BuyRequest, success, sold_out, fresh}
use ticket_selling_system.Seller.{buy, buy_all}
use ticket_selling_system.Seller.Invariant.{IsValid, fresh-IsValid}
use ticket_selling_system.Seller.Demand.{sells_the_demand, distinct, ids}
use ticket_selling_system.Seller.Lock
use ticket_selling_system.Seller.Lock.{open_shop, returned}
use ticket_selling_system.Seller.Lock.Safety.{one_ticket_for_each_req_id}
use ticket_selling_system.Seller.Lock.Progress.{CanReturn, every_thread-CanReturn}
use ticket_selling_system.Naive
use ticket_selling_system.Naive.{start, entered, done}
use ticket_selling_system.Naive.Alone.{iterate, alone_is_buy}
use ticket_selling_system.Naive.Races.{Sold, check_then_sell, check_then_sell_oversells}
use ticket_selling_system.Buyer.{RequestResult, of_seller, check_invariants}
use ticket_selling_system.Seller.Escapes.{encoded_status}
use ticket_selling_system.Buyer.Passes.{fixed_seller_passes}
use ticket_selling_system.Buyer.Detects.{naive_race_fails}

abbrev ask : String → String → BuyRequest
ask user id = record { user_id = user; req_id = id }

-- Three calls, the third of them a retry of the first.
abbrev requests : ℕ → BuyRequest
requests zero = ask "ann" "r1"
requests (suc zero) = ask "bob" "r2"
requests _ = ask "ann" "r1"

abbrev calls : List BuyRequest
calls = requests 0 ∷ requests 1 ∷ requests 2 ∷ ask "cy" "r3" ∷ []

abbrev last_one : State
last_one = fresh 1

-- Threads 0, 1 and 2 knock in turn; then 0, 2 and 1 go through the block.
abbrev schedule : List ℕ
schedule = 0 ∷ 1 ∷ 2 ∷ replicate 12 0 ++ (2 ∷ 1 ∷ []) ++ replicate 12 2 ++ replicate 12 1

calls_status : (buy_all calls (fresh 2)).1.sold_count ≡ 2
unfolding buy_all buy string_discrete
calls_status = refl

calls_last : (buy (ask "cy" "r3") (buy_all calls (fresh 2)).1).0.status ≡ sold_out
unfolding buy_all buy string_discrete
calls_last = refl

schedule_unlocked : (Lock.run requests schedule (open_shop (fresh 2))).lock ≡ none
unfolding Lock.run string_discrete ℕ_discrete Naive.advance
schedule_unlocked = refl

-- Each theorem at an input.
fresh_two : IsValid (fresh 2)
fresh_two = fresh-IsValid 2

one_ticket_for_each_req_id_example : ((requests 0).req_id ≡ (requests 2).req_id) ↔ (◌≡◌ {A = ℕ} 1 1)
unfolding Lock.run string_discrete ℕ_discrete Naive.advance
one_ticket_for_each_req_id_example =
    one_ticket_for_each_req_id requests (fresh 2) schedule 0 2 1 1 _ _ fresh_two refl refl refl refl

every_thread-CanReturn_example :
    CanReturn requests 2 (Lock.run requests (0 ∷ 0 ∷ 0 ∷ []) (open_shop (fresh 2)))
every_thread-CanReturn_example = every_thread-CanReturn requests (fresh 2) (0 ∷ 0 ∷ 0 ∷ []) 2

sells_the_demand_example : (buy_all calls (fresh 5)).1.sold_count ≡ min 5 (distinct (ids calls))
sells_the_demand_example = sells_the_demand 5 calls

alone_is_buy_example :
    iterate 9 (requests 0) entered (fresh 2)
    ≡ (done (buy (requests 0) (fresh 2)).0, (buy (requests 0) (fresh 2)).1)
alone_is_buy_example = alone_is_buy (requests 0) (fresh 2)

check_then_sell_oversells_example :
    ((Naive.run requests (check_then_sell 3) (start last_one)).store.sold_count ≡ 0 + 3)
    × ((j : ℕ)
        → j < 3
        → Sold (0 + j + 1) ((Naive.run requests (check_then_sell 3) (start last_one)).pc j))
check_then_sell_oversells_example =
    check_then_sell_oversells requests last_one 3 (λ i. refl) (omega arith)

abbrev result : String → ℕ → RequestResult
result id t = record {
  user_id = "ann";
  req_id = id;
  body_status = some (of_seller success);
  ticket_number = some t;
}

-- Thread 0 is served, and thread 1 takes the lock while the status is encoded.
abbrev served : List ℕ
served = replicate 12 0

fixed_seller_passes_example :
    check_invariants
      (let y = Lock.run requests served (open_shop (fresh 2)) in
        encoded_status y.store (Lock.run requests (1 ∷ []) y).store)
      (result "r1" 1 ∷ [])
    ≡ true
unfolding Lock.run string_discrete ℕ_discrete Naive.advance
fixed_seller_passes_example =
    fixed_seller_passes requests (fresh 2) served (1 ∷ []) (result "r1" 1 ∷ []) fresh_two refl
      (inr (0, _, refl, refl, refl), tt) refl

naive_race_fails_example :
    check_invariants
      (Naive.status (Naive.run requests (check_then_sell 3) (start last_one)).store)
      []
    ≡ false
naive_race_fails_example =
    naive_race_fails requests last_one 3 [] (λ i. refl) (omega arith) (omega arith)
