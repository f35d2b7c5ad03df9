-- ===== src/RaceTest/Locked.antt =====
-- buyer/race_test.py on the threads of seller/main.py, under any schedule.
use ticket_selling_system.Prelude.{
  ℕ, ◌+◌, ◌≤◌, ◌≡◌, refl, ap, true, false, not, Option, none, some, List, [], ◌∷◌, String, ltb,
  length, arith, if◌then◌else◌, eq→==, string_key,
}
use ticket_selling_system.Dict.{get}
use ticket_selling_system.Store.{State, BuyRequest, BuyResponse, fresh}
use ticket_selling_system.Seller.Invariant.{fresh-IsValid}
use ticket_selling_system.Seller.Lock.{open_shop, run}
use ticket_selling_system.Seller.Lock.Serial.{every_schedule-IsSerial}
use ticket_selling_system.Seller.Lock.Safety.{Replay-IsValid}
use ticket_selling_system.RaceTest.{
  successes, ticket_numbers, is_same, is_in, distinct_numbers, oversold, has_duplicates,
  idempotency_broken, returned_responses,
}
use ticket_selling_system.RaceTest.Counts.{count_if}
use ticket_selling_system.RaceTest.Steps.{
  succeeded, told_ticket, present, present-le, sold_up_to, sales_step, ticket_step, none_step,
  id_step, returned-le, Replay-total,
}

-- How often a number, or `None`, occurs.
abbrev occurs : Option ℕ → List (Option ℕ) → ℕ
occurs o [] = 0
occurs o (p ∷ ps) = (if is_same p o then 1 else 0) + occurs o ps

is_in-occurs : (o : Option ℕ) (ps : List (Option ℕ)) → is_in o ps ≡ true → 1 ≤ occurs o ps
is_in-occurs o [] h = cc
is_in-occurs o (p ∷ ps) h = ground (arith, is_in-occurs o ps)

is_same_refl : (o : Option ℕ) → is_same o o ≡ true
is_same_refl none = refl
is_same_refl (some a) = eq→== a a refl

distinct_numbers-occurs :
    (ps : List (Option ℕ)) → ((o : Option ℕ) → occurs o ps ≤ 1) → distinct_numbers ps ≡ ps
distinct_numbers-occurs [] h = refl
distinct_numbers-occurs (p ∷ ps) h = ground (
  arith,
  distinct_numbers-occurs ps (λ o. omega (arith, h o)),
  h p,
  is_same_refl p,
  is_in-occurs p ps,
)

occurs-count_if :
    (o : Option ℕ) (rs : List BuyResponse)
    → occurs o (ticket_numbers (successes rs)) ≡ count_if (told_ticket o) rs
unfolding successes
occurs-count_if o [] = refl
occurs-count_if o (r ∷ rs) = ground (arith, occurs-count_if o rs)

pub length-count_if : (rs : List BuyResponse) → length (successes rs) ≡ count_if succeeded rs
unfolding successes
length-count_if [] = refl
length-count_if (r ∷ rs) = ground (arith, length-count_if rs)

has_duplicates-occurs :
    (rs : List BuyResponse)
    → ((o : Option ℕ) → count_if (told_ticket o) rs ≤ 1)
    → has_duplicates rs ≡ false
unfolding has_duplicates
has_duplicates-occurs rs h =
    rw
      (distinct_numbers-occurs (ticket_numbers (successes rs))
        (λ o. omega (arith, h o, occurs-count_if o rs)))
      (ap not (eq→== _ _ refl))

le→ltb_false : (a b : ℕ) → b ≤ a → ltb a b ≡ false
le→ltb_false a b h = ground arith

sold_up_to-le : (k : ℕ) (t : State) → sold_up_to k t ≤ 1
sold_up_to-le k t = ground arith

module _ (request : ℕ → BuyRequest) (total n : ℕ) (is : List ℕ) where
  abbrev results : List BuyResponse
  results = returned_responses n (run request is (open_shop (fresh total))).place

  not_oversold : oversold total results ≡ false
  unfolding oversold
  not_oversold =
      let v = every_schedule-IsSerial request (fresh total) is in
      le→ltb_false total _ (
        omega (
          arith,
          length-count_if results,
          returned-le request (fresh total) succeeded (λ t. t.sold_count)
              (λ i t o. sales_step (request i) t) n is,
          (Replay-IsValid request (fresh total) v.replay (fresh-IsValid total)).not_oversold,
          Replay-total request (fresh total) v.replay,
        ))

  told_once : (o : Option ℕ) → count_if (told_ticket o) results ≤ 1
  told_once none = omega (
    arith,
    returned-le request (fresh total) (told_ticket none) (λ _. 0) (λ i t o. none_step (request i) t)
        n is,
  )
  told_once (some k) = omega (
    arith,
    returned-le request (fresh total) (told_ticket (some k)) (sold_up_to k)
        (λ i t o. ticket_step (request i) t k) n is,
    sold_up_to-le k (every_schedule-IsSerial request (fresh total) is).before,
  )

  one_success :
      (id : String) → ((i : ℕ) → (request i).req_id ≡ id) → idempotency_broken results ≡ false
  unfolding idempotency_broken
  one_success id same = le→ltb_false 1 _ (
      omega (
        arith,
        length-count_if results,
        returned-le request (fresh total) succeeded (λ t. present (get id t.processed_requests))
            (λ i t o. id_step (request i) t id (same i)) n is,
        present-le
            (get id (every_schedule-IsSerial request (fresh total) is).before.processed_requests),
      ))

-- From a fresh state of the fixed seller, whatever the schedule of its threads, on the responses
-- of the first n threads, as far as they have returned, the race test prints neither that more
-- than total tickets were sold nor that a ticket number is a duplicate; and if the threads share
-- one req_id, it does not print that the req_id was sold more than once.
pub fixed_seller_raises_no_alarm :
    (request : ℕ → BuyRequest) (total n : ℕ) (is : List ℕ) (users : ℕ → String) (id : String)
    (js : List ℕ)
    → let results = returned_responses n (run request is (open_shop (fresh total))).place in
      let same : ℕ → BuyRequest = λ i. record { user_id = users i; req_id = id } in
      let retries = returned_responses n (run same js (open_shop (fresh total))).place in
      (oversold total results ≡ false)
      × (has_duplicates results ≡ false)
      × (idempotency_broken retries ≡ false)
unfolding oversold idempotency_broken
fixed_seller_raises_no_alarm request total n is users id js = (
  not_oversold request total n is,
  has_duplicates-occurs _ (told_once request total n is),
  one_success (λ i. record { user_id = users i; req_id = id }) total n js id (λ i. refl),
)
