-- ===== src/RaceTest.antt =====
-- buyer/race_test.py: what the script prints of the responses to a burst of `/buy` requests. Where it
-- prints an alarm only if a test holds, the test is a function here. The responses are its input.
pub mod Alarms
pub mod Counts
pub mod Steps
pub mod Locked
pub mod Main
pub mod Winner
use ticket_selling_system.Prelude.{
  ℕ, zero, suc, Bool, true, false, not, Option, none, some, List, [], ◌∷◌, String, map, ltb, ◌==◌,
  length, if◌then◌else◌,
}
use ticket_selling_system.Store.{
  Status, success, already_processed, sold_out, BuyRequest, BuyResponse,
}
use ticket_selling_system.Seller.Lock.{Place, waiting, inside, returned}
use ticket_selling_system.Naive.{
  Pc, entered, looked, checked, counted, loaded, stored, numbered, recorded, listed, done,
}

abbrev pub is_success : Status → Bool
is_success success = true
is_success already_processed = false
is_success sold_out = false

-- `[r for r in results if r["status"] == "success"]`
unfoldable pub successes : List BuyResponse → List BuyResponse
successes [] = []
successes (r ∷ rs) = let rest = successes rs in if is_success r.status then r ∷ rest else rest

-- `[r["ticket_number"] for r in successes]`
abbrev pub ticket_numbers : List BuyResponse → List (Option ℕ)
ticket_numbers = map (λ r. r.ticket_number)

-- `set(ticket_numbers)`, where a number may be `None`
abbrev pub is_same : Option ℕ → Option ℕ → Bool
is_same none none = true
is_same none (some b) = false
is_same (some a) none = false
is_same (some a) (some b) = a == b

abbrev pub is_in : Option ℕ → List (Option ℕ) → Bool
is_in x [] = false
is_in x (y ∷ ys) = if is_same y x then true else is_in x ys

abbrev pub distinct_numbers : List (Option ℕ) → List (Option ℕ)
distinct_numbers [] = []
distinct_numbers (x ∷ xs) =
    let rest = distinct_numbers xs in if is_in x rest then rest else x ∷ rest

-- `total` is TOTAL_TICKETS.
unfoldable pub oversold : ℕ → List BuyResponse → Bool
unfolding successes
oversold total results = ltb total (length (successes results))

unfoldable pub has_duplicates : List BuyResponse → Bool
unfolding successes
has_duplicates results =
    let numbers = ticket_numbers (successes results) in
    not (length numbers == length (distinct_numbers numbers))

unfoldable pub idempotency_broken : List BuyResponse → Bool
unfolding successes
idempotency_broken results = ltb 1 (length (successes results))

-- The responses of the first `n` threads of the naive seller, once they are there.
abbrev pub put_response : Pc → List BuyResponse → List BuyResponse
put_response (done r) rs = r ∷ rs
put_response entered rs = rs
put_response (looked _) rs = rs
put_response (checked _ _) rs = rs
put_response (counted _) rs = rs
put_response (loaded _) rs = rs
put_response stored rs = rs
put_response (numbered _) rs = rs
put_response (recorded _) rs = rs
put_response (listed _) rs = rs

abbrev pub responses : ℕ → (ℕ → Pc) → List BuyResponse
responses zero pc = []
responses (suc n) pc = put_response (pc n) (responses n pc)

-- The same of the fixed seller.
abbrev pub put_returned : Place → List BuyResponse → List BuyResponse
put_returned (returned r) rs = r ∷ rs
put_returned waiting rs = rs
put_returned (inside _) rs = rs

abbrev pub returned_responses : ℕ → (ℕ → Place) → List BuyResponse
returned_responses zero place = []
returned_responses (suc n) place = put_returned (place n) (returned_responses n place)
