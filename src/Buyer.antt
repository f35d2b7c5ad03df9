-- ===== src/Buyer.antt =====
-- buyer/load_client.py: the black-box checker of the four invariants. What it reads over HTTP, the
-- responses and the body of `GET /status`, is its input. Printing and latencies are left out.
pub mod Records
pub mod Passes
pub mod Detects
pub mod Client
pub mod Plan
pub mod Summary
use ticket_selling_system.Prelude.{
  ℕ, ◌+◌, Bool, true, false, not, ◌&&◌, ◌||◌, Option, none, some, List, [], ◌∷◌, String, leb, ◌==◌,
  ite, if◌then◌else◌, length, string_key, ℕ_discrete,
}
use ticket_selling_system.Dict.{Dict, get, values}
use ticket_selling_system.Store.{StatusBody, Status, success, already_processed, sold_out}

-- The texts that `body["status"]` can be: those of the sellers' responses, and two of the distributed
-- service.
pub data BodyStatus : Type 0 where
  of_seller : Status → BodyStatus
  rate_limited error : BodyStatus

-- The fields of `RequestResult` that the checks read. `body_status` is none after a transport error.
pub record RequestResult : Type 0 where
  pub user_id : String
  pub req_id : String
  pub body_status : Option BodyStatus
  pub ticket_number : Option ℕ

-- `x in xs`, and `set(xs)` as the list of its elements.
abbrev pub member : ℕ → List ℕ → Bool
member x [] = false
member x (y ∷ ys) = ite (ℕ_discrete y x) true (member x ys)

abbrev pub add : ℕ → List ℕ → List ℕ
add x xs = if member x xs then xs else x ∷ xs

abbrev pub to_set : List ℕ → List ℕ
to_set [] = []
to_set (x ∷ xs) = add x (to_set xs)

-- `d.setdefault(k, set()).add(x)`
abbrev pub add_to : String → ℕ → Dict String (List ℕ) → Dict String (List ℕ)
add_to k x [] = (k, x ∷ []) ∷ []
add_to k x ((j, xs) ∷ d) = ite (string_key.same j k) ((j, add x xs) ∷ d) ((j, xs) ∷ add_to k x d)

abbrev pub is_ticket_status : Option BodyStatus → Bool
is_ticket_status (some (of_seller success)) = true
is_ticket_status (some (of_seller already_processed)) = true
is_ticket_status (some (of_seller sold_out)) = false
is_ticket_status (some rate_limited) = false
is_ticket_status (some error) = false
is_ticket_status none = false

-- The tickets of one result, entered into `per_req_tickets`.
abbrev pub enter : Bool → Option ℕ → String → Dict String (List ℕ) → Dict String (List ℕ)
enter true (some t) id d = add_to id t d
enter true none id d = d
enter false _ id d = d

unfoldable pub per_req_tickets : List RequestResult → Dict String (List ℕ) → Dict String (List ℕ)
per_req_tickets [] d = d
per_req_tickets (r ∷ rs) d =
    per_req_tickets rs (enter (is_ticket_status r.body_status) r.ticket_number r.req_id d)

-- Whether `conflicting` is empty.
unfoldable pub none_conflicting : Dict String (List ℕ) → Bool
none_conflicting [] = true
none_conflicting ((id, nums) ∷ d) = leb (length nums) 1 && none_conflicting d

abbrev pub agrees : Option ℕ → List ℕ → Bool
agrees none nums = true
agrees (some t) nums = member t nums

-- Whether `mismatched_vs_server` is empty.
unfoldable pub none_mismatched : Dict String ℕ → Dict String (List ℕ) → Bool
none_mismatched processed [] = true
none_mismatched processed ((id, nums) ∷ d) =
    agrees (get id processed) nums && none_mismatched processed d

-- `sum(len(v) for v in user_tickets.values())`
unfoldable pub user_ticket_total : Dict String (List ℕ) → ℕ
user_ticket_total [] = 0
user_ticket_total ((u, ts) ∷ d) = length ts + user_ticket_total d

unfoldable pub inv1_pass : StatusBody → Bool
inv1_pass b =
    leb b.sold_count b.total_tickets && leb (length b.ticket_numbers_issued) b.total_tickets

unfoldable pub inv2_pass : StatusBody → Bool
inv2_pass b = length b.ticket_numbers_issued == length (to_set b.ticket_numbers_issued)

unfoldable pub inv3_pass : StatusBody → List RequestResult → Bool
unfolding per_req_tickets none_conflicting none_mismatched
inv3_pass b results =
    let per_req : Dict String (List ℕ) = per_req_tickets results [] in
    none_conflicting per_req && none_mismatched b.processed_requests per_req

unfoldable pub inv4_pass : StatusBody → Bool
unfolding user_ticket_total
inv4_pass b =
    b.sold_count == length b.processed_requests
    && length b.processed_requests == user_ticket_total b.user_tickets

unfoldable pub check_invariants : StatusBody → List RequestResult → Bool
unfolding inv1_pass inv2_pass inv3_pass inv4_pass
check_invariants b results = inv1_pass b && (inv2_pass b && (inv3_pass b results && inv4_pass b))
