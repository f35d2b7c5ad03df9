-- ===== src/Seller.antt =====
-- seller/main.py: the endpoints of the fixed seller. `buy_lock` is held from the first line of each
-- endpoint to its `return`, so an endpoint is one function of the state; the threads and their steps are
-- in Seller/Lock and Seller/Endpoints.
pub mod Invariant
pub mod Buy
pub mod Retry
pub mod Demand
pub mod Lock
pub mod Endpoints
pub mod Escapes
use ticket_selling_system.Prelude.{
  ℕ, ◌+◌, String, Bool, List, [], ◌∷◌, Option, none, some, leb, if◌then◌else◌, string_key,
}
use ticket_selling_system.Dict.{Dict, values, get, contains, insert, append_to}
use ticket_selling_system.Store.{
  default_total_tickets, State, BuyRequest, BuyResponse, ResetResponse, StatusBody, remaining,
  already_response, sold_out_response, success_response,
}

-- The writes of a sale: the count, the record of the request, the list of the user.
unfoldable pub sell : BuyRequest → State → State
sell req s = record s {
  sold_count = s.sold_count + 1;
  processed_requests = insert req.req_id (s.sold_count + 1) s.processed_requests;
  user_tickets = append_to req.user_id (s.sold_count + 1) s.user_tickets;
}

unfoldable pub buy : BuyRequest → State → BuyResponse × State
unfolding sell
buy req s =
    if contains req.req_id s.processed_requests
    then (already_response req (get req.req_id s.processed_requests) s, s)
    else if leb s.total_tickets s.sold_count
    then (sold_out_response req, s)
    else (let s' = sell req s in (success_response req s'.sold_count s', s'))

unfoldable pub reset : State → ResetResponse × State
reset s = (
  record {
    status = "ok";
    total_tickets = s'.total_tickets;
    sold_count = s'.sold_count;
    remaining_tickets = remaining s';
    message = "State reset. Starting fresh with 0 sold.";
  },
  s',
)
  where
    s' : State
    s' = record s {
      total_tickets = default_total_tickets;
      sold_count = 0;
      processed_requests = [];
      user_tickets = [];
    }

-- The dicts as they are at the `return`; Seller/Escapes has them as they are when they are encoded.
unfoldable pub status : State → StatusBody
status s = record {
  total_tickets = s.total_tickets;
  sold_count = s.sold_count;
  remaining_tickets = remaining s;
  ticket_numbers_issued = values s.processed_requests;
  processed_requests = s.processed_requests;
  user_tickets = s.user_tickets;
}

-- A sequence of `/buy` calls, with their responses in order.
unfoldable pub buy_all : List BuyRequest → State → List BuyResponse × State
buy_all [] s = ([], s)
buy_all (req ∷ reqs) s =
    let (res, s') = buy req s in let (ress, s'') = buy_all reqs s' in (res ∷ ress, s'')
