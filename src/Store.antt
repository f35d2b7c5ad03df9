-- ===== src/Store.antt =====
-- seller/main.py and naive/main.py: the in-memory state and the request and response models, which
-- the two files declare alike. Python's ints are unbounded; a count is a natural number, and
-- `remaining_tickets` is an integer, since a state that is oversold makes it negative.
use ticket_selling_system.Prelude.{ℕ, String, List, [], Option, none, some}
use ticket_selling_system.Prelude.Int.{ℤ, pos, sub_ℕ}
use ticket_selling_system.Dict.{Dict}

pub record State : Type 0 where
  pub total_tickets : ℕ
  pub sold_count : ℕ
  pub processed_requests : Dict String ℕ
  pub user_tickets : Dict String (List ℕ)

-- `BuyRequest`; its validator rejects a req_id that is not the text of a UUID before the handler runs.
pub record BuyRequest : Type 0 where
  pub user_id : String
  pub req_id : String

pub data Status : Type 0 where
  success already_processed sold_out : Status

-- `BuyResponse`; the message is a constant of the status.
pub record BuyResponse : Type 0 where
  pub status : Status
  pub ticket_number : Option ℕ
  pub user_id : String
  pub req_id : String
  pub remaining_tickets : ℤ
  pub message : String

pub record ResetResponse : Type 0 where
  pub status : String
  pub total_tickets : ℕ
  pub sold_count : ℕ
  pub remaining_tickets : ℤ
  pub message : String

-- The body of `GET /status`.
pub record StatusBody : Type 0 where
  pub total_tickets : ℕ
  pub sold_count : ℕ
  pub remaining_tickets : ℤ
  pub ticket_numbers_issued : List ℕ
  pub processed_requests : Dict String ℕ
  pub user_tickets : Dict String (List ℕ)

-- `state["total_tickets"] - state["sold_count"]`
abbrev pub remaining : State → ℤ
remaining s = sub_ℕ s.total_tickets s.sold_count

-- The three responses that `/buy` builds.
abbrev pub already_response : BuyRequest → Option ℕ → State → BuyResponse
already_response req ticket s = record {
  status = already_processed;
  ticket_number = ticket;
  user_id = req.user_id;
  req_id = req.req_id;
  remaining_tickets = remaining s;
  message = "This req_id was already processed. Returning the same ticket.";
}

abbrev pub sold_out_response : BuyRequest → BuyResponse
sold_out_response req = record {
  status = sold_out;
  ticket_number = none;
  user_id = req.user_id;
  req_id = req.req_id;
  remaining_tickets = pos 0;
  message = "Sold out. No tickets remaining.";
}

abbrev pub success_response : BuyRequest → ℕ → State → BuyResponse
success_response req ticket s = record {
  status = success;
  ticket_number = some ticket;
  user_id = req.user_id;
  req_id = req.req_id;
  remaining_tickets = remaining s;
  message = "Ticket purchased successfully.";
}

-- The module-level `state` of a fresh process, and the state after `/reset`.
abbrev pub fresh : ℕ → State
fresh total = record {
  total_tickets = total;
  sold_count = 0;
  processed_requests = [];
  user_tickets = [];
}

-- `TOTAL_TICKETS`
abbrev pub default_total_tickets : ℕ
default_total_tickets = 100
