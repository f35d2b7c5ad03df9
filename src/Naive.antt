-- ===== src/Naive.antt =====
-- naive/main.py: the handler of `/buy`, one step for each statement that reads or writes the shared
-- `state`. `state["sold_count"] += 1` is two steps, its read and its write; `setdefault(…).append(…)`
-- is one. Any number of threads run the handler, and a schedule says which thread moves next.
pub mod Alone
pub mod Turns
pub mod Races
pub mod Mixed
pub mod Interrupted
pub mod Resets
use ticket_selling_system.Prelude.{
  ℕ, ◌+◌, Bool, Option, List, [], ◌∷◌, ite, leb, if◌then◌else◌, string_key, ℕ_discrete,
}
use ticket_selling_system.Dict.{values, get, contains, insert, append_to}
use ticket_selling_system.Store.{
  default_total_tickets, ResetResponse, State, StatusBody, BuyRequest, BuyResponse, remaining,
  already_response, sold_out_response, success_response,
}

-- Where a thread stands in `buy`, with the local variables that it has set.
pub data Pc : Type 0 where
  -- before the first read
  entered : Pc
  -- `already_processed` is set
  looked : Bool → Pc
  -- `ticket_number_if_already_processed` is set too; asleep for the first time
  checked : Bool → Option ℕ → Pc
  -- `sold_out` is set; asleep for the second time
  counted : Bool → Pc
  -- the `+=` has read the count
  loaded : ℕ → Pc
  -- the `+=` has written the count
  stored : Pc
  -- `ticket_number` is set
  numbered : ℕ → Pc
  -- the request is recorded
  recorded : ℕ → Pc
  -- the user's list is extended
  listed : ℕ → Pc
  -- the response is returned
  done : BuyResponse → Pc

unfoldable pub advance : BuyRequest → Pc → State → Pc × State
advance req entered s = (looked (contains req.req_id s.processed_requests), s)
advance req (looked known) s = (checked known (get req.req_id s.processed_requests), s)
advance req (checked known ticket) s =
    if known
    then (done (already_response req ticket s), s)
    else (counted (leb s.total_tickets s.sold_count), s)
advance req (counted gone) s =
    if gone then (done (sold_out_response req), s) else (loaded s.sold_count, s)
advance req (loaded n) s = (stored, record s { sold_count = n + 1 })
advance req stored s = (numbered s.sold_count, s)
advance req (numbered ticket) s = (
  recorded ticket,
  record s { processed_requests = insert req.req_id ticket s.processed_requests },
)
advance req (recorded ticket) s =
    (listed ticket, record s { user_tickets = append_to req.user_id ticket s.user_tickets })
advance req (listed ticket) s = (done (success_response req ticket s), s)
advance req (done res) s = (done res, s)

unfoldable pub status : State → StatusBody
status s = record {
  total_tickets = s.total_tickets;
  sold_count = s.sold_count;
  remaining_tickets = remaining s;
  ticket_numbers_issued = values s.processed_requests;
  processed_requests = s.processed_requests;
  user_tickets = s.user_tickets;
}

-- `/reset`, if no thread runs between its statements.
unfoldable pub reset : State → ResetResponse × State
reset s = (
  record {
    status = "ok";
    total_tickets = s'.total_tickets;
    sold_count = s'.sold_count;
    remaining_tickets = remaining s';
    message = "State reset. Starting fresh with 0 sold.";
  },
  s',
)
  where
    s' : State
    s' = record s {
      total_tickets = default_total_tickets;
      sold_count = 0;
      processed_requests = [];
      user_tickets = [];
    }

-- Threads are numbered; thread `i` handles the request `request i`.
pub record System : Type 0 where
  pub store : State
  pub pc : ℕ → Pc

abbrev pub update {ℓ} : {A : Type ℓ} → (ℕ → A) → ℕ → A → ℕ → A
update f i a j = ite (ℕ_discrete j i) a (f j)

abbrev pub start : State → System
start s = record { store = s; pc = λ _. entered }

module _ (request : ℕ → BuyRequest) where
  unfoldable pub turn : System → ℕ → System
  turn y i =
      let (p, s) = advance (request i) (y.pc i) y.store in
      record { store = s; pc = update y.pc i p }

  unfoldable pub run : List ℕ → System → System
  unfolding turn
  run [] y = y
  run (i ∷ is) y = run is (turn y i)
