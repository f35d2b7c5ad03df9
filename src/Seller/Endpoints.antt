-- ===== src/Seller/Endpoints.antt =====
-- seller/main.py: threads in all three endpoints, statement by statement, each inside `with buy_lock:`.
-- The bodies of `/buy` and `/reset` are those of the naive seller, statement for statement. `/status`
-- reads the values of the records, then builds the body that it returns.
pub mod Outcome
pub mod Serial
pub mod Safety
use ticket_selling_system.Prelude.{ℕ, Option, none, some, List, [], ◌∷◌}
use ticket_selling_system.Dict.{values}
use ticket_selling_system.Store.{
  State, BuyRequest, BuyResponse, ResetResponse, StatusBody, remaining,
}
use ticket_selling_system.Seller.{buy, reset, status}
use ticket_selling_system.Naive.{Pc, entered, done, advance, update}
use ticket_selling_system.Naive.Mixed
use ticket_selling_system.Naive.Mixed.{ResetPc, at_total, advance_reset}

pub data EndpointCall : Type 0 where
  buying : BuyRequest → EndpointCall
  resetting : EndpointCall
  reading : EndpointCall

pub data EndpointAnswer : Type 0 where
  bought : BuyResponse → EndpointAnswer
  wiped : ResetResponse → EndpointAnswer
  told_status : StatusBody → EndpointAnswer

-- Where a thread stands in `status`: before `ticket_numbers_issued` is set, before the body is built, or
-- past it.
pub data StatusPc : Type 0 where
  at_values : StatusPc
  at_body : List ℕ → StatusPc
  at_return : StatusBody → StatusPc

abbrev pub body_with : List ℕ → State → StatusBody
body_with issued s = record {
  total_tickets = s.total_tickets;
  sold_count = s.sold_count;
  remaining_tickets = remaining s;
  ticket_numbers_issued = issued;
  processed_requests = s.processed_requests;
  user_tickets = s.user_tickets;
}

unfoldable pub advance_status : StatusPc → State → StatusPc
advance_status at_values s = at_body (values s.processed_requests)
advance_status (at_body issued) s = at_return (body_with issued s)
advance_status (at_return body) s = at_return body

-- A place in the body of an endpoint.
pub data Point : Type 0 where
  in_buy : BuyRequest → Pc → Point
  in_reset : ResetPc → Point
  in_status : StatusPc → Point

abbrev pub first_point : EndpointCall → Point
first_point (buying req) = in_buy req entered
first_point resetting = in_reset at_total
first_point reading = in_status at_values

unfoldable pub advance_point : Point → State → Point × State
advance_point (in_buy req p) s = let (q, t) = advance req p s in (in_buy req q, t)
advance_point (in_reset p) s = let (q, t) = advance_reset p s in (in_reset q, t)
advance_point (in_status p) s = (in_status (advance_status p s), s)

-- What a thread at this place has to return, if it is at its `return`.
unfoldable pub answer_at : Point → Option EndpointAnswer
answer_at (in_buy req (done res)) = some (bought res)
answer_at (in_reset (Mixed.done res)) = some (wiped res)
answer_at (in_status (at_return body)) = some (told_status body)
answer_at _ = none

-- An endpoint as one function of the state.
unfoldable pub serve_endpoint : EndpointCall → State → EndpointAnswer × State
serve_endpoint (buying req) s = let (res, t) = buy req s in (bought res, t)
serve_endpoint resetting s = let (res, t) = reset s in (wiped res, t)
serve_endpoint reading s = (told_status (status s), s)

pub data Position : Type 0 where
  -- at `with buy_lock:`
  waiting : Position
  -- in the block
  inside : Point → Position
  -- past the block, with the answer
  returned : EndpointAnswer → Position

pub record LockedServer : Type 0 where
  pub store : State
  pub lock : Option ℕ
  pub place : ℕ → Position

abbrev pub open_locked : State → LockedServer
open_locked s = record { store = s; lock = none; place = λ _. waiting }

-- `buy_lock.acquire()`
unfoldable pub take_lock : EndpointCall → LockedServer → ℕ → Option ℕ → LockedServer
take_lock c y i none = record y { lock = some i; place = update y.place i (inside (first_point c)) }
take_lock c y i (some _) = y

-- The exit from the block, with an answer, or one step in it.
unfoldable pub proceed : LockedServer → ℕ → Point → Option EndpointAnswer → LockedServer
proceed y i p (some a) = record y { lock = none; place = update y.place i (returned a) }
proceed y i p none =
    let (q, s) = advance_point p y.store in
    record y { store = s; place = update y.place i (inside q) }

unfoldable pub move : EndpointCall → LockedServer → ℕ → Position → LockedServer
unfolding take_lock proceed
move c y i waiting = take_lock c y i y.lock
move c y i (inside p) = proceed y i p (answer_at p)
move c y i (returned a) = y

module _ (call : ℕ → EndpointCall) where
  unfoldable pub turn : LockedServer → ℕ → LockedServer
  unfolding move
  turn y i = move (call i) y i (y.place i)

  unfoldable pub run : List ℕ → LockedServer → LockedServer
  unfolding turn
  run [] y = y
  run (i ∷ is) y = run is (turn y i)
