-- ===== src/Seller/Endpoints/Outcome.antt =====
-- What a thread in an endpoint of seller/main.py comes to if no other thread moves.
use ticket_selling_system.Prelude.{◌≡◌, refl, ap, some, []}
use ticket_selling_system.Store.{State, ResetResponse, StatusBody}
use ticket_selling_system.Seller.{reset, status}
use ticket_selling_system.Naive.{done}
use ticket_selling_system.Naive.Alone.{finish, finish-advance}
use ticket_selling_system.Naive.Mixed
use ticket_selling_system.Naive.Mixed.{
  ResetPc, at_total, at_count, at_requests, at_users, at_response, advance_reset, reset_response,
}
use ticket_selling_system.Seller.Endpoints.{
  EndpointCall, buying, resetting, reading, EndpointAnswer, bought, wiped, told_status, StatusPc,
  at_values, at_body, at_return, body_with, advance_status, Point, in_buy, in_reset, in_status,
  first_point, advance_point, answer_at, serve_endpoint,
}

abbrev with_response : State → ResetResponse × State
with_response s = (reset_response s, s)

-- The outcome of a thread in `reset` if no other thread moves, in one go.
unfoldable pub finish_reset : ResetPc → State → ResetResponse × State
finish_reset at_total s = reset s
finish_reset at_count s =
    with_response (record s { sold_count = 0; processed_requests = []; user_tickets = [] })
finish_reset at_requests s = with_response (record s { processed_requests = []; user_tickets = [] })
finish_reset at_users s = with_response (record s { user_tickets = [] })
finish_reset at_response s = with_response s
finish_reset (Mixed.done res) s = (res, s)

unfoldable pub finish_status : StatusPc → State → StatusBody
finish_status at_values s = status s
finish_status (at_body issued) s = body_with issued s
finish_status (at_return body) s = body

-- The outcome of a thread in any endpoint if no other thread moves.
unfoldable pub finish_point : Point → State → EndpointAnswer × State
finish_point (in_buy req p) s = let (res, t) = finish req p s in (bought res, t)
finish_point (in_reset p) s = let (res, t) = finish_reset p s in (wiped res, t)
finish_point (in_status p) s = (told_status (finish_status p s), s)

finish_reset-advance :
    (p : ResetPc) (s : State)
    → finish_reset (advance_reset p s).0 (advance_reset p s).1 ≡ finish_reset p s
unfolding finish_reset advance_reset reset
finish_reset-advance at_total s = refl
finish_reset-advance p s = refl

finish_status-advance :
    (p : StatusPc) (s : State) → finish_status (advance_status p s) s ≡ finish_status p s
unfolding finish_status advance_status status
finish_status-advance at_values s = refl
finish_status-advance p s = refl

-- A step does not change the outcome.
pub finish_point-advance :
    (p : Point) (s : State)
    → finish_point (advance_point p s).0 (advance_point p s).1 ≡ finish_point p s
unfolding finish_point advance_point
finish_point-advance (in_buy req p) s = ap (λ o. (bought o.0, o.1)) (finish-advance req p s)
finish_point-advance (in_reset p) s = ap (λ o. (wiped o.0, o.1)) (finish_reset-advance p s)
finish_point-advance (in_status p) s = ap (λ o. (told_status o, s)) (finish_status-advance p s)

-- At the first statement the outcome is that of the endpoint as a function.
pub finish_point-first :
    (c : EndpointCall) (s : State) → finish_point (first_point c) s ≡ serve_endpoint c s
unfolding finish_point serve_endpoint finish finish_reset finish_status
finish_point-first (buying req) s = refl
finish_point-first resetting s = refl
finish_point-first reading s = refl

-- At the `return` the outcome is the answer.
pub finish_point-answer :
    (p : Point) (s : State) (a : EndpointAnswer) → answer_at p ≡ some a → finish_point p s ≡ (a, s)
unfolding finish_point answer_at finish finish_reset finish_status
finish_point-answer (in_buy req (done res)) s a e = cc
finish_point-answer (in_reset (Mixed.done res)) s a e = cc
finish_point-answer (in_status (at_return body)) s a e = cc
finish_point-answer p s a e = cc
