-- ===== src/Seller/Retry.antt =====
-- Retries of `/buy` in seller/main.py with a req_id that was sold a ticket.
use ticket_selling_system.Prelude.{ℕ, ◌+◌, ◌≡◌, some, List, [], ◌∷◌, arith, string_key, String}
use ticket_selling_system.Dict.{get}
use ticket_selling_system.Dict.Laws.{get-insert, get-insert_self}
use ticket_selling_system.Store.{State, BuyRequest, BuyResponse, already_response}
use ticket_selling_system.Seller.{sell, buy, buy_all}
use ticket_selling_system.Seller.Buy.{Buys, known, gone, sold, buy-Buys}

Buys-get :
    (req : BuyRequest) (s : State) {r : BuyResponse × State} (id : String) (t : ℕ)
    → Buys req s r
    → get id s.processed_requests ≡ some t
    → get id r.1.processed_requests ≡ some t
unfolding sell
Buys-get req s id t (known _ found e) h = rw e h
Buys-get req s id t (gone new full e) h = rw e h
Buys-get req s id t (sold new room e) h =
    rw e (ground (arith, get-insert req.req_id id (s.sold_count + 1) s.processed_requests))

pub buy-get :
    (req : BuyRequest) (s : State) (id : String) (t : ℕ)
    → get id s.processed_requests ≡ some t
    → get id (buy req s).1.processed_requests ≡ some t
buy-get req s id t h = Buys-get req s id t (buy-Buys req s) h

-- A recorded ticket stays recorded under any calls of `/buy`.
pub buy_all-get :
    (reqs : List BuyRequest) (s : State) (id : String) (t : ℕ)
    → get id s.processed_requests ≡ some t
    → get id (buy_all reqs s).1.processed_requests ≡ some t
unfolding buy_all
buy_all-get [] s id t h = h
buy_all-get (req ∷ reqs) s id t h = buy_all-get reqs (buy req s).1 id t (buy-get req s id t h)

-- A known request changes nothing.
pub buy_known :
    (req : BuyRequest) (s : State) (t : ℕ)
    → get req.req_id s.processed_requests ≡ some t
    → buy req s ≡ (already_response req (some t) s, s)
unfolding buy
buy_known req s t h = ground arith

-- A response that carries a ticket is backed by the record of the request.
Buys-record :
    (req : BuyRequest) (s : State) {r : BuyResponse × State} (t : ℕ)
    → Buys req s r
    → r.0.ticket_number ≡ some t
    → get req.req_id r.1.processed_requests ≡ some t
unfolding sell
Buys-record req s t (known u found e) h = ground arith
Buys-record req s t (gone new full e) h = ground arith
Buys-record req s t (sold new room e) h =
    rw e (ground (arith, get-insert_self req.req_id (s.sold_count + 1) s.processed_requests))

pub buy-record :
    (req : BuyRequest) (s : State) (t : ℕ)
    → (buy req s).0.ticket_number ≡ some t
    → get req.req_id (buy req s).1.processed_requests ≡ some t
buy-record req s t h = Buys-record req s t (buy-Buys req s) h

-- If a call of /buy returned ticket t, then after any further calls a retry with the same req_id,
-- under any user_id, returns t with status already_processed, and changes nothing.
pub retry_same_ticket :
    (req retry : BuyRequest) (between : List BuyRequest) (s : State) (t : ℕ)
    → (buy req s).0.ticket_number ≡ some t
    → retry.req_id ≡ req.req_id
    → let later = (buy_all between (buy req s).1).1 in
      buy retry later ≡ (already_response retry (some t) later, later)
retry_same_ticket req retry between s t h same =
    buy_known retry _ t
      (rw same (buy_all-get between (buy req s).1 req.req_id t (buy-record req s t h)))
