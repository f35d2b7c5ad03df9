-- ===== src/Buyer/Client.antt =====
-- buyer/load_client.py and buyer/load_client_async.py: `fire_one`, `run_load` and `main`. The seller is
-- an interface, since the clients know only its HTTP answers. The network and the order in which the
-- attempts reach the seller are given, as a list of turns. Sleeps, latencies and printing are left out.
pub mod Finishes
pub mod Once
pub mod Passes
pub mod Threads
pub mod Sellers
pub mod Earlier
pub mod Sites
pub mod Distributed
use ticket_selling_system.Prelude.{
  ℕ, zero, suc, ◌+◌, ◌≡◌, ◌⊎◌, String, Bool, true, false, Option, none, some, List, [], ◌∷◌, ite,
  ℕ_discrete, All, if◌then◌else◌,
}
use ticket_selling_system.Store.{BuyRequest, StatusBody}
use ticket_selling_system.Buyer.{BodyStatus, RequestResult, check_invariants}

-- A response as the clients read it: `body.get("status")` and `body.get("ticket_number")`, or a body
-- for which `r.json()` raises.
pub data Reply : Type 0 where
  body : Option BodyStatus → Option ℕ → Reply
  not_json : Reply

-- A result that carries no ticket or the recorded one of its req_id.
abbrev pub BackedBy : (String → Option ℕ) → RequestResult → Type 0
BackedBy record_of r = (t : ℕ) → r.ticket_number ≡ some t → record_of r.req_id ≡ some t

-- What the clients need of a seller: a ticket in an answer is recorded, it stays so, and the status
-- agrees with the records. `Env` is what else the answer depends on.
pub record HttpSeller : Type 1 where
  pub State : Type 0
  pub Env : Type 0
  pub buy : Env → BuyRequest → State → Reply × State
  pub reset : Env → State → State
  pub status : State → StatusBody
  -- of the state in which the client finds it
  pub IsReady : State → Type 0
  -- what else may go on around a reset
  pub IsCalm : Env → Type 0
  pub IsGood : State → Type 0
  -- the req_ids that the client may send
  pub IsAsked : String → Type 0
  pub record_of : State → String → Option ℕ
  pub buy-IsGood : (v : Env) (req : BuyRequest) (s : State) → IsGood s → IsGood (buy v req s).1
  pub buy-record :
      (v : Env) (req : BuyRequest) (s : State) (b : Option BodyStatus) (t : ℕ)
      → IsGood s
      → IsAsked req.req_id
      → (buy v req s).0 ≡ body b (some t)
      → record_of (buy v req s).1 req.req_id ≡ some t
  pub buy-keeps :
      (v : Env) (req : BuyRequest) (s : State) (id : String) (t : ℕ)
      → IsGood s
      → record_of s id ≡ some t
      → record_of (buy v req s).1 id ≡ some t
  pub ready-IsGood : (s : State) → IsReady s → IsGood s
  pub reset-IsGood : (v : Env) (s : State) → IsCalm v → IsReady s → IsGood (reset v s)
  pub status_passes :
      (s : State) (results : List RequestResult)
      → IsGood s
      → All (λ r. (r.ticket_number ≡ none) ⊎ IsAsked r.req_id) results
      → All (BackedBy (record_of s)) results
      → check_invariants (status s) results ≡ true

-- What becomes of one attempt: the request is lost, or its answer is, or neither.
pub data Delivery : Type 0 where
  lost_request lost_answer answered : Delivery

-- A call of `fire_one`: with this many attempts left, or with its result.
pub data Task : Type 0 where
  trying : ℕ → Task
  finished : RequestResult → Task

abbrev pub result_of : BuyRequest → Option BodyStatus → Option ℕ → RequestResult
result_of req status ticket = record {
  user_id = req.user_id;
  req_id = req.req_id;
  body_status = status;
  ticket_number = ticket;
}

abbrev pub transport_error : BuyRequest → RequestResult
transport_error req = result_of req none none

-- After an attempt with `left` more to come: the result, or the next round of the loop.
abbrev pub after_reply : BuyRequest → ℕ → Option Reply → Task
after_reply req left none = trying left
after_reply req left (some not_json) = trying left
after_reply req left (some (body status ticket)) = finished (result_of req status ticket)

abbrev pub result_or_error : BuyRequest → Option Reply → RequestResult
result_or_error req none = transport_error req
result_or_error req (some not_json) = transport_error req
result_or_error req (some (body status ticket)) = result_of req status ticket

module _ (seller : HttpSeller) where
  open seller use {State, Env, buy, reset, status}

  -- `client.post`, up to the answer, if there is one.
  abbrev pub post : Delivery → Env → BuyRequest → State → Option Reply × State
  post lost_request v req s = (none, s)
  post lost_answer v req s = let (reply, s') = buy v req s in (none, s')
  post answered v req s = let (reply, s') = buy v req s in (some reply, s')

  -- One round of the loop in `fire_one`, or what stands after it.
  unfoldable pub attempt : Delivery → Env → BuyRequest → Task → State → Task × State
  attempt d v req (finished r) s = (finished r, s)
  attempt d v req (trying zero) s = (finished (transport_error req), s)
  attempt d v req (trying (suc left)) s =
      let (reply, s') = post d v req s in (after_reply req left reply, s')

  -- `fire_one` of load_client.py, which makes one attempt.
  unfoldable pub fire_one : Delivery → Env → BuyRequest → State → RequestResult × State
  fire_one d v req s = let (reply, s') = post d v req s in (result_or_error req reply, s')

  -- The tasks of `run_load`, one for each entry of the plan, and the seller.
  pub record Load : Type 0 where
    pub store : State
    pub task : ℕ → Task

  abbrev pub put_task : (ℕ → Task) → ℕ → Task → ℕ → Task
  put_task f i a j = ite (ℕ_discrete j i) a (f j)

  pub record Turn : Type 0 where
    pub who : ℕ
    pub delivery : Delivery
    pub env : Env

  module _ (plan : ℕ → BuyRequest) where
    unfoldable pub turn : Load → Turn → Load
    unfolding attempt
    turn y u =
        let (a, s) = attempt u.delivery u.env (plan u.who) (y.task u.who) y.store in
        record { store = s; task = put_task y.task u.who a }

    unfoldable pub turns : List Turn → Load → Load
    unfolding turn
    turns [] y = y
    turns (u ∷ us) y = turns us (turn y u)

  -- `max_retries + 1` attempts; load_client.py has no retries.
  abbrev pub start : ℕ → State → Load
  start max_retries s = record { store = s; task = λ _. trying (suc max_retries) }

-- The results of the first `n` tasks, once they are there.
abbrev pub put_result : Task → List RequestResult → List RequestResult
put_result (finished r) rs = r ∷ rs
put_result (trying _) rs = rs

abbrev pub gather : ℕ → (ℕ → Task) → List RequestResult
gather zero task = []
gather (suc n) task = put_result (task n) (gather n task)

-- `main`, with its exit code: `/reset` unless `--no-reset`, the load, and the checks.
unfoldable pub main :
    (seller : HttpSeller)
    → (ℕ → BuyRequest)
    → ℕ
    → ℕ
    → Bool
    → seller.Env
    → List (Turn seller)
    → seller.State
    → ℕ
unfolding turns
main seller plan n max_retries no_reset v us s =
    let s' = if no_reset then s else seller.reset v s in
    let y = turns seller plan us (start seller max_retries s') in
    if check_invariants (seller.status y.store) (gather n y.task) then 0 else 1
