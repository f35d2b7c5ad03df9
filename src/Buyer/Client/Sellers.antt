-- ===== src/Buyer/Client/Sellers.antt =====
-- seller/main.py as a seller that the clients are run against.
use ticket_selling_system.Prelude.{ℕ, ◌≡◌, Bool, Option, some, List, string_key}
use ticket_selling_system.Dict.{get}
use ticket_selling_system.Store.{State, BuyRequest, BuyResponse}
use ticket_selling_system.Seller.{buy, reset, status}
use ticket_selling_system.Seller.Invariant.{IsValid, buy-IsValid, reset-IsValid}
use ticket_selling_system.Seller.Retry.{buy-get, buy-record}
use ticket_selling_system.Buyer.{BodyStatus, of_seller}
use ticket_selling_system.Buyer.Records.{valid_state_passes}
use ticket_selling_system.Buyer.Client.{Reply, body, HttpSeller, Turn, main}
use ticket_selling_system.Buyer.Client.Passes.{main_exits_zero}
use ticket_selling_system.Buyer.Client.Threads.{threads_main, threads_main_exits_zero}

-- The body that FastAPI makes of a `BuyResponse`.
abbrev pub body_of : BuyResponse → Reply
body_of r = body (some (of_seller r.status)) r.ticket_number

pub body_ticket : {b c : Option BodyStatus} {o p : Option ℕ} → body b o ≡ body c p → o ≡ p
body_ticket e = cc

-- Each `/buy` of seller/main.py is one step, under the lock.
abbrev pub fixed_seller : HttpSeller
fixed_seller = record {
  State = State;
  Env = Unit;
  buy = λ v req s. (body_of (buy req s).0, (buy req s).1);
  reset = λ v s. (reset s).1;
  status = status;
  IsReady = IsValid;
  IsCalm = λ v. Unit;
  IsGood = IsValid;
  IsAsked = λ id. Unit;
  record_of = λ s id. get id s.processed_requests;
  buy-IsGood = λ v req s g. buy-IsValid req s g;
  buy-record = λ v req s b t g asked e. buy-record req s t (body_ticket e);
  buy-keeps = λ v req s id t g h. buy-get req s id t h;
  ready-IsGood = λ s g. g;
  reset-IsGood = λ v s calm g. reset-IsValid s;
  status_passes = λ s results g asked backed. valid_state_passes s results g backed;
}

-- From a valid state of the fixed seller, in whatever order the attempts of the load client reach
-- it and whatever requests or answers are lost, the `main` of the async client exits with 0 on
-- the results that are there, and the `main` of the client with threads, which makes one attempt
-- for each request, exits with 0 too, with or without --no-reset.
pub fixed_main_exits_zero :
    (plan : ℕ → BuyRequest) (n max_retries : ℕ) (no_reset : Bool) (env : Unit)
    (us : List (Turn fixed_seller)) (s : State)
    → IsValid s
    → (main fixed_seller plan n max_retries no_reset env us s ≡ 0)
      × (threads_main fixed_seller plan no_reset env us s ≡ 0)
fixed_main_exits_zero plan n max_retries no_reset env us s v = (
  main_exits_zero fixed_seller plan n max_retries no_reset env us s (λ i. tt) tt v,
  threads_main_exits_zero fixed_seller plan no_reset env us s (λ i. tt) tt v,
)
