-- ===== src/Tests/Endpoints.antt =====
-- Processes of distributed/app, posts to them, and the naive seller under a reset.
use ticket_selling_system.Prelude.{
  string_discrete, ℕ, zero, suc, ◌+◌, ◌<◌, ◌≡◌, refl, false, none, List, [], ◌∷◌, arith, string_key,
  nat_key,
}
use ticket_selling_system.Prelude.Decimal.{str}
use ticket_selling_system.Store.{BuyRequest, ResetResponse, fresh}
use ticket_selling_system.Buyer.{check_invariants}
use ticket_selling_system.Breaker.{new_breaker, is_open, reports}
use ticket_selling_system.Limiter.{allow_local_fallback}
use ticket_selling_system.Limiter.Process.{new_local}
use ticket_selling_system.Limiter.Allow
use ticket_selling_system.Limiter.Allow.{World, answers, refuses}
use ticket_selling_system.Limiter.Outage.{Call, fallback_admitted}
use ticket_selling_system.Seller.{buy, buy_all}
use ticket_selling_system.Seller.Invariant.{fresh-IsValid}
use ticket_selling_system.Seller.Escapes.{encoded_status, sale_during_status_fails}
use ticket_selling_system.Naive
use ticket_selling_system.Naive.Races.{Sold}
use ticket_selling_system.Naive.Mixed.{done, moves}
use ticket_selling_system.Naive.Interrupted.{open_server, reset_around, reset_forgets_sales}
use ticket_selling_system.Queue.{delivers, processes, acknowledged}
use ticket_selling_system.App.{deletes_and_creates}
use ticket_selling_system.App.Served.{Env, takes_entry}
use ticket_selling_system.App.Startup.{default_settings, startup}
use ticket_selling_system.App.Endpoint.{Post}
use ticket_selling_system.Tests.Service.{limits, ann}

abbrev requests : ℕ → BuyRequest
requests zero = record { user_id = "ann"; req_id = "r1" }
requests (suc _) = record { user_id = "bob"; req_id = "r2" }

abbrev quick : Env
quick = record {
  replica = 0;
  reported = [];
  mono = 50;
  wall = 100;
  later = 60;
  clearing = deletes_and_creates;
  conn = answers;
  way = takes_entry;
  before = [];
  during = delivers ∷ processes 0 acknowledged ∷ [];
}

-- A good request, and one whose req_id is no UUID.
abbrev two_posts : List Post
two_posts =
    record { env = quick; entry = ann }
    ∷ record { env = quick; entry = record { user_id = "bob"; req_id = "no uuid" } }
    ∷ []

-- Redis is away for two calls, with a burst of the breaker in between.
abbrev outage : List Call
outage =
    record {
      reported = [];
      keys = record { tb = none; lb = none };
      mono = 5;
      wall = 0;
      conn = refuses 6;
    }
    ∷ record {
      reported = [];
      keys = record { tb = none; lb = none };
      mono = 7;
      wall = 0;
      conn = answers;
    }
    ∷ []

abbrev new_world : World
new_world = record {
  breaker = new_breaker 20;
  local = new_local limits 5;
  redis = record { tb = none; lb = none };
}

outage_admits_two : (fallback_admitted limits outage new_world).0 ≡ 2
unfolding fallback_admitted reports Allow.allow allow_local_fallback is_open
outage_admits_two = refl

named :
    (startup (default_settings 10) 0 4711 (record { tb = none; lb = none })).consumer_name
    ≡ "app-local-4711"
unfolding startup str
named = refl

reset_forgets_sales_example :
    let z = moves requests (reset_around 0 2) (open_server (fresh 1)) in
    ((j : ℕ) → j < 2 → Sold (j + 1) (z.buyers.pc j))
    × ((res : ResetResponse) × (z.resetters 0 ≡ done res) × (res.sold_count ≡ 2))
    × (z.buyers.store.sold_count ≡ 2)
    × (z.buyers.store.processed_requests ≡ [])
    × (z.buyers.store.user_tickets ≡ [])
    × (0 < 2 → check_invariants (Naive.status z.buyers.store) [] ≡ false)
reset_forgets_sales_example = reset_forgets_sales requests 0 2 (fresh 1) (λ i. refl) []

sale_during_status_fails_example :
    check_invariants (encoded_status (fresh 2) (buy_all (requests 0 ∷ []) (fresh 2)).1) [] ≡ false
unfolding buy_all buy string_discrete
sale_during_status_fails_example =
    sale_during_status_fails (fresh 2) (requests 0 ∷ []) [] (fresh-IsValid 2) (omega arith)
