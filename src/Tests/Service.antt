-- ===== src/Tests/Service.antt =====
-- distributed/app/queue_stream.py and distributed/app/main.py on tables of two tickets.
use ticket_selling_system.Prelude.{
  ℕ, ◌≡◌, ◌↔◌, refl, true, false, some, none, List, [], ◌∷◌, arith, string_key, string_discrete,
  ℕ_discrete, nat_key, get_elem?,
}
use ticket_selling_system.Prelude.Int.{pos}
use ticket_selling_system.Store.{success, already_processed}
use ticket_selling_system.Breaker.{new_breaker, is_open}
use ticket_selling_system.Limiter.{Limits, allowed, allow_local_fallback, token_bucket_exhausted}
use ticket_selling_system.Limiter.Allow.{World, by_fallback, allow, answers}
use ticket_selling_system.Db.{BuyResult}
use ticket_selling_system.Queue.{
  Service, Entry, Event, enqueues, delivers, processes, nothing, acknowledged, pops, falls_back,
  bought, history, pop_result,
}
use ticket_selling_system.Queue.Recorded.{IsRecorded}
use ticket_selling_system.Queue.Told.{opened, one_ticket_for_each_uuid}
use ticket_selling_system.Queue.Stuck.{IsStuck, history-IsStuck}
use ticket_selling_system.App.{timed_out, rate_limited, buy, reset, deletes_and_creates}
use ticket_selling_system.App.Stale.{reset_leaves_results}
use ticket_selling_system.Tests.Stack.{parse, no_sale, no_sale-IsValid}

abbrev pub ann : Entry
ann = record { user_id = "ann"; req_id = "aa" }

abbrev pub bob : Entry
bob = record { user_id = "bob"; req_id = "bb" }

-- Redis goes away before the first result is pushed. The request is enqueued again, and retried in upper
-- case by the fallback.
abbrev events : List Event
events =
    enqueues ann
    ∷ delivers
    ∷ processes 0 nothing
    ∷ enqueues ann
    ∷ delivers
    ∷ processes 0 acknowledged
    ∷ pops "aa"
    ∷ falls_back (record { user_id = "ann"; req_id = "AA" })
    ∷ falls_back bob
    ∷ []

abbrev again : BuyResult
again = record { status = already_processed; ticket_number = some 1; remaining_tickets = pos 1 }

told_by_queue : get_elem? (history parse events (opened no_sale)).told 2 ≡ some ("aa", bought again)
unfolding history string_discrete ℕ_discrete
told_by_queue = refl

told_by_fallback :
    get_elem? (history parse events (opened no_sale)).told 1 ≡ some ("AA", bought again)
unfolding history string_discrete ℕ_discrete
told_by_fallback = refl

abbrev pub limits : Limits
limits = record {
  unit = 10;
  token_capacity = 3;
  token_refill_rate = 2;
  leaky_capacity = 2;
  leaky_leak_rate = 2;
}

abbrev pub world : World
world = record {
  breaker = new_breaker 20;
  local = record { local_tokens = 30; local_level = 0; local_ts = 0 };
  redis = record { tb = none; lb = none };
}

abbrev spent : World
spent = record {
  breaker = record { cooldown = 20; open_until = 90 };
  local = record { local_tokens = 0; local_level = 0; local_ts = 50 };
  redis = record { tb = none; lb = none };
}

world_closed : is_open 48 world.breaker ≡ false
unfolding is_open
world_closed = refl

world_admits : allowed (allow_local_fallback limits 50 world.local).0 ≡ true
unfolding allow_local_fallback
world_admits = refl

refused_when_spent :
    (buy parse limits 50 100 50 answers timed_out ann spent no_sale).0
    ≡ rate_limited (by_fallback token_bucket_exhausted)
unfolding buy allow is_open allow_local_fallback
refused_when_spent = refl

-- Each theorem at an input.

one_ticket_for_each_uuid_example : (◌≡◌ {A = ℕ} 1 1) ↔ (parse "aa" ≡ parse "AA")
one_ticket_for_each_uuid_example =
    one_ticket_for_each_uuid parse events no_sale 2 1 "aa" "AA" again again 1 1 no_sale-IsValid
      told_by_queue told_by_fallback refl refl

-- A result that nobody has popped.
abbrev left : Service ℕ
left = history parse (enqueues ann ∷ delivers ∷ processes 0 acknowledged ∷ []) (opened no_sale)

abbrev sold_one : BuyResult
sold_one = record { status = success; ticket_number = some 1; remaining_tickets = pos 1 }

left_results : left.results "aa" ≡ bought sold_one ∷ []
unfolding history string_discrete ℕ_discrete
left_results = refl

reset_leaves_results_example :
    let z = (reset 2 60 deletes_and_creates world left).1 in
    let z' = pop_result "aa" (z.results "aa") z in
    (z'.told ≡ ("aa", bought sold_one) ∷ left.told)
    × (z'.tables.sold_tickets ≡ [])
    × ¬ IsRecorded parse z'.tables "aa" (bought sold_one)
reset_leaves_results_example =
    reset_leaves_results parse 2 60 deletes_and_creates world left "aa" sold_one 1 [] (omega arith)
      left_results refl

-- The result was not pushed, and so not acknowledged.
abbrev unpushed : Service ℕ
unpushed = history parse (enqueues ann ∷ delivers ∷ processes 0 nothing ∷ []) (opened no_sale)

unpushed-IsStuck : IsStuck 0 unpushed
unfolding history string_discrete ℕ_discrete
unpushed-IsStuck = record { waits = refl; not_held = tt; not_streamed = tt; old = omega arith }

history-IsStuck_example :
    IsStuck 0 (history parse (enqueues ann ∷ delivers ∷ processes 0 acknowledged ∷ []) unpushed)
history-IsStuck_example =
    history-IsStuck parse 0 (enqueues ann ∷ delivers ∷ processes 0 acknowledged ∷ []) unpushed
      unpushed-IsStuck
