-- ===== src/Tests/Sites.antt =====
-- The load client against distributed/app, with a cache that is never invalidated.
use ticket_selling_system.Prelude.{
  ◌≡◌, refl, String, sym, inl, inr, Option, none, some, false, List, [], ◌∷◌, arith, string_key,
  string_discrete, ℕ_discrete, nat_key,
}
use ticket_selling_system.Store.{StatusBody}
use ticket_selling_system.Breaker.{reports, failure_at, is_open, success}
use ticket_selling_system.Limiter.Allow
use ticket_selling_system.Queue.{
  enqueues, delivers, processes, crashes, pushed, acknowledged, happens,
}
use ticket_selling_system.Queue.Told.{opened}
use ticket_selling_system.App.{ask_queue, deletes_and_creates}
use ticket_selling_system.Breaker.{is_open, record_success}
use ticket_selling_system.Limiter.{script}
use ticket_selling_system.Cache.{
  StatusKey, Json, answers, fails, get_cached_status, invalidate_status_cache,
}
use ticket_selling_system.Db.Snapshot.{get_status}
use ticket_selling_system.App.Site.{
  Visit, polls_before, polls_after, invalidates, Site, calls, status,
}
use ticket_selling_system.App.Served.{serve, Env, takes_entry, loses_entry}
use ticket_selling_system.Buyer.Client.{HttpSeller, lost_answer, answered, Turn, turns, start, main}
use ticket_selling_system.Buyer.Client.Distributed.{distributed_seller, distributed_main_exits_zero}
use ticket_selling_system.Tests.Service.{limits, world, bob}
use ticket_selling_system.Tests.Stack.{answers_eq}
use ticket_selling_system.Tests.Consumers.{read, write, tables, tables-IsKeyed}
use ticket_selling_system.Tests.Clients.{requests}

abbrev env : Env
env = record {
  replica = 1;
  reported = failure_at 10 ∷ success ∷ [];
  mono = 50;
  wall = 100;
  later = 60;
  clearing = deletes_and_creates;
  conn = Allow.answers;
  way = takes_entry;
  before = enqueues bob ∷ [];
  during = delivers ∷ processes 0 acknowledged ∷ delivers ∷ processes 0 pushed ∷ [];
}

abbrev silent : Env
silent = record env { during = delivers ∷ crashes 0 ∷ [] }

failed_not_done : {A B : Type 0} {a : A} → fails ≡ answers a → B
failed_not_done e = cc

-- One key on which DEL never succeeds, and a status that is kept as it is.
abbrev stubborn_key : StatusKey StatusBody
stubborn_key = record {
  Server = Option StatusBody;
  held = λ s. s;
  get_key = λ s. (answers s, s);
  set_key = λ v s. (answers tt, some v);
  delete_key = λ s. (fails, s);
  get_answers = λ s v e. inl (answers_eq (sym e));
  get_keeps = λ s. inl refl;
  set_answers = λ v s e. refl;
  set_keeps = λ v s. inl refl;
  delete_answers = λ s e. failed_not_done e;
  delete_keeps = λ s. inr refl;
}

abbrev as_it_is : Json StatusBody StatusBody
as_it_is = record { dumps = λ b. b; loads = some; loads-dumps = λ b. refl }

abbrev tables_seller : HttpSeller
tables_seller =
    distributed_seller read write (λ a b e. e) stubborn_key as_it_is limits 2 (omega arith)

-- A poller caches the status of before the first handler.
abbrev polled : Visit
polled = record { env = silent; cache_calls = polls_before ∷ invalidates ∷ [] }

-- Around the reset it reads the database after it.
abbrev calm : Visit
calm = record { env = silent; cache_calls = polls_after ∷ invalidates ∷ [] }

abbrev remote_load : List (Turn tables_seller)
remote_load =
    record { who = 0; delivery = lost_answer; env = polled }
    ∷ record {
      who = 1;
      delivery = answered;
      env = record { env = env; cache_calls = invalidates ∷ polls_after ∷ [] };
    }
    ∷ record {
      who = 0;
      delivery = answered;
      env = record { env = record env { replica = 2; way = loses_entry 61 }; cache_calls = [] };
    }
    ∷ []

abbrev new_site : Site stubborn_key as_it_is String
new_site = record { worlds = λ _. world; service = opened tables; cache = none }

abbrev after_load : Site stubborn_key as_it_is String
after_load = (turns tables_seller requests remote_load (start tables_seller 2 new_site)).store

-- The fallback sells the first ticket, and a consumer the second one to bob; the cache has none.
remote_load_sells_two :
    (after_load.service.tables.sold_count ≡ 2) × ((tables_seller.status after_load).sold_count ≡ 0)
unfolding turns serve happens string_discrete ℕ_discrete Allow.allow is_open script ask_queue
    record_success reports status get_cached_status calls get_status invalidate_status_cache
remote_load_sells_two = (refl, refl)

distributed_main_exits_zero_example :
    main tables_seller requests 2 2 false calm remote_load new_site ≡ 0
distributed_main_exits_zero_example =
    distributed_main_exits_zero read write limits 2 (omega arith) requests 2 2 false (λ a b e. e)
      stubborn_key as_it_is calm remote_load new_site (λ i. ((requests i).req_id, refl, refl))
      (omega arith)
      (record {
        ready = record { keyed = tables-IsKeyed; no_result = λ id. refl; no_answer = refl };
        uncached = refl;
      })
