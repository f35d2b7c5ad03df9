-- ===== src/Tests/Consumers.antt =====
-- The consumers of distributed/app/queue_stream.py and its queue at concrete inputs, where a UUID is its own
-- text or a number.
use ticket_selling_system.Prelude.{
  ℕ, ◌≡◌, ◌≢◌, refl, sym, some_eq, ◌∙◌, true, false, some, String, Option, List, [], ◌∷◌, inr, All,
  arith, string_key, string_discrete, ite, ℕ_discrete, nat_key, get_elem?,
}
use ticket_selling_system.Prelude.Int.{pos}
use ticket_selling_system.Store.{success}
use ticket_selling_system.Breaker.{new_breaker, is_open}
use ticket_selling_system.Db.{Tables, reset_state, BuyResult, atomic_buy}
use ticket_selling_system.Db.Keyed.{IsKeyed}
use ticket_selling_system.Db.Snapshot.{get_status}
use ticket_selling_system.Queue.{
  Service, Event, enqueues, delivers, processes, acknowledged, pops, falls_back, bought, enqueue,
  pop_result, happens, pushed_of, history,
}
use ticket_selling_system.Queue.Told.{opened}
use ticket_selling_system.Queue.Demand.{events_sell_the_demand}
use ticket_selling_system.Queue.Passes.{Heard, distributed_passes}
use ticket_selling_system.Queue.Consumer.{
  Read, replies, unavailable, no_group, consumer_turn, Ended, failed, cancelled, consume,
}
use ticket_selling_system.Queue.Consumer.Answers.{enqueued_is_answered}
use ticket_selling_system.Buyer.{RequestResult, of_seller, check_invariants}
use ticket_selling_system.Tests.Stack.{parse, no_sale}
use ticket_selling_system.Tests.Service.{ann, bob}

-- A UUID that is its own text.
abbrev pub read : String → Option String
read = some

abbrev pub write : String → String
write s = s

abbrev pub tables : Tables String
tables = record { total_tickets = 2; sold_count = 0; sold_tickets = [] }

pub tables-IsKeyed : IsKeyed tables
tables-IsKeyed = record {
  valid = record { numbered = refl; not_oversold = omega arith; fits = omega arith };
  keys = tt;
}

-- The consumer of a process whose Redis goes away for a while, until the process shuts down.
abbrev consumer_calls : List (List (ℕ × Read) × Ended)
consumer_calls =
    ((1, replies ((1, acknowledged) ∷ (0, acknowledged) ∷ [])) ∷ (2, no_group) ∷ [], failed 3)
    ∷ ((9, unavailable 9) ∷ (99, replies []) ∷ [], cancelled)
    ∷ []

abbrev two_waiting : Service ℕ
two_waiting = enqueue bob (enqueue ann (opened no_sale))

abbrev one_waiting : Service ℕ
one_waiting = enqueue bob (opened no_sale)

closed : is_open 1 (new_breaker 20) ≡ false
unfolding is_open
closed = refl

-- One request by the queue, and one by the fallback.
abbrev events : List Event
events = enqueues ann ∷ delivers ∷ processes 0 acknowledged ∷ pops "aa" ∷ falls_back bob ∷ []

abbrev told_ann : RequestResult
told_ann = record {
  user_id = "ann";
  req_id = "aa";
  body_status = some (of_seller success);
  ticket_number = some 1;
}

abbrev sold_one : BuyResult
sold_one = record { status = success; ticket_number = some 1; remaining_tickets = pos 1 }

ann_told : get_elem? (history read events (opened tables)).told 1 ≡ some ("aa", bought sold_one)
unfolding history string_discrete ℕ_discrete
ann_told = refl

ann-Heard : All (Heard read write (history read events (opened tables)).told) (told_ann ∷ [])
ann-Heard = (inr (1, sold_one, ann_told, refl, (λ id e. some_eq (sym e))), tt)

pub differ : (a b : String) → ite (string_discrete a b) true false ≡ false → a ≢ b
differ a b e same = ground (arith, e, same)

bob_is_other : bob.req_id ≢ ann.req_id
unfolding string_discrete
bob_is_other = differ "bb" "aa" refl

-- Each theorem at an input.
distributed_passes_example :
    let t = (history read events (opened tables)).tables in
    check_invariants (get_status write t t) (told_ann ∷ []) ≡ true
distributed_passes_example =
    distributed_passes read write events tables (told_ann ∷ []) (λ a b e. e) tables-IsKeyed
      ann-Heard

enqueued_is_answered_example :
    let read_all = replies ((0, acknowledged) ∷ (0, acknowledged) ∷ []) in
    let z = (consumer_turn parse 1 read_all (new_breaker 20) (enqueue ann one_waiting)).1 in
    let o = atomic_buy parse "ann" "aa" (atomic_buy parse "bob" "bb" no_sale).1 in
    ((pop_result "aa" (z.results "aa") z).told ≡ ("aa", pushed_of o.0) ∷ [])
    × (z.tables ≡ o.1)
    × (z.stream ≡ [])
    × (z.held ≡ [])
unfolding enqueue atomic_buy consume
enqueued_is_answered_example =
    enqueued_is_answered parse ann 1 (new_breaker 20) one_waiting closed (omega arith) refl
      (bob_is_other, tt)

events_sell_the_demand_example :
    (history read events (opened (reset_state 2 tables).1)).tables.sold_count ≡ 2
unfolding happens enqueue reset_state string_discrete
events_sell_the_demand_example =
    events_sell_the_demand read (λ _. Unit) events 2 tables (λ a b id c d e f. some_eq (e ∙ sym f))
      (omega arith) ((tt, "aa", refl), ((tt, "bb", refl), tt))
