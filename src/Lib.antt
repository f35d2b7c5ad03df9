-- ===== src/Lib.antt =====
-- A ticket seller in three stages, as one library. The stages sell at most a fixed number of
-- tickets, one for each req_id, under concurrent requests: naive/main.py without a lock,
-- seller/main.py with one lock around its handlers, and distributed/app, where Postgres
-- serializes the writers, and Redis holds a rate limiter's state, a queue of requests with their
-- results, and a cached status. There /buy asks the limiter, then the queue unless the circuit
-- breaker is open, and falls back to the database. buyer/load_client.py and
-- buyer/load_client_async.py are the clients that test each of them over HTTP, by four invariants
-- of the answers and of GET /status, and buyer/race_test.py shows the races of the first.
--
-- The files, by the code that they model:
--   Prelude, Dict       shared lemmas, keys, integers, decimals; Python's dict in the order of insertion
--   Store               the state, the requests and the responses of naive/main.py, seller/main.py
--   Seller              seller/main.py: buy, reset, status as functions (Buy, Invariant, Retry, Demand,
--                       Escapes)
--   Seller/Lock         the threads of seller/main.py around buy_lock in /buy (Serial, Safety, Progress);
--                       Seller/Endpoints: in /buy, /reset, /status (Outcome, Serial, Safety)
--   Naive               naive/main.py: buy by statements, any schedule (Alone, Turns, Races, Resets);
--                       Naive/Mixed: reset by statements too (Interrupted)
--   Buyer               buyer/load_client.py: check_invariants (Records, Passes, Detects)
--   Buyer/Plan          buyer/load_client.py: build_request_plan (Demand)
--   Buyer/Summary       buyer/load_client.py, buyer/load_client_async.py: percentile, print_perf_summary
--                       (Percentiles, InOrder, Breakdown, Silent)
--   Buyer/Client        buyer/load_client_async.py: fire_one, run_load, main, against an interface of
--                       a seller (Finishes, Once, Passes) that the fixed seller (Sellers) and the
--                       distributed one (Earlier, Sites, Distributed) fill; Buyer/Client/Threads:
--                       buyer/load_client.py: run_load, main
--   RaceTest            buyer/race_test.py: its alarms (Alarms, Counts, Steps, Locked, Winner), main
--                       (Main)
--   Breaker             distributed/app/circuit_breaker.py: RedisCircuitBreaker
--   Limiter             distributed/app/rate_limiter.py: the Lua script, _allow_local_fallback (Bound,
--                       Local, Skew, Process); Limiter/Allow: allow, with the breaker (Outage);
--                       Limiter/Fleet: allow in all the replicas (Script, Totals)
--   Db                  distributed/app/db.py over distributed/init_db.sql: atomic_buy, reset_state
--                       (Valid, Refines, Keyed); Db/Snapshot: get_status (Torn, Quiet,
--                       Lookup)
--   Cache               distributed/app/cache.py: get_cached_status, invalidate_status_cache (Coherent,
--                       Holds)
--   Queue               distributed/app/queue_stream.py: enqueue_and_wait, _process_entry (Recorded,
--                       Told, Stuck, Passes, Demand, Clean); Queue/Consumer: _run_consumer, consumer_loop
--                       (History, Answers)
--   App                 distributed/app/main.py: buy, reset (Paths, Stale); App/Served: buy with
--                       the queue around it (Keeps, Ready); App/Site: with the cached status, reset, status;
--                       App/Endpoint: the validator before buy (Clean); App/Startup: startup
--   Tests               runs at concrete inputs
--
-- The threads. A handler is a program counter that holds its local variables, and advance runs
-- one statement of the handler; += on the shared count is a read and a write. A schedule is a
-- list of thread numbers, of any length; request gives each thread its request. A handler takes
-- at most nine steps, and a step of a thread that has returned, or that waits for a lock another
-- one holds, changes nothing. The recursion is on the schedule, so there is no fuel. In
-- seller/main.py the threads run the same statements inside the lock: in Seller/Lock those of
-- /buy alone, in Seller/Endpoints those of /buy, /reset and /status, where /status takes its list
-- of the values and then builds its body; what /status returns is encoded past the lock, at a
-- later store, which is in Seller/Escapes. In Naive/Mixed the threads of /reset run statement by
-- statement among those of /buy. The statements of the two buy handlers are alike but for the
-- sleeps of naive/main.py, which are where other threads may run.
--
-- Numbers. Counts and ticket numbers are natural numbers, as Python's int has no bound;
-- remaining_tickets is an integer, since an oversold state makes it negative. The column type INT
-- is bounded by 2 ^ 31, and a larger value raises. Times and amounts of the limiter are floats in
-- the source and natural numbers here: unit ticks make a second, unit parts make a token, and a
-- rate is in whole tokens a second, so that the refill of a tick is a whole number of parts.
-- Latencies are natural numbers of some unit, and the figures of the clients' summary are in
-- hundredths of it. What floats round off is not modelled.
--
-- Parameters. Postgres: a transaction is a function of the tables, because SELECT ... FOR UPDATE
-- on the one row of tickets_state makes the writers run one after the other; what raises is
-- rolled back; the text of a UUID is read by a parameter parse, with texts that are canonical.
-- Redis: an evaluation of the script is one function of the two hashes, and it may fail, also
-- after it has run, or be rejected with an error that allow does not catch; EXPIRE goes by the
-- clock of Redis, which is taken to show what the next caller sends; the cached key is an
-- interface with the documented behaviour of GET, SET and DEL, each of which may fail, over a
-- type of the texts that Redis keeps. The class uuid.UUID is a parameter, none where it raises;
-- FastAPI answers 422 then, and encodes what a handler returns after the handler. The json module
-- is an interface whose loads reads back what dumps wrote.
--
-- The queue. Handlers and consumers interleave as a list of events, of any length: a request is
-- added, delivered, processed, answered from its result list or by the fallback. A consumer that
-- is delivered an entry holds it until it has processed it, or ends before; the group keeps its
-- id as pending until it is acknowledged. To process an entry, from its transaction to the end of
-- RPUSH and XACK, is one step, so that neither /reset nor another event comes between the commit
-- and the push. In App one request goes through /buy, with the ends of its calls of Redis given;
-- in App/Served the handler adds its entry and pops its result in the service, with any events
-- before and in between. Queue/Consumer runs the loop of a consumer over a list of rounds, each
-- with the answer of XREADGROUP and the order in which the entries of its batch get the row lock;
-- the list is of any length, and consumer_loop is a list of such calls, each with its end.
--
-- The clients. A call of fire_one is a task with the number of attempts left, which is the fuel
-- of its loop; load_client.py makes one attempt, and its thread pool is a list of calls in any
-- order. run_load is a list of turns of any length, in which a task makes one attempt, with what
-- the network does to it; the semaphore, the thread pool and the sleeps only restrict the order
-- of the turns. A task needs at most max_retries + 2 of them. main puts the reset, the load and
-- the checks together, for any seller that fills the interface HttpSeller. In the distributed
-- seller GET /status goes through the cache, and around each handler the functions of cache.py
-- are called in any order, as invalidations or by pollers that read the database, with no
-- purchase under way, before or after the handler. A poller stores by the end of the handler at
-- whose start or end it has read. Each request goes to the replica that is given for it, and a
-- handler is one turn: what overlaps with it are the events of the queue, among them those of
-- other clients' handlers; handlers of the client's own requests overlap only in Queue, as
-- events.
--
-- Not modelled: HTTP, FastAPI and pydantic, but for the validator; /health; the reading of the
-- environment, the connections and shutdown of distributed/app/main.py; ensure_group and the
-- sleeps of distributed/app/queue_stream.py; reports of other tasks to the breaker while
-- record_failure waits for the disconnect; the HTTP calls, the throughput and the layout of what
-- the clients in buyer/ print; failures of a connection to Postgres; the deployment files.
pub mod Prelude
pub mod Dict
pub mod Store
pub mod Seller
pub mod Naive
pub mod Buyer
pub mod Breaker
pub mod Limiter
pub mod Db
pub mod Cache
pub mod Queue
pub mod RaceTest
pub mod App
pub mod Tests
