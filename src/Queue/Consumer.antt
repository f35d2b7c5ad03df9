-- ===== src/Queue/Consumer.antt =====
-- The consumers of distributed/app/queue_stream.py: the loop of `_run_consumer`, one turn at a time, and
-- its supervisor `consumer_loop`. How XREADGROUP ends is given, and how far Redis lets each of the entries
-- come that `_process_entry` handles.
pub mod History
pub mod Answers
use ticket_selling_system.Prelude.{
  ℕ, zero, suc, ◌+◌, String, Bool, true, false, Option, none, some, List, [], ◌∷◌, Key, length,
  if◌then◌else◌,
}
use ticket_selling_system.Breaker.{RedisCircuitBreaker, is_open, record_failure, record_success}
use ticket_selling_system.Db.{Tables, atomic_buy}
use ticket_selling_system.Queue.{Entry, Message, Service, Reached, pick, deliver, process_entry}

-- How XREADGROUP ends: with entries, whose `_process_entry` get the row lock in this order, each by its place
-- among those of the batch that are left; with an error of the connection, recorded at this time; or with
-- an answer that the group is not there.
pub data Read : Type 0 where
  replies : List (ℕ × Reached) → Read
  unavailable : ℕ → Read
  no_group : Read

-- A call of `_run_consumer` ends by an exception, which is recorded at this time, or is cancelled.
pub data Ended : Type 0 where
  failed : ℕ → Ended
  cancelled : Ended

-- `count=10`
abbrev pub batch_size : ℕ
batch_size = 10

module _ {Uuid : Type 0} where
  -- At most so many of the undelivered entries.
  unfoldable pub deliver_up_to : ℕ → Service Uuid → Service Uuid
  deliver_up_to zero y = y
  deliver_up_to (suc n) y = deliver_up_to n (deliver y.stream y)

module _ {Uuid : Type 0} ⦃key : Key Uuid⦄ (parse : String → Option Uuid) where
  -- `asyncio.gather` over the batch, which is held from this place on.
  unfoldable pub process_all : ℕ → List (ℕ × Reached) → Service Uuid → Service Uuid
  unfolding process_entry
  process_all n [] y = y
  process_all n ((k, r) ∷ rs) y = process_all n rs (process_entry parse r (pick (n + k) y.held) y)

  -- The new entries are held behind those that were held before.
  abbrev pub after_read :
      Read → RedisCircuitBreaker → Service Uuid → RedisCircuitBreaker × Service Uuid
  after_read (replies rs) b y =
      (record_success b, process_all (length y.held) rs (deliver_up_to batch_size y))
  after_read (unavailable t) b y = (record_failure t b, y)
  after_read no_group b y = (b, y)

  -- One round of `while True` in `_run_consumer`; `now` is when it asks the breaker.
  unfoldable pub consumer_turn :
      ℕ → Read → RedisCircuitBreaker → Service Uuid → RedisCircuitBreaker × Service Uuid
  unfolding process_all
  consumer_turn now read b y = if is_open now b then (b, y) else after_read read b y

  unfoldable pub run_consumer :
      List (ℕ × Read) → RedisCircuitBreaker → Service Uuid → RedisCircuitBreaker × Service Uuid
  unfolding consumer_turn
  run_consumer [] b y = (b, y)
  run_consumer ((now, read) ∷ rounds) b y =
      let (b', y') = consumer_turn now read b y in run_consumer rounds b' y'

  -- `consumer_loop` over the calls of `_run_consumer`; whether the task is still there.
  unfoldable pub consumer_loop :
      List (List (ℕ × Read) × Ended)
      → RedisCircuitBreaker
      → Service Uuid
      → Bool × RedisCircuitBreaker × Service Uuid
  unfolding run_consumer
  consumer_loop [] b y = (true, b, y)
  consumer_loop ((rounds, cancelled) ∷ calls) b y =
      let (b', y') = run_consumer rounds b y in (false, b', y')
  consumer_loop ((rounds, failed t) ∷ calls) b y =
      let (b', y') = run_consumer rounds b y in consumer_loop calls (record_failure t b') y'

  -- The calls of `atomic_buy` for these entries.
  unfoldable pub consume : List Entry → Tables Uuid → Tables Uuid
  unfolding atomic_buy
  consume [] t = t
  consume (e ∷ es) t = consume es (atomic_buy parse e.user_id e.req_id t).1
