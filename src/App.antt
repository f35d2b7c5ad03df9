-- ===== src/App.antt =====
-- distributed/app/main.py: the handlers of `/buy`, from the rate limiter to the answer, and of `/reset`.
-- How the script ends is given as in `allow`, and how the wait for the queue ends is given too: with a
-- result, with none in time, or with an error of Redis. `mono` and `wall` are the readings of the two
-- clocks by the limiter, and `later` is the one of `time.monotonic()` by the handler. What other tasks of
-- the process report to the breaker in between is left out.
pub mod Paths
pub mod Stale
pub mod Served
pub mod Site
pub mod Startup
pub mod Endpoint
use ticket_selling_system.Prelude.{
  ℕ, String, Bool, true, false, Option, none, some, List, [], Key, if◌then◌else◌,
}
use ticket_selling_system.Breaker.{is_open, record_failure, record_success}
use ticket_selling_system.Limiter.{
  Limits, Reason, ok, token_bucket_exhausted, leaky_bucket_full, allowed,
}
use ticket_selling_system.Limiter.Allow.{
  Connection, World, Answer, by_script, by_fallback, uncaught, allow,
}
use ticket_selling_system.Db.{Tables, DbError, Outcome, raised, BuyResult, atomic_buy, reset_state}
use ticket_selling_system.Queue.{Entry, Pushed, bought, pushed_of, Service}

-- How `enqueue_and_wait` ends; an error comes with the time at which it is recorded.
pub data Waited : Type 0 where
  popped : Pushed → Waited
  timed_out : Waited
  redis_error : ℕ → Waited

pub data BuyPath : Type 0 where
  queue db_fallback_redis_down db_fallback_queue_timeout : BuyPath

-- The body of the response: 429, or the result with its path. The handler raises what the call of
-- `atomic_buy` raises, which is the response 500, and what the limiter raises, which is one too.
pub data Response : Type 0 where
  rate_limited : Answer → Response
  sold_by : BuyPath → Pushed → Response
  server_error : DbError → Response
  limiter_error : Response

-- What the handler answers to a request that the limiter does not let pass.
abbrev pub refusal : Answer → Response
refusal (by_script reason) = rate_limited (by_script reason)
refusal (by_fallback reason) = rate_limited (by_fallback reason)
refusal uncaught = limiter_error

abbrev pub is_allowed : Answer → Bool
is_allowed (by_script reason) = allowed reason
is_allowed (by_fallback reason) = allowed reason
is_allowed uncaught = false

-- `result`, `path` and the limiter after the middle part of the handler.
abbrev pub after_wait : Waited → World → Option Pushed × BuyPath × World
after_wait (popped p) w = (some p, queue, record w { breaker = record_success w.breaker })
after_wait timed_out w =
    (none, db_fallback_queue_timeout, record w { breaker = record_success w.breaker })
after_wait (redis_error t) w =
    (none, db_fallback_redis_down, record w { breaker = record_failure t w.breaker })

unfoldable pub ask_queue : ℕ → Waited → World → Option Pushed × BuyPath × World
ask_queue later waited w =
    if is_open later w.breaker then (none, db_fallback_redis_down, w) else after_wait waited w

abbrev pub answer_of : BuyPath → Pushed → Response
answer_of path (bought r) = sold_by path (bought r)
answer_of path (Pushed.error e) = server_error e

module _ {Uuid : Type 0} ⦃key : Key Uuid⦄ (parse : String → Option Uuid) where
  -- The last part: the call of `atomic_buy`, if there is no result.
  abbrev pub finish : Entry → Option Pushed → BuyPath → Tables Uuid → Response × Tables Uuid
  finish e (some p) path t = (sold_by path p, t)
  finish e none path t =
      let (outcome, t') = atomic_buy parse e.user_id e.req_id t in
      (answer_of path (pushed_of outcome), t')

  abbrev pub past_limiter :
      ℕ → Waited → Entry → World → Tables Uuid → Response × World × Tables Uuid
  past_limiter later waited e w t =
      let (result, path, w') = ask_queue later waited w in
      let (response, t') = finish e result path t in (response, w', t')

  unfoldable pub buy :
      Limits
      → ℕ
      → ℕ
      → ℕ
      → Connection
      → Waited
      → Entry
      → World
      → Tables Uuid
      → Response × World × Tables Uuid
  buy c mono wall later conn waited e w t =
      let (answer, w') = allow c mono wall conn w in
      if is_allowed answer then past_limiter later waited e w' t else (refusal answer, w', t)

-- What the two commands of `/reset` on the stream do before an error of Redis, if there is one.
pub data Clearing : Type 0 where
  deletes_and_creates deletes_only fails : Clearing

abbrev pub is_cleared : Clearing → Bool
is_cleared deletes_and_creates = true
is_cleared deletes_only = true
is_cleared fails = false

abbrev pub report_clearing : ℕ → Clearing → World → World
report_clearing now deletes_and_creates w = record w { breaker = record_success w.breaker }
report_clearing now _ w = record w { breaker = record_failure now w.breaker }

module _ {Uuid : Type 0} ⦃key : Key Uuid⦄ where
  -- Deleting the stream deletes its groups; the consumers still hold the entries they were delivered.
  abbrev pub clear_stream : Clearing → Service Uuid → Service Uuid
  clear_stream clearing y =
      if is_cleared clearing then record y { stream = []; pending = [] } else y

  abbrev pub past_database :
      ℕ → Clearing → Outcome (Unit {0}) → World → Service Uuid → World × Service Uuid
  past_database now clearing (raised e) w y = (w, y)
  past_database now clearing (Outcome.ok _) w y =
      if is_open now w.breaker
      then (w, y)
      else (report_clearing now clearing w, clear_stream clearing y)

  -- `reset`; `total` is TOTAL_TICKETS.
  unfoldable pub reset : ℕ → ℕ → Clearing → World → Service Uuid → World × Service Uuid
  unfolding reset_state
  reset total now clearing w y =
      let (outcome, t) = reset_state total y.tables in
      past_database now clearing outcome w (record y { tables = t })
