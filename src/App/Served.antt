-- ===== src/App/Served.antt =====
-- A request to distributed/app/main.py with all that happens to it: events of the queue come before, the
-- handler of `/buy` runs, and while it waits for a result other events happen, of which one may be that
-- a consumer processes its entry.
pub mod Keeps
pub mod Ready
use ticket_selling_system.Prelude.{
  ℕ, ◌≡◌, ◌≢◌, refl, sym, ap, subst, ◌∙◌, String, Bool, true, false, not, ◌&&◌, ite, ℕ_discrete,
  Option, none, some, List, [], ◌∷◌, Key, Bool-cases, inl, inr, if◌then◌else◌,
}
use ticket_selling_system.Breaker.{is_open, Report, reports}
use ticket_selling_system.Limiter.{Limits}
use ticket_selling_system.Limiter.Allow.{Connection, World, Answer, allow}
use ticket_selling_system.Db.{
  Tables, DbError, Outcome, ok, raised, BuyResult, atomic_buy, find_ticket,
}
use ticket_selling_system.Db.Valid.{atomic_buy-Buys}
use ticket_selling_system.Db.Keyed.{IsKeyed, atomic_buy-IsKeyed}
use ticket_selling_system.Queue.{Entry, Pushed, pushed_of, Service, Event, enqueues, pops, history}
use ticket_selling_system.Queue.Recorded.{IsRecorded, Called, Buys-Called}
use ticket_selling_system.App
use ticket_selling_system.App.{
  Clearing, Waited, popped, timed_out, redis_error, BuyPath, queue, db_fallback_redis_down,
  db_fallback_queue_timeout, Response, refusal, rate_limited, sold_by, server_error, is_allowed,
  ask_queue, answer_of, finish, past_limiter, buy,
}

-- How Redis treats a handler that asks the queue: it answers, it is gone before `XADD`, or it goes away
-- after it.
pub data Way : Type 0 where
  takes_entry : Way
  refuses_entry loses_entry : ℕ → Way

-- The replica that nginx chose, what its other tasks reported to its breaker before, the clocks, the connection of the limiter, how Redis treats the handler, and what happens of the queue
-- before the handler runs and while it waits; for `/reset`, how far its commands on the stream get.
pub record Env : Type 0 where
  pub replica : ℕ
  pub reported : List Report
  pub mono : ℕ
  pub wall : ℕ
  pub later : ℕ
  pub clearing : Clearing
  pub conn : Connection
  pub way : Way
  pub before : List Event
  pub during : List Event

abbrev pub first : List Pushed → Waited
first [] = timed_out
first (p ∷ _) = popped p

-- The processes after one of them has run a handler; the keys in Redis are shared.
abbrev pub share : (ℕ → World) → ℕ → World → ℕ → World
share ws i w j = ite (ℕ_discrete j i) w (record (ws j) { redis = w.redis })

-- The breaker after these reports.
abbrev pub hears : List Report → World → World
hears rs w = record w { breaker = reports rs w.breaker }

-- Whether the handler calls `enqueue_and_wait`.
abbrev pub asks_queue : Limits → Env → World → Bool
asks_queue c v w =
    let (answer, w') = allow c v.mono v.wall v.conn w in
    is_allowed answer && not (is_open v.later w'.breaker)

module _ {Uuid : Type 0} ⦃key : Key Uuid⦄ (parse : String → Option Uuid) where
  -- `enqueue_and_wait`, as it ends and with the service then.
  abbrev pub wait_for : Way → List Event → Entry → Service Uuid → Waited × Service Uuid
  wait_for takes_entry during e y =
      let y' = history parse (enqueues e ∷ during) y in
      (first (y'.results e.req_id), history parse (pops e.req_id ∷ []) y')
  wait_for (refuses_entry t) during e y = (redis_error t, history parse during y)
  wait_for (loses_entry t) during e y = (redis_error t, history parse (enqueues e ∷ during) y)

  abbrev pub waited_for : Bool → Env → Entry → Service Uuid → Waited × Service Uuid
  waited_for true v e y = wait_for v.way v.during e y
  waited_for false v e y = (timed_out, y)

  unfoldable pub serve :
      Limits → Env → Entry → World × Service Uuid → Response × World × Service Uuid
  unfolding history buy
  serve c v e z =
      let w' = hears v.reported z.0 in
      let (waited, y) = waited_for (asks_queue c v w') v e (history parse v.before z.1) in
      let (response, w, t) = buy parse c v.mono v.wall v.later v.conn waited e w' y.tables in
      (response, w, record y { tables = t })

  -- The ways in which the handler ends.
  pub data Ends (told : Answer) (waited : Waited) (o : Outcome (BuyResult × Bool) × Tables Uuid)
      (t : Tables Uuid) (response : Response) (t' : Tables Uuid) : Type 0 where
    limited : response ≡ refusal told → t' ≡ t → Ends told waited o t response t'
    by_queue :
        (p : Pushed)
        → waited ≡ popped p
        → response ≡ sold_by queue p
        → t' ≡ t
        → Ends told waited o t response t'
    direct :
        (path : BuyPath)
        → response ≡ answer_of path (pushed_of o.0)
        → t' ≡ o.1
        → Ends told waited o t response t'

  -- How `ask_queue` ends.
  data Asked (waited : Waited) (o : Option Pushed) (path : BuyPath) : Type 0 where
    no_result : o ≡ none → Asked waited o path
    result : (p : Pushed) → waited ≡ popped p → o ≡ some p → path ≡ queue → Asked waited o path

  ask_queue-Asked :
      (later : ℕ) (waited : Waited) (w : World)
      → Asked waited (ask_queue later waited w).0 (ask_queue later waited w).1
  unfolding ask_queue
  ask_queue-Asked later waited w = elim (Bool-cases (is_open later w.breaker)) [
    | inl open_ ↦ rw open_ (no_result refl)
    | inr closed ↦ rw closed (closed_Asked waited)
  ]
    where
      closed_Asked : (x : Waited) → Asked x (App.after_wait x w).0 (App.after_wait x w).1
      closed_Asked (popped p) = result p refl refl refl
      closed_Asked timed_out = no_result refl
      closed_Asked (redis_error t) = no_result refl

  finish-Ends :
      (told : Answer) (e : Entry) (t : Tables Uuid) (waited : Waited) (o : Option Pushed)
      (path : BuyPath)
      → Asked waited o path
      → Ends told waited
          (atomic_buy parse e.user_id e.req_id t)
          t
          (finish parse e o path t).0
          (finish parse e o path t).1
  finish-Ends told e t waited o path (no_result e1) = rw e1 (direct path refl refl)
  finish-Ends told e t waited o path (result p same e1 e2) = rw (e1, e2) (by_queue p same refl refl)

  pub buy-Ends :
      (c : Limits) (mono wall later : ℕ) (conn : Connection) (waited : Waited) (e : Entry)
      (w : World) (t : Tables Uuid)
      → let (response, _, t') = buy parse c mono wall later conn waited e w t in
        Ends
          (allow c mono wall conn w).0
          waited
          (atomic_buy parse e.user_id e.req_id t)
          t
          response
          t'
  unfolding buy
  buy-Ends c mono wall later conn waited e w t =
      elim (Bool-cases (is_allowed (allow c mono wall conn w).0)) [
        | inl yes_ ↦ rw yes_ (finish-Ends _ e t waited _ _ (ask_queue-Asked later waited _))
        | inr no_ ↦ rw no_ (limited refl refl)
      ]
