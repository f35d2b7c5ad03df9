-- ===== src/App/Paths.antt =====
-- What `/buy` answers on each of its paths, over the limiter, the queue and the database.
use ticket_selling_system.Prelude.{
  ℕ, ◌≡◌, refl, String, Bool, true, false, Option, none, some, Key, arith, Bool-cases, inl, inr,
  if◌then◌else◌,
}
use ticket_selling_system.Limiter.{Limits}
use ticket_selling_system.Limiter.Allow.{
  Connection, World, Answer, by_script, by_fallback, uncaught, allow,
}
use ticket_selling_system.Db.{Tables, Outcome, ok, raised, BuyResult, atomic_buy}
use ticket_selling_system.Db.Valid.{IsValid, atomic_buy-Buys, atomic_buy-IsValid}
use ticket_selling_system.Queue.{Entry, Pushed, bought, pushed_of}
use ticket_selling_system.Queue.Recorded.{IsRecorded, Buys-Called}
use ticket_selling_system.App.{
  Waited, popped, timed_out, redis_error, BuyPath, Response, rate_limited, sold_by, server_error,
  refusal, limiter_error, is_allowed, ask_queue, answer_of, finish, buy,
}

module _ {Uuid : Type 0} ⦃key : Key Uuid⦄ (parse : String → Option Uuid) where
  -- A ticket in the answer is the one that the tables have for the UUID of the req_id, and the answer is
  -- no error of the database.
  abbrev pub IsRight : Tables Uuid → String → Response → Type 0
  IsRight t req_id (rate_limited _) = Unit
  IsRight t req_id (sold_by _ p) = IsRecorded parse t req_id p
  IsRight t req_id (server_error _) = ⊥
  IsRight t req_id limiter_error = Unit

  refusal-IsRight : (t : Tables Uuid) (req_id : String) (a : Answer) → IsRight t req_id (refusal a)
  refusal-IsRight t req_id (by_script r) = tt
  refusal-IsRight t req_id (by_fallback r) = tt
  refusal-IsRight t req_id uncaught = tt

  -- A popped result is of a ticket that the tables have for the UUID of the req_id.
  abbrev pub ResultIsRecorded : Tables Uuid → String → Option Pushed → Type 0
  ResultIsRecorded t req_id none = Unit
  ResultIsRecorded t req_id (some p) = IsRecorded parse t req_id p

  abbrev pub result_of_wait : Waited → Option Pushed
  result_of_wait (popped p) = some p
  result_of_wait timed_out = none
  result_of_wait (redis_error t) = none

  direct-IsRight :
      (req_id : String) (path : BuyPath) (o : Outcome (BuyResult × Bool) × Tables Uuid)
      → ((r : BuyResult × Bool) × (o.0 ≡ ok r))
      → IsRecorded parse o.1 req_id (pushed_of o.0)
      → IsRight o.1 req_id (answer_of path (pushed_of o.0))
  direct-IsRight req_id path (ok r, t) e h = h
  direct-IsRight req_id path (raised d, t) (r, e) h = cc

  finish-IsRight :
      (e : Entry) (o : Option Pushed) (path : BuyPath) (t : Tables Uuid) (id : Uuid)
      → IsValid t
      → parse e.req_id ≡ some id
      → ResultIsRecorded t e.req_id o
      → let (response, t') = finish parse e o path t in IsValid t' × IsRight t' e.req_id response
  finish-IsRight e (some p) path t id v good h = (v, h)
  finish-IsRight e none path t id v good h =
      let c =
        Buys-Called parse e.user_id e.req_id t v (atomic_buy-Buys parse e.user_id e.req_id t v) in
      (
        c.valid,
        direct-IsRight e.req_id path (atomic_buy parse e.user_id e.req_id t)
            (atomic_buy-IsValid parse e.user_id e.req_id t id v good).1 c.recorded,
      )

  ask_queue-ResultIsRecorded :
      (later : ℕ) (waited : Waited) (w : World) (t : Tables Uuid) (req_id : String)
      → ResultIsRecorded t req_id (result_of_wait waited)
      → ResultIsRecorded t req_id (ask_queue later waited w).0
  unfolding ask_queue
  ask_queue-ResultIsRecorded later (popped p) w t req_id h = ground arith
  ask_queue-ResultIsRecorded later timed_out w t req_id h = ground arith
  ask_queue-ResultIsRecorded later (redis_error u) w t req_id h = ground arith

  -- If the tables are valid, the req_id is the text of a UUID, and a result popped from the
  -- queue is of a recorded ticket, then on every path of the handler of /buy the tables stay
  -- valid, the handler does not fail past the limiter, and a ticket in its answer is the one recorded for the
  -- UUID.
  pub buy-IsRight :
      (c : Limits) (mono wall later : ℕ) (conn : Connection) (waited : Waited) (e : Entry)
      (w : World) (t : Tables Uuid) (id : Uuid)
      → IsValid t
      → parse e.req_id ≡ some id
      → ResultIsRecorded t e.req_id (result_of_wait waited)
      → let (response, _, t') = buy parse c mono wall later conn waited e w t in
        IsValid t' × IsRight t' e.req_id response
  unfolding buy
  buy-IsRight c mono wall later conn waited e w t id v good h =
      elim (Bool-cases (is_allowed (allow c mono wall conn w).0)) [
        | inl yes_ ↦ rw yes_ (
            finish-IsRight e (ask_queue later waited (allow c mono wall conn w).1).0 _ t id v good
              (ask_queue-ResultIsRecorded later waited _ t e.req_id h))
        | inr no_ ↦ rw no_ (v, refusal-IsRight t e.req_id _)
      ]

  answer_of-NotLimited :
      (path : BuyPath) (p : Pushed) (a : Answer) → ¬ (answer_of path p ≡ rate_limited a)
  answer_of-NotLimited path (bought r) a h = cc
  answer_of-NotLimited path (Pushed.error d) a h = cc

  finish-NotLimited :
      (e : Entry) (o : Option Pushed) (path : BuyPath) (t : Tables Uuid) (a : Answer)
      → ¬ ((finish parse e o path t).0 ≡ rate_limited a)
  finish-NotLimited e (some p) path t a h = cc
  finish-NotLimited e none path t a h = answer_of-NotLimited path _ a h

  limited_branch :
      (b : Bool) (sold refused : Response × World × Tables Uuid) (t : Tables Uuid) (a : Answer)
      → ¬ (sold.0 ≡ rate_limited a)
      → refused.2 ≡ t
      → (if b then sold else refused).0 ≡ rate_limited a
      → (if b then sold else refused).2 ≡ t
  limited_branch true sold refused t a never same h = absurd (never h)
  limited_branch false sold refused t a never same h = same

  -- A request that the handler of /buy answers as rate limited has left the tables as they
  -- were.
  pub limited_changes_nothing :
      (c : Limits) (mono wall later : ℕ) (conn : Connection) (waited : Waited) (e : Entry)
      (w : World) (t : Tables Uuid) (a : Answer)
      → (buy parse c mono wall later conn waited e w t).0 ≡ rate_limited a
      → (buy parse c mono wall later conn waited e w t).2 ≡ t
  unfolding buy
  limited_changes_nothing c mono wall later conn waited e w t a h =
      limited_branch (is_allowed (allow c mono wall conn w).0) _ _ t a
        (λ x. finish-NotLimited e _ _ t a x) refl h
