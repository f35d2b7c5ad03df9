-- ===== src/Queue.antt =====
-- distributed/app/queue_stream.py: the stream of accepted requests, its consumers, and the lists that
-- carry the results back. Redis is not part of the program; what it keeps is the stream, the pending
-- ids of the group `sellers` and the lists `result:{req_id}`, and which commands of a consumer took
-- effect is given. Handlers and consumers interleave as a list of events says. JSON texts stand for what
-- they encode.
pub mod Recorded
pub mod Told
pub mod Stuck
pub mod Passes
pub mod Consumer
pub mod Demand
pub mod Clean
use ticket_selling_system.Prelude.{
  ℕ, zero, suc, ◌+◌, ℕ_discrete, String, Bool, Option, none, some, List, [], ◌∷◌, ◌++◌, ite, Key,
  string_key,
}
use ticket_selling_system.Db.{Tables, DbError, Outcome, ok, raised, BuyResult, atomic_buy}

-- The fields of an entry of the stream.
pub record Entry : Type 0 where
  pub user_id : String
  pub req_id : String

-- What a consumer pushes: the result of `atomic_buy`, or the dict of the status `error`.
pub data Pushed : Type 0 where
  bought : BuyResult → Pushed
  error : DbError → Pushed

-- An entry with its id.
pub record Message : Type 0 where
  pub entry_id : ℕ
  pub fields : Entry

-- `stream` has the entries that were not delivered yet, `pending` the ids of those that were delivered
-- and not acknowledged, and `held` the entries that the consumers have in memory and have not processed
-- yet. `told` has the answers of the handlers of `/buy` so far, with their req_ids, the last one first.
pub record Service (Uuid : Type 0) : Type 0 where
  pub tables : Tables Uuid
  pub next_id : ℕ
  pub stream : List Message
  pub pending : List ℕ
  pub held : List Message
  pub results : String → List Pushed
  pub told : List (String × Pushed)

-- How far the three commands of `_process_entry` got before Redis went away, if it did.
pub data Reached : Type 0 where
  nothing pushed acknowledged : Reached

pub data Event : Type 0 where
  -- a handler adds its request to the stream
  enqueues : Entry → Event
  -- a consumer is delivered the next entry
  delivers : Event
  -- a consumer processes the entry at this place of those held
  processes : ℕ → Reached → Event
  -- the consumer of the entry at this place ends before it processes it
  crashes : ℕ → Event
  -- a handler that waits for this req_id pops a result, if there is one
  pops : String → Event
  -- the results for this req_id expire
  expires : String → Event
  -- a handler falls back to the database
  falls_back : Entry → Event

abbrev pub put_back : Message → Option (Message × List Message) → Option (Message × List Message)
put_back m none = none
put_back m (some (n, others)) = some (n, m ∷ others)

-- The entry at a place and the others.
abbrev pub pick : ℕ → List Message → Option (Message × List Message)
pick n [] = none
pick zero (m ∷ ms) = some (m, ms)
pick (suc n) (m ∷ ms) = put_back m (pick n ms)

-- `XACK`
abbrev pub without : ℕ → List ℕ → List ℕ
without i [] = []
without i (j ∷ js) = ite (ℕ_discrete j i) (without i js) (j ∷ without i js)

abbrev pub put : String → List Pushed → (String → List Pushed) → String → List Pushed
put id ps f j = ite (string_key.same j id) ps (f j)

-- The answer of `atomic_buy`, and what `except Exception` makes of an error.
abbrev pub pushed_of : Outcome (BuyResult × Bool) → Pushed
pushed_of (ok (r, _)) = bought r
pushed_of (raised e) = error e

module _ {Uuid : Type 0} where
  -- `enqueue_and_wait`, up to the wait: `XADD`
  unfoldable pub enqueue : Entry → Service Uuid → Service Uuid
  enqueue e y = record y {
    next_id = y.next_id + 1;
    stream = y.stream ++ record { entry_id = y.next_id; fields = e } ∷ [];
  }

  -- `XREADGROUP` with the id `>`
  unfoldable pub deliver : List Message → Service Uuid → Service Uuid
  deliver [] y = y
  deliver (m ∷ ms) y = record y {
    stream = ms;
    pending = m.entry_id ∷ y.pending;
    held = y.held ++ m ∷ [];
  }

  -- the end of the wait: `BLPOP` on the list of the req_id
  unfoldable pub pop_result : String → List Pushed → Service Uuid → Service Uuid
  pop_result id [] y = y
  pop_result id (p ∷ ps) y = record y { results = put id ps y.results; told = (id, p) ∷ y.told }

  unfoldable pub expire : String → Service Uuid → Service Uuid
  expire id y = record y { results = put id [] y.results }

  unfoldable pub crash : Option (Message × List Message) → Service Uuid → Service Uuid
  crash none y = y
  crash (some (m, others)) y = record y { held = others }

  -- `RPUSH` and `XACK`
  unfoldable pub push_result : Reached → Message → Pushed → Service Uuid → Service Uuid
  push_result nothing m p y = y
  push_result pushed m p y = record y {
    results = put m.fields.req_id (y.results m.fields.req_id ++ p ∷ []) y.results;
  }
  push_result acknowledged m p y = record y {
    results = put m.fields.req_id (y.results m.fields.req_id ++ p ∷ []) y.results;
    pending = without m.entry_id y.pending;
  }

module _ {Uuid : Type 0} ⦃key : Key Uuid⦄ (parse : String → Option Uuid) where
  unfoldable pub process_entry :
      Reached → Option (Message × List Message) → Service Uuid → Service Uuid
  unfolding atomic_buy push_result
  process_entry reached none y = y
  process_entry reached (some (m, others)) y =
      let (outcome, t) = atomic_buy parse m.fields.user_id m.fields.req_id y.tables in
      push_result reached m (pushed_of outcome) (record y { tables = t; held = others })

  -- `db.atomic_buy` called by the handler; an error of it is an error of the handler.
  unfoldable pub direct_buy : Entry → Service Uuid → Service Uuid
  unfolding atomic_buy
  direct_buy e y =
      let (outcome, t) = atomic_buy parse e.user_id e.req_id y.tables in
      record y { tables = t; told = (e.req_id, pushed_of outcome) ∷ y.told }

  unfoldable pub happens : Event → Service Uuid → Service Uuid
  unfolding enqueue deliver process_entry pop_result expire direct_buy crash
  happens (enqueues e) y = enqueue e y
  happens delivers y = deliver y.stream y
  happens (processes n reached) y = process_entry reached (pick n y.held) y
  happens (crashes n) y = crash (pick n y.held) y
  happens (pops id) y = pop_result id (y.results id) y
  happens (expires id) y = expire id y
  happens (falls_back e) y = direct_buy e y

  unfoldable pub history : List Event → Service Uuid → Service Uuid
  unfolding happens
  history [] y = y
  history (v ∷ vs) y = history vs (happens v y)
