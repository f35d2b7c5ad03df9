-- ===== src/Queue/Demand.antt =====
-- How many tickets the events of the queue sell: the calls of `atomic_buy` beside the requests of the
-- in-memory seller.
use ticket_selling_system.Prelude.{
  ℕ, ◌≡◌, ◌<◌, refl, sym, ap, ◌∙◌, String, Option, none, some, List, [], ◌∷◌, ◌++◌, Key, All, map,
  min,
}
use ticket_selling_system.Store.{State, BuyRequest, fresh}
use ticket_selling_system.Seller.{buy_all}
use ticket_selling_system.Seller.Demand.{distinct, ids, sells_the_demand}
use ticket_selling_system.Db.{Tables, atomic_buy, reset_state, int_bound}
use ticket_selling_system.Db.Valid.{IsValid, atomic_buy-IsValid}
use ticket_selling_system.Db.Refines.{
  Mirrors, CanonicalIsUnique, atomic_buy-Agrees, reset_state-Mirrors,
}
use ticket_selling_system.Queue.{
  Entry, Message, Service, Reached, Event, enqueues, delivers, processes, crashes, pops, expires,
  falls_back, pick, enqueue, expire, process_entry, direct_buy, happens, history,
}
use ticket_selling_system.Queue.Told.{opened}
use ticket_selling_system.Queue.Passes.{
  push_result-tables, deliver-tables, pop_result-tables, crash-tables,
}
use ticket_selling_system.Queue.Consumer.{consume}

-- The entry at a place, as far as there is one.
abbrev picked : Option (Message × List Message) → List Entry
picked none = []
picked (some (m, _)) = m.fields ∷ []

-- The call of `atomic_buy` that an event makes.
abbrev called : {U : Type 0} → Event → Service U → List Entry
called (enqueues _) y = []
called delivers y = []
called (processes n _) y = picked (pick n y.held)
called (crashes _) y = []
called (pops _) y = []
called (expires _) y = []
called (falls_back e) y = e ∷ []

abbrev pub request_of : Entry → BuyRequest
request_of e = record { user_id = e.user_id; req_id = e.req_id }

module _ {Uuid : Type 0} ⦃key : Key Uuid⦄ (parse : String → Option Uuid)
    (IsCanonical : String → Type 0) where
  -- The req_id is the canonical text of a UUID.
  abbrev pub Names : Entry → Type 0
  Names e = IsCanonical e.req_id × (id : Uuid) × (parse e.req_id ≡ some id)

  consume-Mirrors :
      (es : List Entry) (t : Tables Uuid) (s : State)
      → CanonicalIsUnique parse IsCanonical
      → All Names es
      → IsValid t
      → Mirrors parse IsCanonical t s
      → Mirrors parse IsCanonical (consume parse es t) (buy_all (map request_of es) s).1
  unfolding consume buy_all
  consume-Mirrors [] t s unique names v m = m
  consume-Mirrors (e ∷ es) t s unique ((canonical, id, good), names) v m =
      let a = atomic_buy-Agrees parse IsCanonical (request_of e) t s id unique canonical good v m in
      consume-Mirrors es _ _ unique names
        (atomic_buy-IsValid parse e.user_id e.req_id t id v good).0 a.mirrors

module _ {Uuid : Type 0} ⦃key : Key Uuid⦄ (parse : String → Option Uuid) where
  -- The calls of `atomic_buy` in a history, in their order.
  abbrev pub calls : List Event → Service Uuid → List Entry
  calls [] y = []
  calls (v ∷ vs) y = called v y ++ calls vs (happens parse v y)

  consume-append :
      (es fs : List Entry) (t : Tables Uuid)
      → consume parse (es ++ fs) t ≡ consume parse fs (consume parse es t)
  unfolding consume
  consume-append [] fs t = refl
  consume-append (e ∷ es) fs t = consume-append es fs (atomic_buy parse e.user_id e.req_id t).1

  process_entry-consume :
      (reached : Reached) (o : Option (Message × List Message)) (y : Service Uuid)
      → (process_entry parse reached o y).tables ≡ consume parse (picked o) y.tables
  unfolding process_entry consume
  process_entry-consume reached none y = refl
  process_entry-consume reached (some (m, others)) y = push_result-tables reached m _ _

  happens-consume :
      (v : Event) (y : Service Uuid)
      → (happens parse v y).tables ≡ consume parse (called v y) y.tables
  unfolding happens enqueue expire direct_buy consume
  happens-consume (enqueues e) y = refl
  happens-consume delivers y = deliver-tables y.stream y
  happens-consume (processes n reached) y = process_entry-consume reached (pick n y.held) y
  happens-consume (crashes n) y = crash-tables (pick n y.held) y
  happens-consume (pops id) y = pop_result-tables id (y.results id) y
  happens-consume (expires id) y = refl
  happens-consume (falls_back e) y = refl

  history-consume :
      (vs : List Event) (y : Service Uuid)
      → (history parse vs y).tables ≡ consume parse (calls vs y) y.tables
  unfolding history consume
  history-consume [] y = refl
  history-consume (v ∷ vs) y =
      history-consume vs (happens parse v y)
      ∙ ap (consume parse (calls vs (happens parse v y))) (happens-consume v y)
      ∙ sym (consume-append (called v y) (calls vs (happens parse v y)) y.tables)

  module _ (IsCanonical : String → Type 0) where
    -- After `reset_state` with a number of tickets that fits into the column, whatever events
    -- of the queue follow (entries delivered, processed with or without Redis going away,
    -- consumers ending, fallbacks, in any order): if every call of `atomic_buy` among them
    -- has the canonical text of a UUID as its req_id, no two canonical texts being of one
    -- UUID, then as many tickets are counted as sold as there are distinct req_ids among the
    -- calls, or all the tickets if they are fewer.
    pub events_sell_the_demand :
        (vs : List Event) (total : ℕ) (t : Tables Uuid)
        → CanonicalIsUnique parse IsCanonical
        → total < int_bound
        → let y = opened (reset_state total t).1 in
          All (Names parse IsCanonical) (calls vs y)
          → (history parse vs y).tables.sold_count
            ≡ min total (distinct (ids (map request_of (calls vs y))))
    events_sell_the_demand vs total t unique small names =
        let y = opened (reset_state total t).1 in
        let (_, v, m) = reset_state-Mirrors parse IsCanonical total t small in
        ap (λ t. t.sold_count) (history-consume vs y)
        ∙ (consume-Mirrors parse IsCanonical (calls vs y) y.tables (fresh total) unique names v
            m).same_count
        ∙ sells_the_demand total (map request_of (calls vs y))
