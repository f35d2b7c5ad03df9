-- ===== src/Queue/Told.antt =====
-- What the handlers of `/buy` are told, by the queue and by the fallback to the database, in any order.
use ticket_selling_system.Prelude.{
  ℕ, ◌≡◌, ◌↔◌, sym, ap, subst, ◌∙◌, String, Bool, Option, none, some, List, [], ◌∷◌, ◌++◌, Key,
  string_key, arith, All, All-append, All-mono, get_elem?, All-get_elem?, some_eq,
}
use ticket_selling_system.Db.{Tables, Outcome, BuyResult, find_ticket}
use ticket_selling_system.Db.Valid.{IsValid, atomic_buy-Buys}
use ticket_selling_system.Queue.{
  Entry, Message, crashes, crash, Pushed, bought, Service, Reached, nothing, pushed, acknowledged,
  Event, enqueues, delivers, processes, pops, expires, falls_back, pick, put, enqueue, deliver,
  pop_result, expire, push_result, process_entry, direct_buy, happens, history,
}
use ticket_selling_system.Queue.Recorded.{
  IsRecorded, Called, Buys-Called, IsRecorded-mono, find_ticket-same,
}

module _ {Uuid : Type 0} ⦃key : Key Uuid⦄ (parse : String → Option Uuid) where
  -- The results in the lists and the answers told are those of recorded tickets.
  pub record IsSound (y : Service Uuid) : Type 0 where
    pub valid : IsValid y.tables
    pub listed : (req_id : String) → All (IsRecorded parse y.tables req_id) (y.results req_id)
    pub answers : All (λ a. IsRecorded parse y.tables a.0 a.1) y.told

  put-All :
      (t : Tables Uuid) (id : String) (ps : List Pushed) (f : String → List Pushed)
      → All (IsRecorded parse t id) ps
      → ((j : String) → All (IsRecorded parse t j) (f j))
      → (j : String) → All (IsRecorded parse t j) (put id ps f j)
  put-All t id ps f h hf j = elim (string_key.same j id) [
    | yes e ↦ ground (arith, subst (λ k. All (IsRecorded parse t k) ps) (sym e) h)
    | no ne ↦ ground (arith, hf j)
  ]

  -- A call of `atomic_buy` keeps what the lists and the answers say.
  pub Called-IsSound :
      (y : Service Uuid) (req_id : String) {o : Outcome (BuyResult × Bool) × Tables Uuid}
      → IsSound y
      → Called parse y.tables req_id o
      → IsSound (record y { tables = o.1 })
  Called-IsSound y req_id {o} s c = record {
    valid = c.valid;
    listed =
        λ id. All-mono (y.results id) (IsRecorded-mono parse y.tables o.1 c.keeps id) (s.listed id);
    answers = All-mono y.told (λ a. IsRecorded-mono parse y.tables o.1 c.keeps a.0 a.1) s.answers;
  }

  appended-All :
      (id : String) (p : Pushed) (y : Service Uuid)
      → IsRecorded parse y.tables id p
      → IsSound y
      → (j : String)
      → All (IsRecorded parse y.tables j) (put id (y.results id ++ p ∷ []) y.results j)
  appended-All id p y r s =
      put-All y.tables id _ y.results (All-append _ (y.results id) (p ∷ []) (s.listed id) (r, tt))
        s.listed

  push_result-IsSound :
      (reached : Reached) (m : Message) (p : Pushed) (y : Service Uuid)
      → IsRecorded parse y.tables m.fields.req_id p
      → IsSound y
      → IsSound (push_result reached m p y)
  unfolding push_result
  push_result-IsSound nothing m p y r s = s
  push_result-IsSound pushed m p y r s = record {
    valid = s.valid;
    listed = appended-All m.fields.req_id p y r s;
    answers = s.answers;
  }
  push_result-IsSound acknowledged m p y r s = record {
    valid = s.valid;
    listed = appended-All m.fields.req_id p y r s;
    answers = s.answers;
  }

  process_entry-IsSound :
      (reached : Reached) (o : Option (Message × List Message)) (y : Service Uuid)
      → IsSound y
      → IsSound (process_entry parse reached o y)
  unfolding process_entry
  process_entry-IsSound reached none y s = s
  process_entry-IsSound reached (some (m, others)) y s =
      let e = m.fields in
      let c =
        Buys-Called parse e.user_id e.req_id y.tables s.valid
          (atomic_buy-Buys parse e.user_id e.req_id y.tables s.valid) in
      let kept = Called-IsSound y e.req_id s c in
      push_result-IsSound reached m _ _ c.recorded
        (record { valid = kept.valid; listed = kept.listed; answers = kept.answers })

  direct_buy-IsSound : (e : Entry) (y : Service Uuid) → IsSound y → IsSound (direct_buy parse e y)
  unfolding direct_buy
  direct_buy-IsSound e y s =
      let c =
        Buys-Called parse e.user_id e.req_id y.tables s.valid
          (atomic_buy-Buys parse e.user_id e.req_id y.tables s.valid) in
      let kept = Called-IsSound y e.req_id s c in
      record { valid = kept.valid; listed = kept.listed; answers = (c.recorded, kept.answers) }

  pop_result-IsSound :
      (id : String) (ps : List Pushed) (y : Service Uuid)
      → All (IsRecorded parse y.tables id) ps
      → IsSound y
      → IsSound (pop_result id ps y)
  unfolding pop_result
  pop_result-IsSound id [] y h s = s
  pop_result-IsSound id (p ∷ ps) y h s = record {
    valid = s.valid;
    listed = put-All y.tables id ps y.results h.1 s.listed;
    answers = (h.0, s.answers);
  }

  deliver-IsSound : (es : List Message) (y : Service Uuid) → IsSound y → IsSound (deliver es y)
  unfolding deliver
  deliver-IsSound [] y s = s
  deliver-IsSound (e ∷ es) y s = record { valid = s.valid; listed = s.listed; answers = s.answers }

  crash-IsSound :
      (o : Option (Message × List Message)) (y : Service Uuid) → IsSound y → IsSound (crash o y)
  unfolding crash
  crash-IsSound none y s = s
  crash-IsSound (some (m, others)) y s = record {
    valid = s.valid;
    listed = s.listed;
    answers = s.answers;
  }

  happens-IsSound : (v : Event) (y : Service Uuid) → IsSound y → IsSound (happens parse v y)
  unfolding happens enqueue expire
  happens-IsSound (enqueues e) y s = record {
    valid = s.valid;
    listed = s.listed;
    answers = s.answers;
  }
  happens-IsSound delivers y s = deliver-IsSound y.stream y s
  happens-IsSound (processes n reached) y s = process_entry-IsSound reached (pick n y.held) y s
  happens-IsSound (crashes n) y s = crash-IsSound (pick n y.held) y s
  happens-IsSound (pops id) y s = pop_result-IsSound id (y.results id) y (s.listed id) s
  happens-IsSound (expires id) y s = record {
    valid = s.valid;
    listed = put-All y.tables id [] y.results tt s.listed;
    answers = s.answers;
  }
  happens-IsSound (falls_back e) y s = direct_buy-IsSound e y s

  -- Whatever the order of the events since a sound state: the tables stay valid, and each
  -- ticket that a handler was told or that is in a result list is the one recorded for the UUID
  -- of its req_id.
  pub history-IsSound :
      (vs : List Event) (y : Service Uuid) → IsSound y → IsSound (history parse vs y)
  unfolding history
  history-IsSound [] y s = s
  history-IsSound (v ∷ vs) y s = history-IsSound vs (happens parse v y) (happens-IsSound v y s)

-- Sound is a start with valid tables, no results and no answers.
abbrev pub opened : {Uuid : Type 0} → Tables Uuid → Service Uuid
opened t = record {
  tables = t;
  next_id = 0;
  stream = [];
  pending = [];
  held = [];
  results = λ _. [];
  told = [];
}

pub opened-IsSound :
    {Uuid : Type 0} ⦃key : Key Uuid⦄ (parse : String → Option Uuid) (t : Tables Uuid)
    → IsValid t
    → IsSound parse (opened t)
opened-IsSound parse t v = record { valid = v; listed = λ id. tt; answers = tt }

-- Whatever the order of the events (requests added to the stream, delivered, processed with or
-- without Redis going away, consumers ending, results popped or expired, fallbacks to the
-- database) since valid tables with no results and no answers: two answers that handlers were
-- told with tickets have the same ticket exactly if their req_ids are texts of the same UUID.
pub one_ticket_for_each_uuid :
    {Uuid : Type 0} ⦃key : Key Uuid⦄ (parse : String → Option Uuid) (vs : List Event)
    (t : Tables Uuid) (i j : ℕ) (a b : String) (r q : BuyResult) (m n : ℕ)
    → IsValid t
    → get_elem? (history parse vs (opened t)).told i ≡ some (a, bought r)
    → get_elem? (history parse vs (opened t)).told j ≡ some (b, bought q)
    → r.ticket_number ≡ some m
    → q.ticket_number ≡ some n
    → (m ≡ n) ↔ (parse a ≡ parse b)
one_ticket_for_each_uuid parse vs t i j a b r q m n v ti tj rm qn = (to, from)
  where
    sound : IsSound parse (history parse vs (opened t))
    sound = history-IsSound parse vs (opened t) (opened-IsSound parse t v)

    first : IsRecorded parse (history parse vs (opened t)).tables a (bought r)
    first = All-get_elem? _ _ i (a, bought r) sound.answers ti

    second : IsRecorded parse (history parse vs (opened t)).tables b (bought q)
    second = All-get_elem? _ _ j (b, bought q) sound.answers tj

    to : m ≡ n → parse a ≡ parse b
    to e =
        let (id, good, found) = first m rm in
        let (id', good', found') = second n qn in
        good
        ∙ ap some (find_ticket-same id id' n _ sound.valid (found ∙ ap some e) found')
        ∙ sym good'

    from : parse a ≡ parse b → m ≡ n
    from e =
        let (id, good, found) = first m rm in
        let (id', good', found') = second n qn in
        let same : id ≡ id' = some_eq (sym good ∙ e ∙ good') in
        some_eq (
          sym found
          ∙ ap (λ k. find_ticket k (history parse vs (opened t)).tables.sold_tickets) same
          ∙ found')
