-- ===== src/Queue/Clean.antt =====
-- For a req_id that the database reads, distributed/app/queue_stream.py never pushes an error.
use ticket_selling_system.Prelude.{
  ◌≡◌, String, Bool, Option, none, some, List, [], ◌∷◌, Key, All, All-append, string_key, if_pos,
  if_neg, subst, ◌++◌,
}
use ticket_selling_system.Db.{Tables, Outcome, ok, BuyResult, atomic_buy}
use ticket_selling_system.Db.Valid.{IsValid, Buys-IsValid, atomic_buy-Buys, atomic_buy-IsValid}
use ticket_selling_system.Queue.{
  Pushed, bought, error, Message, Service, Reached, nothing, pushed, acknowledged, Event, enqueues,
  delivers, processes, crashes, pops, expires, falls_back, pick, put, pushed_of, enqueue, deliver,
  pop_result, expire, crash, push_result, process_entry, direct_buy, happens, history,
}

abbrev pub IsBought : Pushed → Type 0
IsBought (bought r) = Unit
IsBought (error e) = ⊥

pub pushed_of-IsBought :
    {o : Outcome (BuyResult × Bool)} (r : BuyResult × Bool) → o ≡ ok r → IsBought (pushed_of o)
pushed_of-IsBought r e = rw e tt

module _ {Uuid : Type 0} ⦃key : Key Uuid⦄ (parse : String → Option Uuid) where
  -- The database reads the text as a UUID.
  abbrev pub IsRead : String → Type 0
  IsRead a = (id : Uuid) × (parse a ≡ some id)

  -- Valid tables, and no error among the results and the answers for texts that the database reads.
  pub record IsClean (y : Service Uuid) : Type 0 where
    pub valid : IsValid y.tables
    pub listed : (id : String) → IsRead id → All IsBought (y.results id)
    pub answers : All (λ a. IsRead a.0 → IsBought a.1) y.told

  put-IsBought :
      (id : String) (ps : List Pushed) (f : String → List Pushed)
      → (IsRead id → All IsBought ps)
      → ((j : String) → IsRead j → All IsBought (f j))
      → (j : String) → IsRead j
      → All IsBought (put id ps f j)
  put-IsBought id ps f h hs j k = elim (string_key.same j id) [
    | yes e ↦ rw (if_pos (string_key.same j id) e) (h (subst IsRead e k))
    | no ne ↦ rw (if_neg (string_key.same j id) ne) (hs j k)
  ]

  pub buy-Clean :
      (user_id req_id : String) (t : Tables Uuid)
      → IsValid t
      → IsValid (atomic_buy parse user_id req_id t).1
        × (IsRead req_id → IsBought (pushed_of (atomic_buy parse user_id req_id t).0))
  buy-Clean user_id req_id t v = (
    Buys-IsValid parse user_id req_id t (atomic_buy-Buys parse user_id req_id t v) v,
    λ (id, good).
        let (r, e) = (atomic_buy-IsValid parse user_id req_id t id v good).1 in
        pushed_of-IsBought r e,
  )

  pushed-IsBought :
      (m : Message) (p : Pushed) (y : Service Uuid)
      → (IsRead m.fields.req_id → IsBought p)
      → IsClean y
      → (id : String) → IsRead id
      → All IsBought (put m.fields.req_id (y.results m.fields.req_id ++ p ∷ []) y.results id)
  pushed-IsBought m p y b c =
      put-IsBought m.fields.req_id _ y.results
        (λ k.
          All-append IsBought (y.results m.fields.req_id) (p ∷ []) (c.listed m.fields.req_id k)
            (b k, tt))
        c.listed

  push_result-IsClean :
      (reached : Reached) (m : Message) (p : Pushed) (y : Service Uuid)
      → (IsRead m.fields.req_id → IsBought p)
      → IsClean y
      → IsClean (push_result reached m p y)
  unfolding push_result
  push_result-IsClean nothing m p y b c = c
  push_result-IsClean pushed m p y b c = record {
    valid = c.valid;
    listed = pushed-IsBought m p y b c;
    answers = c.answers;
  }
  push_result-IsClean acknowledged m p y b c = record {
    valid = c.valid;
    listed = pushed-IsBought m p y b c;
    answers = c.answers;
  }

  process_entry-IsClean :
      (reached : Reached) (o : Option (Message × List Message)) (y : Service Uuid)
      → IsClean y
      → IsClean (process_entry parse reached o y)
  unfolding process_entry
  process_entry-IsClean reached none y c = c
  process_entry-IsClean reached (some (m, others)) y c =
      let (v, b) = buy-Clean m.fields.user_id m.fields.req_id y.tables c.valid in
      push_result-IsClean reached m _ _ b
        (record { valid = v; listed = c.listed; answers = c.answers })

  deliver-IsClean : (ms : List Message) (y : Service Uuid) → IsClean y → IsClean (deliver ms y)
  unfolding deliver
  deliver-IsClean [] y c = c
  deliver-IsClean (m ∷ ms) y c = record { valid = c.valid; listed = c.listed; answers = c.answers }

  crash-IsClean :
      (o : Option (Message × List Message)) (y : Service Uuid) → IsClean y → IsClean (crash o y)
  unfolding crash
  crash-IsClean none y c = c
  crash-IsClean (some (m, others)) y c = record {
    valid = c.valid;
    listed = c.listed;
    answers = c.answers;
  }

  pop_result-IsClean :
      (id : String) (ps : List Pushed) (y : Service Uuid)
      → (IsRead id → All IsBought ps)
      → IsClean y
      → IsClean (pop_result id ps y)
  unfolding pop_result
  pop_result-IsClean id [] y h c = c
  pop_result-IsClean id (p ∷ ps) y h c = record {
    valid = c.valid;
    listed = put-IsBought id ps y.results (λ k. (h k).1) c.listed;
    answers = ((λ k. (h k).0), c.answers);
  }

  happens-IsClean : (v : Event) (y : Service Uuid) → IsClean y → IsClean (happens parse v y)
  unfolding happens enqueue expire direct_buy
  happens-IsClean (enqueues e) y c = record {
    valid = c.valid;
    listed = c.listed;
    answers = c.answers;
  }
  happens-IsClean delivers y c = deliver-IsClean y.stream y c
  happens-IsClean (processes n reached) y c = process_entry-IsClean reached (pick n y.held) y c
  happens-IsClean (crashes n) y c = crash-IsClean (pick n y.held) y c
  happens-IsClean (pops id) y c = pop_result-IsClean id (y.results id) y (c.listed id) c
  happens-IsClean (expires id) y c = record {
    valid = c.valid;
    listed = put-IsBought id [] y.results (λ k. tt) c.listed;
    answers = c.answers;
  }
  happens-IsClean (falls_back e) y c =
      let (v, b) = buy-Clean e.user_id e.req_id y.tables c.valid in
      record { valid = v; listed = c.listed; answers = (b, c.answers) }

  pub history-IsClean :
      (vs : List Event) (y : Service Uuid) → IsClean y → IsClean (history parse vs y)
  unfolding history
  history-IsClean [] y c = c
  history-IsClean (v ∷ vs) y c = history-IsClean vs (happens parse v y) (happens-IsClean v y c)
