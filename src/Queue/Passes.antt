-- ===== src/Queue/Passes.antt =====
-- The load client on the status of distributed/app/db.py, after any events of the queue and the fallback.
use ticket_selling_system.Prelude.{
  ℕ, ◌≡◌, refl, sym, ap, subst, ◌∙◌, ◌⊎◌, inl, inr, String, true, Option, none, some, List, [], ◌∷◌,
  Key, All, get_elem?, All-get_elem?, none_eq_some, string_key,
}
use ticket_selling_system.Dict.{get}
use ticket_selling_system.Buyer.{RequestResult, check_invariants}
use ticket_selling_system.Buyer.Records.{Backed, valid_state_passes}
use ticket_selling_system.Db.{Tables, BuyResult, atomic_buy}
use ticket_selling_system.Db.Snapshot.{get_status}
use ticket_selling_system.Db.Keyed.{IsKeyed, atomic_buy-IsKeyed}
use ticket_selling_system.Db.Quiet.{store_of, store_of-IsValid, get-store_of, get_status-eq-status}
use ticket_selling_system.Queue.{
  Message, Pushed, bought, Service, Reached, nothing, pushed, acknowledged, Event, enqueues,
  delivers, processes, crashes, pops, expires, falls_back, pick, enqueue, deliver, pop_result,
  expire, crash, push_result, process_entry, direct_buy, happens, history,
}
use ticket_selling_system.Queue.Recorded.{IsRecorded}
use ticket_selling_system.Queue.Told.{IsSound, history-IsSound, opened, opened-IsSound}

module _ {Uuid : Type 0} where
  pub push_result-tables :
      (reached : Reached) (m : Message) (p : Pushed) (y : Service Uuid)
      → (push_result reached m p y).tables ≡ y.tables
  unfolding push_result
  push_result-tables nothing m p y = refl
  push_result-tables pushed m p y = refl
  push_result-tables acknowledged m p y = refl

  pub deliver-tables : (ms : List Message) (y : Service Uuid) → (deliver ms y).tables ≡ y.tables
  unfolding deliver
  deliver-tables [] y = refl
  deliver-tables (m ∷ ms) y = refl

  pub pop_result-tables :
      (id : String) (ps : List Pushed) (y : Service Uuid) → (pop_result id ps y).tables ≡ y.tables
  unfolding pop_result
  pop_result-tables id [] y = refl
  pop_result-tables id (p ∷ ps) y = refl

  pub crash-tables :
      (o : Option (Message × List Message)) (y : Service Uuid) → (crash o y).tables ≡ y.tables
  unfolding crash
  crash-tables none y = refl
  crash-tables (some (m, others)) y = refl

-- What every call of `atomic_buy` keeps of the tables, every event keeps.
module _ {Uuid : Type 0} ⦃key : Key Uuid⦄ (parse : String → Option Uuid) (P : Tables Uuid → Type 0)
    (keep : (user_id req_id : String) (t : Tables Uuid)
      → P t
      → P (atomic_buy parse user_id req_id t).1) where
  process_entry-tables :
      (reached : Reached) (o : Option (Message × List Message)) (y : Service Uuid)
      → P y.tables
      → P (process_entry parse reached o y).tables
  unfolding process_entry
  process_entry-tables reached none y h = h
  process_entry-tables reached (some (m, others)) y h =
      subst P (sym (push_result-tables reached m _ _))
        (keep m.fields.user_id m.fields.req_id y.tables h)

  happens-tables : (v : Event) (y : Service Uuid) → P y.tables → P (happens parse v y).tables
  unfolding happens enqueue expire direct_buy
  happens-tables (enqueues e) y h = h
  happens-tables delivers y h = subst P (sym (deliver-tables y.stream y)) h
  happens-tables (processes n reached) y h = process_entry-tables reached (pick n y.held) y h
  happens-tables (crashes n) y h = subst P (sym (crash-tables (pick n y.held) y)) h
  happens-tables (pops id) y h = subst P (sym (pop_result-tables id (y.results id) y)) h
  happens-tables (expires id) y h = h
  happens-tables (falls_back e) y h = keep e.user_id e.req_id y.tables h

  pub history-tables :
      (vs : List Event) (y : Service Uuid) → P y.tables → P (history parse vs y).tables
  unfolding history
  history-tables [] y h = h
  history-tables (v ∷ vs) y h = history-tables vs (happens parse v y) (happens-tables v y h)

module _ {Uuid : Type 0} ⦃key : Key Uuid⦄ (parse : String → Option Uuid)
    (show : Uuid → String) where
  -- A result without a ticket, or the answer of a handler with a req_id as `show` writes it.
  abbrev pub Heard : List (String × Pushed) → RequestResult → Type 0
  Heard told r =
      (r.ticket_number ≡ none)
      ⊎ ((i : ℕ) × (res : BuyResult) × (get_elem? told i ≡ some (r.req_id, bought res))
          × (r.ticket_number ≡ res.ticket_number)
          × ((id : Uuid) → parse r.req_id ≡ some id → show id ≡ r.req_id))

  module _ (apart : (a b : Uuid) → show a ≡ show b → a ≡ b) (y : Service Uuid) where
    Heard-Backed :
        (r : RequestResult)
        → IsKeyed y.tables
        → IsSound parse y
        → Heard y.told r
        → Backed (store_of show apart y.tables).processed_requests r
    Heard-Backed r k s (inl e) n h = none_eq_some (sym e ∙ h)
    Heard-Backed r k s (inr (i, res, at, same, written)) n h =
        let recorded : IsRecorded parse y.tables r.req_id (bought res) =
          All-get_elem? _ y.told i (r.req_id, bought res) s.answers at in
        let (id, good, found) = recorded n (sym same ∙ h) in
        subst (λ a. get a (store_of show apart y.tables).processed_requests ≡ some n)
          (written id good) (get-store_of show apart y.tables id n k found)

    All-Backed :
        (rs : List RequestResult)
        → IsKeyed y.tables
        → IsSound parse y
        → All (Heard y.told) rs
        → All (Backed (store_of show apart y.tables).processed_requests) rs
    All-Backed [] k s h = tt
    All-Backed (r ∷ rs) k s h = (Heard-Backed r k s h.0, All-Backed rs k s h.1)

  -- After any events of the queue and the fallback, from valid tables with one row for each
  -- UUID on, if no two UUIDs are written alike, the load client that reads the status of the
  -- database with no purchase under way reports PASS on any results each of which has no ticket
  -- or is what a handler was told for a req_id in the text that `show` writes.
  pub distributed_passes :
      (vs : List Event) (t : Tables Uuid) (results : List RequestResult)
      → ((a b : Uuid) → show a ≡ show b → a ≡ b)
      → IsKeyed t
      → All (Heard (history parse vs (opened t)).told) results
      → let t' = (history parse vs (opened t)).tables in
        check_invariants (get_status show t' t') results ≡ true
  distributed_passes vs t results apart k heard =
      let y = history parse vs (opened t) in
      let keyed = history-tables parse IsKeyed (atomic_buy-IsKeyed parse) vs (opened t) k in
      let sound = history-IsSound parse vs (opened t) (opened-IsSound parse t k.valid) in
      ap (λ b. check_invariants b results) (get_status-eq-status show apart y.tables keyed)
      ∙ valid_state_passes (store_of show apart y.tables) results
          (store_of-IsValid show apart y.tables keyed)
          (All-Backed apart y results keyed sound heard)
