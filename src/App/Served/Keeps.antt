-- ===== src/App/Served/Keeps.antt =====
-- The tables after a request to distributed/app/main.py, and what its answer tells.
use ticket_selling_system.Prelude.{
  All, Bool, true, false, subst, ℕ, ◌≡◌, String, Option, some, List, [], ◌∷◌, Key,
}
use ticket_selling_system.Limiter.{Limits}
use ticket_selling_system.Limiter.Allow.{World, Answer, by_script, by_fallback, uncaught}
use ticket_selling_system.Db.{Tables, atomic_buy, find_ticket}
use ticket_selling_system.Db.Valid.{atomic_buy-Buys}
use ticket_selling_system.Db.Keyed.{IsKeyed, atomic_buy-IsKeyed}
use ticket_selling_system.Queue.{Entry, Pushed, bought, Service, Event, enqueues, pops, history}
use ticket_selling_system.Queue.Recorded.{IsRecorded, Called, Buys-Called, IsRecorded-mono}
use ticket_selling_system.Queue.Told.{IsSound, Called-IsSound, history-IsSound}
use ticket_selling_system.Queue.Passes.{history-tables}
use ticket_selling_system.App.{
  Waited, popped, BuyPath, Response, rate_limited, sold_by, server_error, refusal, limiter_error,
  answer_of,
}
use ticket_selling_system.App.Served.{
  Way, takes_entry, refuses_entry, loses_entry, Env, first, asks_queue, hears, wait_for, waited_for,
  serve, Ends, limited, by_queue, direct, buy-Ends,
}

module _ {Uuid : Type 0} ⦃key : Key Uuid⦄ (parse : String → Option Uuid) where
  abbrev pub IsKept : Tables Uuid → Tables Uuid → Type 0
  IsKept t t' =
      (id : Uuid) (n : ℕ)
      → find_ticket id t.sold_tickets ≡ some n
      → find_ticket id t'.sold_tickets ≡ some n

  abbrev pub TellsRecorded : Tables Uuid → String → Response → Type 0
  TellsRecorded t req_id (rate_limited _) = Unit
  TellsRecorded t req_id (sold_by _ p) = IsRecorded parse t req_id p
  TellsRecorded t req_id (server_error _) = Unit
  TellsRecorded t req_id limiter_error = Unit

  refusal-TellsRecorded :
      (t : Tables Uuid) (req_id : String) (a : Answer) → TellsRecorded t req_id (refusal a)
  refusal-TellsRecorded t req_id (by_script r) = tt
  refusal-TellsRecorded t req_id (by_fallback r) = tt
  refusal-TellsRecorded t req_id uncaught = tt

  called :
      (e : Entry) (t : Tables Uuid)
      → IsKeyed t
      → Called parse t e.req_id (atomic_buy parse e.user_id e.req_id t)
  called e t k =
      Buys-Called parse e.user_id e.req_id t k.valid
        (atomic_buy-Buys parse e.user_id e.req_id t k.valid)

  answer_of-TellsRecorded :
      (t : Tables Uuid) (req_id : String) (path : BuyPath) (p : Pushed)
      → IsRecorded parse t req_id p
      → TellsRecorded t req_id (answer_of path p)
  answer_of-TellsRecorded t req_id path (bought r) h = h
  answer_of-TellsRecorded t req_id path (Pushed.error d) h = tt

  -- One row for each UUID, and results and answers of recorded tickets.
  pub record IsServed (y : Service Uuid) : Type 0 where
    pub keyed : IsKeyed y.tables
    pub sound : IsSound parse y

  atomic_buy-IsKept :
      (t : Tables Uuid) (user_id req_id : String) (u : Tables Uuid)
      → IsKeyed u × IsKept t u
      → IsKeyed (atomic_buy parse user_id req_id u).1
        × IsKept t (atomic_buy parse user_id req_id u).1
  atomic_buy-IsKept t user_id req_id u (k, kept) = (
    atomic_buy-IsKeyed parse user_id req_id u k,
    λ id n h. (called (record { user_id = user_id; req_id = req_id }) u k).keeps id n (kept id n h),
  )

  history-IsKept :
      (vs : List Event) (y : Service Uuid)
      → IsServed y
      → IsServed (history parse vs y) × IsKept y.tables (history parse vs y).tables
  history-IsKept vs y k =
      let (keyed, kept) =
        history-tables parse (λ u. IsKeyed u × IsKept y.tables u) (atomic_buy-IsKept y.tables) vs y
          (k.keyed, λ id n h. h) in
      (record { keyed = keyed; sound = history-IsSound parse vs y k.sound }, kept)

  -- The end of the wait.
  record Waits (y : Service Uuid) (req_id : String) (waited : Waited) (z : Service Uuid)
      : Type 0 where
    served : IsServed z
    kept : IsKept y.tables z.tables
    told : (p : Pushed) → waited ≡ popped p → IsRecorded parse z.tables req_id p

  first-IsRecorded :
      (t : Tables Uuid) (req_id : String) (ps : List Pushed) (p : Pushed)
      → All (IsRecorded parse t req_id) ps
      → first ps ≡ popped p
      → IsRecorded parse t req_id p
  first-IsRecorded t req_id [] p h e = cc
  first-IsRecorded t req_id (q ∷ ps) p h e = subst (IsRecorded parse t req_id) (popped_eq e) h.0
    where
      popped_eq : {a b : Pushed} → popped a ≡ popped b → a ≡ b
      popped_eq f = cc

  wait_for-Waits :
      (way : Way) (during : List Event) (e : Entry) (y : Service Uuid)
      → IsServed y
      → let (waited, z) = wait_for parse way during e y in Waits y e.req_id waited z
  wait_for-Waits (refuses_entry t) during e y k =
      let (served, kept) = history-IsKept during y k in
      record { served = served; kept = kept; told = λ p same. cc }
  wait_for-Waits (loses_entry t) during e y k =
      let (served, kept) = history-IsKept (enqueues e ∷ during) y k in
      record { served = served; kept = kept; told = λ p same. cc }
  wait_for-Waits takes_entry during e y k =
      let y' = history parse (enqueues e ∷ during) y in
      let z = history parse (pops e.req_id ∷ []) y' in
      let (served, kept) = history-IsKept (enqueues e ∷ during) y k in
      let (popped_, left) = history-IsKept (pops e.req_id ∷ []) y' served in
      record {
        served = popped_;
        kept = λ id n h. left id n (kept id n h);
        told = λ p same. IsRecorded-mono parse y'.tables z.tables left e.req_id p (
            first-IsRecorded y'.tables e.req_id (y'.results e.req_id) p
              (served.sound.listed e.req_id) same);
      }

  waited_for-Waits :
      (b : Bool) (v : Env) (e : Entry) (y : Service Uuid)
      → IsServed y
      → let (waited, z) = waited_for parse b v e y in Waits y e.req_id waited z
  waited_for-Waits true v e y k = wait_for-Waits v.way v.during e y k
  waited_for-Waits false v e y k = record { served = k; kept = λ id n h. h; told = λ p same. cc }

  -- What the handler leaves, and what its answer tells.
  pub record Handled (y : Service Uuid) (req_id : String) (response : Response) (z : Service Uuid)
      : Type 0 where
    pub served : IsServed z
    pub kept : IsKept y.tables z.tables
    pub tells : TellsRecorded z.tables req_id response

  Ends-Handled :
      (a : Answer) (e : Entry) (waited : Waited) (y : Service Uuid) (response : Response)
      (t' : Tables Uuid)
      → IsServed y
      → ((p : Pushed) → waited ≡ popped p → IsRecorded parse y.tables e.req_id p)
      → Ends parse a waited (atomic_buy parse e.user_id e.req_id y.tables) y.tables response t'
      → Handled y e.req_id response (record y { tables = t' })
  Ends-Handled a e waited y response t' k told (limited e1 e2) =
      rw (e1, e2)
        (record {
          served = k;
          kept = λ id n h. h;
          tells = refusal-TellsRecorded y.tables e.req_id a;
        })
  Ends-Handled a e waited y response t' k told (by_queue p same e1 e2) =
      rw (e1, e2) (record { served = k; kept = λ id n h. h; tells = told p same })
  Ends-Handled a e waited y response t' k told (direct path e1 e2) =
      rw (e1, e2)
        (let c = called e y.tables k.keyed in
          record {
            served = record {
              keyed = atomic_buy-IsKeyed parse e.user_id e.req_id y.tables k.keyed;
              sound = Called-IsSound parse y e.req_id k.sound c;
            };
            kept = c.keeps;
            tells =
                answer_of-TellsRecorded (atomic_buy parse e.user_id e.req_id y.tables).1 e.req_id
                  path _ c.recorded;
          })

  pub serve-Handled :
      (c : Limits) (v : Env) (e : Entry) (w : World) (y : Service Uuid)
      → IsServed y
      → let (response, _, z) = serve parse c v e (w, y) in Handled y e.req_id response z
  unfolding serve
  serve-Handled c v e w y k =
      let (k', before) = history-IsKept v.before y k in
      let y' = history parse v.before y in
      let waits = waited_for-Waits (asks_queue c v (hears v.reported w)) v e y' k' in
      let (waited, z) = waited_for parse (asks_queue c v (hears v.reported w)) v e y' in
      let h =
        Ends-Handled _ e waited z _ _ waits.served waits.told
          (buy-Ends parse c v.mono v.wall v.later v.conn waited e (hears v.reported w) z.tables) in
      record {
        served = h.served;
        kept = λ id n f. h.kept id n (waits.kept id n (before id n f));
        tells = h.tells;
      }
