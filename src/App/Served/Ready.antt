-- ===== src/App/Served/Ready.antt =====
-- `/reset` of distributed/app/main.py on a service without results of an earlier run.
use ticket_selling_system.Prelude.{
  ℕ, ◌<◌, ◌≡◌, refl, sym, ap, subst, ◌∙◌, inl, inr, String, Option, [], All, Key, string_key,
  lt→ltb, arith, Bool-cases,
}
use ticket_selling_system.Breaker.{is_open}
use ticket_selling_system.Limiter.Allow.{World}
use ticket_selling_system.Db.{Tables, Outcome, raised, int_bound, reset_state}
use ticket_selling_system.Db.Keyed.{IsKeyed}
use ticket_selling_system.Queue.{Service}
use ticket_selling_system.Queue.Recorded.{IsRecorded}
use ticket_selling_system.App
use ticket_selling_system.App.{
  Response, rate_limited, sold_by, server_error, Clearing, deletes_and_creates, deletes_only, fails,
  is_cleared, clear_stream, past_database,
}
use ticket_selling_system.App.Served.Keeps.{IsServed}

module _ {Uuid : Type 0} ⦃key : Key Uuid⦄ where
  -- The clearing of the stream leaves the tables, the results and the answers.
  record IsRest (y z : Service Uuid) : Type 0 where
    tables : z.tables ≡ y.tables
    results : z.results ≡ y.results
    told : z.told ≡ y.told

  clear_stream-IsRest :
      (clearing : Clearing) (y : Service Uuid) → IsRest y (clear_stream clearing y)
  clear_stream-IsRest deletes_and_creates y = record { tables = refl; results = refl; told = refl }
  clear_stream-IsRest deletes_only y = record { tables = refl; results = refl; told = refl }
  clear_stream-IsRest fails y = record { tables = refl; results = refl; told = refl }

  past_database-IsRest :
      (now : ℕ) (clearing : Clearing) (o : Outcome (Unit {0})) (w : World) (y : Service Uuid)
      → IsRest y (past_database now clearing o w y).1
  past_database-IsRest now clearing (raised e) w y = record {
    tables = refl;
    results = refl;
    told = refl;
  }
  past_database-IsRest now clearing (Outcome.ok _) w y = elim (Bool-cases (is_open now w.breaker)) [
    | inl open_ ↦ rw open_ (record { tables = refl; results = refl; told = refl })
    | inr closed ↦ rw closed (clear_stream-IsRest clearing y)
  ]

  pub fresh-IsKeyed :
      (total : ℕ) (t : Tables Uuid) → total < int_bound → IsKeyed (reset_state total t).1
  unfolding reset_state
  fresh-IsKeyed total t small = rw (lt→ltb total int_bound small) (record {
    valid = record { numbered = refl; not_oversold = omega arith; fits = small };
    keys = tt;
  })

  -- One row for each UUID, and no results or answers of an earlier run.
  pub record IsReady (y : Service Uuid) : Type 0 where
    pub keyed : IsKeyed y.tables
    pub no_result : (id : String) → y.results id ≡ []
    pub no_answer : y.told ≡ []

module _ {Uuid : Type 0} ⦃key : Key Uuid⦄ (parse : String → Option Uuid) where
  pub IsReady-IsServed :
      (y z : Service Uuid)
      → IsReady y
      → IsKeyed z.tables
      → z.results ≡ y.results
      → z.told ≡ y.told
      → IsServed parse z
  IsReady-IsServed y z r k same_results same_told = record {
    keyed = k;
    sound = record {
      valid = k.valid;
      listed = λ id.
          subst (All (IsRecorded parse z.tables id))
            (sym (ap (λ f. f id) same_results ∙ r.no_result id)) tt;
      answers =
          subst (All (λ a. IsRecorded parse z.tables a.0 a.1)) (sym (same_told ∙ r.no_answer)) tt;
    };
  }

  pub reset-IsServed :
      (total now : ℕ) (clearing : Clearing) (w : World) (y : Service Uuid)
      → total < int_bound
      → IsReady y
      → IsServed parse (App.reset total now clearing w y).1
  unfolding App.reset
  reset-IsServed total now clearing w y small r =
      let rest =
        past_database-IsRest now clearing (reset_state total y.tables).0 w
          (record y { tables = (reset_state total y.tables).1 }) in
      IsReady-IsServed y (App.reset total now clearing w y).1 r
        (subst IsKeyed (sym rest.tables) (fresh-IsKeyed total y.tables small)) rest.results
        rest.told
