-- ===== src/App/Stale.antt =====
-- What `/reset` leaves behind in Redis.
use ticket_selling_system.Prelude.{
  ℕ, ◌<◌, ◌≡◌, refl, sym, ap, ◌∙◌, String, Bool, true, false, Option, some, List, [], ◌∷◌, Key,
  lt→ltb, none_eq_some, if◌then◌else◌,
}
use ticket_selling_system.Breaker.{is_open}
use ticket_selling_system.Limiter.Allow.{World}
use ticket_selling_system.Db.{Outcome, raised, int_bound, BuyResult, reset_state, find_ticket}
use ticket_selling_system.Queue.{Pushed, bought, Service, pop_result}
use ticket_selling_system.Queue.Recorded.{IsRecorded}
use ticket_selling_system.App.{
  Clearing, deletes_and_creates, deletes_only, fails, reset, past_database, clear_stream,
}

module _ {Uuid : Type 0} ⦃key : Key Uuid⦄ (parse : String → Option Uuid) where
  record Kept (y z : Service Uuid) : Type 0 where
    emptied : z.tables.sold_tickets ≡ []
    results_kept : z.results ≡ y.results
    told_kept : z.told ≡ y.told

  clear_stream-Kept :
      (clearing : Clearing) (y z : Service Uuid) → Kept y z → Kept y (clear_stream clearing z)
  clear_stream-Kept deletes_and_creates y z k = record {
    emptied = k.emptied;
    results_kept = k.results_kept;
    told_kept = k.told_kept;
  }
  clear_stream-Kept deletes_only y z k = record {
    emptied = k.emptied;
    results_kept = k.results_kept;
    told_kept = k.told_kept;
  }
  clear_stream-Kept fails y z k = k

  skip_or_clear :
      (b : Bool) (y : Service Uuid) (skipped cleared : World × Service Uuid)
      → Kept y skipped.1
      → Kept y cleared.1
      → Kept y (if b then skipped else cleared).1
  skip_or_clear true y skipped cleared k l = k
  skip_or_clear false y skipped cleared k l = l

  past_database-Kept :
      (now : ℕ) (clearing : Clearing) (o : Outcome (Unit {0})) (w : World) (y z : Service Uuid)
      → Kept y z
      → Kept y (past_database now clearing o w z).1
  past_database-Kept now clearing (raised e) w y z k = k
  past_database-Kept now clearing (Outcome.ok _) w y z k =
      skip_or_clear (is_open now w.breaker) y _ _ k (clear_stream-Kept clearing y z k)

  reset-Kept :
      (total now : ℕ) (clearing : Clearing) (w : World) (y : Service Uuid)
      → total < int_bound
      → Kept y (reset total now clearing w y).1
  unfolding reset reset_state
  reset-Kept total now clearing w y small =
      past_database-Kept now clearing (reset_state total y.tables).0 w y
        (record y { tables = (reset_state total y.tables).1 })
        (rw (lt→ltb total int_bound small)
          (record { emptied = refl; results_kept = refl; told_kept = refl }))

  pop_told :
      (id : String) (p : Pushed) (ps : List Pushed) (y z : Service Uuid)
      → z.results ≡ y.results
      → y.results id ≡ p ∷ ps
      → (pop_result id (z.results id) z).told ≡ (id, p) ∷ z.told
  unfolding pop_result
  pop_told id p ps y z same listed = rw (same, listed) refl

  pop_tables :
      (id : String) (ps : List Pushed) (z : Service Uuid) → (pop_result id ps z).tables ≡ z.tables
  unfolding pop_result
  pop_tables id [] z = refl
  pop_tables id (p ∷ ps) z = refl

  -- If the number of tickets fits into the column, and a result with a ticket is the first in
  -- the list for a req_id when /reset is called, then after it, whatever the breaker and Redis
  -- do, the next handler that waits for this req_id is told this ticket, though no ticket is
  -- recorded any more.
  pub reset_leaves_results :
      (total now : ℕ) (clearing : Clearing) (w : World) (y : Service Uuid) (id : String)
      (r : BuyResult) (n : ℕ) (ps : List Pushed)
      → total < int_bound
      → y.results id ≡ bought r ∷ ps
      → r.ticket_number ≡ some n
      → let z = (reset total now clearing w y).1 in
        let z' = pop_result id (z.results id) z in
        (z'.told ≡ (id, bought r) ∷ y.told)
        × (z'.tables.sold_tickets ≡ [])
        × ¬ IsRecorded parse z'.tables id (bought r)
  reset_leaves_results total now clearing w y id r n ps small listed ticket = (
    pop_told id (bought r) ps y z kept.results_kept listed ∙ ap (◌∷◌ (id, bought r)) kept.told_kept,
    none_sold,
    λ recorded.
        none_eq_some
          (ap (find_ticket (recorded n ticket).0) (sym none_sold) ∙ (recorded n ticket).2),
  )
    where
      z : Service Uuid
      z = (reset total now clearing w y).1

      kept : Kept y z
      kept = reset-Kept total now clearing w y small

      none_sold : (pop_result id (z.results id) z).tables.sold_tickets ≡ []
      none_sold = ap (λ t. t.sold_tickets) (pop_tables id (z.results id) z) ∙ kept.emptied
