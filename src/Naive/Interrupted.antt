-- ===== src/Naive/Interrupted.antt =====
-- Purchases between the statements of `/reset` in naive/main.py.
use ticket_selling_system.Prelude.{
  ℕ, ◌+◌, ◌<◌, ◌≡◌, sym, ap, ◌∙◌, subst, none, List, [], ◌++◌, map, replicate, arith, string_key,
  false, Bool-cases, inl, inr, length,
}
use ticket_selling_system.Dict.{get}
use ticket_selling_system.Store.{default_total_tickets, ResetResponse, State, BuyRequest}
use ticket_selling_system.Buyer.{RequestResult, check_invariants}
use ticket_selling_system.Buyer.Detects.{pass_means}
use ticket_selling_system.Naive.{System, start, run, status}
use ticket_selling_system.Naive.Races.{Sold, check_then_sell, check_then_sell_oversells}
use ticket_selling_system.Naive.Mixed.{
  at_total, at_requests, done, iterate_reset, Mover, buyer, resetter, Server, moves, Resets,
  moves-append, moves-buyers, moves-resetter,
}

-- A reset that has cleared the count, then a check by each of n threads, then their sales, then the rest
-- of the reset.
abbrev pub reset_around : ℕ → ℕ → List Mover
reset_around r n =
    replicate 2 (resetter r) ++ (map buyer (check_then_sell n) ++ replicate 3 (resetter r))

abbrev pub open_server : State → Server
open_server s = record { buyers = start s; resetters = λ _. at_total }

-- More are counted as sold than are recorded.
unrecorded_fails :
    (s : State) (results : List RequestResult)
    → 0 < s.sold_count
    → s.processed_requests ≡ []
    → check_invariants (status s) results ≡ false
unfolding status
unrecorded_fails s results some_sold none_recorded =
    elim (Bool-cases (check_invariants (status s) results)) [
      | inr fails ↦ fails
      | inl passes ↦ absurd (
          omega
            (arith, some_sold, (pass_means (status s) results passes).3, ap length none_recorded))
    ]

module _ (request : ℕ → BuyRequest) (r n : ℕ) (s : State)
    (unseen : (i : ℕ) → get (request i).req_id s.processed_requests ≡ none) where
  -- What is left of the server after the three parts of the schedule.
  record Parts (z : Server) : Type 0 where
    middle : System
    sold : middle.store.sold_count ≡ n
    told : (j : ℕ) → j < n → Sold (j + 1) (middle.pc j)
    finished : (z.resetters r, z.buyers.store) ≡ iterate_reset 3 at_requests middle.store
    same_pcs : z.buyers.pc ≡ middle.pc

  begun : Server
  begun = moves request (replicate 2 (resetter r)) (open_server s)

  cleared : State
  cleared = record s { total_tickets = default_total_tickets; sold_count = 0 }

  begins : Resets request r 2 (open_server s) begun
  unfolding begun
  begins = moves-resetter request r 2 (open_server s)

  begun_buyers : begun.buyers ≡ start cleared
  unfolding cleared iterate_reset
  begun_buyers = λ i. record { store = (begins.own i).1; pc = begins.others i }

  parted :
      moves request (reset_around r n) (open_server s)
      ≡ moves request (replicate 3 (resetter r)) (record {
        buyers = run request (check_then_sell n) begun.buyers;
        resetters = begun.resetters;
      })
  unfolding begun
  parted =
      moves-append request (replicate 2 (resetter r)) _ (open_server s)
      ∙ moves-append request (map buyer (check_then_sell n)) _ begun
      ∙ ap (moves request (replicate 3 (resetter r)))
          (moves-buyers request (check_then_sell n) begun)

  parts : Parts (moves request (reset_around r n) (open_server s))
  unfolding cleared iterate_reset
  parts = subst Parts (sym parted) (record {
    middle = middle_;
    sold = omega (arith, sale.0);
    told = λ j h. subst (λ t. Sold t (middle_.pc j)) (omega arith) (sale.1 j h);
    finished = ends.own ∙ ap (λ p. iterate_reset 3 p middle_.store) (ap (λ o. o.0) begins.own);
    same_pcs = ends.others;
  })
    where
      middle_ : System
      middle_ = run request (check_then_sell n) begun.buyers

      sale :
          (middle_.store.sold_count ≡ 0 + n) × ((j : ℕ) → j < n → Sold (0 + j + 1) (middle_.pc j))
      sale =
          subst
            (λ (b : System).
              let y = run request (check_then_sell n) b in
              (y.store.sold_count ≡ 0 + n) × ((j : ℕ) → j < n → Sold (0 + j + 1) (y.pc j)))
            (sym begun_buyers) (check_then_sell_oversells request cleared n unseen (omega arith))

      between : Server
      between = record { buyers = middle_; resetters = begun.resetters }

      ends : Resets request r 3 between (moves request (replicate 3 (resetter r)) between)
      ends = moves-resetter request r 3 between

  -- In every state of the naive seller, for n threads whose req_ids are not recorded and a
  -- thread in /reset, there is a schedule (the reset clears the count, the n threads check,
  -- then each sells, and the reset goes on) after which all n were told success, with the
  -- tickets 1 to n, and the response of the reset says that n are sold, while no request is
  -- recorded and no user holds a ticket; and if there is a thread at all, the load client that
  -- reads the status reports FAIL, whatever results it has.
  pub reset_forgets_sales :
      (results : List RequestResult)
      → let z = moves request (reset_around r n) (open_server s) in
        ((j : ℕ) → j < n → Sold (j + 1) (z.buyers.pc j))
        × ((res : ResetResponse) × (z.resetters r ≡ done res) × (res.sold_count ≡ n))
        × (z.buyers.store.sold_count ≡ n)
        × (z.buyers.store.processed_requests ≡ [])
        × (z.buyers.store.user_tickets ≡ [])
        × (0 < n → check_invariants (status z.buyers.store) results ≡ false)
  unfolding iterate_reset
  reset_forgets_sales results =
      let k = parts in
      let stored = ap (λ o. o.1) k.finished in
      let counted = ap (λ (t : State). t.sold_count) stored ∙ k.sold in
      let recorded = ap (λ (t : State). t.processed_requests) stored in
      (
        (λ j h. subst (λ f. Sold (j + 1) (f j)) (sym k.same_pcs) (k.told j h)),
        (_, ap (λ o. o.0) k.finished, k.sold),
        counted,
        recorded,
        ap (λ (t : State). t.user_tickets) stored,
        (λ some_. unrecorded_fails _ results (omega (arith, some_, counted)) recorded),
      )
