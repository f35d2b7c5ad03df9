-- ===== src/Naive/Mixed.antt =====
-- naive/main.py with `/reset` statement by statement: any number of threads handle purchases, any number
-- handle resets, and a schedule says which thread moves next.
use ticket_selling_system.Prelude.{
  ℕ, zero, suc, ◌≡◌, refl, ◌∙◌, ap, List, [], ◌∷◌, ◌++◌, map, replicate,
}
use ticket_selling_system.Store.{default_total_tickets, ResetResponse, State, BuyRequest, remaining}
use ticket_selling_system.Naive.{System, turn, run, update, reset}
use ticket_selling_system.Naive.Turns.{update_self}

-- Where a thread stands in `reset`: before one of the four assignments, before the response, or past it.
pub data ResetPc : Type 0 where
  at_total at_count at_requests at_users at_response : ResetPc
  done : ResetResponse → ResetPc

abbrev pub reset_response : State → ResetResponse
reset_response s = record {
  status = "ok";
  total_tickets = s.total_tickets;
  sold_count = s.sold_count;
  remaining_tickets = remaining s;
  message = "State reset. Starting fresh with 0 sold.";
}

unfoldable pub advance_reset : ResetPc → State → ResetPc × State
advance_reset at_total s = (at_count, record s { total_tickets = default_total_tickets })
advance_reset at_count s = (at_requests, record s { sold_count = 0 })
advance_reset at_requests s = (at_users, record s { processed_requests = [] })
advance_reset at_users s = (at_response, record s { user_tickets = [] })
advance_reset at_response s = (done (reset_response s), s)
advance_reset (done res) s = (done res, s)

unfoldable pub iterate_reset : ℕ → ResetPc → State → ResetPc × State
unfolding advance_reset
iterate_reset zero p s = (p, s)
iterate_reset (suc n) p s = let (p', s') = advance_reset p s in iterate_reset n p' s'

-- Five steps with no other thread in between are the function `reset`.
pub reset_alone : (s : State) → iterate_reset 5 at_total s ≡ (done (reset s).0, (reset s).1)
unfolding iterate_reset reset
reset_alone s = refl

pub data Mover : Type 0 where
  buyer resetter : ℕ → Mover

pub record Server : Type 0 where
  pub buyers : System
  pub resetters : ℕ → ResetPc

abbrev pub step_reset : ℕ → Server → ResetPc × State → Server
step_reset i y (p, s) = record {
  buyers = record { store = s; pc = y.buyers.pc };
  resetters = update y.resetters i p;
}

module _ (request : ℕ → BuyRequest) where
  unfoldable pub move : Server → Mover → Server
  unfolding turn advance_reset
  move y (buyer i) = record { buyers = turn request y.buyers i; resetters = y.resetters }
  move y (resetter i) = step_reset i y (advance_reset (y.resetters i) y.buyers.store)

  unfoldable pub moves : List Mover → Server → Server
  unfolding move
  moves [] y = y
  moves (m ∷ ms) y = moves ms (move y m)

  pub moves-append : (ms ns : List Mover) (y : Server) → moves (ms ++ ns) y ≡ moves ns (moves ms y)
  unfolding moves
  moves-append [] ns y = refl
  moves-append (m ∷ ms) ns y = moves-append ms ns (move y m)

  -- Moves of buyers alone are a schedule of the threads of `/buy`.
  pub moves-buyers :
      (is : List ℕ) (y : Server)
      → moves (map buyer is) y
        ≡ record { buyers = run request is y.buyers; resetters = y.resetters }
  unfolding moves run
  moves-buyers [] y = refl
  moves-buyers (i ∷ is) y = moves-buyers is (move y (buyer i))

  -- Consecutive moves of one resetter move it as it moves alone, and leave the buyers where they are.
  pub record Resets (i k : ℕ) (y z : Server) : Type 0 where
    pub own : (z.resetters i, z.buyers.store) ≡ iterate_reset k (y.resetters i) y.buyers.store
    pub others : z.buyers.pc ≡ y.buyers.pc

  pub moves-resetter : (i k : ℕ) (y : Server) → Resets i k y (moves (replicate k (resetter i)) y)
  unfolding moves iterate_reset
  moves-resetter i zero y = record { own = refl; others = refl }
  moves-resetter i (suc k) y =
      let (p, s) = advance_reset (y.resetters i) y.buyers.store in
      let rest = moves-resetter i k (step_reset i y (p, s)) in
      record {
        own = rest.own ∙ ap (λ q. iterate_reset k q s) (update_self y.resetters i p);
        others = rest.others;
      }
