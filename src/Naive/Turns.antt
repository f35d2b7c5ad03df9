-- ===== src/Naive/Turns.antt =====
-- Consecutive turns of one thread, and rounds in which each thread below a bound takes its turns.
use ticket_selling_system.Prelude.{
  replicate, ℕ, zero, suc, ◌≡◌, ◌≢◌, refl, ◌∙◌, List, [], ◌∷◌, ◌++◌, arith, ℕ_discrete, if_pos,
  if_neg, subst, sym, ◌≤◌, ◌<◌,
}
use ticket_selling_system.Store.{State, BuyRequest}
use ticket_selling_system.Naive.{System, Pc, entered, turn, run, advance, update}
use ticket_selling_system.Naive.Alone.{iterate}

-- Threads 0, 1, …, n - 1 take `k` turns each, one thread after the other.
abbrev pub rounds : ℕ → ℕ → List ℕ
rounds k zero = []
rounds k (suc n) = rounds k n ++ replicate k n

pub update_self {ℓ} : {A : Type ℓ} (f : ℕ → A) (i : ℕ) (a : A) → update f i a i ≡ a
update_self f i a = rw (if_pos (ℕ_discrete i i) refl)

pub update_other {ℓ} : {A : Type ℓ} (f : ℕ → A) (i j : ℕ) (a : A) → j ≢ i → update f i a j ≡ f j
update_other f i j a h = rw (if_neg (ℕ_discrete j i) h)

advance-total :
    (req : BuyRequest) (p : Pc) (s : State) → (advance req p s).1.total_tickets ≡ s.total_tickets
unfolding advance
advance-total req entered s = refl
advance-total req p s = ground arith

module _ (request : ℕ → BuyRequest) where
  pub run-append :
      (is js : List ℕ) (y : System) → run request (is ++ js) y ≡ run request js (run request is y)
  unfolding run
  run-append [] js y = refl
  run-append (i ∷ is) js y = run-append is js (turn request y i)

  -- The number of tickets is left alone.
  turn-total : (y : System) (i : ℕ) → (turn request y i).store.total_tickets ≡ y.store.total_tickets
  unfolding turn
  turn-total y i = advance-total (request i) (y.pc i) y.store

  pub run-total :
      (is : List ℕ) (y : System) → (run request is y).store.total_tickets ≡ y.store.total_tickets
  unfolding run
  run-total [] y = refl
  run-total (i ∷ is) y = run-total is (turn request y i) ∙ turn-total y i

  -- Its own turns move a thread as it moves alone, and leave the other threads where they are.
  pub record Moved (i k : ℕ) (y z : System) : Type 0 where
    pub own : (z.pc i, z.store) ≡ iterate k (request i) (y.pc i) y.store
    pub others : (j : ℕ) → j ≢ i → z.pc j ≡ y.pc j

  pub run-replicate : (i k : ℕ) (y : System) → Moved i k y (run request (replicate k i) y)
  unfolding run iterate
  run-replicate i zero y = record { own = refl; others = λ j h. refl }
  run-replicate i (suc k) y =
      let rest = run-replicate i k (turn request y i) in
      record {
        own = rest.own ∙ rw (update_self y.pc i (advance (request i) (y.pc i) y.store).0);
        others = λ j h. rest.others j h ∙ update_other y.pc i j _ h;
      }

-- A rule for rounds: if `k` turns of a thread that stands at `p` take the store from `P i` to
-- `P (i + 1)` and leave the thread in `T i`, then so it is for all threads after the round.
module _ (request : ℕ → BuyRequest) (P : ℕ → State → Type 0) (T : ℕ → Pc → Type 0) where
  pub record Round (p : Pc) (m n : ℕ) (y : System) : Type 0 where
    pub store : P n y.store
    pub moved : (j : ℕ) → j < n → T j (y.pc j)
    pub waiting : (j : ℕ) → n ≤ j → j < m → y.pc j ≡ p

  Takes : Pc → ℕ → Type 0
  Takes p k =
      (i : ℕ) (s : State)
      → P i s
      → P (suc i) (iterate k (request i) p s).1 × T i (iterate k (request i) p s).0

  next-Round :
      {p : Pc} {m n k : ℕ} {y z : System}
      → n < m
      → Takes p k
      → Round p m n y
      → Moved request n k y z
      → Round p m (suc n) z
  unfolding Takes
  next-Round {p} {m} {n} {k} {y} {z} lt takes r mv = record {
    store = subst (λ (o : Pc × State). P (suc n) o.1) (sym here) done.0;
    moved = λ j h. elim (ℕ_discrete j n) [
      | yes e ↦
          subst (λ i. T i (z.pc i)) (sym e) (subst (λ (o : Pc × State). T n o.0) (sym here) done.1)
      | no ne ↦ subst (T j) (sym (mv.others j ne)) (r.moved j (omega arith))
    ];
    waiting = λ j h lt'. mv.others j (omega arith) ∙ r.waiting j (omega arith) lt';
  }
    where
      here : ◌≡◌ {A = Pc × State} (z.pc n, z.store) (iterate k (request n) p y.store)
      here = mv.own ∙ rw (r.waiting n (omega arith) lt)

      done : P (suc n) (iterate k (request n) p y.store).1 × T n (iterate k (request n) p y.store).0
      done = takes n y.store r.store

  pub rounds-Round :
      (p : Pc) (k m n : ℕ) (y : System)
      → ((i : ℕ) (s : State)
          → P i s
          → P (suc i) (iterate k (request i) p s).1 × T i (iterate k (request i) p s).0)
      → P 0 y.store
      → ((j : ℕ) → j < m → y.pc j ≡ p)
      → n ≤ m
      → Round p m n (run request (rounds k n) y)
  unfolding run Takes
  rounds-Round p k m zero y takes h at le = record {
    store = h;
    moved = λ j h. elim h [ ];
    waiting = λ j _ lt. at j lt;
  }
  rounds-Round p k m (suc n) y takes h at le =
      rw (run-append request (rounds k n) (replicate k n) y) (
        next-Round le takes (rounds-Round p k m n y takes h at (omega arith))
          (run-replicate request n k (run request (rounds k n) y)))
