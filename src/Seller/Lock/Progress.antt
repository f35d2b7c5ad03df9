-- ===== src/Seller/Lock/Progress.antt =====
-- Threads of the fixed seller and their responses: which schedules lead to them.
use ticket_selling_system.Prelude.{
  replicate, ℕ, zero, suc, ◌≤◌, ◌<◌, ◌≡◌, ◌≢◌, refl, ◌∙◌, Option, none, some, List, [], ◌∷◌, ◌++◌,
  inl, inr, arith, ℕ_discrete, ◌⊎◌,
}
use ticket_selling_system.Store.{State, BuyRequest, BuyResponse}
use ticket_selling_system.Naive.{Pc, entered, done, advance, update}
use ticket_selling_system.Naive.Alone.{rank, advance-rank}
use ticket_selling_system.Naive.Turns.{update_self, update_other}
use ticket_selling_system.Seller.Lock.{
  Place, waiting, inside, returned, Shop, open_shop, acquire, work, move, turn, run,
}
use ticket_selling_system.Seller.Lock.Serial.{IsOutside, Phase, free, busy, every_schedule-IsSerial}

module _ (request : ℕ → BuyRequest) where
  pub run-append :
      (is js : List ℕ) (y : Shop) → run request (is ++ js) y ≡ run request js (run request is y)
  unfolding run
  run-append [] js y = refl
  run-append (i ∷ is) js y = run-append is js (turn request y i)

  -- The thread has returned, and the lock is free.
  record HasLeft (i : ℕ) (y z : Shop) : Type 0 where
    response : BuyResponse
    left : z.place i ≡ returned response
    unlocked : z.lock ≡ none
    others : (j : ℕ) → j ≢ i → z.place j ≡ y.place j

  move-returned :
      (y : Shop) (i : ℕ) (res : BuyResponse) (w : Place)
      → w ≡ returned res
      → move (request i) y i w ≡ y
  unfolding move
  move-returned y i res w e = rw e

  move-inside :
      (y : Shop) (i : ℕ) (p : Pc) (w : Place)
      → w ≡ inside p
      → move (request i) y i w ≡ work (request i) y i p
  unfolding move
  move-inside y i p w e = rw e

  turn-returned :
      (y : Shop) (i : ℕ) (res : BuyResponse) → y.place i ≡ returned res → turn request y i ≡ y
  unfolding turn
  turn-returned y i res at = move-returned y i res (y.place i) at

  turn-inside :
      (y : Shop) (i : ℕ) (p : Pc) → y.place i ≡ inside p → turn request y i ≡ work (request i) y i p
  unfolding turn
  turn-inside y i p at = move-inside y i p (y.place i) at

  run-cons :
      (i : ℕ) (is : List ℕ) (y : Shop) → run request (i ∷ is) y ≡ run request is (turn request y i)
  unfolding run
  run-cons i is y = refl

  -- The turns of a thread that has returned change nothing.
  idle :
      (k i : ℕ) (y : Shop) (res : BuyResponse)
      → y.place i ≡ returned res
      → run request (replicate k i) y ≡ y
  unfolding run
  idle zero i y res at = refl
  idle (suc k) i y res at =
      rw (run-cons i (replicate k i) y, turn-returned y i res at) (idle k i y res at)

  after :
      (i : ℕ) (y : Shop) (q : Pc) (s : State) {z : Shop}
      → HasLeft i (record y { store = s; place = update y.place i (inside q) }) z
      → HasLeft i y z
  after i y q s l = record {
    response = l.response;
    left = l.left;
    unlocked = l.unlocked;
    others = λ j ne. l.others j ne ∙ update_other y.place i j (inside q) ne;
  }

  leaves :
      (k i : ℕ) (p : Pc) (y : Shop)
      → y.place i ≡ inside p
      → rank p < k
      → HasLeft i y (run request (replicate k i) y)
  unfolding work
  leaves zero i p y at h = absurd (omega arith)
  leaves (suc k) i (done res) y at h =
      rw (run-cons i (replicate k i) y, turn-inside y i (done res) at)
        (rw
          (idle k i (record y { lock = none; place = update y.place i (returned res) }) res
            (update_self y.place i (returned res)))
          (record {
            response = res;
            left = update_self y.place i (returned res);
            unlocked = refl;
            others = λ j ne. update_other y.place i j (returned res) ne;
          }))
  leaves (suc k) i p y at h =
      rw (run-cons i (replicate k i) y, turn-inside y i p at)
        (let (q, s) = advance (request i) p y.store in
          after i y q s (
            leaves k i q (record y { store = s; place = update y.place i (inside q) })
              (update_self y.place i (inside q))
              (omega (arith, advance-rank (request i) p y.store))))

  move-waiting :
      (y : Shop) (i : ℕ) (w : Place) → w ≡ waiting → move (request i) y i w ≡ acquire y i y.lock
  unfolding move
  move-waiting y i w e = rw e

  acquire-free :
      (y : Shop) (i : ℕ) (o : Option ℕ)
      → o ≡ none
      → acquire y i o ≡ record y { lock = some i; place = update y.place i (inside entered) }
  unfolding acquire
  acquire-free y i o e = rw e

  turn-waiting :
      (y : Shop) (i : ℕ)
      → y.place i ≡ waiting
      → y.lock ≡ none
      → turn request y i ≡ record y { lock = some i; place = update y.place i (inside entered) }
  unfolding turn
  turn-waiting y i at l = move-waiting y i (y.place i) at ∙ acquire-free y i y.lock l

  -- There is a schedule after which the thread has returned.
  pub record CanReturn (i : ℕ) (y : Shop) : Type 0 where
    pub schedule : List ℕ
    pub response : BuyResponse
    pub back : (run request schedule y).place i ≡ returned response

  rank-le : (p : Pc) → rank p ≤ 9
  rank-le entered = omega arith
  rank-le p = omega arith

  outside_cases :
      (w : Place) → IsOutside w → (w ≡ waiting) ⊎ ((res : BuyResponse) × (w ≡ returned res))
  outside_cases waiting h = inl refl
  outside_cases (inside p) h = absurd h
  outside_cases (returned res) h = inr (res, refl)

  enters : (y : Shop) (i : ℕ) → y.lock ≡ none → IsOutside (y.place i) → CanReturn i y
  unfolding run
  enters y i l out = elim (outside_cases (y.place i) out) [
    | inr (res, at) ↦ record { schedule = []; response = res; back = at }
    | inl at ↦
        let z : Shop = record y { lock = some i; place = update y.place i (inside entered) } in
        let gone = leaves 10 i entered z (update_self y.place i (inside entered)) (omega arith) in
        record {
          schedule = i ∷ replicate 10 i;
          response = gone.response;
          back = rw (run-cons i (replicate 10 i) y, turn-waiting y i at l) gone.left;
        }
  ]

  then_enters : (is : List ℕ) (y : Shop) (i : ℕ) → CanReturn i (run request is y) → CanReturn i y
  then_enters is y i c = record {
    schedule = is ++ c.schedule;
    response = c.response;
    back = rw (run-append is c.schedule y) c.back;
  }

module _ (request : ℕ → BuyRequest) (s : State) where
  reaches : (y : Shop) (i : ℕ) {t : State} → Phase request s y t → CanReturn request i y
  reaches y i (free l st out) = enters request y i l (out i)
  reaches y i (busy j p l at e out) =
      let gone = leaves request 10 j p y at (omega (arith, rank-le request p)) in
      elim (ℕ_discrete i j) [
        | yes same ↦ record {
          schedule = replicate 10 j;
          response = gone.response;
          back = rw same gone.left;
        }
        | no ne ↦ then_enters request (replicate 10 j) y i (
            enters request (run request (replicate 10 j) y) i gone.unlocked
              (rw (gone.others i ne) (out i ne)))
      ]

-- From every state of the fixed seller that a schedule leads to, for each thread there is a
-- schedule to go on with after which this thread has its response: the lock never blocks for
-- good.
pub every_thread-CanReturn :
    (request : ℕ → BuyRequest) (s : State) (is : List ℕ) (i : ℕ)
    → CanReturn request i (run request is (open_shop s))
every_thread-CanReturn request s is i =
    reaches request s _ i (every_schedule-IsSerial request s is).phase
