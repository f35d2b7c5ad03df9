-- ===== src/Seller/Endpoints/Serial.antt =====
-- The threads of the three endpoints of seller/main.py beside the endpoints called one after the
-- other, in the order in which they left the block.
use ticket_selling_system.Prelude.{
  ℕ, ◌+◌, ◌≡◌, ◌≢◌, refl, sym, ap, ◌∙◌, subst, Option, none, some, List, [], ◌∷◌, ◌⊎◌, inl, inr,
  arith, ℕ_discrete, ite,
}
use ticket_selling_system.Store.{State}
use ticket_selling_system.Naive.{update}
use ticket_selling_system.Naive.Turns.{update_self, update_other}
use ticket_selling_system.Seller.Endpoints.{
  EndpointCall, EndpointAnswer, Point, first_point, advance_point, answer_at, serve_endpoint,
  Position, waiting, inside, returned, LockedServer, open_locked, take_lock, proceed, move, turn,
  run,
}
use ticket_selling_system.Seller.Endpoints.Outcome.{
  finish_point, finish_point-advance, finish_point-first, finish_point-answer,
}

-- A history of calls, the last one first: which thread made the call, and its answer.
abbrev pub History : Type 0
History = List (ℕ × EndpointAnswer)

abbrev pub Told : ℕ → EndpointAnswer → History → Type 0
Told i a [] = ⊥
Told i a ((j, b) ∷ h) = ((i ≡ j) × (a ≡ b)) ⊎ Told i a h

-- The number of calls that a thread has made.
abbrev pub calls : ℕ → History → ℕ
calls i [] = 0
calls i ((j, b) ∷ h) = ite (ℕ_discrete i j) 1 0 + calls i h

abbrev pub IsOutside : Position → Type 0
IsOutside (inside p) = ⊥
IsOutside _ = Unit

abbrev pub made : Position → ℕ
made (returned _) = 1
made _ = 0

same_point : {w : Position} {p q : Point} → w ≡ inside p → w ≡ inside q → p ≡ q
same_point at at' = cc

-- All threads but one stay outside when that one is put at a place.
others-IsOutside :
    (i : ℕ) (w : Position) (place : ℕ → Position)
    → ((j : ℕ) → j ≢ i → IsOutside (place j))
    → (j : ℕ) → j ≢ i
    → IsOutside (update place i w j)
others-IsOutside i w place out j ne = rw (update_other place i j w ne) (out j ne)

all-IsOutside :
    (i : ℕ) (a : EndpointAnswer) (place : ℕ → Position)
    → ((j : ℕ) → j ≢ i → IsOutside (place j))
    → (j : ℕ) → IsOutside (update place i (returned a) j)
all-IsOutside i a place out j = elim (ℕ_discrete j i) [
  | yes e ↦ rw (e, update_self place i (returned a)) tt
  | no ne ↦ others-IsOutside i (returned a) place out j ne
]

module _ (call : ℕ → EndpointCall) (s : State) where
  -- The calls of the history, served one after the other, lead from `s` to the given state and give
  -- these answers.
  pub data Replay : History → State → Type 0 where
    begin : Replay [] s
    then_call :
        {h : History} {t t' : State} {a : EndpointAnswer} (i : ℕ)
        → Replay h t
        → serve_endpoint (call i) t ≡ (a, t')
        → Replay ((i, a) ∷ h) t'

  -- The lock is free and the store is that of the history; or one thread is in the block, and the
  -- call that it will have made, if it goes on, is a call from the store of the history.
  pub data Phase (y : LockedServer) (t : State) : Type 0 where
    free : y.lock ≡ none → y.store ≡ t → ((i : ℕ) → IsOutside (y.place i)) → Phase y t
    busy :
        (i : ℕ) (p : Point)
        → y.lock ≡ some i
        → y.place i ≡ inside p
        → finish_point p y.store ≡ serve_endpoint (call i) t
        → ((j : ℕ) → j ≢ i → IsOutside (y.place j))
        → Phase y t

  pub record IsSequential (y : LockedServer) : Type 0 where
    pub history : History
    pub before : State
    pub replay : Replay history before
    pub phase : Phase y before
    pub told : (i : ℕ) (a : EndpointAnswer) → y.place i ≡ returned a → Told i a history
    pub once : (i : ℕ) → calls i history ≡ made (y.place i)

  open_locked-IsSequential : IsSequential (open_locked s)
  open_locked-IsSequential = record {
    history = [];
    before = s;
    replay = begin;
    phase = free refl refl (λ i. tt);
    told = λ i a e. cc;
    once = λ i. refl;
  }

  take_lock-IsSequential :
      (y : LockedServer) (i : ℕ) (o : Option ℕ)
      → y.lock ≡ o
      → y.place i ≡ waiting
      → IsSequential y
      → IsSequential (take_lock (call i) y i o)
  unfolding take_lock
  take_lock-IsSequential y i (some _) e at v = v
  take_lock-IsSequential y i none e at v = record {
    history = v.history;
    before = v.before;
    replay = v.replay;
    phase = enters v.phase;
    told = λ j a q. v.told j a (ground arith);
    once = λ j. ground (arith, v.once j);
  }
    where
      enters :
          Phase y v.before
          → Phase
              (record y { lock = some i; place = update y.place i (inside (first_point (call i))) })
              v.before
      enters (free l st out) =
          busy i (first_point (call i)) refl (update_self y.place i _)
            (rw st (finish_point-first (call i) v.before))
            (others-IsOutside i _ y.place (λ j ne. out j))
      enters (busy j p l _ _ _) = cc

  -- A thread that is in the block holds the lock, and is alone there.
  record Holds (y : LockedServer) (t : State) (i : ℕ) (p : Point) : Type 0 where
    ends : finish_point p y.store ≡ serve_endpoint (call i) t
    alone : (j : ℕ) → j ≢ i → IsOutside (y.place j)
    locked : y.lock ≡ some i

  Phase-Holds :
      {y : LockedServer} {t : State} (i : ℕ) (p : Point)
      → Phase y t
      → y.place i ≡ inside p
      → Holds y t i p
  Phase-Holds i p (free l st out) at = absurd (subst IsOutside at (out i))
  Phase-Holds {y} {t} i p (busy j q l at' e out) at = elim (ℕ_discrete i j) [
    | no ne ↦ absurd (subst IsOutside at (out i ne))
    | yes same ↦ record {
      ends =
          rw (same_point at (subst (λ k. y.place k ≡ inside q) (sym same) at'))
            (subst (λ k. finish_point q y.store ≡ serve_endpoint (call k) t) (sym same) e);
      alone = λ k ne. out k (λ eq. ne (eq ∙ sym same));
      locked = l ∙ ap some (sym same);
    }
  ]

  -- The exit appends the call to the history; a step in the block stays in the same call.
  proceed-IsSequential :
      (y : LockedServer) (i : ℕ) (p : Point) (o : Option EndpointAnswer)
      → answer_at p ≡ o
      → y.place i ≡ inside p
      → IsSequential y
      → IsSequential (proceed y i p o)
  unfolding proceed
  proceed-IsSequential y i p (some a) e at v = record {
    history = (i, a) ∷ v.history;
    before = y.store;
    replay = then_call i v.replay (sym own.ends ∙ finish_point-answer p y.store a e);
    phase = free refl refl (all-IsOutside i a y.place own.alone);
    told = λ j b q. elim (ℕ_discrete j i) [
      | yes eq ↦ inl (eq, ground arith)
      | no ne ↦ inr (v.told j b (sym (update_other y.place i j (returned a) ne) ∙ q))
    ];
    once = λ j. ground (arith, v.once j, v.once i);
  }
    where
      own : Holds y v.before i p
      own = Phase-Holds i p v.phase at
  proceed-IsSequential y i p none e at v = record {
    history = v.history;
    before = v.before;
    replay = v.replay;
    phase =
        busy i (advance_point p y.store).0 own.locked
          (update_self y.place i (inside (advance_point p y.store).0))
          (finish_point-advance p y.store ∙ own.ends) (others-IsOutside i _ y.place own.alone);
    told = λ j b q. v.told j b (ground arith);
    once = λ j. ground (arith, v.once j);
  }
    where
      own : Holds y v.before i p
      own = Phase-Holds i p v.phase at

  move-IsSequential :
      (y : LockedServer) (i : ℕ) (w : Position)
      → y.place i ≡ w
      → IsSequential y
      → IsSequential (move (call i) y i w)
  unfolding move
  move-IsSequential y i waiting at v = take_lock-IsSequential y i y.lock refl at v
  move-IsSequential y i (inside p) at v = proceed-IsSequential y i p (answer_at p) refl at v
  move-IsSequential y i (returned a) at v = v

  run-IsSequential :
      (is : List ℕ) (y : LockedServer) → IsSequential y → IsSequential (run call is y)
  unfolding run
  run-IsSequential [] y v = v
  run-IsSequential (i ∷ is) y v =
      run-IsSequential is (turn call y i) (move-IsSequential y i (y.place i) refl v)

  -- Whatever the schedule of threads of the fixed seller, each of which is in /buy, /reset or
  -- /status statement by statement, from a free lock on: the calls that have returned form a
  -- sequential history of the endpoints as functions of the store, in which each returned
  -- thread made one call and was given its answer, and no other thread made any; the store is
  -- that after the history, but for the one call in the block, if the lock is taken.
  pub every_mix-IsSequential : (is : List ℕ) → IsSequential (run call is (open_locked s))
  every_mix-IsSequential is = run-IsSequential is (open_locked s) open_locked-IsSequential
