-- ===== src/Seller/Lock/Serial.antt =====
-- The shop of seller/main.py beside the calls of `/buy` one after the other, in the order in which they left
-- the block.
use ticket_selling_system.Prelude.{
  ℕ, ◌+◌, ◌≡◌, ◌≢◌, refl, sym, ap, ◌∙◌, subst, Option, none, some, List, [], ◌∷◌, ◌⊎◌, inl, inr,
  arith, ℕ_discrete, ite,
}
use ticket_selling_system.Store.{State, BuyRequest, BuyResponse}
use ticket_selling_system.Seller.{buy}
use ticket_selling_system.Naive.{Pc, entered, done, advance, update}
use ticket_selling_system.Naive.Alone.{finish, finish-advance}
use ticket_selling_system.Naive.Turns.{update_self, update_other}
use ticket_selling_system.Seller.Lock.{
  Place, waiting, inside, returned, Shop, open_shop, acquire, work, move, turn, run,
}

-- A history of calls, the last one first: which thread made the call, and what it was told.
abbrev pub History : Type 0
History = List (ℕ × BuyResponse)

abbrev pub Told : ℕ → BuyResponse → History → Type 0
Told i res [] = ⊥
Told i res ((j, r) ∷ h) = ((i ≡ j) × (res ≡ r)) ⊎ Told i res h

-- The number of calls that a thread has made.
abbrev pub calls : ℕ → History → ℕ
calls i [] = 0
calls i ((j, r) ∷ h) = ite (ℕ_discrete i j) 1 0 + calls i h

abbrev pub IsOutside : Place → Type 0
IsOutside (inside p) = ⊥
IsOutside _ = Unit

abbrev pub made : Place → ℕ
made (returned _) = 1
made _ = 0

same_pc : {w : Place} {p q : Pc} → w ≡ inside p → w ≡ inside q → p ≡ q
same_pc at at' = cc

module _ (request : ℕ → BuyRequest) (s : State) where
  -- The calls of the history, made one after the other by the sequential `buy`, lead from `s` to the
  -- given state and give these responses.
  pub data Replay : History → State → Type 0 where
    begin : Replay [] s
    call :
        {h : History} {t t' : State} {res : BuyResponse} (i : ℕ)
        → Replay h t
        → buy (request i) t ≡ (res, t')
        → Replay ((i, res) ∷ h) t'

  -- The lock is free and the store is that of the history; or one thread is in the block, and the
  -- call that it will have made, if it goes on, is a call from the store of the history.
  pub data Phase (y : Shop) (t : State) : Type 0 where
    free : y.lock ≡ none → y.store ≡ t → ((i : ℕ) → IsOutside (y.place i)) → Phase y t
    busy :
        (i : ℕ) (p : Pc)
        → y.lock ≡ some i
        → y.place i ≡ inside p
        → finish (request i) p y.store ≡ buy (request i) t
        → ((j : ℕ) → j ≢ i → IsOutside (y.place j))
        → Phase y t

  pub record IsSerial (y : Shop) : Type 0 where
    pub history : History
    pub before : State
    pub replay : Replay history before
    pub phase : Phase y before
    pub told : (i : ℕ) (res : BuyResponse) → y.place i ≡ returned res → Told i res history
    pub once : (i : ℕ) → calls i history ≡ made (y.place i)

  open_shop-IsSerial : IsSerial (open_shop s)
  open_shop-IsSerial = record {
    history = [];
    before = s;
    replay = begin;
    phase = free refl refl (λ i. tt);
    told = λ i res e. cc;
    once = λ i. refl;
  }

  acquire-IsSerial :
      (y : Shop) (i : ℕ) (o : Option ℕ)
      → y.lock ≡ o
      → y.place i ≡ waiting
      → IsSerial y
      → IsSerial (acquire y i o)
  unfolding acquire finish
  acquire-IsSerial y i (some _) e at v = v
  acquire-IsSerial y i none e at v = record {
    history = v.history;
    before = v.before;
    replay = v.replay;
    phase = enters v.phase;
    told = λ j res q. v.told j res (ground arith);
    once = λ j. ground (arith, v.once j);
  }
    where
      enters :
          Phase y v.before
          → Phase (record y { lock = some i; place = update y.place i (inside entered) }) v.before
      enters (free l st out) =
          busy i entered refl (update_self y.place i (inside entered)) (rw st)
            (λ j ne. rw (update_other y.place i j (inside entered) ne) (out j))
      enters (busy j p l _ _ _) = cc

  -- A thread that is in the block holds the lock, and is alone there.
  record Holds (y : Shop) (t : State) (i : ℕ) (p : Pc) : Type 0 where
    ends : finish (request i) p y.store ≡ buy (request i) t
    alone : (j : ℕ) → j ≢ i → IsOutside (y.place j)
    locked : y.lock ≡ some i

  Phase-Holds :
      {y : Shop} {t : State} (i : ℕ) (p : Pc) → Phase y t → y.place i ≡ inside p → Holds y t i p
  Phase-Holds i p (free l st out) at = absurd (subst IsOutside at (out i))
  Phase-Holds {y} {t} i p (busy j q l at' e out) at = elim (ℕ_discrete i j) [
    | no ne ↦ absurd (subst IsOutside at (out i ne))
    | yes same ↦ record {
      ends =
          rw (same_pc at (subst (λ k. y.place k ≡ inside q) (sym same) at'))
            (subst (λ k. finish (request k) q y.store ≡ buy (request k) t) (sym same) e);
      alone = λ k ne. out k (λ eq. ne (eq ∙ sym same));
      locked = l ∙ ap some (sym same);
    }
  ]

  -- The exit appends the call to the history.
  exit-IsSerial :
      (y : Shop) (i : ℕ) (res : BuyResponse)
      → y.place i ≡ inside (done res)
      → IsSerial y
      → IsSerial (record y { lock = none; place = update y.place i (returned res) })
  unfolding finish
  exit-IsSerial y i res at v = record {
    history = (i, res) ∷ v.history;
    before = y.store;
    replay = call i v.replay (sym own.ends);
    phase = free refl refl out;
    told = λ j r q. elim (ℕ_discrete j i) [
      | yes e ↦ inl (e, ground arith)
      | no ne ↦ inr (v.told j r (sym (update_other y.place i j (returned res) ne) ∙ q))
    ];
    once = λ j. ground (arith, v.once j, v.once i);
  }
    where
      own : Holds y v.before i (done res)
      own = Phase-Holds i (done res) v.phase at

      out : (j : ℕ) → IsOutside (update y.place i (returned res) j)
      out j = elim (ℕ_discrete j i) [
        | yes e ↦ rw (e, update_self y.place i (returned res)) tt
        | no ne ↦ rw (update_other y.place i j (returned res) ne) (own.alone j ne)
      ]

  -- A step in the block stays in the same call.
  step-IsSerial :
      (y : Shop) (i : ℕ) (p : Pc)
      → y.place i ≡ inside p
      → IsSerial y
      → IsSerial (
          let (q, u) = advance (request i) p y.store in
          record y { store = u; place = update y.place i (inside q) })
  step-IsSerial y i p at v = record {
    history = v.history;
    before = v.before;
    replay = v.replay;
    phase =
        busy i (advance (request i) p y.store).0 own.locked
          (update_self y.place i (inside (advance (request i) p y.store).0))
          (finish-advance (request i) p y.store ∙ own.ends)
          (λ j ne.
            rw (update_other y.place i j (inside (advance (request i) p y.store).0) ne)
              (own.alone j ne));
    told = λ j r q. v.told j r (ground arith);
    once = λ j. ground (arith, v.once j);
  }
    where
      own : Holds y v.before i p
      own = Phase-Holds i p v.phase at

  work-IsSerial :
      (y : Shop) (i : ℕ) (p : Pc)
      → y.place i ≡ inside p
      → IsSerial y
      → IsSerial (work (request i) y i p)
  unfolding work
  work-IsSerial y i (done res) at v = exit-IsSerial y i res at v
  work-IsSerial y i p at v = step-IsSerial y i p at v

  move-IsSerial :
      (y : Shop) (i : ℕ) (w : Place)
      → y.place i ≡ w
      → IsSerial y
      → IsSerial (move (request i) y i w)
  unfolding move
  move-IsSerial y i waiting at v = acquire-IsSerial y i y.lock refl at v
  move-IsSerial y i (inside p) at v = work-IsSerial y i p at v
  move-IsSerial y i (returned res) at v = v

  pub run-IsSerial : (is : List ℕ) (y : Shop) → IsSerial y → IsSerial (run request is y)
  unfolding run
  run-IsSerial [] y v = v
  run-IsSerial (i ∷ is) y v =
      run-IsSerial is (turn request y i) (move-IsSerial y i (y.place i) refl v)

  -- Whatever the schedule of the threads of the fixed seller, from a free lock on: the calls of
  -- /buy that have returned form a sequential history of `buy`, in which each returned thread
  -- made one call and was told its response, and no other thread made any; the store is that
  -- after the history, but for the one call in the block, if the lock is taken.
  pub every_schedule-IsSerial : (is : List ℕ) → IsSerial (run request is (open_shop s))
  every_schedule-IsSerial is = run-IsSerial is (open_shop s) open_shop-IsSerial
