-- ===== src/Queue/Stuck.antt =====
-- What becomes of an entry whose consumer did not acknowledge it.
use ticket_selling_system.Prelude.{
  ℕ, zero, suc, ◌<◌, ◌≡◌, ◌≢◌, String, Bool, true, false, Option, none, some, List, [], ◌∷◌, ite,
  Key, arith, All, All-append, ℕ_discrete,
}
use ticket_selling_system.Queue.{
  Entry, Message, Pushed, Service, Reached, nothing, pushed, acknowledged, Event, enqueues,
  delivers, processes, crashes, pops, expires, falls_back, pick, put_back, without, enqueue,
  deliver, pop_result, expire, crash, push_result, process_entry, direct_buy, happens, history,
}

abbrev pub is_pending : ℕ → List ℕ → Bool
is_pending i [] = false
is_pending i (j ∷ js) = ite (ℕ_discrete j i) true (is_pending i js)

-- The id is pending, and no consumer has its entry or can be delivered it.
pub record IsStuck {Uuid : Type 0} (i : ℕ) (y : Service Uuid) : Type 0 where
  pub waits : is_pending i y.pending ≡ true
  pub not_held : All (λ m. m.entry_id ≢ i) y.held
  pub not_streamed : All (λ m. m.entry_id ≢ i) y.stream
  pub old : i < y.next_id

without-is_pending :
    (i j : ℕ) (js : List ℕ) → j ≢ i → is_pending i js ≡ true → is_pending i (without j js) ≡ true
without-is_pending i j [] ne h = h
without-is_pending i j (k ∷ js) ne h = ground (arith, without-is_pending i j js ne)

-- What `pick` gives is of the list.
abbrev AllPicked : (Message → Type 0) → Option (Message × List Message) → Type 0
AllPicked P none = Unit
AllPicked P (some (m, others)) = P m × All P others

put_back-AllPicked :
    (P : Message → Type 0) (m : Message) (o : Option (Message × List Message))
    → P m
    → AllPicked P o
    → AllPicked P (put_back m o)
put_back-AllPicked P m none h k = tt
put_back-AllPicked P m (some (n, others)) h k = (k.0, (h, k.1))

pick-AllPicked :
    (P : Message → Type 0) (n : ℕ) (ms : List Message) → All P ms → AllPicked P (pick n ms)
pick-AllPicked P n [] h = tt
pick-AllPicked P zero (m ∷ ms) h = h
pick-AllPicked P (suc n) (m ∷ ms) h =
    put_back-AllPicked P m (pick n ms) h.0 (pick-AllPicked P n ms h.1)

module _ {Uuid : Type 0} (i : ℕ) where
  deliver-IsStuck :
      (ms : List Message) (y : Service Uuid)
      → All (λ m. m.entry_id ≢ i) ms
      → IsStuck i y
      → IsStuck i (deliver ms y)
  unfolding deliver
  deliver-IsStuck [] y h s = s
  deliver-IsStuck (m ∷ ms) y h s = record {
    waits = ground (arith, s.waits);
    not_held = All-append _ y.held (m ∷ []) s.not_held (h.0, tt);
    not_streamed = h.1;
    old = s.old;
  }

  pop_result-IsStuck :
      (id : String) (ps : List Pushed) (y : Service Uuid)
      → IsStuck i y
      → IsStuck i (pop_result id ps y)
  unfolding pop_result
  pop_result-IsStuck id [] y s = s
  pop_result-IsStuck id (p ∷ ps) y s = record {
    waits = s.waits;
    not_held = s.not_held;
    not_streamed = s.not_streamed;
    old = s.old;
  }

  push_result-IsStuck :
      (reached : Reached) (m : Message) (p : Pushed) (y : Service Uuid)
      → m.entry_id ≢ i
      → IsStuck i y
      → IsStuck i (push_result reached m p y)
  unfolding push_result
  push_result-IsStuck nothing m p y ne s = s
  push_result-IsStuck pushed m p y ne s = record {
    waits = s.waits;
    not_held = s.not_held;
    not_streamed = s.not_streamed;
    old = s.old;
  }
  push_result-IsStuck acknowledged m p y ne s = record {
    waits = without-is_pending i m.entry_id y.pending ne s.waits;
    not_held = s.not_held;
    not_streamed = s.not_streamed;
    old = s.old;
  }

  crash-IsStuck :
      (o : Option (Message × List Message)) (y : Service Uuid)
      → AllPicked (λ m. m.entry_id ≢ i) o
      → IsStuck i y
      → IsStuck i (crash o y)
  unfolding crash
  crash-IsStuck none y h s = s
  crash-IsStuck (some (m, others)) y h s = record {
    waits = s.waits;
    not_held = h.1;
    not_streamed = s.not_streamed;
    old = s.old;
  }

  enqueue-IsStuck : (e : Entry) (y : Service Uuid) → IsStuck i y → IsStuck i (enqueue e y)
  unfolding enqueue
  enqueue-IsStuck e y s = record {
    waits = s.waits;
    not_held = s.not_held;
    not_streamed =
        All-append _ y.stream (record { entry_id = y.next_id; fields = e } ∷ []) s.not_streamed
          ((λ same. omega (arith, s.old, same)), tt);
    old = omega (arith, s.old);
  }

module _ {Uuid : Type 0} ⦃key : Key Uuid⦄ (parse : String → Option Uuid) (i : ℕ) where
  process_entry-IsStuck :
      (reached : Reached) (o : Option (Message × List Message)) (y : Service Uuid)
      → AllPicked (λ m. m.entry_id ≢ i) o
      → IsStuck i y
      → IsStuck i (process_entry parse reached o y)
  unfolding process_entry
  process_entry-IsStuck reached none y h s = s
  process_entry-IsStuck reached (some (m, others)) y h s =
      push_result-IsStuck i reached m _ _ h.0
        (record { waits = s.waits; not_held = h.1; not_streamed = s.not_streamed; old = s.old })

  happens-IsStuck : (v : Event) (y : Service Uuid) → IsStuck i y → IsStuck i (happens parse v y)
  unfolding happens expire direct_buy
  happens-IsStuck (enqueues e) y s = enqueue-IsStuck i e y s
  happens-IsStuck delivers y s = deliver-IsStuck i y.stream y s.not_streamed s
  happens-IsStuck (processes n reached) y s =
      process_entry-IsStuck reached (pick n y.held) y (pick-AllPicked _ n y.held s.not_held) s
  happens-IsStuck (crashes n) y s =
      crash-IsStuck i (pick n y.held) y (pick-AllPicked _ n y.held s.not_held) s
  happens-IsStuck (pops id) y s = pop_result-IsStuck i id (y.results id) y s
  happens-IsStuck (expires id) y s = record {
    waits = s.waits;
    not_held = s.not_held;
    not_streamed = s.not_streamed;
    old = s.old;
  }
  happens-IsStuck (falls_back e) y s = record {
    waits = s.waits;
    not_held = s.not_held;
    not_streamed = s.not_streamed;
    old = s.old;
  }

  -- An entry that is pending, that no consumer holds and that is not among the undelivered
  -- ones, as after an error of Redis or the end of the consumer, stays pending whatever events
  -- of the queue follow, with no /reset among them: no consumer is delivered it again.
  pub history-IsStuck :
      (vs : List Event) (y : Service Uuid) → IsStuck i y → IsStuck i (history parse vs y)
  unfolding history
  history-IsStuck [] y s = s
  history-IsStuck (v ∷ vs) y s = history-IsStuck vs (happens parse v y) (happens-IsStuck v y s)
