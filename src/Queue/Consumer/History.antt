-- ===== src/Queue/Consumer/History.antt =====
-- What a consumer does, as events of the queue.
use ticket_selling_system.Prelude.{
  ℕ, zero, suc, ◌+◌, ◌≡◌, refl, ap, ◌∙◌, String, Option, List, [], ◌∷◌, ◌++◌, Key, All, All-append,
  length, Bool-cases, inl, inr, replicate,
}
use ticket_selling_system.Breaker.{RedisCircuitBreaker, is_open}
use ticket_selling_system.Queue.{
  Service, Reached, Event, enqueues, delivers, processes, crashes, pops, expires, falls_back,
  happens, history,
}
use ticket_selling_system.Queue.Consumer.{
  Read, replies, unavailable, no_group, batch_size, deliver_up_to, process_all, after_read,
  consumer_turn, run_consumer, Ended, failed, cancelled, consumer_loop,
}

-- The events that are a consumer's.
abbrev pub IsConsumers : Event → Type 0
IsConsumers (enqueues _) = ⊥
IsConsumers delivers = Unit
IsConsumers (processes _ _) = Unit
IsConsumers (crashes _) = ⊥
IsConsumers (pops _) = ⊥
IsConsumers (expires _) = ⊥
IsConsumers (falls_back _) = ⊥

abbrev processings : ℕ → List (ℕ × Reached) → List Event
processings n [] = []
processings n ((k, r) ∷ rs) = processes (n + k) r ∷ processings n rs

processings-IsConsumers : (n : ℕ) (rs : List (ℕ × Reached)) → All IsConsumers (processings n rs)
processings-IsConsumers n [] = tt
processings-IsConsumers n ((k, r) ∷ rs) = (tt, processings-IsConsumers n rs)

replicate-IsConsumers : (k : ℕ) → All IsConsumers (replicate k delivers)
replicate-IsConsumers zero = tt
replicate-IsConsumers (suc k) = (tt, replicate-IsConsumers k)

module _ {Uuid : Type 0} ⦃key : Key Uuid⦄ (parse : String → Option Uuid) where
  -- A consumer's events lead from the one state to the other.
  abbrev pub ByConsumers : Service Uuid → Service Uuid → Type 0
  ByConsumers y z = (vs : List Event) × All IsConsumers vs × (z ≡ history parse vs y)

  pub history-append :
      (us vs : List Event) (y : Service Uuid)
      → history parse vs (history parse us y) ≡ history parse (us ++ vs) y
  unfolding history
  history-append [] vs y = refl
  history-append (u ∷ us) vs y = history-append us vs (happens parse u y)

  none : (y : Service Uuid) → ByConsumers y y
  unfolding history
  none y = ([], tt, refl)

  both :
      (x : Service Uuid) {y z : Service Uuid} → ByConsumers x y → ByConsumers y z → ByConsumers x z
  both x (us, hu, eu) (vs, hv, ev) =
      (us ++ vs, All-append _ us vs hu hv, ev ∙ ap (history parse vs) eu ∙ history-append us vs x)

  process_all-history :
      (n : ℕ) (rs : List (ℕ × Reached)) (y : Service Uuid)
      → process_all parse n rs y ≡ history parse (processings n rs) y
  unfolding process_all history happens
  process_all-history n [] y = refl
  process_all-history n ((k, r) ∷ rs) y = process_all-history n rs _

  deliver_up_to-history :
      (k : ℕ) (y : Service Uuid) → deliver_up_to k y ≡ history parse (replicate k delivers) y
  unfolding deliver_up_to history happens
  deliver_up_to-history zero y = refl
  deliver_up_to-history (suc k) y = deliver_up_to-history k _

  after_read-ByConsumers :
      (read : Read) (b : RedisCircuitBreaker) (y : Service Uuid)
      → ByConsumers y (after_read parse read b y).1
  after_read-ByConsumers (replies rs) b y =
      both y
        (
          replicate batch_size delivers,
          replicate-IsConsumers batch_size,
          deliver_up_to-history batch_size y,
        )
        (
          processings (length y.held) rs,
          processings-IsConsumers (length y.held) rs,
          process_all-history (length y.held) rs (deliver_up_to batch_size y),
        )
  after_read-ByConsumers (unavailable t) b y = none y
  after_read-ByConsumers no_group b y = none y

  consumer_turn-ByConsumers :
      (now : ℕ) (read : Read) (b : RedisCircuitBreaker) (y : Service Uuid)
      → ByConsumers y (consumer_turn parse now read b y).1
  unfolding consumer_turn
  consumer_turn-ByConsumers now read b y = elim (Bool-cases (is_open now b)) [
    | inl open_ ↦ rw open_ (none y)
    | inr closed ↦ rw closed (after_read-ByConsumers read b y)
  ]

  run_consumer-ByConsumers :
      (rounds : List (ℕ × Read)) (b : RedisCircuitBreaker) (y : Service Uuid)
      → ByConsumers y (run_consumer parse rounds b y).1
  unfolding run_consumer
  run_consumer-ByConsumers [] b y = none y
  run_consumer-ByConsumers ((now, read) ∷ rounds) b y =
      both y (consumer_turn-ByConsumers now read b y) (run_consumer-ByConsumers rounds _ _)

  -- Whatever calls of `_run_consumer` the supervisor makes, and however the breaker, XREADGROUP
  -- and the processing go in each of their rounds, the service after `consumer_loop` is that
  -- after a history of events, all of which are deliveries and processings.
  pub consumer_loop-ByConsumers :
      (calls : List (List (ℕ × Read) × Ended)) (b : RedisCircuitBreaker) (y : Service Uuid)
      → ByConsumers y (consumer_loop parse calls b y).2
  unfolding consumer_loop
  consumer_loop-ByConsumers [] b y = none y
  consumer_loop-ByConsumers ((rounds, cancelled) ∷ calls) b y = run_consumer-ByConsumers rounds b y
  consumer_loop-ByConsumers ((rounds, failed t) ∷ calls) b y =
      both y (run_consumer-ByConsumers rounds b y) (consumer_loop-ByConsumers calls _ _)
