-- ===== src/Seller/Endpoints/Safety.antt =====
-- The store of seller/main.py, and what `/status` returns, with threads in all three endpoints.
use ticket_selling_system.Prelude.{ℕ, ◌≡◌, sym, ap, ◌∙◌, subst, none, List, [], inl, inr, true}
use ticket_selling_system.Store.{State, StatusBody}
use ticket_selling_system.Seller.{status}
use ticket_selling_system.Seller.Invariant.{IsValid, buy-IsValid, reset-IsValid}
use ticket_selling_system.Seller.Endpoints.{
  EndpointCall, buying, resetting, reading, told_status, serve_endpoint, returned, LockedServer,
  open_locked, run,
}
use ticket_selling_system.Seller.Endpoints.Serial.{
  History, Told, Replay, begin, then_call, Phase, free, busy, every_mix-IsSequential,
}
use ticket_selling_system.Buyer.{check_invariants}
use ticket_selling_system.Buyer.Records.{valid_state_passes}

serve_endpoint-IsValid : (c : EndpointCall) (s : State) → IsValid s → IsValid (serve_endpoint c s).1
unfolding serve_endpoint
serve_endpoint-IsValid (buying req) s v = buy-IsValid req s v
serve_endpoint-IsValid resetting s v = reset-IsValid s
serve_endpoint-IsValid reading s v = v

-- Only a status is answered with a status, which is that of the state.
serve_endpoint-status :
    (c : EndpointCall) (s : State) (body : StatusBody)
    → (serve_endpoint c s).0 ≡ told_status body
    → body ≡ status s
unfolding serve_endpoint
serve_endpoint-status (buying req) s body e = cc
serve_endpoint-status resetting s body e = cc
serve_endpoint-status reading s body e = cc

status_passes :
    (s : State) (body : StatusBody) → IsValid s → body ≡ status s → check_invariants body [] ≡ true
status_passes s body v e = rw e (valid_state_passes s [] v tt)

module _ (call : ℕ → EndpointCall) (s : State) where
  Replay-IsValid : {h : History} {t : State} → Replay call s h t → IsValid s → IsValid t
  Replay-IsValid begin v = v
  Replay-IsValid (then_call {t} i r e) v =
      subst IsValid (ap (λ o. o.1) e) (serve_endpoint-IsValid (call i) t (Replay-IsValid r v))

  Replay-status :
      {h : History} {t : State} (i : ℕ) (body : StatusBody)
      → Replay call s h t
      → IsValid s
      → Told i (told_status body) h
      → check_invariants body [] ≡ true
  Replay-status i body begin v told = absurd told
  Replay-status i body (then_call {t} j r e) v (inl (same, eq)) =
      status_passes t body (Replay-IsValid r v)
        (serve_endpoint-status (call j) t body (ap (λ o. o.0) e ∙ sym eq))
  Replay-status i body (then_call j r e) v (inr told) = Replay-status i body r v told

  Phase-store : {y : LockedServer} {t : State} → Phase call s y t → y.lock ≡ none → y.store ≡ t
  Phase-store (free l st out) e = st
  Phase-store (busy i p l at f out) e = cc

-- Whatever the schedule of threads in /buy, /reset and /status of the fixed seller since a valid
-- state: whenever the lock is free, no more tickets are sold than there are, and the three books
-- agree, that is, the recorded tickets are 1, 2, …, sold_count in this order, and the users'
-- lists hold each of them once.
pub mixed_never_oversells :
    (call : ℕ → EndpointCall) (s : State) (is : List ℕ)
    → IsValid s
    → (run call is (open_locked s)).lock ≡ none
    → IsValid (run call is (open_locked s)).store
mixed_never_oversells call s is v unlocked =
    let serial = every_mix-IsSequential call s is in
    subst IsValid (sym (Phase-store call s serial.phase unlocked))
      (Replay-IsValid call s serial.replay v)

-- Whatever the schedule of threads in /buy, /reset and /status of the fixed seller since a valid
-- state: every body that a thread in /status has returned, as it is at the return, passes the
-- four checks of the load client with no results, whatever the purchases and resets around it.
pub mixed_statuses_pass :
    (call : ℕ → EndpointCall) (s : State) (is : List ℕ) (i : ℕ) (body : StatusBody)
    → IsValid s
    → (run call is (open_locked s)).place i ≡ returned (told_status body)
    → check_invariants body [] ≡ true
mixed_statuses_pass call s is i body v at =
    let serial = every_mix-IsSequential call s is in
    Replay-status call s i body serial.replay v (serial.told i (told_status body) at)
