-- ===== src/Seller/Lock/Safety.antt =====
-- The store of the fixed seller and the tickets of its threads, under every schedule.
use ticket_selling_system.Prelude.{
  ℕ, ◌≡◌, ◌≢◌, sym, ap, ◌∙◌, none, some, List, inl, inr, subst, ◌↔◌, string_discrete, some_eq,
  arith, string_key, String, count, count-up_to_le,
}
use ticket_selling_system.Dict.{get}
use ticket_selling_system.Dict.Laws.{count-values_two}
use ticket_selling_system.Store.{State, BuyRequest, BuyResponse}
use ticket_selling_system.Seller.{buy}
use ticket_selling_system.Seller.Invariant.{IsValid, IsConsistent, buy-IsValid}
use ticket_selling_system.Seller.Retry.{buy-record, buy-get}
use ticket_selling_system.Seller.Lock.{returned, Shop, open_shop, run}
use ticket_selling_system.Seller.Lock.Serial.{
  History, Told, Replay, begin, call, Phase, free, busy, IsSerial, every_schedule-IsSerial,
}

module _ (request : ℕ → BuyRequest) (s : State) where
  pub Replay-IsValid : {h : History} {t : State} → Replay request s h t → IsValid s → IsValid t
  Replay-IsValid begin v = v
  Replay-IsValid (call {t} i r e) v =
      subst IsValid (ap (λ o. o.1) e) (buy-IsValid (request i) t (Replay-IsValid r v))

  call-record :
      (i ticket : ℕ) (t u : State) (res : BuyResponse)
      → buy (request i) t ≡ (res, u)
      → res.ticket_number ≡ some ticket
      → get (request i).req_id u.processed_requests ≡ some ticket
  call-record i ticket t u res c =
      subst
        (λ (o : BuyResponse × State).
          o.0.ticket_number ≡ some ticket
          → get (request i).req_id o.1.processed_requests ≡ some ticket)
        c (buy-record (request i) t ticket)

  call-get :
      (i : ℕ) (id : String) (ticket : ℕ) (t u : State) (res : BuyResponse)
      → buy (request i) t ≡ (res, u)
      → get id t.processed_requests ≡ some ticket
      → get id u.processed_requests ≡ some ticket
  call-get i id ticket t u res c h =
      subst (λ (o : BuyResponse × State). get id o.1.processed_requests ≡ some ticket) c
        (buy-get (request i) t id ticket h)

  -- What a thread was told is on record.
  pub Replay-record :
      {h : History} {t : State} (i : ℕ) (res : BuyResponse) (ticket : ℕ)
      → Replay request s h t
      → Told i res h
      → res.ticket_number ≡ some ticket
      → get (request i).req_id t.processed_requests ≡ some ticket
  Replay-record i res ticket begin told e = absurd told
  Replay-record i res ticket (call {t = b} {t' = a} {res = given} j r c) (inl (same, eq)) e =
      subst (λ k. get (request k).req_id a.processed_requests ≡ some ticket) (sym same)
        (call-record j ticket b a given c
          (subst (λ (r : BuyResponse). r.ticket_number ≡ some ticket) eq e))
  Replay-record i res ticket (call {t = b} {t' = a} {res = given} j r c) (inr told) e =
      call-get j (request i).req_id ticket b a given c (Replay-record i res ticket r told e)

  pub Phase-store : {y : Shop} {t : State} → Phase request s y t → y.lock ≡ none → y.store ≡ t
  Phase-store (free l st out) e = st
  Phase-store (busy i p l at f out) e = cc

-- Two requests with one ticket have one req_id, in a consistent state.
ticket-req_id :
    (s : State) (a b : String) (t : ℕ)
    → IsConsistent s
    → get a s.processed_requests ≡ some t
    → get b s.processed_requests ≡ some t
    → a ≢ b
    → ⊥
ticket-req_id s a b t c ha hb ne = omega (
  arith,
  count-values_two a b t s.processed_requests ne ha hb,
  ap (count t) c.issued,
  count-up_to_le t s.sold_count,
)

-- Whenever the lock of the fixed seller is free, whatever the schedule since a valid state, no
-- more tickets are sold than there are, and the three books agree: the recorded tickets are 1, 2,
-- …, sold_count in this order, and the users' lists hold each of them once.
pub locked_never_oversells :
    (request : ℕ → BuyRequest) (s : State) (is : List ℕ)
    → IsValid s
    → (run request is (open_shop s)).lock ≡ none
    → IsValid (run request is (open_shop s)).store
locked_never_oversells request s is v unlocked =
    subst IsValid (sym (Phase-store request s serial.phase unlocked))
      (Replay-IsValid request s serial.replay v)
  where
    serial : IsSerial request s (run request is (open_shop s))
    serial = every_schedule-IsSerial request s is

-- Whatever the schedule of the fixed seller since a valid state, two threads that have returned
-- with tickets hold the same ticket exactly when their requests have the same req_id.
pub one_ticket_for_each_req_id :
    (request : ℕ → BuyRequest) (s : State) (is : List ℕ) (i j t u : ℕ) (ri rj : BuyResponse)
    → IsValid s
    → let y = run request is (open_shop s) in
      y.place i ≡ returned ri
      → y.place j ≡ returned rj
      → ri.ticket_number ≡ some t
      → rj.ticket_number ≡ some u
      → ((request i).req_id ≡ (request j).req_id) ↔ (t ≡ u)
one_ticket_for_each_req_id request s is i j t u ri rj v at_i at_j ti tj = (one, two)
  where
    serial : IsSerial request s (run request is (open_shop s))
    serial = every_schedule-IsSerial request s is

    book : State
    book = serial.before

    gi : get (request i).req_id book.processed_requests ≡ some t
    gi = Replay-record request s i ri t serial.replay (serial.told i ri at_i) ti

    gj : get (request j).req_id book.processed_requests ≡ some u
    gj = Replay-record request s j rj u serial.replay (serial.told j rj at_j) tj

    one : (request i).req_id ≡ (request j).req_id → t ≡ u
    one e = some_eq (sym gi ∙ subst (λ id. get id book.processed_requests ≡ some u) (sym e) gj)

    two : t ≡ u → (request i).req_id ≡ (request j).req_id
    two e = elim (string_discrete (request i).req_id (request j).req_id) [
      | yes same ↦ same
      | no ne ↦ absurd (
          ticket-req_id book _ _ t (Replay-IsValid request s serial.replay v).consistent gi
            (rw e gj) ne)
    ]
