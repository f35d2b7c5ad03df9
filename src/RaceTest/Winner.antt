-- ===== src/RaceTest/Winner.antt =====
-- buyer/race_test.py with one shared req_id, when all responses are there: one thread has won.
use ticket_selling_system.Prelude.{
  ℕ, zero, suc, ◌≤◌, ◌<◌, ◌≡◌, ◌≢◌, refl, sym, ap, ◌∙◌, List, [], ◌∷◌, inl, inr, arith, ℕ_discrete,
  All, String, string_key, length, Bool-cases, ltb, ltb→lt,
}
use ticket_selling_system.Store.{State, BuyRequest, BuyResponse, success, fresh}
use ticket_selling_system.Naive.Turns.{update_other}
use ticket_selling_system.Seller.{buy}
use ticket_selling_system.Seller.Lock.{
  Place, waiting, inside, returned, Shop, open_shop, acquire, work, move, turn, run,
}
use ticket_selling_system.Seller.Lock.Serial.{
  History, Told, calls, made, Replay, begin, call, IsSerial, every_schedule-IsSerial,
}
use ticket_selling_system.RaceTest.{put_returned, returned_responses, successes, idempotency_broken}
use ticket_selling_system.RaceTest.Locked.{length-count_if, fixed_seller_raises_no_alarm}
use ticket_selling_system.RaceTest.Counts.{count_if}
use ticket_selling_system.RaceTest.Steps.{succeeded}

-- A call of the history that was told success.
record Winner (h : History) : Type 0 where
  who : ℕ
  response : BuyResponse
  told : Told who response h
  won : response.status ≡ success

-- The first call on a fresh state with tickets sells.
first_sells :
    (req : BuyRequest) (total : ℕ) → 0 < total → (buy req (fresh total)).0.status ≡ success
unfolding buy
first_sells req total h = ground arith

module _ (request : ℕ → BuyRequest) (total : ℕ) (some_tickets : 0 < total) where
  Replay-Winner :
      {h : History} {t : State} (i : ℕ) (r : BuyResponse)
      → Replay request (fresh total) h t
      → Told i r h
      → Winner h
  Replay-Winner i r begin told = absurd told
  Replay-Winner i r (call {res = res} j begin e) told = record {
    who = j;
    response = res;
    told = inl (refl, refl);
    won = sym (ap (λ o. o.0.status) e) ∙ first_sells (request j) total some_tickets;
  }
  Replay-Winner i r (call j (call k rest e') e) told =
      let w = Replay-Winner k _ (call k rest e') (inl (refl, refl)) in
      record { who = w.who; response = w.response; told = inr w.told; won = w.won }

Told-calls : (i : ℕ) (r : BuyResponse) (h : History) → Told i r h → 1 ≤ calls i h
Told-calls i r [] told = absurd told
Told-calls i r ((j, q) ∷ h) (inl (same, e)) = ground arith
Told-calls i r ((j, q) ∷ h) (inr told) = omega (arith, Told-calls i r h told)

-- A thread that made one call was told one response.
Told-unique :
    (i : ℕ) (r q : BuyResponse) (h : History) → Told i r h → Told i q h → calls i h ≤ 1 → r ≡ q
Told-unique i r q [] a b k = absurd a
Told-unique i r q ((j, p) ∷ h) (inl (s, e)) (inl (s', e')) k = e ∙ sym e'
Told-unique i r q ((j, p) ∷ h) (inl (s, e)) (inr b) k = absurd (ground (arith, Told-calls i q h b))
Told-unique i r q ((j, p) ∷ h) (inr a) (inl (s, e)) k = absurd (ground (arith, Told-calls i r h a))
Told-unique i r q ((j, p) ∷ h) (inr a) (inr b) k = Told-unique i r q h a b (omega arith)

-- A turn of another thread leaves a thread where it is.
turn_other :
    (request : ℕ → BuyRequest) (y : Shop) (i j : ℕ) → j ≢ i → (turn request y i).place j ≡ y.place j
unfolding turn move acquire work
turn_other request y i j ne = ground (arith, update_other y.place i j)

run_other :
    (request : ℕ → BuyRequest) (n j : ℕ) (is : List ℕ) (y : Shop)
    → All (λ i. i < n) is
    → n ≤ j
    → (run request is y).place j ≡ y.place j
unfolding run
run_other request n j [] y below h = refl
run_other request n j (i ∷ is) y (k, below) h =
    run_other request n j is (turn request y i) below h
    ∙ turn_other request y i j (λ e. omega (arith, e, k, h))

made_one : (w : Place) → 1 ≤ made w → (r : BuyResponse) × (w ≡ returned r)
made_one (returned r) h = (r, refl)
made_one waiting h = absurd (omega arith)
made_one (inside p) h = absurd (omega arith)

put_returned-more :
    (w : Place) (rs : List BuyResponse)
    → count_if succeeded rs ≤ count_if succeeded (put_returned w rs)
put_returned-more (returned r) rs = omega arith
put_returned-more waiting rs = omega arith
put_returned-more (inside p) rs = omega arith

put_returned-success :
    (w : Place) (rs : List BuyResponse) (r : BuyResponse)
    → w ≡ returned r
    → r.status ≡ success
    → 1 ≤ count_if succeeded (put_returned w rs)
put_returned-success w rs r at won = rw (at, won) (omega arith)

success_among :
    (n j : ℕ) (place : ℕ → Place) (r : BuyResponse)
    → j < n
    → place j ≡ returned r
    → r.status ≡ success
    → 1 ≤ count_if succeeded (returned_responses n place)
success_among zero j place r h at won = absurd (omega arith)
success_among (suc n) j place r h at won = elim (ℕ_discrete n j) [
  | yes e ↦ put_returned-success (place n) (returned_responses n place) r (ap place e ∙ at) won
  | no ne ↦ omega (
    arith,
    success_among n j place r (omega arith) at won,
    put_returned-more (place n) (returned_responses n place),
  )
]

-- If one response is there, and only the first `n` threads have moved, one of them was told success.
winner_among :
    (request : ℕ → BuyRequest) (total n i : ℕ) (r : BuyResponse) (is : List ℕ)
    → 0 < total
    → All (λ j. j < n) is
    → (run request is (open_shop (fresh total))).place i ≡ returned r
    → 1 ≤ count_if succeeded (returned_responses n (run request is (open_shop (fresh total))).place)
winner_among request total n i r is some_tickets below at =
    success_among n w.who y.place w.response below_n (own.1 ∙ ap returned same) w.won
  where
    y : Shop
    y = run request is (open_shop (fresh total))

    v : IsSerial request (fresh total) y
    v = every_schedule-IsSerial request (fresh total) is

    w : Winner v.history
    w = Replay-Winner request total some_tickets i r v.replay (v.told i r at)

    called : 1 ≤ made (y.place w.who)
    called = omega (arith, Told-calls w.who w.response v.history w.told, v.once w.who)

    own : (q : BuyResponse) × (y.place w.who ≡ returned q)
    own = made_one (y.place w.who) called

    same : own.0 ≡ w.response
    same =
        Told-unique w.who own.0 w.response v.history (v.told w.who own.0 own.1) w.told
          (omega (arith, v.once w.who, ap made own.1))

    below_n : w.who < n
    below_n = elim (Bool-cases (ltb w.who n)) [
      | inl h ↦ ltb→lt _ _ h
      | inr h ↦ absurd (
          omega (
            arith,
            called,
            ap made (run_other request n w.who is (open_shop (fresh total)) below (ground arith)),
          ))
    ]

-- From a fresh state of the fixed seller with at least one ticket, if only the first n threads
-- have moved, all with the same req_id, then as soon as one of them has a response, exactly one
-- of the responses that are there is a success, whatever the schedule.
pub one_retry_wins :
    (total n i : ℕ) (users : ℕ → String) (id : String) (is : List ℕ) (r : BuyResponse)
    → let same : ℕ → BuyRequest = λ j. record { user_id = users j; req_id = id } in
      let y = run same is (open_shop (fresh total)) in
      0 < total
      → All (λ j. j < n) is
      → y.place i ≡ returned r
      → length (successes (returned_responses n y.place)) ≡ 1
unfolding idempotency_broken
one_retry_wins total n i users id is r some_tickets below at =
    let same : ℕ → BuyRequest = λ j. record { user_id = users j; req_id = id } in
    let results = returned_responses n (run same is (open_shop (fresh total))).place in
    ground (
      arith,
      winner_among same total n i r is some_tickets below at,
      length-count_if results,
      (fixed_seller_raises_no_alarm same total n is users id is).2,
    )
