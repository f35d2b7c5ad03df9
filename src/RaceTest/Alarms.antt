-- ===== src/RaceTest/Alarms.antt =====
-- The alarms of buyer/race_test.py on the races of naive/main.py.
use ticket_selling_system.Prelude.{
  ℕ, zero, suc, ◌≤◌, ◌<◌, ◌≡◌, refl, ap, true, false, not, Option, some, List, [], ◌∷◌, ◌==◌,
  length, length-map, arith, eq→==, lt→ltb, All, ◌⊎◌, inl, inr,
}
use ticket_selling_system.Store.{BuyRequest, BuyResponse, success, fresh}
use ticket_selling_system.Naive.{Pc, start, run}
use ticket_selling_system.Naive.Races.{
  Sold, check_then_sell, read_then_write, check_then_sell_oversells, read_then_write_duplicates,
}
use ticket_selling_system.RaceTest.{
  successes, ticket_numbers, distinct_numbers, oversold, has_duplicates, idempotency_broken,
  put_response, responses,
}

-- Every one of these threads was told `success`.
put_response-Sold :
    (ticket : ℕ) (p : Pc) (rs : List BuyResponse)
    → Sold ticket p
    → (r : BuyResponse) × (put_response p rs ≡ r ∷ rs)
      × (r.status ≡ success)
      × (r.ticket_number ≡ some ticket)
put_response-Sold ticket p rs (r, e, ok, numbered) =
    (r, ap (λ q. put_response q rs) e, ok, numbered)

all-Sold :
    (n : ℕ) (pc : ℕ → Pc) (ticket : ℕ → ℕ)
    → ((j : ℕ) → j < n → Sold (ticket j) (pc j))
    → length (successes (responses n pc)) ≡ n
unfolding successes
all-Sold zero pc ticket h = refl
all-Sold (suc n) pc ticket h =
    let (r, e, ok, _) = put_response-Sold (ticket n) (pc n) (responses n pc) (h n (omega arith)) in
    rw (e, ok) (ap suc (all-Sold n pc ticket (λ j small. h j (omega (arith, small)))))

one_number :
    (n : ℕ) (pc : ℕ → Pc) (ticket : ℕ)
    → ((j : ℕ) → j < n → Sold ticket (pc j))
    → All (λ o. o ≡ some ticket) (ticket_numbers (successes (responses n pc)))
unfolding successes
one_number zero pc ticket h = tt
one_number (suc n) pc ticket h =
    let (r, e, ok, numbered) =
      put_response-Sold ticket (pc n) (responses n pc) (h n (omega arith)) in
    rw (e, ok) (numbered, one_number n pc ticket (λ j small. h j (omega (arith, small))))

distinct_numbers-one :
    (t : ℕ) (os : List (Option ℕ)) → All (λ o. o ≡ some t) os → length (distinct_numbers os) ≤ 1
distinct_numbers-one t os h = elim (cases os h) [
  | inl e ↦ rw e (omega arith)
  | inr e ↦ rw e (omega arith)
]
  where
    cases :
        (xs : List (Option ℕ))
        → All (λ o. o ≡ some t) xs
        → (distinct_numbers xs ≡ []) ⊎ (distinct_numbers xs ≡ some t ∷ [])
    cases [] k = inl refl
    cases (o ∷ xs) k = elim (cases xs k.1) [
      | inl e ↦ inr (rw (e, k.0) refl)
      | inr e ↦ inr (rw (e, k.0, eq→== t t refl) refl)
    ]

ne→== : (a b : ℕ) → ¬ a ≡ b → (a == b) ≡ false
ne→== a b ne = ground (arith, ne)

has_duplicates-one :
    (t : ℕ) (results : List BuyResponse)
    → All (λ o. o ≡ some t) (ticket_numbers (successes results))
    → 2 ≤ length (successes results)
    → has_duplicates results ≡ true
unfolding has_duplicates
has_duplicates-one t results h two = ap not (
    ne→== _ _ (
      omega (
        arith,
        two,
        length-map (λ r. r.ticket_number) (successes results),
        distinct_numbers-one t (ticket_numbers (successes results)) h,
      )))

-- For a fresh state of the naive seller with at least one ticket, and more threads than tickets,
-- whatever their requests: if all check before they sell, their responses raise both the alarm of
-- the race test for overselling and that for a broken idempotency; if all read the count before
-- they write it, they are reported to have duplicate ticket numbers.
pub naive_race_raises_alarms :
    (request : ℕ → BuyRequest) (total n : ℕ)
    → 0 < total
    → total < n
    → let checked_first = responses n (run request (check_then_sell n) (start (fresh total))).pc in
      let read_first = responses n (run request (read_then_write n) (start (fresh total))).pc in
      (oversold total checked_first ≡ true)
      × (idempotency_broken checked_first ≡ true)
      × (has_duplicates read_first ≡ true)
unfolding oversold idempotency_broken
naive_race_raises_alarms request total n some_ticket more =
    let sold_ = (check_then_sell_oversells request (fresh total) n (λ i. refl) some_ticket).1 in
    let same = (read_then_write_duplicates request (fresh total) n (λ i. refl) some_ticket).1 in
    (
      lt→ltb _ _ (omega (arith, all-Sold n _ _ sold_, more)),
      lt→ltb _ _ (omega (arith, all-Sold n _ _ sold_, more, some_ticket)),
      has_duplicates-one 1 _ (one_number n _ 1 same)
          (omega (arith, all-Sold n _ (λ _. 1) same, more, some_ticket)),
    )
