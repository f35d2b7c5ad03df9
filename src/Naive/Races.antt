-- ===== src/Naive/Races.antt =====
-- The races that naive/main.py is written to show, for any number of threads.
use ticket_selling_system.Prelude.{
  ℕ, ◌+◌, ◌≡◌, ◌<◌, refl, none, some, List, ◌++◌, arith, string_key, false,
}
use ticket_selling_system.Dict.{get}
use ticket_selling_system.Store.{State, BuyRequest, BuyResponse, success, success_response}
use ticket_selling_system.Seller.{sell}
use ticket_selling_system.Naive.{Pc, entered, counted, loaded, done, start, run, advance}
use ticket_selling_system.Naive.Alone.{iterate}
use ticket_selling_system.Naive.Turns.{rounds, run-append, Round, rounds-Round}

-- The thread was told `success`, with this ticket.
abbrev pub Sold : ℕ → Pc → Type 0
Sold ticket p =
    (r : BuyResponse) × (p ≡ done r) × (r.status ≡ success) × (r.ticket_number ≡ some ticket)

three_steps :
    (req : BuyRequest) (s : State)
    → get req.req_id s.processed_requests ≡ none
    → s.sold_count < s.total_tickets
    → iterate 3 req entered s ≡ (counted false, s)
unfolding iterate advance
three_steps req s new room = ground arith

-- From its check on, a thread sells, whatever the count is by then.
six_steps :
    (req : BuyRequest) (s : State)
    → iterate 6 req (counted false) s
      ≡ (done (success_response req (s.sold_count + 1) (sell req s)), sell req s)
unfolding iterate advance sell
six_steps req s = refl

Sold-step :
    (req : BuyRequest) (s : State) (n : ℕ)
    → s.sold_count ≡ n
    → ((iterate 6 req (counted false) s).1.sold_count ≡ n + 1)
      × Sold (n + 1) (iterate 6 req (counted false) s).0
unfolding sell
Sold-step req s n e = rw (six_steps req s) (omega arith, (_, refl, refl, rw e))

four_steps :
    (req : BuyRequest) (s : State)
    → get req.req_id s.processed_requests ≡ none
    → s.sold_count < s.total_tickets
    → iterate 4 req entered s ≡ (loaded s.sold_count, s)
unfolding iterate advance
four_steps req s new room = ground arith

-- From its read of the count on, a thread writes that count plus one.
five_steps :
    (req : BuyRequest) (s : State) (n : ℕ)
    → (Sold (n + 1) (iterate 5 req (loaded n) s).0)
      × ((iterate 5 req (loaded n) s).1.sold_count ≡ n + 1)
unfolding iterate advance
five_steps req s n = ((_, refl, refl, refl), refl)

-- Each of the threads checks, and then each of them sells.
abbrev pub check_then_sell : ℕ → List ℕ
check_then_sell n = rounds 3 n ++ rounds 6 n

-- Each of the threads reads the count, and then each of them writes it.
abbrev pub read_then_write : ℕ → List ℕ
read_then_write n = rounds 4 n ++ rounds 5 n

module _ (request : ℕ → BuyRequest) (s : State) where
  -- `k` turns take each thread from the start to `p` and write nothing.
  Round-of_checks :
      (p : Pc) (k n : ℕ)
      → ((i : ℕ) → iterate k (request i) entered s ≡ (p, s))
      → Round request (λ i t. t ≡ s) (λ i q. q ≡ p) entered n n (run request (rounds k n) (start s))
  Round-of_checks p k n quiet =
      rounds-Round request (λ i t. t ≡ s) (λ i q. q ≡ p) entered k n n (start s)
        (λ i t e. rw (e, quiet i) (refl, refl)) refl (λ j h. refl) (omega arith)

  -- In every state of the naive seller with a ticket left, for n threads whose req_ids are not
  -- recorded, there is a schedule (all check, then each sells) after which all n were told
  -- success, with the next n ticket numbers, and the count has grown by n.
  pub check_then_sell_oversells :
      (n : ℕ)
      → ((i : ℕ) → get (request i).req_id s.processed_requests ≡ none)
      → s.sold_count < s.total_tickets
      → let y = run request (check_then_sell n) (start s) in
        (y.store.sold_count ≡ s.sold_count + n)
        × ((j : ℕ) → j < n → Sold (s.sold_count + j + 1) (y.pc j))
  check_then_sell_oversells n unseen room =
      rw (run-append request (rounds 3 n) (rounds 6 n) (start s)) (sold.store, sold.moved)
    where
      checks :
          Round request
            (λ i t. t ≡ s)
            (λ i q. q ≡ counted false)
            entered
            n
            n
            (run request (rounds 3 n) (start s))
      checks = Round-of_checks (counted false) 3 n (λ i. three_steps (request i) s (unseen i) room)

      sold :
          Round request
            (λ i t. t.sold_count ≡ s.sold_count + i)
            (λ i q. Sold (s.sold_count + i + 1) q)
            (counted false)
            n
            n
            (run request (rounds 6 n) (run request (rounds 3 n) (start s)))
      sold =
          rounds-Round request _ _ (counted false) 6 n n _
            (λ i t e.
              let w = Sold-step (request i) t (s.sold_count + i) e in (omega (arith, w.0), w.1))
            (rw checks.store (omega arith)) checks.moved (omega arith)

  -- In every state of the naive seller with a ticket left, for n threads whose req_ids are not
  -- recorded, there is a schedule (all read the count, then each writes it) after which all n
  -- were told success with one and the same ticket number, and, if there is a thread at all,
  -- the count has grown by one.
  pub read_then_write_duplicates :
      (n : ℕ)
      → ((i : ℕ) → get (request i).req_id s.processed_requests ≡ none)
      → s.sold_count < s.total_tickets
      → let y = run request (read_then_write n) (start s) in
        (0 < n → y.store.sold_count ≡ s.sold_count + 1)
        × ((j : ℕ) → j < n → Sold (s.sold_count + 1) (y.pc j))
  read_then_write_duplicates n unseen room =
      rw (run-append request (rounds 4 n) (rounds 5 n) (start s))
        ((λ h. written.store h), written.moved)
    where
      reads :
          Round request
            (λ i t. t ≡ s)
            (λ i q. q ≡ loaded s.sold_count)
            entered
            n
            n
            (run request (rounds 4 n) (start s))
      reads =
          Round-of_checks (loaded s.sold_count) 4 n (λ i. four_steps (request i) s (unseen i) room)

      written :
          Round request
            (λ i t. 0 < i → t.sold_count ≡ s.sold_count + 1)
            (λ i q. Sold (s.sold_count + 1) q)
            (loaded s.sold_count)
            n
            n
            (run request (rounds 5 n) (run request (rounds 4 n) (start s)))
      written =
          rounds-Round request _ _ (loaded s.sold_count) 5 n n _
            (λ i t e. let w = five_steps (request i) t s.sold_count in ((λ h. w.1), w.0))
            (λ h. elim h [ ]) reads.moved (omega arith)
