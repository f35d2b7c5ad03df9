-- ===== src/Buyer/Detects.antt =====
-- What a PASS of `check_invariants` means, and `check_invariants` on the races of the naive seller.
use ticket_selling_system.Prelude.{
  ℕ, ◌+◌, ◌≤◌, ◌<◌, ◌≡◌, refl, true, false, none, List, [], ◌∷◌, length, count, arith, string_key,
  Bool-cases, inl, inr, and_true, ==→eq,
}
use ticket_selling_system.Dict.{get, joined}
use ticket_selling_system.Store.{State, StatusBody, BuyRequest}
use ticket_selling_system.Buyer.{
  RequestResult, member, to_set, inv1_pass, inv2_pass, inv3_pass, inv4_pass, check_invariants,
}
use ticket_selling_system.Buyer.Records.{member-to_set, user_ticket_total-length}
use ticket_selling_system.Naive
use ticket_selling_system.Naive.{System, start, run}
use ticket_selling_system.Naive.Turns.{run-total}
use ticket_selling_system.Naive.Races.{check_then_sell, check_then_sell_oversells}

to_set-le : (xs : List ℕ) → length (to_set xs) ≤ length xs
to_set-le [] = omega arith
to_set-le (x ∷ xs) = ground (arith, to_set-le xs)

not_member-count : (x : ℕ) (xs : List ℕ) → member x xs ≡ false → count x xs ≡ 0
not_member-count x [] h = refl
not_member-count x (y ∷ ys) h = ground (arith, not_member-count x ys)

-- A list as long as its set holds no number twice.
to_set-count : (xs : List ℕ) → length xs ≡ length (to_set xs) → (x : ℕ) → count x xs ≤ 1
to_set-count [] h x = omega arith
to_set-count (y ∷ ys) h x = ground (
  arith,
  to_set-le ys,
  member-to_set y ys,
  not_member-count y ys,
  to_set-count ys,
  λ (e : length ys ≡ length (to_set ys)). to_set-count ys e x,
)

module _ (b : StatusBody) where
  sold_le : inv1_pass b ≡ true → b.sold_count ≤ b.total_tickets
  unfolding inv1_pass
  sold_le h = ground arith

  issued_le : inv1_pass b ≡ true → length b.ticket_numbers_issued ≤ b.total_tickets
  unfolding inv1_pass
  issued_le h = ground arith

  recorded : inv4_pass b ≡ true → b.sold_count ≡ length b.processed_requests
  unfolding inv4_pass
  recorded h = ground arith

  held : inv4_pass b ≡ true → b.sold_count ≡ length (joined b.user_tickets)
  unfolding inv4_pass
  held h = ground (arith, user_ticket_total-length b.user_tickets)

-- If the load client reports PASS, no more tickets are sold or issued than there are, no ticket
-- number is issued twice, and the number sold is that of the recorded requests and that of the
-- tickets that the users hold.
pub pass_means :
    (b : StatusBody) (results : List RequestResult)
    → check_invariants b results ≡ true
    → (b.sold_count ≤ b.total_tickets)
      × (length b.ticket_numbers_issued ≤ b.total_tickets)
      × ((t : ℕ) → count t b.ticket_numbers_issued ≤ 1)
      × (b.sold_count ≡ length b.processed_requests)
      × (b.sold_count ≡ length (joined b.user_tickets))
unfolding check_invariants inv2_pass
pass_means b results h =
    let (one, rest) = and_true (inv1_pass b) _ h in
    let (two, rest') = and_true (inv2_pass b) _ rest in
    let (three, four) = and_true (inv3_pass b results) _ rest' in
    (sold_le b one, issued_le b one, to_set-count _ (==→eq _ _ two), recorded b four, held b four)

-- If more threads than there are tickets left all check before they sell, with req_ids that are
-- not recorded, the load client reports FAIL on the naive seller, whatever results it has.
pub naive_race_fails :
    (request : ℕ → BuyRequest) (s : State) (n : ℕ) (results : List RequestResult)
    → ((i : ℕ) → get (request i).req_id s.processed_requests ≡ none)
    → s.sold_count < s.total_tickets
    → s.total_tickets < s.sold_count + n
    → check_invariants (Naive.status (run request (check_then_sell n) (start s)).store) results
      ≡ false
unfolding Naive.status
naive_race_fails request s n results unseen room over =
    elim (Bool-cases (check_invariants (Naive.status y.store) results)) [
      | inr fails ↦ fails
      | inl passes ↦ absurd (
          omega (
            arith,
            (pass_means (Naive.status y.store) results passes).0,
            (check_then_sell_oversells request s n unseen room).0,
            run-total request (check_then_sell n) (start s),
          ))
    ]
  where
    y : System
    y = run request (check_then_sell n) (start s)
