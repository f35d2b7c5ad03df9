-- ===== src/Naive/Resets.antt =====
-- `/reset` of naive/main.py takes no lock: what it does to a purchase under way.
use ticket_selling_system.Prelude.{
  ℕ, ◌+◌, ◌<◌, ◌≡◌, refl, none, String, List, [], ◌∷◌, arith, string_key, false, Bool-cases, inl,
  inr, ap, length,
}
use ticket_selling_system.Dict.{get}
use ticket_selling_system.Store.{State, BuyRequest, success_response, StatusBody}
use ticket_selling_system.Buyer.{RequestResult, check_invariants}
use ticket_selling_system.Buyer.Detects.{pass_means}
use ticket_selling_system.Naive.{entered, stored, done, advance, reset, status}
use ticket_selling_system.Naive.Alone.{iterate}

five_steps :
    (req : BuyRequest) (s : State)
    → get req.req_id s.processed_requests ≡ none
    → s.sold_count < s.total_tickets
    → iterate 5 req entered s ≡ (stored, record s { sold_count = s.sold_count + 1 })
unfolding iterate advance
five_steps req s new room = ground arith

-- A status with a recorded request and none counted as sold.
uncounted_fails :
    (body : StatusBody) (results : List RequestResult) (x : String × ℕ)
    → body.sold_count ≡ 0
    → body.processed_requests ≡ x ∷ []
    → check_invariants body results ≡ false
uncounted_fails body results x none_sold one = elim (Bool-cases (check_invariants body results)) [
  | inr fails ↦ fails
  | inl passes ↦
      absurd (omega (arith, (pass_means body results passes).3, none_sold, ap length one))
]

-- If, in a state of the naive seller with a ticket left, a new request has run to its write of
-- the count, and then /reset runs, and then the rest of the request, then it is told success with
-- the ticket 0, which is recorded and in its user's list, while no ticket is counted as sold; and
-- the load client that reads the status reports FAIL, whatever results it has.
pub reset_race_sells_zero :
    (req : BuyRequest) (s : State) (results : List RequestResult)
    → get req.req_id s.processed_requests ≡ none
    → s.sold_count < s.total_tickets
    → let (p, between) = iterate 5 req entered s in
      let (q, after) = iterate 4 req p (reset between).1 in
      (q ≡ done (success_response req 0 after))
      × (after.sold_count ≡ 0)
      × (after.processed_requests ≡ (req.req_id, 0) ∷ [])
      × (after.user_tickets ≡ (req.user_id, 0 ∷ []) ∷ [])
      × (check_invariants (status after) results ≡ false)
unfolding reset iterate advance status
reset_race_sells_zero req s results new room =
    rw (five_steps req s new room) (refl, refl, refl, refl, uncounted_fails _ results _ refl refl)
