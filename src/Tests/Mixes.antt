-- ===== src/Tests/Mixes.antt =====
-- Threads in the three endpoints of seller/main.py, on a store of two tickets.
use ticket_selling_system.Prelude.{
  ℕ, zero, suc, ◌≡◌, refl, true, none, List, [], ◌∷◌, ◌++◌, replicate, string_discrete, ℕ_discrete,
  string_key,
}
use ticket_selling_system.Prelude.Int.{pos}
use ticket_selling_system.Store.{StatusBody, fresh}
use ticket_selling_system.Seller.Invariant.{IsValid, fresh-IsValid}
use ticket_selling_system.Naive
use ticket_selling_system.Naive.Mixed
use ticket_selling_system.Seller.Endpoints
use ticket_selling_system.Seller.Endpoints.{EndpointCall, buying, resetting, reading, open_locked}
use ticket_selling_system.Seller.Endpoints.Serial.{IsSequential, every_mix-IsSequential}
use ticket_selling_system.Seller.Endpoints.Safety.{mixed_never_oversells, mixed_statuses_pass}
use ticket_selling_system.Buyer.{check_invariants}

-- A purchase, a status and a reset.
abbrev mix : ℕ → EndpointCall
mix zero = buying (record { user_id = "ann"; req_id = "r1" })
mix (suc zero) = reading
mix _ = resetting

-- All three knock while the first is in the block; then the status is read, and the shop is reset.
abbrev mixed : List ℕ
mixed = 0 ∷ 1 ∷ 2 ∷ replicate 12 0 ++ (1 ∷ []) ++ (2 ∷ 0 ∷ []) ++ replicate 4 1 ++ replicate 8 2

abbrev after_one : StatusBody
after_one = record {
  total_tickets = 2;
  sold_count = 1;
  remaining_tickets = pos 1;
  ticket_numbers_issued = 1 ∷ [];
  processed_requests = ("r1", 1) ∷ [];
  user_tickets = ("ann", 1 ∷ []) ∷ [];
}

mixed_unlocked : (Endpoints.run mix mixed (open_locked (fresh 2))).lock ≡ none
unfolding Endpoints.run string_discrete ℕ_discrete Naive.advance Mixed.advance_reset
    Endpoints.answer_at Endpoints.advance_point Endpoints.advance_status
mixed_unlocked = refl

every_mix-IsSequential_example :
    IsSequential mix (fresh 2) (Endpoints.run mix mixed (open_locked (fresh 2)))
every_mix-IsSequential_example = every_mix-IsSequential mix (fresh 2) mixed

mixed_never_oversells_example : IsValid (Endpoints.run mix mixed (open_locked (fresh 2))).store
mixed_never_oversells_example =
    mixed_never_oversells mix (fresh 2) mixed (fresh-IsValid 2) mixed_unlocked

mixed_statuses_pass_example : check_invariants after_one [] ≡ true
unfolding Endpoints.run string_discrete ℕ_discrete Naive.advance Mixed.advance_reset
    Endpoints.answer_at Endpoints.advance_point Endpoints.advance_status
mixed_statuses_pass_example =
    mixed_statuses_pass mix (fresh 2) mixed 1 after_one (fresh-IsValid 2) refl
