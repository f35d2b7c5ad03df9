-- ===== src/Seller/Buy.antt =====
-- The three ways in which `buy` ends.
use ticket_selling_system.Prelude.{
  ℕ, ◌+◌, ◌≤◌, ◌<◌, ◌≡◌, none, some, arith, Option-cases, Bool-cases, inl, inr, leb→le, leb,
  string_key,
}
use ticket_selling_system.Dict.{get}
use ticket_selling_system.Store.{
  State, BuyRequest, BuyResponse, already_response, sold_out_response, success_response,
}
use ticket_selling_system.Seller.{sell, buy}

pub data Buys (req : BuyRequest) (s : State) (r : BuyResponse × State) : Type 0 where
  known :
      (t : ℕ)
      → get req.req_id s.processed_requests ≡ some t
      → r ≡ (already_response req (some t) s, s)
      → Buys req s r
  gone :
      get req.req_id s.processed_requests ≡ none
      → s.total_tickets ≤ s.sold_count
      → r ≡ (sold_out_response req, s)
      → Buys req s r
  sold :
      get req.req_id s.processed_requests ≡ none
      → s.sold_count < s.total_tickets
      → r ≡ (success_response req (s.sold_count + 1) (sell req s), sell req s)
      → Buys req s r

pub buy-Buys : (req : BuyRequest) (s : State) → Buys req s (buy req s)
unfolding buy
buy-Buys req s = elim (Option-cases (get req.req_id s.processed_requests)) [
  | inr (t, found) ↦ known t found (ground arith)
  | inl new ↦ elim (Bool-cases (leb s.total_tickets s.sold_count)) [
    | inl full ↦ gone new (leb→le _ _ full) (ground arith)
    | inr room ↦ sold new (ground arith) (ground arith)
  ]
]
