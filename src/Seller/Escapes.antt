-- ===== src/Seller/Escapes.antt =====
-- `/status` of seller/main.py returns the live dicts of `state`, and FastAPI encodes what a handler returns
-- after the handler, when `buy_lock` is free again. `/reset` puts new dicts into `state`; it is not among
-- the calls in between here.
use ticket_selling_system.Prelude.{
  ◌≡◌, ◌≢◌, sym, ap, ◌∙◌, List, false, Bool-cases, inl, inr, length, length-up_to,
}
use ticket_selling_system.Dict.{values}
use ticket_selling_system.Dict.Laws.{length-values}
use ticket_selling_system.Store.{State, StatusBody, BuyRequest, remaining}
use ticket_selling_system.Seller.{buy_all}
use ticket_selling_system.Seller.Invariant.{IsValid, buy_all-IsValid}
use ticket_selling_system.Buyer.{RequestResult, check_invariants}
use ticket_selling_system.Buyer.Detects.{pass_means}

-- The numbers and the list of the values are of the time of the `return`, the two dicts of that of the encoding.
unfoldable pub encoded_status : State → State → StatusBody
encoded_status returned encoded = record {
  total_tickets = returned.total_tickets;
  sold_count = returned.sold_count;
  remaining_tickets = remaining returned;
  ticket_numbers_issued = values returned.processed_requests;
  processed_requests = encoded.processed_requests;
  user_tickets = encoded.user_tickets;
}

recorded : (s : State) → IsValid s → length s.processed_requests ≡ s.sold_count
recorded s v =
    sym (length-values s.processed_requests)
    ∙ ap length v.consistent.issued
    ∙ length-up_to s.sold_count

-- If calls of /buy on a valid state of the fixed seller come between the return of /status and
-- the encoding of the dicts that it returns, with no /reset among them, and a ticket is sold by
-- them, then the load client that reads the encoded status reports FAIL, whatever results it has.
pub sale_during_status_fails :
    (s : State) (reqs : List BuyRequest) (results : List RequestResult)
    → IsValid s
    → (buy_all reqs s).1.sold_count ≢ s.sold_count
    → check_invariants (encoded_status s (buy_all reqs s).1) results ≡ false
unfolding encoded_status
sale_during_status_fails s reqs results v sold =
    let body = encoded_status s (buy_all reqs s).1 in
    elim (Bool-cases (check_invariants body results)) [
      | inr fails ↦ fails
      | inl passes ↦ absurd (
          sold (
            sym (recorded (buy_all reqs s).1 (buy_all-IsValid reqs s v))
            ∙ sym (pass_means body results passes).3))
    ]
