-- ===== src/Buyer/Client/Once.antt =====
-- `fire_one` of buyer/load_client.py beside that of buyer/load_client_async.py.
use ticket_selling_system.Prelude.{◌≡◌, refl, Option, none, some}
use ticket_selling_system.Store.{BuyRequest}
use ticket_selling_system.Buyer.Client.{
  Reply, body, not_json, HttpSeller, Delivery, trying, finished, after_reply, result_or_error, post,
  attempt, fire_one,
}

module _ (seller : HttpSeller) where
  -- What a task does that has had its last attempt.
  ends :
      (d : Delivery) (v : seller.Env) (req : BuyRequest) (o : Option Reply) (s : seller.State)
      → attempt seller d v req (after_reply req 0 o) s ≡ (finished (result_or_error req o), s)
  unfolding attempt
  ends d v req none s = refl
  ends d v req (some not_json) s = refl
  ends d v req (some (body status ticket)) s = refl

  -- Against any seller, a task with one attempt left and any turn after it come to the result and
  -- to the seller's state of the one attempt that `fire_one` of load_client.py makes.
  pub one_attempt_is_fire_one :
      (d d' : Delivery) (v v' : seller.Env) (req : BuyRequest) (s : seller.State)
      → let (a, s') = attempt seller d v req (trying 1) s in
        let (r, t) = fire_one seller d v req s in attempt seller d' v' req a s' ≡ (finished r, t)
  unfolding attempt fire_one
  one_attempt_is_fire_one d d' v v' req s =
      ends d' v' req (post seller d v req s).0 (post seller d v req s).1
