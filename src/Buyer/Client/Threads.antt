-- ===== src/Buyer/Client/Threads.antt =====
-- buyer/load_client.py: `run_load` and `main`, with one attempt for each entry of the plan. The thread pool is
-- a list of calls of `fire_one`, in the order in which they reach the seller; the results are in this
-- order too, which no check depends on.
use ticket_selling_system.Prelude.{
  ℕ, ◌≡◌, refl, ap, ◌⊎◌, inl, inr, String, Bool, true, false, Option, none, some, List, [], ◌∷◌,
  All, if◌then◌else◌, none_eq_some,
}
use ticket_selling_system.Store.{BuyRequest}
use ticket_selling_system.Buyer.{BodyStatus, RequestResult, check_invariants}
use ticket_selling_system.Buyer.Client.{
  Reply, body, not_json, BackedBy, HttpSeller, Delivery, lost_request, lost_answer, answered,
  result_or_error, post, fire_one, Turn,
}
use ticket_selling_system.Buyer.Client.Passes.{post-IsGood, post-keeps}

module _ (seller : HttpSeller) where
  open seller use {
    State, Env, buy, reset, status, IsReady, IsCalm, IsGood, IsAsked, record_of, buy-record,
    ready-IsGood, reset-IsGood, status_passes,
  }

  module _ (plan : ℕ → BuyRequest) where
    unfoldable pub run_load : List (Turn seller) → State → List RequestResult × State
    unfolding fire_one
    run_load [] s = ([], s)
    run_load (u ∷ us) s =
        let (r, s') = fire_one seller u.delivery u.env (plan u.who) s in
        let (rs, s'') = run_load us s' in (r ∷ rs, s'')

  -- `main` of load_client.py, with its exit code.
  unfoldable pub threads_main : (ℕ → BuyRequest) → Bool → Env → List (Turn seller) → State → ℕ
  unfolding run_load
  threads_main plan no_reset v us s =
      let s' = if no_reset then s else reset v s in
      let (results, s'') = run_load plan us s' in
      if check_invariants (status s'') results then 0 else 1

  -- A result of a request that may be sent, backed by the records.
  abbrev IsKnown : State → RequestResult → Type 0
  IsKnown s r = ((r.ticket_number ≡ none) ⊎ IsAsked r.req_id) × BackedBy (record_of s) r

  reply-IsKnown :
      (req : BuyRequest) (s : State) (o : Reply)
      → IsAsked req.req_id
      → ((b : Option BodyStatus) (t : ℕ) → o ≡ body b (some t) → record_of s req.req_id ≡ some t)
      → IsKnown s (result_or_error req (some o))
  reply-IsKnown req s not_json asked h = (inl refl, λ t e. none_eq_some e)
  reply-IsKnown req s (body b ticket) asked h = (inr asked, λ t e. h b t (ap (body b) e))

  fire_one-IsKnown :
      (d : Delivery) (v : Env) (req : BuyRequest) (s : State)
      → IsGood s
      → IsAsked req.req_id
      → let (r, s') = fire_one seller d v req s in IsKnown s' r
  unfolding fire_one
  fire_one-IsKnown lost_request v req s g asked = (inl refl, λ t e. none_eq_some e)
  fire_one-IsKnown lost_answer v req s g asked = (inl refl, λ t e. none_eq_some e)
  fire_one-IsKnown answered v req s g asked =
      reply-IsKnown req (buy v req s).1 (buy v req s).0 asked
        (λ b t e. buy-record v req s b t g asked e)

  -- What a load leaves: a good state, the records of before, and results that are known.
  record Loaded (s : State) (o : List RequestResult × State) : Type 0 where
    good : IsGood o.1
    keeps : (id : String) (t : ℕ) → record_of s id ≡ some t → record_of o.1 id ≡ some t
    asked : All (λ r. (r.ticket_number ≡ none) ⊎ IsAsked r.req_id) o.0
    backed : All (BackedBy (record_of o.1)) o.0

  run_load-Loaded :
      (plan : ℕ → BuyRequest) (us : List (Turn seller)) (s : State)
      → ((i : ℕ) → IsAsked (plan i).req_id)
      → IsGood s
      → Loaded s (run_load plan us s)
  unfolding run_load fire_one
  run_load-Loaded plan [] s all_asked g = record {
    good = g;
    keeps = λ id t h. h;
    asked = tt;
    backed = tt;
  }
  run_load-Loaded plan (u ∷ us) s all_asked g =
      let req = plan u.who in
      let s' = (post seller u.delivery u.env req s).1 in
      let known = fire_one-IsKnown u.delivery u.env req s g (all_asked u.who) in
      let rest =
        run_load-Loaded plan us s' all_asked (post-IsGood seller u.delivery u.env req s g) in
      record {
        good = rest.good;
        keeps = λ id t h. rest.keeps id t (post-keeps seller u.delivery u.env req s id t g h);
        asked = (known.0, rest.asked);
        backed = ((λ t e. rest.keeps _ t (known.1 t e)), rest.backed);
      }

  pub threads_main_exits_zero :
      (plan : ℕ → BuyRequest) (no_reset : Bool) (v : Env) (us : List (Turn seller)) (s : State)
      → ((i : ℕ) → IsAsked (plan i).req_id)
      → IsCalm v
      → IsReady s
      → threads_main plan no_reset v us s ≡ 0
  unfolding threads_main
  threads_main_exits_zero plan no_reset v us s all_asked calm ready =
      let l =
        run_load-Loaded plan us (if no_reset then s else reset v s) all_asked (begins no_reset) in
      rw (status_passes _ _ l.good l.asked l.backed)
    where
      begins : (b : Bool) → IsGood (if b then s else reset v s)
      begins true = ready-IsGood s ready
      begins false = reset-IsGood v s calm ready
