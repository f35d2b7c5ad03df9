-- ===== src/Seller/Demand.antt =====
-- How many tickets a run of `/buy` sells: one for each new req_id, until they are gone.
use ticket_selling_system.Prelude.{
  ℕ, suc, ◌+◌, ◌≤◌, ◌≡◌, refl, ◌∙◌, List, [], ◌∷◌, arith, min, Bool, true, false, ite,
  string_discrete, String, map, string_key, if◌then◌else◌,
}
use ticket_selling_system.Dict.{contains}
use ticket_selling_system.Dict.Laws.{contains_of_none, contains_of_some, get-insert}
use ticket_selling_system.Store.{State, BuyRequest, BuyResponse, fresh}
use ticket_selling_system.Seller.{sell, buy, buy_all}
use ticket_selling_system.Seller.Buy.{Buys, known, gone, sold, buy-Buys}

-- Independent of the dict: membership in a list, and the number of ids not met before.
abbrev pub met : String → List String → Bool
met id [] = false
met id (x ∷ xs) = ite (string_discrete x id) true (met id xs)

abbrev pub new_ids : List String → List String → ℕ
new_ids seen [] = 0
new_ids seen (x ∷ xs) =
    let again = new_ids seen xs in
    let first = suc (new_ids (x ∷ seen) xs) in if met x seen then again else first

-- The number of distinct ids in a list.
abbrev pub distinct : List String → ℕ
distinct = new_ids []

again :
    (x : String) (seen xs : List String)
    → met x seen ≡ true
    → new_ids seen (x ∷ xs) ≡ new_ids seen xs
again x seen xs h = rw h

first :
    (x : String) (seen xs : List String)
    → met x seen ≡ false
    → new_ids seen (x ∷ xs) ≡ suc (new_ids (x ∷ seen) xs)
first x seen xs h = rw h

abbrev pub ids : List BuyRequest → List String
ids = map (λ req. req.req_id)

-- Once the tickets are gone, no call sells one.
buy_all_full :
    (reqs : List BuyRequest) (s : State)
    → s.total_tickets ≤ s.sold_count
    → (buy_all reqs s).1.sold_count ≡ s.sold_count
unfolding buy_all
buy_all_full [] s full = refl
buy_all_full (req ∷ reqs) s full = keeps (buy-Buys req s) (buy_all_full reqs (buy req s).1)
  where
    keeps :
        {r : BuyResponse × State}
        → Buys req s r
        → (r.1.total_tickets ≤ r.1.sold_count → (buy_all reqs r.1).1.sold_count ≡ r.1.sold_count)
        → (buy_all reqs r.1).1.sold_count ≡ s.sold_count
    keeps (known t found e) rest = rw e (rw e at rest full)
    keeps (gone new _ e) rest = rw e (rw e at rest full)
    keeps (sold new room e) rest = absurd (omega arith)

abbrev Agree : List String → State → Type 0
Agree seen s = (id : String) → met id seen ≡ contains id s.processed_requests

buy_all-sold_count :
    (reqs : List BuyRequest) (s : State) (seen : List String)
    → Agree seen s
    → s.sold_count ≤ s.total_tickets
    → (buy_all reqs s).1.sold_count ≡ min s.total_tickets (s.sold_count + new_ids seen (ids reqs))
unfolding buy_all sell
buy_all-sold_count [] s seen agree h = omega arith
buy_all-sold_count (req ∷ reqs) s seen agree h =
    step (buy-Buys req s) (buy_all-sold_count reqs (buy req s).1) (buy_all_full reqs (buy req s).1)
  where
    step :
        {r : BuyResponse × State}
        → Buys req s r
        → ((seen' : List String)
            → Agree seen' r.1
            → r.1.sold_count ≤ r.1.total_tickets
            → (buy_all reqs r.1).1.sold_count
              ≡ min r.1.total_tickets (r.1.sold_count + new_ids seen' (ids reqs)))
        → (r.1.total_tickets ≤ r.1.sold_count → (buy_all reqs r.1).1.sold_count ≡ r.1.sold_count)
        → (buy_all reqs r.1).1.sold_count
          ≡ min s.total_tickets (s.sold_count + new_ids seen (ids (req ∷ reqs)))
    step (known t found e) rest _ = rw e (
        omega (
          arith,
          again req.req_id seen (ids reqs)
              (agree req.req_id ∙ contains_of_some req.req_id t s.processed_requests found),
          (rw e at rest) seen agree h,
        ))
    step (gone new full e) _ rest = rw e (omega (arith, (rw e at rest) full))
    step (sold new room e) rest _ = rw e (
        omega (
          arith,
          first req.req_id seen (ids reqs)
              (agree req.req_id ∙ contains_of_none req.req_id s.processed_requests new),
          (rw e at rest) (req.req_id ∷ seen)
              (λ id.
                ground (
                  arith,
                  agree id,
                  get-insert req.req_id id (s.sold_count + 1) s.processed_requests,
                ))
              (omega arith),
        ))

-- Starting from 0 sold, a run of /buy calls sells exactly the number of distinct req_ids among
-- them, or all the tickets if that is fewer.
pub sells_the_demand :
    (total : ℕ) (reqs : List BuyRequest)
    → (buy_all reqs (fresh total)).1.sold_count ≡ min total (distinct (ids reqs))
sells_the_demand total reqs =
    omega (arith, buy_all-sold_count reqs (fresh total) [] (λ id. refl) (omega arith))
