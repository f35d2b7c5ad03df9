-- ===== src/Seller/Invariant.antt =====
-- The books of the store of seller/main.py, and its endpoints.
use ticket_selling_system.Prelude.{
  ℕ, ◌+◌, ◌≤◌, ◌≡◌, refl, List, [], ◌∷◌, none, arith, count, up_to, up_to-add_one, length,
  string_key, count-append, ap, ◌∙◌,
}
use ticket_selling_system.Dict.{values, get, joined}
use ticket_selling_system.Seller.Buy.{Buys, known, gone, sold, buy-Buys}
use ticket_selling_system.Dict.Laws.{values-insert_new, count-append_to, length-append_to}
use ticket_selling_system.Store.{State, BuyResponse, BuyRequest, fresh}
use ticket_selling_system.Seller.{sell, buy, reset, buy_all, default_total_tickets}

pub record IsConsistent (s : State) : Type 0 where
  -- The tickets recorded for the requests are 1, 2, …, sold_count, in the order of their sale.
  pub issued : values s.processed_requests ≡ up_to s.sold_count
  -- The users' lists together hold exactly these tickets, each as often.
  pub held : (t : ℕ) → count t (joined s.user_tickets) ≡ count t (up_to s.sold_count)
  pub held_total : length (joined s.user_tickets) ≡ s.sold_count

pub record IsValid (s : State) : Type 0 where
  pub consistent : IsConsistent s
  pub not_oversold : s.sold_count ≤ s.total_tickets

pub sell-IsConsistent :
    (req : BuyRequest) (s : State)
    → get req.req_id s.processed_requests ≡ none
    → IsConsistent s
    → IsConsistent (sell req s)
unfolding sell
sell-IsConsistent req s new c = record {
  issued =
      values-insert_new req.req_id (s.sold_count + 1) s.processed_requests new
      ∙ rw (c.issued, up_to-add_one s.sold_count);
  held = λ t. omega (
    arith,
    count-append_to t req.user_id (s.sold_count + 1) s.user_tickets,
    c.held t,
    ap (count t) (up_to-add_one s.sold_count),
    count-append t (up_to s.sold_count) ((s.sold_count + 1) ∷ []),
  );
  held_total =
      omega (arith, length-append_to req.user_id (s.sold_count + 1) s.user_tickets, c.held_total);
}

pub Buys-IsConsistent :
    (req : BuyRequest) (s : State) {r : BuyResponse × State}
    → Buys req s r
    → IsConsistent s
    → IsConsistent r.1
Buys-IsConsistent req s (known t found e) c = rw e c
Buys-IsConsistent req s (gone new full e) c = rw e c
Buys-IsConsistent req s (sold new room e) c = rw e (sell-IsConsistent req s new c)

pub buy-IsValid : (req : BuyRequest) (s : State) → IsValid s → IsValid (buy req s).1
buy-IsValid req s v = record {
  consistent = Buys-IsConsistent req s (buy-Buys req s) v.consistent;
  not_oversold = bounded (buy-Buys req s);
}
  where
    bounded : {r : BuyResponse × State} → Buys req s r → r.1.sold_count ≤ r.1.total_tickets
    bounded (known t found e) = rw e v.not_oversold
    bounded (gone new full e) = rw e v.not_oversold
    bounded (sold new room e) = rw e (unfold sell in omega arith)

-- Every run of /buy calls keeps the books of a valid state consistent and not oversold.
pub buy_all-IsValid : (reqs : List BuyRequest) (s : State) → IsValid s → IsValid (buy_all reqs s).1
unfolding buy_all
buy_all-IsValid [] s v = v
buy_all-IsValid (req ∷ reqs) s v = buy_all-IsValid reqs (buy req s).1 (buy-IsValid req s v)

pub fresh-IsValid : (total : ℕ) → IsValid (fresh total)
fresh-IsValid total = record {
  consistent = record { issued = refl; held = λ t. refl; held_total = refl };
  not_oversold = omega arith;
}

pub reset-eq-fresh : (s : State) → (reset s).1 ≡ fresh default_total_tickets
unfolding reset
reset-eq-fresh s = refl

pub reset-IsValid : (s : State) → IsValid (reset s).1
reset-IsValid s = rw (reset-eq-fresh s) (fresh-IsValid default_total_tickets)
