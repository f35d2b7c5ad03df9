-- ===== src/Db/Quiet.antt =====
-- `get_status` of distributed/app/db.py when no purchase commits between its two SELECTs.
use ticket_selling_system.Prelude.{
  ℕ, zero, suc, ◌+◌, ◌≤◌, ◌≡◌, ◌≢◌, refl, sym, ap, subst, ◌∙◌, String, none, some, List, [], ◌∷◌,
  ◌++◌, arith, Key, string_key, up_to, count, All, All-append, All-mono, up_to_bounds, Ascends,
  append-nil, append_assoc,
}
use ticket_selling_system.Dict.{get, values, joined}
use ticket_selling_system.Dict.Laws.{
  values-insert_new, get-insert_self, get-insert_ne, count-append_to,
}
use ticket_selling_system.Store.{State}
use ticket_selling_system.Seller.{status}
use ticket_selling_system.Seller.Invariant
use ticket_selling_system.Db.{Row, Tables, find_ticket}
use ticket_selling_system.Db.Valid.{tickets, IsValid}
use ticket_selling_system.Db.Snapshot.{
  Collected, nothing, insert_row, order_by_ticket, collect_row, collect, get_status,
}
use ticket_selling_system.Db.Torn.{collect-held, rows_of_valid}
use ticket_selling_system.Db.Keyed.{HasNot, HasKeys, IsKeyed}

Ascends-append : (ns : List ℕ) (m : ℕ) → All (λ n. n ≤ m) ns → Ascends ns → Ascends (ns ++ m ∷ [])
Ascends-append [] m h a = (tt, tt)
Ascends-append (n ∷ ns) m h a =
    (All-append _ ns (m ∷ []) a.0 (h.0, tt), Ascends-append ns m h.1 a.1)

up_to-Ascends : (n : ℕ) → Ascends (up_to n)
up_to-Ascends zero = tt
up_to-Ascends (suc n) =
    Ascends-append (up_to n) (suc n) (All-mono (up_to n) (λ a h. omega arith) (up_to_bounds n))
      (up_to-Ascends n)

insert_row_first :
    {U : Type 0} (r : Row U) (qs : List (Row U))
    → All (λ m. r.ticket_number ≤ m) (tickets qs)
    → insert_row r qs ≡ r ∷ qs
insert_row_first r [] h = refl
insert_row_first r (q ∷ qs) h = ground arith

-- Rows in order stay as they are.
order_by_ticket-Ascends :
    {U : Type 0} (rs : List (Row U)) → Ascends (tickets rs) → order_by_ticket rs ≡ rs
order_by_ticket-Ascends [] a = refl
order_by_ticket-Ascends (r ∷ rs) a =
    ap (insert_row r) (order_by_ticket-Ascends rs a.1) ∙ insert_row_first r rs a.0

module _ {Uuid : Type 0} ⦃key : Key Uuid⦄ (show : Uuid → String)
    (apart : (a b : Uuid) → show a ≡ show b → a ≡ b) where
  -- None of the rows is collected yet.
  abbrev AllNew : List (Row Uuid) → Collected → Type 0
  AllNew rs c = All (λ r. get (show r.req_id) c.processed_requests ≡ none) rs

  AllNew-collect_row :
      (r : Row Uuid) (rs : List (Row Uuid)) (c : Collected)
      → HasNot r.req_id rs
      → AllNew rs c
      → AllNew rs (collect_row show r c)
  AllNew-collect_row r [] c h a = tt
  AllNew-collect_row r (q ∷ rs) c h a = (
    get-insert_ne (show r.req_id) (show q.req_id) r.ticket_number c.processed_requests
          (λ e. h.0 (apart q.req_id r.req_id (sym e)))
        ∙ a.0,
    AllNew-collect_row r rs c h.1 a.1,
  )

  collect-values :
      (rs : List (Row Uuid)) (c : Collected)
      → HasKeys rs
      → AllNew rs c
      → values (collect show rs c).processed_requests ≡ values c.processed_requests ++ tickets rs
  unfolding collect
  collect-values [] c k a = sym (append-nil (values c.processed_requests))
  collect-values (r ∷ rs) c k a =
      collect-values rs (collect_row show r c) k.1 (AllNew-collect_row r rs c k.0 a.1)
      ∙ ap (λ vs. vs ++ tickets rs)
          (values-insert_new (show r.req_id) r.ticket_number c.processed_requests a.0)
      ∙ append_assoc (values c.processed_requests) (r.ticket_number ∷ []) (tickets rs)

  collect-issued :
      (rs : List (Row Uuid)) (c : Collected)
      → (collect show rs c).ticket_numbers_issued ≡ c.ticket_numbers_issued ++ tickets rs
  unfolding collect
  collect-issued [] c = sym (append-nil c.ticket_numbers_issued)
  collect-issued (r ∷ rs) c =
      collect-issued rs (collect_row show r c)
      ∙ append_assoc c.ticket_numbers_issued (r.ticket_number ∷ []) (tickets rs)

  collect-count :
      (n : ℕ) (rs : List (Row Uuid)) (c : Collected)
      → count n (joined (collect show rs c).user_tickets)
        ≡ count n (joined c.user_tickets) + count n (tickets rs)
  unfolding collect
  collect-count n [] c = omega arith
  collect-count n (r ∷ rs) c = omega (
    arith,
    collect-count n rs (collect_row show r c),
    count-append_to n r.user_id r.ticket_number c.user_tickets,
  )

  -- A request that is none of the rows' keeps its entry.
  collect-get_other :
      (id : Uuid) (rs : List (Row Uuid)) (c : Collected)
      → HasNot id rs
      → get (show id) (collect show rs c).processed_requests ≡ get (show id) c.processed_requests
  unfolding collect
  collect-get_other id [] c h = refl
  collect-get_other id (r ∷ rs) c h =
      collect-get_other id rs (collect_row show r c) h.1
      ∙ get-insert_ne (show r.req_id) (show id) r.ticket_number c.processed_requests
          (λ e. h.0 (apart r.req_id id e))

  pub find_ticket_first :
      (id : Uuid) (r : Row Uuid) (rs : List (Row Uuid))
      → r.req_id ≡ id
      → find_ticket id (r ∷ rs) ≡ some r.ticket_number
  find_ticket_first id r rs same = ground arith

  pub find_ticket_later :
      (id : Uuid) (r : Row Uuid) (rs : List (Row Uuid))
      → r.req_id ≢ id
      → find_ticket id (r ∷ rs) ≡ find_ticket id rs
  find_ticket_later id r rs ne = ground arith

  collect-get :
      (id : Uuid) (n : ℕ) (rs : List (Row Uuid)) (c : Collected)
      → HasKeys rs
      → find_ticket id rs ≡ some n
      → get (show id) (collect show rs c).processed_requests ≡ some n
  unfolding collect
  collect-get id n [] c k e = cc
  collect-get id n (r ∷ rs) c k e = elim (key.same r.req_id id) [
    | yes same ↦
        collect-get_other id rs (collect_row show r c) (subst (λ j. HasNot j rs) same k.0)
        ∙ ap (λ j. get (show j) (collect_row show r c).processed_requests) (sym same)
        ∙ get-insert_self (show r.req_id) r.ticket_number c.processed_requests
        ∙ sym (find_ticket_first id r rs same)
        ∙ e
    | no ne ↦
        collect-get id n rs (collect_row show r c) k.1 (sym (find_ticket_later id r rs ne) ∙ e)
  ]

  -- The store that the in-memory seller would have.
  abbrev pub store_of : Tables Uuid → State
  store_of t =
      let c = collect show t.sold_tickets nothing in
      record {
        total_tickets = t.total_tickets;
        sold_count = t.sold_count;
        processed_requests = c.processed_requests;
        user_tickets = c.user_tickets;
      }

  All-AllNew : (rs : List (Row Uuid)) → AllNew rs nothing
  All-AllNew [] = tt
  All-AllNew (r ∷ rs) = (refl, All-AllNew rs)

  issued :
      (t : Tables Uuid)
      → IsKeyed t
      → values (store_of t).processed_requests ≡ tickets t.sold_tickets
  issued t k = collect-values t.sold_tickets nothing k.keys (All-AllNew t.sold_tickets)

  pub store_of-IsValid : (t : Tables Uuid) → IsKeyed t → Invariant.IsValid (store_of t)
  store_of-IsValid t k = record {
    consistent = record {
      issued = issued t k ∙ k.valid.numbered;
      held =
          λ n. omega (arith, collect-count n t.sold_tickets nothing, ap (count n) k.valid.numbered);
      held_total = omega (arith, collect-held show t.sold_tickets nothing, rows_of_valid t k.valid);
    };
    not_oversold = k.valid.not_oversold;
  }

  pub get-store_of :
      (t : Tables Uuid) (id : Uuid) (n : ℕ)
      → IsKeyed t
      → find_ticket id t.sold_tickets ≡ some n
      → get (show id) (store_of t).processed_requests ≡ some n
  get-store_of t id n k e = collect-get id n t.sold_tickets nothing k.keys e

  in_order : (t : Tables Uuid) → IsValid t → order_by_ticket t.sold_tickets ≡ t.sold_tickets
  in_order t v =
      order_by_ticket-Ascends t.sold_tickets
        (subst Ascends (sym v.numbered) (up_to-Ascends t.sold_count))

  pub get_status-eq-status :
      (t : Tables Uuid) → IsKeyed t → get_status show t t ≡ status (store_of t)
  unfolding get_status status
  get_status-eq-status t k =
      rw (in_order t k.valid, collect-issued t.sold_tickets nothing, issued t k) refl
