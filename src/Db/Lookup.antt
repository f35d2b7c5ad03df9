-- ===== src/Db/Lookup.antt =====
-- What a status of distributed/app/db.py that is read with no purchase under way says of one request.
use ticket_selling_system.Prelude.{
  ℕ, ◌≡◌, refl, sym, ◌∙◌, String, none, some, List, [], ◌∷◌, Key, string_key, inl, inr,
  none_eq_some, Option-cases,
}
use ticket_selling_system.Dict.{get}
use ticket_selling_system.Dict.Laws.{get-insert_ne}
use ticket_selling_system.Db.{Row, Tables, find_ticket}
use ticket_selling_system.Db.Snapshot.{Collected, nothing, collect_row, collect}
use ticket_selling_system.Db.Keyed.{IsKeyed}
use ticket_selling_system.Db.Quiet.{find_ticket_first, find_ticket_later, store_of, get-store_of}

module _ {Uuid : Type 0} ⦃key : Key Uuid⦄ (show : Uuid → String)
    (apart : (a b : Uuid) → show a ≡ show b → a ≡ b) where
  collect-get-none :
      (id : Uuid) (rs : List (Row Uuid)) (c : Collected)
      → find_ticket id rs ≡ none
      → get (show id) (collect show rs c).processed_requests ≡ get (show id) c.processed_requests
  unfolding collect
  collect-get-none id [] c e = refl
  collect-get-none id (r ∷ rs) c e = elim (key.same r.req_id id) [
    | yes same ↦ none_eq_some (sym e ∙ find_ticket_first show apart id r rs same)
    | no ne ↦
        collect-get-none id rs (collect_row show r c)
          (sym (find_ticket_later show apart id r rs ne) ∙ e)
        ∙ get-insert_ne (show r.req_id) (show id) r.ticket_number c.processed_requests
            (λ f. ne (apart r.req_id id f))
  ]

  -- A ticket that the status shows for a request is the one in its row.
  pub store_of-find_ticket :
      (t : Tables Uuid) (id : Uuid) (n : ℕ)
      → IsKeyed t
      → get (show id) (store_of show apart t).processed_requests ≡ some n
      → find_ticket id t.sold_tickets ≡ some n
  store_of-find_ticket t id n k e = elim (Option-cases (find_ticket id t.sold_tickets)) [
    | inl missing ↦ none_eq_some (sym (collect-get-none id t.sold_tickets nothing missing) ∙ e)
    | inr (m, found) ↦ found ∙ sym (get-store_of show apart t id m k found) ∙ e
  ]
