-- ===== src/Db/Torn.antt =====
-- A purchase that commits between the two SELECTs of `get_status` in distributed/app/db.py.
use ticket_selling_system.Prelude.{
  suc, ◌+◌, ◌<◌, ◌≡◌, refl, sym, ap, ◌∙◌, String, false, List, [], ◌∷◌, arith, Key, string_key,
  length, length-up_to, Bool-cases, inl, inr,
}
use ticket_selling_system.Dict.{joined}
use ticket_selling_system.Dict.Laws.{length-append_to}
use ticket_selling_system.Store.{StatusBody}
use ticket_selling_system.Buyer.{RequestResult, check_invariants}
use ticket_selling_system.Buyer.Detects.{pass_means}
use ticket_selling_system.Db.{Row, Tables}
use ticket_selling_system.Db.Valid.{tickets, IsValid, with_sale, with_sale-IsValid}
use ticket_selling_system.Db.Snapshot.{
  Collected, nothing, insert_row, order_by_ticket, collect_row, collect, get_status,
}

module _ {Uuid : Type 0} (show : Uuid → String) where
  pub collect-held :
      (rs : List (Row Uuid)) (c : Collected)
      → length (joined (collect show rs c).user_tickets)
        ≡ length (joined c.user_tickets) + length rs
  unfolding collect
  collect-held [] c = omega arith
  collect-held (r ∷ rs) c = omega (
    arith,
    collect-held rs (collect_row show r c),
    length-append_to r.user_id r.ticket_number c.user_tickets,
  )

length-insert_row :
    {U : Type 0} (r : Row U) (qs : List (Row U)) → length (insert_row r qs) ≡ suc (length qs)
length-insert_row r [] = refl
length-insert_row r (q ∷ qs) = ground (arith, length-insert_row r qs)

length-order_by_ticket : {U : Type 0} (rs : List (Row U)) → length (order_by_ticket rs) ≡ length rs
length-order_by_ticket [] = refl
length-order_by_ticket (r ∷ rs) =
    omega (arith, length-insert_row r (order_by_ticket rs), length-order_by_ticket rs)

length-tickets : {U : Type 0} (rs : List (Row U)) → length (tickets rs) ≡ length rs
length-tickets [] = refl
length-tickets (r ∷ rs) = ap suc (length-tickets rs)

pub rows_of_valid : {U : Type 0} (t : Tables U) → IsValid t → length t.sold_tickets ≡ t.sold_count
rows_of_valid t v =
    sym (length-tickets t.sold_tickets) ∙ ap length v.numbered ∙ length-up_to t.sold_count

get_status-held :
    {Uuid : Type 0} (show : Uuid → String) (counts rows : Tables Uuid)
    → IsValid rows
    → length (joined (get_status show counts rows).user_tickets) ≡ rows.sold_count
unfolding get_status
get_status-held show counts rows v = omega (
  arith,
  collect-held show (order_by_ticket rows.sold_tickets) nothing,
  length-order_by_ticket rows.sold_tickets,
  rows_of_valid rows v,
)

-- If a purchase commits between the two SELECTs of `get_status`, on valid tables with a ticket
-- left, then the status shows one ticket more in the users' lists than are counted as sold, and
-- the load client that reads it reports FAIL, whatever results it has.
pub torn_status_fails :
    {Uuid : Type 0} ⦃key : Key Uuid⦄ (show : Uuid → String) (t : Tables Uuid) (id : Uuid)
    (user_id : String) (results : List RequestResult)
    → IsValid t
    → t.sold_count < t.total_tickets
    → (length (joined (get_status show t (with_sale id user_id t)).user_tickets) ≡ t.sold_count + 1)
      × (check_invariants (get_status show t (with_sale id user_id t)) results ≡ false)
torn_status_fails show t id user_id results v room = (
  held,
  elim (Bool-cases (check_invariants body results)) [
    | inr fails ↦ fails
    | inl passes ↦ absurd (omega (arith, held, (pass_means body results passes).4, counted))
  ],
)
  where
    body : StatusBody
    body = get_status show t (with_sale id user_id t)

    held : length (joined body.user_tickets) ≡ t.sold_count + 1
    held = get_status-held show t (with_sale id user_id t) (with_sale-IsValid id user_id t room v)

    counted : body.sold_count ≡ t.sold_count
    counted = unfold get_status in refl
