-- ===== src/Db/Snapshot.antt =====
-- `get_status` of distributed/app/db.py: two SELECTs without a transaction or a lock, and a loop over the rows.
use ticket_selling_system.Prelude.{ℕ, String, List, [], ◌∷◌, ◌++◌, leb, if◌then◌else◌, string_key}
use ticket_selling_system.Prelude.Int.{sub_ℕ}
use ticket_selling_system.Dict.{Dict, insert, append_to}
use ticket_selling_system.Store.{StatusBody}
use ticket_selling_system.Db.{Row, Tables}

-- What the loop over the rows collects.
pub record Collected : Type 0 where
  pub processed_requests : Dict String ℕ
  pub user_tickets : Dict String (List ℕ)
  pub ticket_numbers_issued : List ℕ

abbrev pub nothing : Collected
nothing = record { processed_requests = []; user_tickets = []; ticket_numbers_issued = [] }

-- `ORDER BY ticket_number`
abbrev pub insert_row : {U : Type 0} → Row U → List (Row U) → List (Row U)
insert_row r [] = r ∷ []
insert_row r (q ∷ qs) =
    let rest = insert_row r qs in
    if leb r.ticket_number q.ticket_number then r ∷ q ∷ qs else q ∷ rest

abbrev pub order_by_ticket : {U : Type 0} → List (Row U) → List (Row U)
order_by_ticket [] = []
order_by_ticket (r ∷ rs) = insert_row r (order_by_ticket rs)

-- `show` is `str` of a UUID.
module _ {Uuid : Type 0} (show : Uuid → String) where
  abbrev pub collect_row : Row Uuid → Collected → Collected
  collect_row r c = record {
    processed_requests = insert (show r.req_id) r.ticket_number c.processed_requests;
    user_tickets = append_to r.user_id r.ticket_number c.user_tickets;
    ticket_numbers_issued = c.ticket_numbers_issued ++ r.ticket_number ∷ [];
  }

  unfoldable pub collect : List (Row Uuid) → Collected → Collected
  collect [] c = c
  collect (r ∷ rs) c = collect rs (collect_row r c)

  -- The status from the counts of one moment and the rows of a later one.
  unfoldable pub get_status : Tables Uuid → Tables Uuid → StatusBody
  unfolding collect
  get_status counts rows =
      let c = collect (order_by_ticket rows.sold_tickets) nothing in
      record {
        total_tickets = counts.total_tickets;
        sold_count = counts.sold_count;
        remaining_tickets = sub_ℕ counts.total_tickets counts.sold_count;
        ticket_numbers_issued = c.ticket_numbers_issued;
        processed_requests = c.processed_requests;
        user_tickets = c.user_tickets;
      }
