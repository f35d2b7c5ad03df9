-- ===== src/Db.antt =====
-- distributed/app/db.py over the tables of distributed/init_db.sql. Postgres and asyncpg are not part
-- of the program: the row lock of `SELECT … FOR UPDATE` makes the transactions of `atomic_buy` and
-- `reset_state` run one after the other, so each is one function of the tables; a transaction that
-- raises is rolled back. How a text becomes a value of the column type UUID is a parameter.
pub mod Valid
pub mod Refines
pub mod Snapshot
pub mod Torn
pub mod Keyed
pub mod Quiet
pub mod Lookup
use ticket_selling_system.Prelude.{
  ℕ, ◌+◌, ◌^◌, String, Bool, true, false, Option, none, some, List, [], ◌∷◌, ◌++◌, leb, ltb, ite,
  if◌then◌else◌, Key, ℕ_discrete, map, string_key,
}
use ticket_selling_system.Prelude.Int.{ℤ, pos, sub_ℕ}
use ticket_selling_system.Dict.{Dict, insert, append_to}
use ticket_selling_system.Store.{Status, success, already_processed, sold_out, StatusBody}

-- A row of `sold_tickets`; `sold_at` is never read.
pub record Row (Uuid : Type 0) : Type 0 where
  pub req_id : Uuid
  pub user_id : String
  pub ticket_number : ℕ

-- The single row of `tickets_state`, and the rows of `sold_tickets` in the order of their insertion.
pub record Tables (Uuid : Type 0) : Type 0 where
  pub total_tickets : ℕ
  pub sold_count : ℕ
  pub sold_tickets : List (Row Uuid)

pub data DbError : Type 0 where
  invalid_uuid unique_violation out_of_range : DbError

pub data Outcome {ℓ} (A : Type ℓ) : Type ℓ where
  ok : A → Outcome A
  raised : DbError → Outcome A

-- A statement or a block of statements on the tables.
abbrev pub Sql : Type 0 → Type 0 → Type 0
Sql Uuid A = Tables Uuid → Outcome A × Tables Uuid

infixl 5 ◌>>=◌ ◌>>◌
abbrev pub bind_outcome :
    {U A B : Type 0} → Outcome A × Tables U → (A → Sql U B) → Outcome B × Tables U
bind_outcome (ok a, t) f = f a t
bind_outcome (raised e, t) f = (raised e, t)

abbrev pub ◌>>=◌ : {U A B : Type 0} → Sql U A → (A → Sql U B) → Sql U B
◌>>=◌ m f t = bind_outcome (m t) f

abbrev pub ◌>>◌ : {U B : Type 0} → Sql U (Unit {0}) → Sql U B → Sql U B
m >> k = m >>= λ _. k

abbrev pub pure : {U A : Type 0} → A → Sql U A
pure a t = (ok a, t)

-- `async with conn.transaction()`: what raises is rolled back.
abbrev pub settle : {U A : Type 0} → Tables U → Outcome A × Tables U → Outcome A × Tables U
settle before (ok a, t) = (ok a, t)
settle before (raised e, t) = (raised e, before)

abbrev pub transaction : {U A : Type 0} → Sql U A → Sql U A
transaction body t = settle t (body t)

-- The bound of the column type INT.
abbrev pub int_bound : ℕ
int_bound = 2 ^ 31

-- The dict that `atomic_buy` returns.
pub record BuyResult : Type 0 where
  pub status : Status
  pub ticket_number : Option ℕ
  pub remaining_tickets : ℤ

-- How the transaction of `atomic_buy` is left: by an early return, or at its end.
pub data Exit : Type 0 where
  early : BuyResult → Exit
  sold : ℕ → ℕ → Exit

abbrev pub violates : Option ℕ → Bool → Bool
violates (some _) _ = true
violates none taken = taken

abbrev pub result_of : Exit → BuyResult
result_of (early r) = r
result_of (sold n total) = record {
  status = success;
  ticket_number = some n;
  remaining_tickets = sub_ℕ total n;
}

-- Whether the cached status is invalidated after the transaction.
abbrev pub invalidates : Exit → Bool
invalidates (early _) = false
invalidates (sold _ _) = true

module _ {Uuid : Type 0} ⦃key : Key Uuid⦄ where
  -- `SELECT ticket_number FROM sold_tickets WHERE req_id = $1`
  abbrev pub find_ticket : Uuid → List (Row Uuid) → Option ℕ
  find_ticket id [] = none
  find_ticket id (r ∷ rs) = ite (key.same r.req_id id) (some r.ticket_number) (find_ticket id rs)

  abbrev pub number_taken : ℕ → List (Row Uuid) → Bool
  number_taken n [] = false
  number_taken n (r ∷ rs) = ite (ℕ_discrete r.ticket_number n) true (number_taken n rs)

  -- `INSERT INTO sold_tickets`, with PRIMARY KEY (req_id) and UNIQUE (ticket_number)
  unfoldable pub insert_ticket : Row Uuid → Sql Uuid (Unit {0})
  insert_ticket r t =
      if violates (find_ticket r.req_id t.sold_tickets)
        (number_taken r.ticket_number t.sold_tickets)
      then (raised unique_violation, t)
      else (ok tt, record t { sold_tickets = t.sold_tickets ++ r ∷ [] })

  -- `UPDATE tickets_state SET sold_count = $1 WHERE id = 1`
  unfoldable pub update_sold_count : ℕ → Sql Uuid (Unit {0})
  update_sold_count n t =
      if ltb n int_bound then (ok tt, record t { sold_count = n }) else (raised out_of_range, t)

  -- A text as a parameter of type UUID.
  unfoldable pub uuid_param : Option Uuid → Sql Uuid Uuid
  uuid_param none t = (raised invalid_uuid, t)
  uuid_param (some id) t = (ok id, t)

  abbrev pub get_tables : Sql Uuid (Tables Uuid)
  get_tables t = (ok t, t)

  -- The part of `atomic_buy` past the two early returns.
  abbrev pub sell_ticket : Uuid → String → ℕ → ℕ → Sql Uuid Exit
  sell_ticket id user_id total sold_count = do
    update_sold_count (sold_count + 1)
    insert_ticket (record { req_id = id; user_id = user_id; ticket_number = sold_count + 1 })
    pure (sold (sold_count + 1) total)

  abbrev pub sell_or_stop : Uuid → String → ℕ → ℕ → Option ℕ → Sql Uuid Exit
  sell_or_stop id user_id total sold_count (some ticket) = pure (
      early (record {
        status = already_processed;
        ticket_number = some ticket;
        remaining_tickets = sub_ℕ total sold_count;
      }))
  sell_or_stop id user_id total sold_count none =
      if leb total sold_count
      then pure
          (early (record { status = sold_out; ticket_number = none; remaining_tickets = pos 0 }))
      else sell_ticket id user_id total sold_count

  -- The body of the transaction; `parse` reads the text of a UUID.
  unfoldable pub buy_body : (String → Option Uuid) → String → String → Sql Uuid Exit
  unfolding insert_ticket update_sold_count uuid_param
  buy_body parse user_id req_id = do
    row ← get_tables
    id ← uuid_param (parse req_id)
    tables ← get_tables
    sell_or_stop id user_id row.total_tickets row.sold_count (find_ticket id tables.sold_tickets)

  abbrev pub respond : Exit → Sql Uuid (BuyResult × Bool)
  respond exit = pure (result_of exit, invalidates exit)

  -- `atomic_buy`: the result, and whether it invalidates the cache, which is in Redis.
  unfoldable pub atomic_buy : (String → Option Uuid) → String → String → Sql Uuid (BuyResult × Bool)
  unfolding buy_body
  atomic_buy parse user_id req_id = do
    exit ← transaction (buy_body parse user_id req_id)
    respond exit

  -- `reset_state`; it always invalidates the cache.
  unfoldable pub reset_state : ℕ → Sql Uuid (Unit {0})
  reset_state total t =
      if ltb total int_bound
      then (ok tt, record { total_tickets = total; sold_count = 0; sold_tickets = [] })
      else (raised out_of_range, t)
