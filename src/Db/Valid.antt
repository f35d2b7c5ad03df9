-- ===== src/Db/Valid.antt =====
-- The invariant of the tables of distributed/app/db.py, and the ways in which `atomic_buy` ends.
use ticket_selling_system.Prelude.{
  ℕ, ◌+◌, ◌≤◌, ◌<◌, ◌≡◌, refl, sym, ap, ◌∙◌, String, Bool, true, false, Option, none, some, List,
  [], ◌∷◌, ◌++◌, arith, leb, Key, up_to, Bool-cases, Option-cases, All, inl, inr, leb→le,
  up_to-add_one, up_to_bounds, none_eq_some,
}
use ticket_selling_system.Prelude.Int.{pos, sub_ℕ}
use ticket_selling_system.Store.{success, already_processed, sold_out}
use ticket_selling_system.Db.{
  Row, Tables, DbError, Outcome, ok, raised, int_bound, BuyResult, find_ticket, number_taken,
  atomic_buy,
}

abbrev pub tickets : {U : Type 0} → List (Row U) → List ℕ
tickets [] = []
tickets (r ∷ rs) = r.ticket_number ∷ tickets rs

pub tickets-append :
    {U : Type 0} (rs qs : List (Row U)) → tickets (rs ++ qs) ≡ tickets rs ++ tickets qs
tickets-append [] qs = refl
tickets-append (r ∷ rs) qs = ap (◌∷◌ r.ticket_number) (tickets-append rs qs)

pub record IsValid {U : Type 0} (t : Tables U) : Type 0 where
  pub numbered : tickets t.sold_tickets ≡ up_to t.sold_count
  pub not_oversold : t.sold_count ≤ t.total_tickets
  pub fits : t.total_tickets < int_bound

module _ {Uuid : Type 0} ⦃key : Key Uuid⦄ where
  -- The tables after a sale.
  abbrev pub with_sale : Uuid → String → Tables Uuid → Tables Uuid
  with_sale id user_id t = record t {
    sold_count = t.sold_count + 1;
    sold_tickets =
        t.sold_tickets
        ++ record { req_id = id; user_id = user_id; ticket_number = t.sold_count + 1 } ∷ [];
  }

  -- The ways in which `atomic_buy` ends in a valid state.
  pub data Buys (parse : String → Option Uuid) (user_id req_id : String) (t : Tables Uuid)
      (o : Outcome (BuyResult × Bool) × Tables Uuid) : Type 0 where
    malformed :
        parse req_id ≡ none → o ≡ (raised DbError.invalid_uuid, t) → Buys parse user_id req_id t o
    known :
        (id : Uuid) (ticket : ℕ)
        → parse req_id ≡ some id
        → find_ticket id t.sold_tickets ≡ some ticket
        → o ≡ (
          ok (
            record {
              status = already_processed;
              ticket_number = some ticket;
              remaining_tickets = sub_ℕ t.total_tickets t.sold_count;
            },
            false,
          ),
          t,
        )
        → Buys parse user_id req_id t o
    gone :
        (id : Uuid)
        → parse req_id ≡ some id
        → find_ticket id t.sold_tickets ≡ none
        → t.total_tickets ≤ t.sold_count
        → o ≡ (
          ok (record { status = sold_out; ticket_number = none; remaining_tickets = pos 0 }, false),
          t,
        )
        → Buys parse user_id req_id t o
    sells :
        (id : Uuid)
        → parse req_id ≡ some id
        → find_ticket id t.sold_tickets ≡ none
        → t.sold_count < t.total_tickets
        → o ≡ (
          ok (
            record {
              status = success;
              ticket_number = some (t.sold_count + 1);
              remaining_tickets = sub_ℕ t.total_tickets (t.sold_count + 1);
            },
            true,
          ),
          with_sale id user_id t,
        )
        → Buys parse user_id req_id t o

  -- A number above those of the rows is not taken.
  number_free :
      (n : ℕ) (rs : List (Row Uuid)) (m : ℕ)
      → All (λ t. (1 ≤ t) × (t ≤ m)) (tickets rs)
      → m < n
      → number_taken n rs ≡ false
  number_free n [] m h lt = refl
  number_free n (r ∷ rs) m h lt = ground (arith, number_free n rs m h.1 lt)

  pub atomic_buy-Buys :
      (parse : String → Option Uuid) (user_id req_id : String) (t : Tables Uuid)
      → IsValid t
      → Buys parse user_id req_id t (atomic_buy parse user_id req_id t)
  unfolding atomic_buy
  atomic_buy-Buys parse user_id req_id t v = elim (Option-cases (parse req_id)) [
    | inl bad ↦ malformed bad (rw bad)
    | inr (id, good) ↦ elim (Option-cases (find_ticket id t.sold_tickets)) [
      | inr (ticket, found) ↦ known id ticket good found (ground arith)
      | inl new ↦ elim (Bool-cases (leb t.total_tickets t.sold_count)) [
        | inl full ↦ gone id good new (leb→le _ _ full) (ground arith)
        | inr room ↦ sells id good new (ground arith) (sale id good new room)
      ]
    ]
  ]
    where
      free : number_taken (t.sold_count + 1) t.sold_tickets ≡ false
      free =
          number_free (t.sold_count + 1) t.sold_tickets t.sold_count
            (rw v.numbered (up_to_bounds t.sold_count)) (omega arith)

      sale :
          (id : Uuid)
          → parse req_id ≡ some id
          → find_ticket id t.sold_tickets ≡ none
          → leb t.total_tickets t.sold_count ≡ false
          → atomic_buy parse user_id req_id t ≡ (
            ok (
              record {
                status = success;
                ticket_number = some (t.sold_count + 1);
                remaining_tickets = sub_ℕ t.total_tickets (t.sold_count + 1);
              },
              true,
            ),
            with_sale id user_id t,
          )
      sale id good new room = ground (arith, free, v.fits)

  pub with_sale-IsValid :
      (id : Uuid) (user_id : String) (t : Tables Uuid)
      → t.sold_count < t.total_tickets
      → IsValid t
      → IsValid (with_sale id user_id t)
  with_sale-IsValid id user_id t room v = record {
    numbered =
        tickets-append t.sold_tickets
          (record { req_id = id; user_id = user_id; ticket_number = t.sold_count + 1 } ∷ [])
        ∙ rw (v.numbered, up_to-add_one t.sold_count);
    not_oversold = omega arith;
    fits = v.fits;
  }

  pub Buys-IsValid :
      (parse : String → Option Uuid) (user_id req_id : String) (t : Tables Uuid)
      {o : Outcome (BuyResult × Bool) × Tables Uuid}
      → Buys parse user_id req_id t o
      → IsValid t
      → IsValid o.1
  Buys-IsValid parse user_id req_id t (malformed _ e) v = rw e v
  Buys-IsValid parse user_id req_id t (known _ _ _ _ e) v = rw e v
  Buys-IsValid parse user_id req_id t (gone _ _ _ _ e) v = rw e v
  Buys-IsValid parse user_id req_id t (sells id _ _ room e) v =
      rw e (with_sale-IsValid id user_id t room v)

  Buys-raises :
      (parse : String → Option Uuid) (user_id req_id : String) (t : Tables Uuid)
      {o : Outcome (BuyResult × Bool) × Tables Uuid} (id : Uuid)
      → Buys parse user_id req_id t o
      → parse req_id ≡ some id
      → (r : BuyResult × Bool) × (o.0 ≡ ok r)
  Buys-raises parse user_id req_id t id (malformed bad _) good = none_eq_some (sym bad ∙ good)
  Buys-raises parse user_id req_id t id (known _ _ _ _ e) good = (_, ap (λ o. o.0) e)
  Buys-raises parse user_id req_id t id (gone _ _ _ _ e) good = (_, ap (λ o. o.0) e)
  Buys-raises parse user_id req_id t id (sells _ _ _ _ e) good = (_, ap (λ o. o.0) e)

  -- In valid tables, for a req_id that is the text of a UUID, `atomic_buy` keeps the tables
  -- valid and raises nothing: neither a constraint of `sold_tickets` nor the bound of INT is
  -- ever violated.
  pub atomic_buy-IsValid :
      (parse : String → Option Uuid) (user_id req_id : String) (t : Tables Uuid) (id : Uuid)
      → IsValid t
      → parse req_id ≡ some id
      → IsValid (atomic_buy parse user_id req_id t).1
        × ((r : BuyResult × Bool) × ((atomic_buy parse user_id req_id t).0 ≡ ok r))
  atomic_buy-IsValid parse user_id req_id t id v good =
      let b = atomic_buy-Buys parse user_id req_id t v in
      (Buys-IsValid parse user_id req_id t b v, Buys-raises parse user_id req_id t id b good)
