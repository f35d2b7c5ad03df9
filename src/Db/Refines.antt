-- ===== src/Db/Refines.antt =====
-- The tables beside the store of the in-memory seller, and `atomic_buy` beside its `buy`.
use ticket_selling_system.Prelude.{
  ℕ, ◌+◌, ◌≤◌, ◌<◌, ◌≡◌, refl, sym, ap, ◌∙◌, String, Bool, true, false, Option, none, some, List,
  [], ◌∷◌, ◌++◌, arith, Key, string_key, ite, some_eq, none_eq_some, lt→ltb,
}
use ticket_selling_system.Dict.{get}
use ticket_selling_system.Dict.Laws.{get-insert}
use ticket_selling_system.Store.{
  State, BuyRequest, BuyResponse, sold_out_response, success_response, fresh,
}
use ticket_selling_system.Seller.{buy, sell}
use ticket_selling_system.Seller.Retry.{buy_known}
use ticket_selling_system.Db.{
  Row, Tables, Outcome, ok, BuyResult, find_ticket, atomic_buy, reset_state, int_bound,
}
use ticket_selling_system.Db.Valid.{
  IsValid, with_sale, Buys, malformed, known, gone, sells, atomic_buy-Buys,
}

-- The parts of a response that both have.
abbrev pub as_result : BuyResponse → BuyResult
as_result r = record {
  status = r.status;
  ticket_number = r.ticket_number;
  remaining_tickets = r.remaining_tickets;
}

buy_gone :
    (req : BuyRequest) (s : State)
    → get req.req_id s.processed_requests ≡ none
    → s.total_tickets ≤ s.sold_count
    → buy req s ≡ (sold_out_response req, s)
unfolding buy
buy_gone req s new full = ground arith

buy_sold :
    (req : BuyRequest) (s : State)
    → get req.req_id s.processed_requests ≡ none
    → s.sold_count < s.total_tickets
    → buy req s ≡ (success_response req (s.sold_count + 1) (sell req s), sell req s)
unfolding buy
buy_sold req s new room = ground arith

-- `parse` reads the text of a UUID. Several texts can stand for one UUID (in upper case, in braces),
-- of which one is canonical.
module _ {Uuid : Type 0} ⦃key : Key Uuid⦄ (parse : String → Option Uuid)
    (IsCanonical : String → Type 0) where
  -- The same counts, and the same ticket for every canonical text of a UUID.
  pub record Mirrors (t : Tables Uuid) (s : State) : Type 0 where
    pub same_total : t.total_tickets ≡ s.total_tickets
    pub same_count : t.sold_count ≡ s.sold_count
    pub same_record :
        (req_id : String) (id : Uuid)
        → IsCanonical req_id
        → parse req_id ≡ some id
        → find_ticket id t.sold_tickets ≡ get req_id s.processed_requests

  pub record Agrees (o : Outcome (BuyResult × Bool) × Tables Uuid) (r : BuyResponse × State)
      : Type 0 where
    pub invalidated : Bool
    pub answer : o.0 ≡ ok (as_result r.0, invalidated)
    pub mirrors : Mirrors o.1 r.1

  find-with_sale :
      (id j : Uuid) (user_id : String) (n : ℕ) (rs : List (Row Uuid))
      → find_ticket id rs ≡ none
      → find_ticket j (rs ++ record { req_id = id; user_id = user_id; ticket_number = n } ∷ [])
        ≡ ite (key.same id j) (some n) (find_ticket j rs)
  find-with_sale id j user_id n [] h = refl
  find-with_sale id j user_id n (r ∷ rs) h = ground (arith, find-with_sale id j user_id n rs)

  -- Two canonical texts of one UUID are the same text.
  abbrev pub CanonicalIsUnique : Type 0
  CanonicalIsUnique =
      (a b : String) (id : Uuid)
      → IsCanonical a
      → IsCanonical b
      → parse a ≡ some id
      → parse b ≡ some id
      → a ≡ b

  with_sale-Mirrors :
      (req : BuyRequest) (t : Tables Uuid) (s : State) (id : Uuid)
      → CanonicalIsUnique
      → IsCanonical req.req_id
      → parse req.req_id ≡ some id
      → find_ticket id t.sold_tickets ≡ none
      → Mirrors t s
      → Mirrors (with_sale id req.user_id t) (sell req s)
  unfolding sell
  with_sale-Mirrors req t s id unique canonical good new m = record {
    same_total = m.same_total;
    same_count = omega (arith, m.same_count);
    same_record = λ text j c p.
        find-with_sale id j req.user_id (t.sold_count + 1) t.sold_tickets new
        ∙ elim (key.same id j) [
          | yes e ↦
              let same = unique req.req_id text id canonical c good (p ∙ ap some (sym e)) in
              ground (
                arith,
                same,
                get-insert req.req_id text (s.sold_count + 1) s.processed_requests,
                m.same_count,
              )
          | no ne ↦
              let other = λ (e : req.req_id ≡ text). ne (some_eq (sym good ∙ ap parse e ∙ p)) in
              ground (
                arith,
                other,
                get-insert req.req_id text (s.sold_count + 1) s.processed_requests,
                m.same_record text j c p,
              )
        ];
  }

  Buys-Agrees :
      (req : BuyRequest) (t : Tables Uuid) (s : State) (id : Uuid)
      {o : Outcome (BuyResult × Bool) × Tables Uuid}
      → CanonicalIsUnique
      → IsCanonical req.req_id
      → parse req.req_id ≡ some id
      → Mirrors t s
      → Buys parse req.user_id req.req_id t o
      → Agrees o (buy req s)
  Buys-Agrees req t s id unique canonical good m (malformed bad _) = none_eq_some (sym bad ∙ good)
  Buys-Agrees req t s id unique canonical good m (known j ticket p found e) =
      rw (e, buy_known req s ticket (sym (m.same_record req.req_id j canonical p) ∙ found))
        (record {
          invalidated = false;
          answer = ground (arith, m.same_total, m.same_count);
          mirrors = m;
        })
  Buys-Agrees req t s id unique canonical good m (gone j p new full e) =
      rw
        (
          e,
          buy_gone req s (sym (m.same_record req.req_id j canonical p) ∙ new)
              (omega (arith, m.same_total, m.same_count)),
        )
        (record { invalidated = false; answer = refl; mirrors = m })
  Buys-Agrees req t s id unique canonical good m (sells j p new room e) =
      rw
        (
          e,
          buy_sold req s (sym (m.same_record req.req_id j canonical p) ∙ new)
              (omega (arith, m.same_total, m.same_count)),
        )
        (record {
          invalidated = true;
          answer = unfold sell in ground (arith, m.same_total, m.same_count);
          mirrors = with_sale-Mirrors req t s j unique canonical p new m;
        })

  -- If the tables are valid and mirror a store, and the req_id is the canonical text of a UUID,
  -- no two canonical texts being of one UUID, then `atomic_buy` raises nothing, its status,
  -- ticket and remaining tickets are those of the in-memory seller's `buy`, and the tables
  -- mirror its store again.
  pub atomic_buy-Agrees :
      (req : BuyRequest) (t : Tables Uuid) (s : State) (id : Uuid)
      → CanonicalIsUnique
      → IsCanonical req.req_id
      → parse req.req_id ≡ some id
      → IsValid t
      → Mirrors t s
      → Agrees (atomic_buy parse req.user_id req.req_id t) (buy req s)
  atomic_buy-Agrees req t s id unique canonical good v m =
      Buys-Agrees req t s id unique canonical good m
        (atomic_buy-Buys parse req.user_id req.req_id t v)

  -- If the number of tickets fits into the column, `reset_state` raises nothing and leaves,
  -- whatever the tables were, valid ones that mirror the store of a fresh in-memory seller.
  pub reset_state-Mirrors :
      (total : ℕ) (t : Tables Uuid)
      → total < int_bound
      → ((reset_state total t).0 ≡ ok tt)
        × IsValid (reset_state total t).1
        × Mirrors (reset_state total t).1 (fresh total)
  unfolding reset_state
  reset_state-Mirrors total t small = rw (lt→ltb total int_bound small) (
    refl,
    record { numbered = refl; not_oversold = omega arith; fits = small },
    record { same_total = refl; same_count = refl; same_record = λ req_id id c p. refl },
  )
