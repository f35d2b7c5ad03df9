-- ===== src/Db/Keyed.antt =====
-- PRIMARY KEY (req_id) of `sold_tickets`: no two rows have one UUID.
use ticket_selling_system.Prelude.{
  ◌≡◌, ◌≢◌, refl, sym, String, Bool, Option, none, List, [], ◌∷◌, ◌++◌, arith, Key, All, All-append,
}
use ticket_selling_system.Db.{Row, Tables, Outcome, BuyResult, find_ticket, atomic_buy}
use ticket_selling_system.Db.Valid.{
  IsValid, Buys, malformed, known, gone, sells, atomic_buy-Buys, Buys-IsValid,
}

-- The UUID of no row is the given one.
abbrev pub HasNot : {U : Type 0} → U → List (Row U) → Type 0
HasNot id rs = All (λ r. r.req_id ≢ id) rs

abbrev pub HasKeys : {U : Type 0} → List (Row U) → Type 0
HasKeys [] = Unit
HasKeys (r ∷ rs) = HasNot r.req_id rs × HasKeys rs

module _ {Uuid : Type 0} ⦃key : Key Uuid⦄ where
  pub find_ticket-HasNot :
      (id : Uuid) (rs : List (Row Uuid)) → find_ticket id rs ≡ none → HasNot id rs
  find_ticket-HasNot id [] h = tt
  find_ticket-HasNot id (r ∷ rs) h = ground (arith, find_ticket-HasNot id rs)

  pub HasNot-find_ticket :
      (id : Uuid) (rs : List (Row Uuid)) → HasNot id rs → find_ticket id rs ≡ none
  HasNot-find_ticket id [] h = refl
  HasNot-find_ticket id (r ∷ rs) h = ground (arith, HasNot-find_ticket id rs h.1, h.0)

  HasKeys-append :
      (rs : List (Row Uuid)) (q : Row Uuid)
      → HasNot q.req_id rs
      → HasKeys rs
      → HasKeys (rs ++ q ∷ [])
  HasKeys-append [] q h k = (tt, tt)
  HasKeys-append (r ∷ rs) q h k =
      (All-append _ rs (q ∷ []) k.0 ((λ e. h.0 (sym e)), tt), HasKeys-append rs q h.1 k.1)

  -- The tables as `atomic_buy` may find them: valid, and with their primary key.
  pub record IsKeyed (t : Tables Uuid) : Type 0 where
    pub valid : IsValid t
    pub keys : HasKeys t.sold_tickets

  Buys-IsKeyed :
      (parse : String → Option Uuid) (user_id req_id : String) (t : Tables Uuid)
      {o : Outcome (BuyResult × Bool) × Tables Uuid}
      → IsKeyed t
      → Buys parse user_id req_id t o
      → HasKeys (o.1).sold_tickets
  Buys-IsKeyed parse user_id req_id t k (malformed _ e) = rw e k.keys
  Buys-IsKeyed parse user_id req_id t k (known _ _ _ _ e) = rw e k.keys
  Buys-IsKeyed parse user_id req_id t k (gone _ _ _ _ e) = rw e k.keys
  Buys-IsKeyed parse user_id req_id t k (sells id _ new room e) =
      rw e (HasKeys-append t.sold_tickets _ (find_ticket-HasNot id t.sold_tickets new) k.keys)

  pub atomic_buy-IsKeyed :
      (parse : String → Option Uuid) (user_id req_id : String) (t : Tables Uuid)
      → IsKeyed t
      → IsKeyed (atomic_buy parse user_id req_id t).1
  atomic_buy-IsKeyed parse user_id req_id t k =
      let b = atomic_buy-Buys parse user_id req_id t k.valid in
      record {
        valid = Buys-IsValid parse user_id req_id t b k.valid;
        keys = Buys-IsKeyed parse user_id req_id t k b;
      }
