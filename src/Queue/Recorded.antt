-- ===== src/Queue/Recorded.antt =====
-- The tickets that the tables have for the UUIDs, and the answers of `atomic_buy` about them.
use ticket_selling_system.Prelude.{
  ℕ, ◌+◌, ◌≤◌, ◌≡◌, ◌≢◌, ap, ◌∙◌, String, Bool, Option, none, some, List, [], ◌∷◌, ◌++◌, Key,
  string_key, arith, none_eq_some, count, count-up_to_le,
}
use ticket_selling_system.Db.{Row, Tables, Outcome, BuyResult, find_ticket}
use ticket_selling_system.Db.Valid.{
  tickets, IsValid, with_sale-IsValid, Buys, malformed, known, gone, sells,
}
use ticket_selling_system.Queue.{Pushed, bought, error, pushed_of}

module _ {Uuid : Type 0} ⦃key : Key Uuid⦄ where
  find_ticket-append :
      (id : Uuid) (n : ℕ) (rs : List (Row Uuid)) (r : Row Uuid)
      → find_ticket id rs ≡ some n
      → find_ticket id (rs ++ r ∷ []) ≡ some n
  find_ticket-append id n [] r e = none_eq_some e
  find_ticket-append id n (q ∷ rs) r e = ground (arith, find_ticket-append id n rs r)

  find_ticket-last :
      (id : Uuid) (user_id : String) (n : ℕ) (rs : List (Row Uuid))
      → find_ticket id rs ≡ none
      → find_ticket id (rs ++ record { req_id = id; user_id = user_id; ticket_number = n } ∷ [])
        ≡ some n
  find_ticket-last id user_id n [] e = ground arith
  find_ticket-last id user_id n (q ∷ rs) e = ground (arith, find_ticket-last id user_id n rs)

  find_ticket-count :
      (id : Uuid) (n : ℕ) (rs : List (Row Uuid))
      → find_ticket id rs ≡ some n
      → 1 ≤ count n (tickets rs)
  find_ticket-count id n [] e = none_eq_some e
  find_ticket-count id n (q ∷ rs) e = ground (arith, find_ticket-count id n rs)

  -- Two UUIDs with one ticket make it occur twice.
  find_ticket-two :
      (id j : Uuid) (n : ℕ) (rs : List (Row Uuid))
      → id ≢ j
      → find_ticket id rs ≡ some n
      → find_ticket j rs ≡ some n
      → 2 ≤ count n (tickets rs)
  find_ticket-two id j n [] ne e f = none_eq_some e
  find_ticket-two id j n (q ∷ rs) ne e f =
      ground
        (arith, find_ticket-two id j n rs ne, find_ticket-count id n rs, find_ticket-count j n rs)

  pub find_ticket-same :
      (id j : Uuid) (n : ℕ) (t : Tables Uuid)
      → IsValid t
      → find_ticket id t.sold_tickets ≡ some n
      → find_ticket j t.sold_tickets ≡ some n
      → id ≡ j
  find_ticket-same id j n t v e f = elim (key.same id j) [
    | yes same ↦ same
    | no ne ↦ absurd (
        omega (
          arith,
          find_ticket-two id j n t.sold_tickets ne e f,
          ap (count n) v.numbered,
          count-up_to_le n t.sold_count,
        ))
  ]

module _ {Uuid : Type 0} ⦃key : Key Uuid⦄ (parse : String → Option Uuid) where
  -- A ticket in an answer for the req_id is the one that the tables have for its UUID.
  abbrev pub IsRecorded : Tables Uuid → String → Pushed → Type 0
  IsRecorded t req_id (error _) = Unit
  IsRecorded t req_id (bought r) =
      (n : ℕ)
      → r.ticket_number ≡ some n
      → (id : Uuid) × (parse req_id ≡ some id) × (find_ticket id t.sold_tickets ≡ some n)

  -- What a call of `atomic_buy` does to valid tables.
  pub record Called (t : Tables Uuid) (req_id : String)
      (o : Outcome (BuyResult × Bool) × Tables Uuid) : Type 0 where
    pub valid : IsValid o.1
    pub keeps :
        (id : Uuid) (n : ℕ)
        → find_ticket id t.sold_tickets ≡ some n
        → find_ticket id (o.1).sold_tickets ≡ some n
    pub recorded : IsRecorded o.1 req_id (pushed_of o.0)

  pub Buys-Called :
      (user_id req_id : String) (t : Tables Uuid) {o : Outcome (BuyResult × Bool) × Tables Uuid}
      → IsValid t
      → Buys parse user_id req_id t o
      → Called t req_id o
  Buys-Called user_id req_id t v (malformed _ e) =
      rw e (record { valid = v; keeps = λ id n f. f; recorded = tt })
  Buys-Called user_id req_id t v (known id ticket good found e) =
      rw e (record { valid = v; keeps = λ j n f. f; recorded = λ n same. (id, good, found ∙ same) })
  Buys-Called user_id req_id t v (gone _ _ _ _ e) =
      rw e (record { valid = v; keeps = λ j n f. f; recorded = λ n same. none_eq_some same })
  Buys-Called user_id req_id t v (sells id good new room e) = rw e (record {
    valid = with_sale-IsValid id user_id t room v;
    keeps = λ j n f. find_ticket-append j n t.sold_tickets _ f;
    recorded = λ n same.
        (id, good, find_ticket-last id user_id (t.sold_count + 1) t.sold_tickets new ∙ same);
  })

  pub IsRecorded-mono :
      (t t' : Tables Uuid)
      → ((id : Uuid) (n : ℕ)
          → find_ticket id t.sold_tickets ≡ some n
          → find_ticket id t'.sold_tickets ≡ some n)
      → (req_id : String) (p : Pushed) → IsRecorded t req_id p
      → IsRecorded t' req_id p
  IsRecorded-mono t t' keeps req_id (error _) h = tt
  IsRecorded-mono t t' keeps req_id (bought r) h =
      λ n e. let found = h n e in (found.0, found.1, keeps found.0 n found.2)
