-- ===== src/Buyer/Records.antt =====
-- `check_invariants` on a status that agrees with itself, and on results that the records back.
use ticket_selling_system.Prelude.{
  ℕ, ◌≤◌, ◌≡◌, refl, sym, ap, ◌∙◌, Bool, true, false, Option, none, some, List, [], ◌∷◌, String,
  length, count, count-up_to_le, length-up_to, length-append, arith, string_key, ℕ_discrete, ite,
  All, eq→==, if_pos, if_neg, some_eq, All-mono,
}
use ticket_selling_system.Dict.{Dict, get, values, joined}
use ticket_selling_system.Dict.Laws.{length-values}
use ticket_selling_system.Store.{StatusBody, State}
use ticket_selling_system.Seller.{status}
use ticket_selling_system.Seller.Invariant.{IsValid}
use ticket_selling_system.Buyer.{
  RequestResult, member, add, to_set, add_to, is_ticket_status, enter, per_req_tickets,
  none_conflicting, agrees, none_mismatched, user_ticket_total, inv1_pass, inv2_pass, inv3_pass,
  inv4_pass, check_invariants,
}

pub member-count : (x : ℕ) (xs : List ℕ) → count x xs ≡ 0 → member x xs ≡ false
member-count x [] h = refl
member-count x (y ∷ ys) h = ground (arith, member-count x ys)

member-add : (y x : ℕ) (xs : List ℕ) → member y (add x xs) ≡ ite (ℕ_discrete x y) true (member y xs)
member-add y x xs = ground arith

pub member-to_set : (y : ℕ) (xs : List ℕ) → member y (to_set xs) ≡ member y xs
member-to_set y [] = refl
member-to_set y (x ∷ xs) = ground (arith, member-add y x (to_set xs), member-to_set y xs)

-- A list in which no number occurs twice is as long as its set.
to_set-length : (xs : List ℕ) → ((x : ℕ) → count x xs ≤ 1) → length (to_set xs) ≡ length xs
to_set-length [] h = refl
to_set-length (x ∷ xs) h =
    ground (
      arith,
      h x,
      member-to_set x xs,
      member-count x xs,
      to_set-length xs (λ y. omega (arith, h y)),
    )

pub user_ticket_total-length : (d : Dict String (List ℕ)) → user_ticket_total d ≡ length (joined d)
unfolding user_ticket_total
user_ticket_total-length [] = refl
user_ticket_total-length ((u, ts) ∷ d) =
    omega (arith, user_ticket_total-length d, length-append ts (joined d))

add_known : (t u : ℕ) → t ≡ u → add t (u ∷ []) ≡ u ∷ []
add_known t u e = ground arith

-- Every result with a ticket is backed by the server's record.
abbrev pub Backed : Dict String ℕ → RequestResult → Type 0
Backed processed r = (t : ℕ) → r.ticket_number ≡ some t → get r.req_id processed ≡ some t

-- The ticket is the one recorded, and the status that is read has no other ticket for the req_id.
abbrev pub IsRecordedAs : (String → Option ℕ) → Dict String ℕ → String → ℕ → Type 0
IsRecordedAs record_of processed id t =
    (record_of id ≡ some t) × ((u : ℕ) → get id processed ≡ some u → u ≡ t)

-- The same of every ticket in a result; the status may be one of before the sale.
abbrev pub BackedLater : (String → Option ℕ) → Dict String ℕ → RequestResult → Type 0
BackedLater record_of processed r =
    (t : ℕ) → r.ticket_number ≡ some t → IsRecordedAs record_of processed r.req_id t

module _ (f : String → Option ℕ) (p : Dict String ℕ) where
  -- The sets of tickets that the checker collects are singletons on the records.
  abbrev Good : Dict String (List ℕ) → Type 0
  Good = All (λ (e : String × List ℕ). (t : ℕ) × (e.1 ≡ t ∷ []) × IsRecordedAs f p e.0 t)

  add_to-Good :
      (id : String) (t : ℕ) (d : Dict String (List ℕ))
      → IsRecordedAs f p id t
      → Good d
      → Good (add_to id t d)
  add_to-Good id t [] e g = ((t, refl, e), tt)
  add_to-Good id t ((j, xs) ∷ d) e ((u, is, known), g) = elim (string_key.same j id) [
    | yes same ↦
        rw (if_pos _ same)
          ((u, rw is (add_known t u (some_eq (sym e.0 ∙ rw (← same) known.0))), known), g)
    | no ne ↦ rw (if_neg _ ne) ((u, is, known), add_to-Good id t d e g)
  ]

  enter-Good :
      (b : Bool) (r : RequestResult) (o : Option ℕ) (d : Dict String (List ℕ))
      → r.ticket_number ≡ o
      → BackedLater f p r
      → Good d
      → Good (enter b o r.req_id d)
  enter-Good true r (some t) d e k g = add_to-Good r.req_id t d (k t e) g
  enter-Good true r none d e k g = g
  enter-Good false r o d e k g = g

  per_req_tickets-Good :
      (rs : List RequestResult) (d : Dict String (List ℕ))
      → All (BackedLater f p) rs
      → Good d
      → Good (per_req_tickets rs d)
  unfolding per_req_tickets
  per_req_tickets-Good [] d k g = g
  per_req_tickets-Good (r ∷ rs) d (k, ks) g =
      per_req_tickets-Good rs _ ks
        (enter-Good (is_ticket_status r.body_status) r r.ticket_number d refl k g)

  none_conflicting-Good : (d : Dict String (List ℕ)) → Good d → none_conflicting d ≡ true
  unfolding none_conflicting
  none_conflicting-Good [] g = refl
  none_conflicting-Good ((id, xs) ∷ d) ((t, is, known), g) = rw (is, none_conflicting-Good d g)

  agrees_known : (t : ℕ) (o : Option ℕ) → ((u : ℕ) → o ≡ some u → u ≡ t) → agrees o (t ∷ []) ≡ true
  agrees_known t none h = refl
  agrees_known t (some u) h = rw (h u refl) (ground arith)

  none_mismatched-Good : (d : Dict String (List ℕ)) → Good d → none_mismatched p d ≡ true
  unfolding none_mismatched
  none_mismatched-Good [] g = refl
  none_mismatched-Good ((id, xs) ∷ d) ((t, is, known), g) =
      rw (is, agrees_known t (get id p) known.1, none_mismatched-Good d g)

  pub inv3-Good :
      (b : StatusBody) (rs : List RequestResult)
      → b.processed_requests ≡ p
      → All (BackedLater f p) rs
      → inv3_pass b rs ≡ true
  unfolding inv3_pass
  inv3-Good b rs e k =
      let good = per_req_tickets-Good rs [] k tt in
      rw (e, none_conflicting-Good _ good, none_mismatched-Good _ good)

-- A valid state of the fixed seller passes all four checks, with any results whose tickets are recorded
-- for their req_ids then or later, if the state records no other tickets for these.
pub earlier_state_passes :
    (s : State) (record_of : String → Option ℕ) (results : List RequestResult)
    → IsValid s
    → All (BackedLater record_of s.processed_requests) results
    → check_invariants (status s) results ≡ true
unfolding check_invariants status
earlier_state_passes s record_of results v backed = rw (one, two, three, four)
  where
    issued_length : length (values s.processed_requests) ≡ s.sold_count
    issued_length = ap length v.consistent.issued ∙ length-up_to s.sold_count

    one : inv1_pass (status s) ≡ true
    one = ground (arith, issued_length, v.not_oversold)

    two : inv2_pass (status s) ≡ true
    two = eq→== _ _ (
        sym (
          to_set-length (values s.processed_requests)
            (λ x. rw v.consistent.issued (count-up_to_le x s.sold_count))))

    three : inv3_pass (status s) results ≡ true
    three = inv3-Good record_of s.processed_requests (status s) results refl backed

    four : inv4_pass (status s) ≡ true
    four = ground (
      arith,
      issued_length,
      length-values s.processed_requests,
      user_ticket_total-length s.user_tickets,
      v.consistent.held_total,
    )

Backed-later :
    (p : Dict String ℕ) (r : RequestResult) → Backed p r → BackedLater (λ id. get id p) p r
Backed-later p r h t e = (h t e, λ u k. some_eq (sym k ∙ h t e))

pub valid_state_passes :
    (s : State) (results : List RequestResult)
    → IsValid s
    → All (Backed s.processed_requests) results
    → check_invariants (status s) results ≡ true
valid_state_passes s results v backed =
    earlier_state_passes s (λ id. get id s.processed_requests) results v
      (All-mono results (λ r. Backed-later s.processed_requests r) backed)
