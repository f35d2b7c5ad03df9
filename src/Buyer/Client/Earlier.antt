-- ===== src/Buyer/Client/Earlier.antt =====
-- The checks of the load client on a status of distributed/app that was read before the last sales.
use ticket_selling_system.Prelude.{
  ℕ, ◌≡◌, refl, sym, ap, ◌∙◌, ◌⊎◌, inl, inr, String, true, Option, none, some, List, [], ◌∷◌, All,
  Key, string_key, none_eq_some, some_eq,
}
use ticket_selling_system.Dict.{get}
use ticket_selling_system.Store.{StatusBody}
use ticket_selling_system.Buyer.{RequestResult, check_invariants}
use ticket_selling_system.Buyer.Records.{BackedLater, earlier_state_passes}
use ticket_selling_system.Buyer.Client.{BackedBy}
use ticket_selling_system.Db.{Tables, find_ticket}
use ticket_selling_system.Db.Snapshot.{get_status}
use ticket_selling_system.Db.Keyed.{IsKeyed}
use ticket_selling_system.Db.Quiet.{store_of, store_of-IsValid, get_status-eq-status}
use ticket_selling_system.Db.Lookup.{store_of-find_ticket}
use ticket_selling_system.App.Served.Keeps.{IsKept}

module _ {Uuid : Type 0} ⦃key : Key Uuid⦄ (parse : String → Option Uuid)
    (show : Uuid → String) where
  -- The text of a UUID as `str` writes it, which `str(uuid.uuid4())` is.
  abbrev pub IsWritten : String → Type 0
  IsWritten a = (id : Uuid) × (parse a ≡ some id) × (show id ≡ a)

  abbrev pub ticket_of : Option Uuid → Tables Uuid → Option ℕ
  ticket_of none t = none
  ticket_of (some id) t = find_ticket id t.sold_tickets

  abbrev pub recorded_ticket : Tables Uuid → String → Option ℕ
  recorded_ticket t a = ticket_of (parse a) t

  -- A status that the database had, when no more was recorded than now.
  abbrev pub IsEarlier : Tables Uuid → StatusBody → Type 0
  IsEarlier t b = (t0 : Tables Uuid) × IsKeyed t0 × IsKept parse t0 t × (b ≡ get_status show t0 t0)

  pub IsEarlier-mono :
      (t t' : Tables Uuid) (b : StatusBody) → IsKept parse t t' → IsEarlier t b → IsEarlier t' b
  IsEarlier-mono t t' b kept (t0, k, before, e) = (t0, k, (λ id n h. kept id n (before id n h)), e)

  pub now-IsEarlier : (t : Tables Uuid) → IsKeyed t → IsEarlier t (get_status show t t)
  now-IsEarlier t k = (t, k, (λ id n h. h), refl)

  module _ (apart : (a b : Uuid) → show a ≡ show b → a ≡ b) where
    -- Each ticket in a result is the recorded one, and an earlier status has no other one.
    ticket-BackedLater :
        (t0 t : Tables Uuid) (r : RequestResult)
        → IsKeyed t0
        → IsKept parse t0 t
        → (r.ticket_number ≡ none) ⊎ IsWritten r.req_id
        → BackedBy (recorded_ticket t) r
        → BackedLater (recorded_ticket t) (store_of show apart t0).processed_requests r
    ticket-BackedLater t0 t r k kept (inl e) h n f = none_eq_some (sym e ∙ f)
    ticket-BackedLater t0 t r k kept (inr (id, good, written)) h n f = (
      h n f,
      λ u shown.
          let row : find_ticket id t0.sold_tickets ≡ some u =
            store_of-find_ticket show apart t0 id u k
              (ap (λ a. get a (store_of show apart t0).processed_requests) written ∙ shown) in
          some_eq (sym (kept id u row) ∙ sym (ap (λ o. ticket_of o t) good) ∙ h n f),
    )

    All-BackedLater :
        (t0 t : Tables Uuid) (rs : List RequestResult)
        → IsKeyed t0
        → IsKept parse t0 t
        → All (λ r. (r.ticket_number ≡ none) ⊎ IsWritten r.req_id) rs
        → All (BackedBy (recorded_ticket t)) rs
        → All (BackedLater (recorded_ticket t) (store_of show apart t0).processed_requests) rs
    All-BackedLater t0 t [] k kept w h = tt
    All-BackedLater t0 t (r ∷ rs) k kept w h =
        (ticket-BackedLater t0 t r k kept w.0 h.0, All-BackedLater t0 t rs k kept w.1 h.1)

    pub earlier_status_passes :
        (t : Tables Uuid) (b : StatusBody) (rs : List RequestResult)
        → IsEarlier t b
        → All (λ r. (r.ticket_number ≡ none) ⊎ IsWritten r.req_id) rs
        → All (BackedBy (recorded_ticket t)) rs
        → check_invariants b rs ≡ true
    earlier_status_passes t b rs (t0, k, kept, e) w h =
        ap (λ c. check_invariants c rs) (e ∙ get_status-eq-status show apart t0 k)
        ∙ earlier_state_passes (store_of show apart t0) (recorded_ticket t) rs
            (store_of-IsValid show apart t0 k) (All-BackedLater t0 t rs k kept w h)
