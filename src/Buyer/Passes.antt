-- ===== src/Buyer/Passes.antt =====
-- `check_invariants` on the status of the fixed seller, with the responses of its threads.
use ticket_selling_system.Prelude.{
  ℕ, ◌≡◌, sym, ap, ◌∙◌, true, none, List, [], ◌∷◌, string_key, All, none_eq_some, inl, inr, ◌⊎◌,
}
use ticket_selling_system.Store.{State, BuyRequest, BuyResponse}
use ticket_selling_system.Seller.{status}
use ticket_selling_system.Seller.Invariant.{IsValid}
use ticket_selling_system.Seller.Lock.{Shop, returned, open_shop, run}
use ticket_selling_system.Seller.Lock.Serial.{IsSerial, every_schedule-IsSerial}
use ticket_selling_system.Seller.Lock.Safety.{Replay-record, Phase-store, locked_never_oversells}
use ticket_selling_system.Seller.Escapes.{encoded_status}
use ticket_selling_system.Buyer.{RequestResult, check_invariants}
use ticket_selling_system.Buyer.Records.{Backed, valid_state_passes}

-- A result carries no ticket (sold out, or a transport error), or is the response of a thread.
abbrev pub Received : (ℕ → BuyRequest) → Shop → RequestResult → Type 0
Received request y r =
    (r.ticket_number ≡ none)
    ⊎ ((i : ℕ) × (res : BuyResponse) × (y.place i ≡ returned res)
        × (r.req_id ≡ (request i).req_id)
        × (r.ticket_number ≡ res.ticket_number))

module _ (request : ℕ → BuyRequest) (s : State) (is : List ℕ) where
  abbrev shop : Shop
  shop = run request is (open_shop s)

  Received-Backed :
      (r : RequestResult)
      → shop.lock ≡ none
      → Received request shop r
      → Backed shop.store.processed_requests r
  Received-Backed r l (inl e) t h = none_eq_some (sym e ∙ h)
  Received-Backed r l (inr (i, res, at, id, same)) t h =
      rw (id, Phase-store request s serial.phase l)
        (Replay-record request s i res t serial.replay (serial.told i res at) (sym same ∙ h))
    where
      serial : IsSerial request s shop
      serial = every_schedule-IsSerial request s is

  All-Backed :
      (rs : List RequestResult)
      → shop.lock ≡ none
      → All (Received request shop) rs
      → All (Backed shop.store.processed_requests) rs
  All-Backed [] l k = tt
  All-Backed (r ∷ rs) l (k, ks) = (Received-Backed r l k, All-Backed rs l ks)

-- However the threads of the fixed seller are scheduled from a valid state on, if /status reads
-- the store when the lock is free, and the threads that move between its return and the encoding
-- of its dicts leave the store as it is, then the load client that checks the encoded status
-- against results that carry no ticket or are responses of threads that had returned reports
-- PASS.
pub fixed_seller_passes :
    (request : ℕ → BuyRequest) (s : State) (is js : List ℕ) (results : List RequestResult)
    → let y = run request is (open_shop s) in
      let z = run request js y in
      IsValid s
      → y.lock ≡ none
      → All (Received request y) results
      → z.store ≡ y.store
      → check_invariants (encoded_status y.store z.store) results ≡ true
unfolding encoded_status status
fixed_seller_passes request s is js results v l k idle =
    let y = run request is (open_shop s) in
    ap (λ u. check_invariants (encoded_status y.store u) results) idle
    ∙ valid_state_passes y.store results (locked_never_oversells request s is v l)
        (All-Backed request s is results l k)
