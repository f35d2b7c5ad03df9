-- ===== src/RaceTest/Steps.antt =====
-- What the calls of seller/main.py add to the counts of the responses.
use ticket_selling_system.Prelude.{
  ℕ, ◌+◌, ◌≤◌, ◌≡◌, refl, sym, subst, ◌∙◌, Bool, ◌&&◌, Option, none, some, List, String, leb, arith,
  if◌then◌else◌, string_key,
}
use ticket_selling_system.Dict.{get}
use ticket_selling_system.Dict.Laws.{get-insert}
use ticket_selling_system.Store.{State, BuyRequest, BuyResponse}
use ticket_selling_system.Seller.{sell}
use ticket_selling_system.Seller.Buy.{Buys, known, gone, sold, buy-Buys}
use ticket_selling_system.Seller.Lock.{open_shop, run}
use ticket_selling_system.Seller.Lock.Serial.{History, Replay, begin, call, every_schedule-IsSerial}
use ticket_selling_system.RaceTest.{is_success, is_same, returned_responses}
use ticket_selling_system.RaceTest.Counts.{one_if, count_if, in_history, responses-in_history}

abbrev pub succeeded : BuyResponse → Bool
succeeded r = is_success r.status

abbrev pub told_ticket : Option ℕ → BuyResponse → Bool
told_ticket o r = is_success r.status && is_same r.ticket_number o

abbrev pub present : Option ℕ → ℕ
present none = 0
present (some _) = 1

pub present-le : (o : Option ℕ) → present o ≤ 1
present-le none = omega arith
present-le (some _) = omega arith

abbrev pub sold_up_to : ℕ → State → ℕ
sold_up_to k t = if leb k t.sold_count then 1 else 0

-- What one call adds to a count of the responses, its state has more.
module _ (req : BuyRequest) (t : State) where
  pub sales_step :
      {o : BuyResponse × State}
      → Buys req t o
      → one_if succeeded o.0 + t.sold_count ≤ o.1.sold_count
  unfolding sell
  sales_step (known n found e) = rw e (omega arith)
  sales_step (gone new full e) = rw e (omega arith)
  sales_step (sold new room e) = rw e (omega arith)

  pub total_step : {o : BuyResponse × State} → Buys req t o → o.1.total_tickets ≡ t.total_tickets
  unfolding sell
  total_step (known n found e) = rw e refl
  total_step (gone new full e) = rw e refl
  total_step (sold new room e) = rw e refl

  pub ticket_step :
      (k : ℕ) {o : BuyResponse × State}
      → Buys req t o
      → one_if (told_ticket (some k)) o.0 + sold_up_to k t ≤ sold_up_to k o.1
  unfolding sell
  ticket_step k (known n found e) = rw e (omega arith)
  ticket_step k (gone new full e) = rw e (omega arith)
  ticket_step k (sold new room e) = rw e (ground arith)

  pub none_step : {o : BuyResponse × State} → Buys req t o → one_if (told_ticket none) o.0 + 0 ≤ 0
  none_step (known n found e) = rw e (omega arith)
  none_step (gone new full e) = rw e (omega arith)
  none_step (sold new room e) = rw e (omega arith)

  pub id_step :
      (id : String) {o : BuyResponse × State}
      → req.req_id ≡ id
      → Buys req t o
      → one_if succeeded o.0 + present (get id t.processed_requests)
        ≤ present (get id o.1.processed_requests)
  unfolding sell
  id_step id same (known n found e) = rw e (omega arith)
  id_step id same (gone new full e) = rw e (omega arith)
  id_step id same (sold new room e) =
      rw (e, subst (λ j. get j t.processed_requests ≡ none) same new)
        (ground (arith, get-insert req.req_id id (t.sold_count + 1) t.processed_requests, sym same))

module _ (request : ℕ → BuyRequest) (s : State) (P : BuyResponse → Bool) (m : State → ℕ)
    (step : (i : ℕ) (t : State) (o : BuyResponse × State)
      → Buys (request i) t o
      → one_if P o.0 + m t ≤ m o.1) where
  pub Replay-in_history :
      {h : History} {t : State} → Replay request s h t → in_history P h + m s ≤ m t
  Replay-in_history begin = omega arith
  Replay-in_history (call {t = t} {t' = u} {res = res} i r e) = omega (
    arith,
    Replay-in_history r,
    step i t (res, u) (subst (λ o. Buys (request i) t o) e (buy-Buys (request i) t)),
  )

  -- The threads that have returned so, under any schedule.
  pub returned-le :
      (n : ℕ) (is : List ℕ)
      → let y = run request is (open_shop s) in
        let v = every_schedule-IsSerial request s is in
        count_if P (returned_responses n y.place) + m s ≤ m v.before
  returned-le n is =
      let v = every_schedule-IsSerial request s is in
      omega (
        arith,
        Replay-in_history v.replay,
        responses-in_history P n (run request is (open_shop s)).place v.history v.told,
      )

pub Replay-total :
    (request : ℕ → BuyRequest) (s : State) {h : History} {t : State}
    → Replay request s h t
    → t.total_tickets ≡ s.total_tickets
Replay-total request s begin = refl
Replay-total request s (call {t = t} {t' = u} {res = res} i r e) =
    total_step (request i) t (subst (λ o. Buys (request i) t o) e (buy-Buys (request i) t))
    ∙ Replay-total request s r
