-- ===== src/Naive/Alone.antt =====
-- A thread of naive/main.py that nobody interrupts, beside the handler of seller/main.py.
use ticket_selling_system.Prelude.{
  ℕ, zero, suc, ◌+◌, ◌-◌, ◌≤◌, ◌≡◌, refl, ◌∙◌, arith, leb, if◌then◌else◌, string_key,
}
use ticket_selling_system.Dict.{get, insert, append_to}
use ticket_selling_system.Store.{
  State, BuyRequest, BuyResponse, already_response, sold_out_response, success_response,
}
use ticket_selling_system.Seller.{buy}
use ticket_selling_system.Naive.{
  Pc, entered, looked, checked, counted, loaded, stored, numbered, recorded, listed, done, advance,
}

-- What is left of a sale when the count is written.
abbrev complete : BuyRequest → ℕ → State → BuyResponse × State
complete req ticket s =
    let s' : State = record s {
      processed_requests = insert req.req_id ticket s.processed_requests;
      user_tickets = append_to req.user_id ticket s.user_tickets;
    } in
    (success_response req ticket s', s')

abbrev sale : BuyRequest → ℕ → State → BuyResponse × State
sale req n s = complete req (n + 1) (record s { sold_count = n + 1 })

abbrev decide_sale : BuyRequest → State → BuyResponse × State
decide_sale req s =
    if leb s.total_tickets s.sold_count then (sold_out_response req, s) else sale req s.sold_count s

-- The outcome of a thread at `p` if no other thread moves, in one go.
unfoldable pub finish : BuyRequest → Pc → State → BuyResponse × State
finish req entered s = buy req s
finish req (looked known) s =
    if known
    then (already_response req (get req.req_id s.processed_requests) s, s)
    else decide_sale req s
finish req (checked known ticket) s =
    if known then (already_response req ticket s, s) else decide_sale req s
finish req (counted gone) s = if gone then (sold_out_response req, s) else sale req s.sold_count s
finish req (loaded n) s = sale req n s
finish req stored s = complete req s.sold_count s
finish req (numbered ticket) s = complete req ticket s
finish req (recorded ticket) s =
    let s' : State = record s { user_tickets = append_to req.user_id ticket s.user_tickets } in
    (success_response req ticket s', s')
finish req (listed ticket) s = (success_response req ticket s, s)
finish req (done res) s = (res, s)

-- A step does not change the outcome.
pub finish-advance :
    (req : BuyRequest) (p : Pc) (s : State)
    → finish req (advance req p s).0 (advance req p s).1 ≡ finish req p s
unfolding finish advance buy
finish-advance req entered s = ground arith
finish-advance req (done res) s = refl
finish-advance req p s = ground arith

-- How many steps a thread still takes, at most.
abbrev pub rank : Pc → ℕ
rank entered = 9
rank (looked _) = 8
rank (checked _ _) = 7
rank (counted _) = 6
rank (loaded _) = 5
rank stored = 4
rank (numbered _) = 3
rank (recorded _) = 2
rank (listed _) = 1
rank (done _) = 0

unfoldable pub iterate : ℕ → BuyRequest → Pc → State → Pc × State
iterate zero req p s = (p, s)
iterate (suc n) req p s = let (p', s') = advance req p s in iterate n req p' s'

pub finish-iterate :
    (n : ℕ) (req : BuyRequest) (p : Pc) (s : State)
    → finish req (iterate n req p s).0 (iterate n req p s).1 ≡ finish req p s
unfolding iterate
finish-iterate zero req p s = refl
finish-iterate (suc n) req p s =
    finish-iterate n req (advance req p s).0 (advance req p s).1 ∙ finish-advance req p s

pub advance-rank : (req : BuyRequest) (p : Pc) (s : State) → rank (advance req p s).0 ≤ rank p - 1
unfolding advance
advance-rank req entered s = omega arith
advance-rank req p s = ground arith

pub iterate-rank :
    (n : ℕ) (req : BuyRequest) (p : Pc) (s : State) → rank (iterate n req p s).0 ≤ rank p - n
unfolding iterate
iterate-rank zero req p s = omega arith
iterate-rank (suc n) req p s =
    omega (arith, advance-rank req p s, iterate-rank n req (advance req p s).0 (advance req p s).1)

pub rank_zero : (p : Pc) → rank p ≡ 0 → (r : BuyResponse) × (p ≡ done r)
rank_zero (done r) h = (r, refl)
rank_zero p h = absurd (omega arith)

read_done :
    (req : BuyRequest) (out : Pc × State) (b : BuyResponse × State)
    → rank out.0 ≡ 0
    → finish req out.0 out.1 ≡ b
    → out ≡ (done b.0, b.1)
unfolding finish
read_done req (done r, s) b h e = cc
read_done req (p, s) b h e = absurd (omega arith)

-- Nine steps of the naive handler with no other thread in between give the response and the state
-- that the fixed seller's /buy gives.
pub alone_is_buy :
    (req : BuyRequest) (s : State) → iterate 9 req entered s ≡ (done (buy req s).0, (buy req s).1)
unfolding finish
alone_is_buy req s =
    read_done req (iterate 9 req entered s) (buy req s)
      (omega (arith, iterate-rank 9 req entered s)) (finish-iterate 9 req entered s)
