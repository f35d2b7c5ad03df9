-- ===== src/Buyer/Plan/Demand.antt =====
-- The plan of the load client, run against the seller of seller/main.py.
use mathlib.Core.Logic.{∥∥₁_elim}
use mathlib.Core.List.{Perm, Permᴰ}
use ticket_selling_system.Prelude.{
  ℕ, zero, suc, ◌≤◌, ◌≡◌, ◌≢◌, refl, sym, ap, subst, ◌∙◌, true, false, String, List, [], ◌∷◌, ◌++◌,
  All, length, replicate, min, arith, string_discrete,
}
use ticket_selling_system.Store.{BuyRequest, fresh}
use ticket_selling_system.Seller.{buy_all}
use ticket_selling_system.Seller.Demand.{met, new_ids, distinct, ids, sells_the_demand}
use ticket_selling_system.Buyer.Plan.{Draw, request_of, copies, extend_all, build_request_plan}

-- The ids that were met matter only as a set.
new_ids-same :
    (xs s s' : List String) → ((id : String) → met id s ≡ met id s') → new_ids s xs ≡ new_ids s' xs
new_ids-same [] s s' h = refl
new_ids-same (x ∷ xs) s s' h = ground (
  arith,
  h x,
  new_ids-same xs s s' h,
  new_ids-same xs (x ∷ s) (x ∷ s') (λ id. ground (arith, h id)),
)

met-swap : (x y id : String) (s : List String) → met id (x ∷ y ∷ s) ≡ met id (y ∷ x ∷ s)
met-swap x y id s = ground arith

new_ids-swap : (x y : String) (s l : List String) → new_ids s (x ∷ y ∷ l) ≡ new_ids s (y ∷ x ∷ l)
new_ids-swap x y s l = elim (string_discrete x y) [
  | yes e ↦ subst (λ z. new_ids s (x ∷ z ∷ l) ≡ new_ids s (z ∷ x ∷ l)) e refl
  | no ne ↦ ground (arith, new_ids-same l (y ∷ x ∷ s) (x ∷ y ∷ s) (λ id. met-swap y x id s), ne)
]

new_ids-Permᴰ :
    {p q : List BuyRequest} (s : List String) → Permᴰ p q → new_ids s (ids p) ≡ new_ids s (ids q)
new_ids-Permᴰ s Permᴰ.nil = refl
new_ids-Permᴰ s (Permᴰ.cons {a = a} {l₂ = l} e d) =
    ground (arith, new_ids-Permᴰ s d, new_ids-Permᴰ (a.req_id ∷ s) d)
    ∙ ap (λ r. new_ids s (r.req_id ∷ ids l)) e
new_ids-Permᴰ s (Permᴰ.swap {a = a} {b = b} {a' = a'} {l = l} e f) =
    new_ids-swap a.req_id b.req_id s (ids l)
    ∙ ap (λ r. new_ids s (r.req_id ∷ a.req_id ∷ ids l)) f
    ∙ ap (λ r. new_ids s (a'.req_id ∷ r.req_id ∷ ids l)) e
new_ids-Permᴰ s (Permᴰ.trans d f) = new_ids-Permᴰ s d ∙ new_ids-Permᴰ s f

distinct-perm : (p q : List BuyRequest) → Perm p q → distinct (ids p) ≡ distinct (ids q)
distinct-perm p q h = ∥∥₁_elim h (hlevel) (new_ids-Permᴰ [])

-- No two of the draws have one req_id.
abbrev pub AreDistinct : List Draw → Type 0
AreDistinct [] = Unit
AreDistinct (d ∷ ds) = All (λ e. e.req_id ≢ d.req_id) ds × AreDistinct ds

copies_not_new :
    (k : ℕ) (d : Draw) (seen : List String) (rest : List BuyRequest)
    → met d.req_id seen ≡ true
    → new_ids seen (ids (replicate k (request_of d) ++ rest)) ≡ new_ids seen (ids rest)
copies_not_new zero d seen rest h = refl
copies_not_new (suc k) d seen rest h = rw h (copies_not_new k d seen rest h)

block_is_one_id :
    (k : ℕ) (d : Draw) (seen : List String) (rest : List BuyRequest)
    → 1 ≤ k
    → met d.req_id seen ≡ false
    → new_ids seen (ids (replicate k (request_of d) ++ rest))
      ≡ suc (new_ids (d.req_id ∷ seen) (ids rest))
block_is_one_id zero d seen rest h new = absurd (omega (arith, h))
block_is_one_id (suc k) d seen rest h new =
    rw new (ap suc (copies_not_new k d (d.req_id ∷ seen) rest (ground arith)))

still_new :
    (d : Draw) (seen : List String) (ds : List Draw)
    → All (λ e. e.req_id ≢ d.req_id) ds
    → All (λ e. met e.req_id seen ≡ false) ds
    → All (λ e. met e.req_id (d.req_id ∷ seen) ≡ false) ds
still_new d seen [] h k = tt
still_new d seen (e ∷ ds) h k = (
  ground (arith, h.0, k.0, λ (same : d.req_id ≡ e.req_id). h.0 (sym same)),
  still_new d seen ds h.1 k.1,
)

copies_one : (replay_count : ℕ) (d : Draw) → 1 ≤ replay_count → 1 ≤ copies replay_count d
copies_one replay_count d h = ground (arith, h)

extend_all-new_ids :
    (replay_count : ℕ) (ds : List Draw) (seen : List String)
    → 1 ≤ replay_count
    → AreDistinct ds
    → All (λ d. met d.req_id seen ≡ false) ds
    → new_ids seen (ids (extend_all replay_count ds)) ≡ length ds
unfolding extend_all
extend_all-new_ids replay_count [] seen h k new = refl
extend_all-new_ids replay_count (d ∷ ds) seen h k new =
    block_is_one_id (copies replay_count d) d seen (extend_all replay_count ds)
      (copies_one replay_count d h) new.0
    ∙ ap suc
        (extend_all-new_ids replay_count ds (d.req_id ∷ seen) h k.1 (still_new d seen ds k.0 new.1))

none_met : (ds : List Draw) → All (λ d. met d.req_id [] ≡ false) ds
none_met [] = tt
none_met (d ∷ ds) = (refl, none_met ds)

-- If the shuffle permutes its list, each req_id is replayed at least once, and the drawn req_ids
-- are distinct, then the requests of the plan, sent one after the other to a fresh fixed seller,
-- sell one ticket for each draw, or all the tickets if they are fewer.
pub plan_sells_the_demand :
    (shuffle : List BuyRequest → List BuyRequest) (replay_count total : ℕ) (ds : List Draw)
    → ((xs : List BuyRequest) → Perm (shuffle xs) xs)
    → 1 ≤ replay_count
    → AreDistinct ds
    → (buy_all (build_request_plan shuffle replay_count ds) (fresh total)).1.sold_count
      ≡ min total (length ds)
unfolding build_request_plan
plan_sells_the_demand shuffle replay_count total ds shuffles h k =
    sells_the_demand total (build_request_plan shuffle replay_count ds)
    ∙ ap (min total) (
        distinct-perm _ _ (shuffles (extend_all replay_count ds))
        ∙ extend_all-new_ids replay_count ds [] h k (none_met ds))
