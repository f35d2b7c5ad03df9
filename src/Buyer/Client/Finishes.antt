-- ===== src/Buyer/Client/Finishes.antt =====
-- The retry loop of `fire_one` in buyer/load_client_async.py, over the turns that a task gets.
use ticket_selling_system.Prelude.{
  ℕ, zero, suc, ◌+◌, ◌-◌, ◌≤◌, ◌≡◌, refl, sym, subst, Option, none, some, List, [], ◌∷◌, ite,
  ℕ_discrete, arith, if_pos, if_neg,
}
use ticket_selling_system.Store.{BuyRequest}
use ticket_selling_system.Buyer.{RequestResult}
use ticket_selling_system.Buyer.Client.{
  Reply, body, not_json, HttpSeller, Delivery, Task, trying, finished, after_reply, post, attempt,
  Load, Turn, turn, turns, start,
}

-- How many turns a task needs at most.
abbrev remaining : Task → ℕ
remaining (trying left) = suc left
remaining (finished r) = 0

remaining-after_reply :
    (req : BuyRequest) (left : ℕ) (o : Option Reply) → remaining (after_reply req left o) ≤ suc left
remaining-after_reply req left none = omega arith
remaining-after_reply req left (some not_json) = omega arith
remaining-after_reply req left (some (body b t)) = omega arith

-- The result of a task is one of its request.
abbrev IsOf : BuyRequest → Task → Type 0
IsOf req (trying _) = Unit
IsOf req (finished r) = r.req_id ≡ req.req_id

after_reply-IsOf :
    (req : BuyRequest) (left : ℕ) (o : Option Reply) → IsOf req (after_reply req left o)
after_reply-IsOf req left none = tt
after_reply-IsOf req left (some not_json) = tt
after_reply-IsOf req left (some (body b t)) = refl

none_remaining :
    (req : BuyRequest) (a : Task)
    → remaining a ≤ 0
    → IsOf req a
    → (r : RequestResult) × (a ≡ finished r) × (r.req_id ≡ req.req_id)
none_remaining req (trying left) h k = absurd (omega arith)
none_remaining req (finished r) h k = (r, refl, k)

module _ (seller : HttpSeller) where
  -- The turns of one task.
  abbrev pub turns_of : ℕ → List (Turn seller) → ℕ
  turns_of i [] = 0
  turns_of i (u ∷ us) = turns_of i us + ite (ℕ_discrete i u.who) 1 0

  attempt-remaining :
      (d : Delivery) (v : seller.Env) (req : BuyRequest) (a : Task) (s : seller.State)
      → remaining (attempt seller d v req a s).0 ≤ remaining a - 1
  unfolding attempt
  attempt-remaining d v req (finished r) s = omega arith
  attempt-remaining d v req (trying zero) s = omega arith
  attempt-remaining d v req (trying (suc left)) s =
      omega (arith, remaining-after_reply req left (post seller d v req s).0)

  attempt-IsOf :
      (d : Delivery) (v : seller.Env) (req : BuyRequest) (a : Task) (s : seller.State)
      → IsOf req a
      → IsOf req (attempt seller d v req a s).0
  unfolding attempt
  attempt-IsOf d v req (finished r) s k = k
  attempt-IsOf d v req (trying zero) s k = refl
  attempt-IsOf d v req (trying (suc left)) s k = after_reply-IsOf req left (post seller d v req s).0

  module _ (plan : ℕ → BuyRequest) (i : ℕ) where
    turn-remaining :
        (y : Load seller) (u : Turn seller)
        → remaining ((turn seller plan y u).task i)
          ≤ remaining (y.task i) - ite (ℕ_discrete i u.who) 1 0
    unfolding turn
    turn-remaining y u = elim (ℕ_discrete i u.who) [
      | yes e ↦ rw (if_pos _ e) (
          rw (if_pos _ e) (
            subst
              (λ j.
                remaining (attempt seller u.delivery u.env (plan u.who) (y.task u.who) y.store).0
                ≤ remaining (y.task j) - 1)
              (sym e) (attempt-remaining u.delivery u.env (plan u.who) (y.task u.who) y.store)))
      | no ne ↦ rw (if_neg _ ne) (rw (if_neg _ ne) (omega arith))
    ]

    turn-IsOf :
        (y : Load seller) (u : Turn seller)
        → IsOf (plan i) (y.task i)
        → IsOf (plan i) ((turn seller plan y u).task i)
    unfolding turn
    turn-IsOf y u k = elim (ℕ_discrete i u.who) [
      | yes e ↦ rw (if_pos _ e) (
          subst (λ j. IsOf (plan i) (attempt seller u.delivery u.env (plan j) (y.task j) y.store).0)
            e (attempt-IsOf u.delivery u.env (plan i) (y.task i) y.store k))
      | no ne ↦ rw (if_neg _ ne) k
    ]

    turns-remaining :
        (us : List (Turn seller)) (y : Load seller)
        → remaining ((turns seller plan us y).task i) ≤ remaining (y.task i) - turns_of i us
    unfolding turns
    turns-remaining [] y = omega arith
    turns-remaining (u ∷ us) y =
        omega (arith, turns-remaining us (turn seller plan y u), turn-remaining y u)

    turns-IsOf :
        (us : List (Turn seller)) (y : Load seller)
        → IsOf (plan i) (y.task i)
        → IsOf (plan i) ((turns seller plan us y).task i)
    unfolding turns
    turns-IsOf [] y k = k
    turns-IsOf (u ∷ us) y k = turns-IsOf us (turn seller plan y u) (turn-IsOf y u k)

  -- Against any seller, a task of the load client that gets at least max_retries + 2 turns has
  -- a result, whatever the order of the turns and whatever is lost, and the result is one of
  -- its own req_id.
  pub every_task_finishes :
      (plan : ℕ → BuyRequest) (max_retries : ℕ) (us : List (Turn seller)) (s : seller.State) (i : ℕ)
      → max_retries + 2 ≤ turns_of i us
      → (r : RequestResult) × ((turns seller plan us (start seller max_retries s)).task i
          ≡ finished r)
        × (r.req_id ≡ (plan i).req_id)
  every_task_finishes plan max_retries us s i enough =
      none_remaining (plan i) _
        (omega (arith, turns-remaining plan i us (start seller max_retries s)))
        (turns-IsOf plan i us (start seller max_retries s) tt)
