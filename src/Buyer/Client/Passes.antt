-- ===== src/Buyer/Client/Passes.antt =====
-- The exit code of `main` in buyer/load_client.py and buyer/load_client_async.py, for any seller that fills
-- the interface.
use ticket_selling_system.Prelude.{
  ℕ, zero, suc, ◌≡◌, refl, ap, subst, ◌⊎◌, inl, inr, String, Bool, true, false, Option, none, some,
  List, [], ◌∷◌, ℕ_discrete, All, if◌then◌else◌, none_eq_some, if_pos, if_neg,
}
use ticket_selling_system.Store.{BuyRequest}
use ticket_selling_system.Buyer.{BodyStatus, RequestResult, check_invariants}
use ticket_selling_system.Buyer.Client.{
  Reply, body, not_json, BackedBy, HttpSeller, Delivery, lost_request, lost_answer, answered, Task,
  trying, finished, after_reply, post, attempt, Load, put_task, Turn, turn, turns, start,
  put_result, gather, main,
}

module _ (seller : HttpSeller) where
  open seller use {
    State, Env, buy, reset, status, IsGood, IsAsked, record_of, buy-IsGood, buy-record, buy-keeps,
    IsReady, IsCalm, ready-IsGood, reset-IsGood, status_passes,
  }

  -- The result of a task, if it has one, is of a request that may be sent, and backed by the records.
  abbrev IsBacked : State → Task → Type 0
  IsBacked s (trying _) = Unit
  IsBacked s (finished r) = ((r.ticket_number ≡ none) ⊎ IsAsked r.req_id) × BackedBy (record_of s) r

  pub post-IsGood :
      (d : Delivery) (v : Env) (req : BuyRequest) (s : State)
      → IsGood s
      → IsGood (post seller d v req s).1
  post-IsGood lost_request v req s g = g
  post-IsGood lost_answer v req s g = buy-IsGood v req s g
  post-IsGood answered v req s g = buy-IsGood v req s g

  pub post-keeps :
      (d : Delivery) (v : Env) (req : BuyRequest) (s : State) (id : String) (t : ℕ)
      → IsGood s
      → record_of s id ≡ some t
      → record_of (post seller d v req s).1 id ≡ some t
  post-keeps lost_request v req s id t g h = h
  post-keeps lost_answer v req s id t g h = buy-keeps v req s id t g h
  post-keeps answered v req s id t g h = buy-keeps v req s id t g h

  attempt-IsGood :
      (d : Delivery) (v : Env) (req : BuyRequest) (a : Task) (s : State)
      → IsGood s
      → IsGood (attempt seller d v req a s).1
  unfolding attempt
  attempt-IsGood d v req (finished r) s g = g
  attempt-IsGood d v req (trying zero) s g = g
  attempt-IsGood d v req (trying (suc left)) s g = post-IsGood d v req s g

  attempt-keeps :
      (d : Delivery) (v : Env) (req : BuyRequest) (a : Task) (s : State) (id : String) (t : ℕ)
      → IsGood s
      → record_of s id ≡ some t
      → record_of (attempt seller d v req a s).1 id ≡ some t
  unfolding attempt
  attempt-keeps d v req (finished r) s id t g h = h
  attempt-keeps d v req (trying zero) s id t g h = h
  attempt-keeps d v req (trying (suc left)) s id t g h = post-keeps d v req s id t g h

  reply-IsBacked :
      (req : BuyRequest) (left : ℕ) (s : State) (o : Reply)
      → IsAsked req.req_id
      → ((b : Option BodyStatus) (t : ℕ) → o ≡ body b (some t) → record_of s req.req_id ≡ some t)
      → IsBacked s (after_reply req left (some o))
  reply-IsBacked req left s not_json asked h = tt
  reply-IsBacked req left s (body b ticket) asked h = (inr asked, λ t e. h b t (ap (body b) e))

  attempt-IsBacked :
      (d : Delivery) (v : Env) (req : BuyRequest) (a : Task) (s : State)
      → IsGood s
      → IsAsked req.req_id
      → IsBacked s a
      → IsBacked (attempt seller d v req a s).1 (attempt seller d v req a s).0
  unfolding attempt
  attempt-IsBacked d v req (finished r) s g asked k = k
  attempt-IsBacked d v req (trying zero) s g asked k = (inl refl, λ t e. none_eq_some e)
  attempt-IsBacked lost_request v req (trying (suc left)) s g asked k = tt
  attempt-IsBacked lost_answer v req (trying (suc left)) s g asked k = tt
  attempt-IsBacked answered v req (trying (suc left)) s g asked k =
      reply-IsBacked req left (buy v req s).1 (buy v req s).0 asked
        (λ b t e. buy-record v req s b t g asked e)

  -- What is recorded later still backs a result.
  IsBacked-mono :
      (s s' : State) (a : Task)
      → ((id : String) (t : ℕ) → record_of s id ≡ some t → record_of s' id ≡ some t)
      → IsBacked s a
      → IsBacked s' a
  IsBacked-mono s s' (trying _) keeps k = tt
  IsBacked-mono s s' (finished r) keeps k = (k.0, λ t e. keeps r.req_id t (k.1 t e))

  record IsSound (y : Load seller) : Type 0 where
    good : IsGood y.store
    backed : (i : ℕ) → IsBacked y.store (y.task i)

  put_task-IsBacked :
      (s : State) (f : ℕ → Task) (i : ℕ) (a : Task)
      → IsBacked s a
      → ((j : ℕ) → IsBacked s (f j))
      → (j : ℕ) → IsBacked s (put_task seller f i a j)
  put_task-IsBacked s f i a k ks j = elim (ℕ_discrete j i) [
    | yes e ↦ rw (if_pos _ e) k
    | no ne ↦ rw (if_neg _ ne) (ks j)
  ]

  module _ (plan : ℕ → BuyRequest) (asked : (i : ℕ) → IsAsked (plan i).req_id) where
    turn-IsSound : (y : Load seller) (u : Turn seller) → IsSound y → IsSound (turn seller plan y u)
    unfolding turn
    turn-IsSound y u k = record {
      good = attempt-IsGood u.delivery u.env (plan u.who) (y.task u.who) y.store k.good;
      backed =
          put_task-IsBacked _ y.task u.who _
            (attempt-IsBacked u.delivery u.env (plan u.who) (y.task u.who) y.store k.good
              (asked u.who) (k.backed u.who))
            (λ j.
              IsBacked-mono y.store _ (y.task j)
                (λ id t.
                  attempt-keeps u.delivery u.env (plan u.who) (y.task u.who) y.store id t k.good)
                (k.backed j));
    }

    turns-IsSound :
        (us : List (Turn seller)) (y : Load seller) → IsSound y → IsSound (turns seller plan us y)
    unfolding turns
    turns-IsSound [] y k = k
    turns-IsSound (u ∷ us) y k = turns-IsSound us (turn seller plan y u) (turn-IsSound y u k)

  put_result-All :
      (P : RequestResult → Type 0) (a : Task) (rs : List RequestResult)
      → ((r : RequestResult) → a ≡ finished r → P r)
      → All P rs
      → All P (put_result a rs)
  put_result-All P (trying _) rs h k = k
  put_result-All P (finished r) rs h k = (h r refl, k)

  gather-All :
      (P : RequestResult → Type 0) (n : ℕ) (task : ℕ → Task)
      → ((i : ℕ) (r : RequestResult) → task i ≡ finished r → P r)
      → All P (gather n task)
  gather-All P zero task h = tt
  gather-All P (suc n) task h =
      put_result-All P (task n) (gather n task) (h n) (gather-All P n task h)

  finished-IsBacked :
      (s : State) (a : Task) (r : RequestResult)
      → IsBacked s a
      → a ≡ finished r
      → IsBacked s (finished r)
  finished-IsBacked s a r k e = subst (IsBacked s) e k

  load_passes :
      (n : ℕ) (y : Load seller)
      → IsSound y
      → check_invariants (status y.store) (gather n y.task) ≡ true
  load_passes n y k =
      status_passes y.store (gather n y.task) k.good
        (gather-All _ n y.task (λ i r e. (finished-IsBacked y.store (y.task i) r (k.backed i) e).0))
        (gather-All _ n y.task (λ i r e. (finished-IsBacked y.store (y.task i) r (k.backed i) e).1))

  -- main
  pub main_exits_zero :
      (plan : ℕ → BuyRequest) (n max_retries : ℕ) (no_reset : Bool) (v : Env)
      (us : List (Turn seller)) (s : State)
      → ((i : ℕ) → IsAsked (plan i).req_id)
      → IsCalm v
      → IsReady s
      → main seller plan n max_retries no_reset v us s ≡ 0
  unfolding main
  main_exits_zero plan n max_retries no_reset v us s asked calm g =
      rw (load_passes n _ (turns-IsSound plan asked us _ (begins no_reset)))
    where
      begins : (b : Bool) → IsSound (start seller max_retries (if b then s else reset v s))
      begins true = record { good = ready-IsGood s g; backed = λ i. tt }
      begins false = record { good = reset-IsGood v s calm g; backed = λ i. tt }
