-- ===== src/Buyer/Plan.antt =====
-- `build_request_plan` of buyer/load_client.py and buyer/load_client_async.py. What the generator and
-- `uuid4` draw is given, and so is what `rng.shuffle` does to a list.
pub mod Demand
use ticket_selling_system.Prelude.{ℕ, Bool, String, List, [], ◌∷◌, ◌++◌, replicate, if◌then◌else◌}
use ticket_selling_system.Store.{BuyRequest}

-- What is drawn in one round of the loop: `uuid.uuid4()`, the text of `user_id`, and whether
-- `rng.random()` is below `duplicate_fraction`.
pub record Draw : Type 0 where
  pub req_id : String
  pub user_id : String
  pub duplicated : Bool

abbrev pub request_of : Draw → BuyRequest
request_of d = record { user_id = d.user_id; req_id = d.req_id }

abbrev pub copies : ℕ → Draw → ℕ
copies replay_count d = if d.duplicated then replay_count else 1

-- The plan before it is shuffled.
unfoldable pub extend_all : ℕ → List Draw → List BuyRequest
extend_all replay_count [] = []
extend_all replay_count (d ∷ ds) =
    replicate (copies replay_count d) (request_of d) ++ extend_all replay_count ds

unfoldable pub build_request_plan :
    (List BuyRequest → List BuyRequest) → ℕ → List Draw → List BuyRequest
unfolding extend_all
build_request_plan shuffle replay_count ds = shuffle (extend_all replay_count ds)
