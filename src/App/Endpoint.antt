-- ===== src/App/Endpoint.antt =====
-- `POST /buy` of distributed/app/main.py from its validator on. `uuid` is the class `uuid.UUID`, none where
-- it raises; FastAPI answers 422 then, and no handler runs.
pub mod Clean
use ticket_selling_system.Prelude.{
  ℕ, String, Option, none, some, List, [], ◌∷◌, Key, ite, ℕ_discrete,
}
use ticket_selling_system.Limiter.{Limits}
use ticket_selling_system.Limiter.Allow.{World}
use ticket_selling_system.Queue.{Entry, Pushed, bought, Service}
use ticket_selling_system.App.{Response, rate_limited, sold_by, server_error, limiter_error}
use ticket_selling_system.App.Served.{share, Env, serve}

pub data Answered : Type 0 where
  unprocessable : Answered
  responded : Response → Answered

abbrev pub status_code : Answered → ℕ
status_code unprocessable = 422
status_code (responded (rate_limited a)) = 429
status_code (responded (sold_by path p)) = 200
status_code (responded (server_error e)) = 500
status_code (responded limiter_error) = 500

-- A request, and what happens with it.
pub record Post : Type 0 where
  pub env : Env
  pub entry : Entry

module _ {Uuid : Type 0} ⦃key : Key Uuid⦄ (parse uuid : String → Option Uuid) where
  -- The handler runs if `req_id_must_be_uuid` gives a value.
  abbrev pub past_validator :
      Option Uuid → Limits → Env → Entry → World × Service Uuid → Answered × World × Service Uuid
  past_validator none c v e z = (unprocessable, z.0, z.1)
  past_validator (some id) c v e z =
      let (response, w, y) = serve parse c v e z in (responded response, w, y)

  unfoldable pub post_buy :
      Limits → Env → Entry → World × Service Uuid → Answered × World × Service Uuid
  unfolding serve
  post_buy c v e z = past_validator (uuid e.req_id) c v e z

  -- The answers to requests one after the other, with their req_ids, and what is there then.
  unfoldable pub posts :
      Limits
      → List Post
      → (ℕ → World) × Service Uuid
      → List (String × Answered) × (ℕ → World) × Service Uuid
  unfolding post_buy
  posts c [] (ws, y) = ([], ws, y)
  posts c (p ∷ ps) (ws, y) =
      let i = p.env.replica in
      let (a, w, y') = post_buy c p.env p.entry (ws i, y) in
      let (rest, ws', z) = posts c ps (share ws i w, y') in ((p.entry.req_id, a) ∷ rest, ws', z)
