-- ===== src/App/Endpoint/Clean.antt =====
-- Behind the validator, `POST /buy` does not fail on a req_id that the database reads.
use ticket_selling_system.Prelude.{◌≡◌, String, Option, none, Key}
use ticket_selling_system.Limiter.Allow.{Answer, uncaught}
use ticket_selling_system.Queue.{Pushed, Service}
use ticket_selling_system.Queue.Clean.{IsBought, IsRead, IsClean}
use ticket_selling_system.App.{
  Waited, popped, Response, rate_limited, sold_by, server_error, limiter_error,
}
use ticket_selling_system.App.Endpoint.{Answered, unprocessable, responded}

-- Neither a 500 nor a body with the status `error`.
abbrev pub IsNoError : Response → Type 0
IsNoError (rate_limited a) = Unit
IsNoError (sold_by path p) = IsBought p
IsNoError (server_error e) = ⊥
IsNoError limiter_error = ⊥

-- The limiter has raised nothing.
abbrev IsCaught : Answer → Type 0
IsCaught uncaught = ⊥
IsCaught _ = Unit

module _ {Uuid : Type 0} ⦃key : Key Uuid⦄ (parse : String → Option Uuid) where
  -- For the request with this req_id.
  record WaitsClean (req_id : String) (waited : Waited) (z : Service Uuid) : Type 0 where
    clean : IsClean parse z
    told : (p : Pushed) → waited ≡ popped p → IsRead parse req_id → IsBought p

  module _ (uuid : String → Option Uuid) where
    -- 422 for a req_id that is no UUID, and else no error, if the database reads the text too.
    abbrev pub IsAnswered : String × Answered → Type 0
    IsAnswered (req_id, unprocessable) = uuid req_id ≡ none
    IsAnswered (req_id, responded r) = IsRead uuid req_id × (IsRead parse req_id → IsNoError r)
