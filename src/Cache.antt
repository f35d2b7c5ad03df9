-- ===== src/Cache.antt =====
-- distributed/app/cache.py: the cached body of `GET /status` in Redis. Redis and the json module are
-- not part of the program: an interface gives the commands on the one key, and what they are documented
-- to do to its value. Any command may fail, and may have taken effect all the same.
pub mod Coherent
pub mod Holds
use ticket_selling_system.Prelude.{◌≡◌, ◌⊎◌, String, Option, none, some, Bool, true, false}

-- The reply to a command; `fails` is any exception.
pub data Reply {ℓ} (A : Type ℓ) : Type ℓ where
  answers : A → Reply A
  fails : Reply A

-- `Text` is what Redis keeps as a value.
pub record StatusKey (Text : Type 0) : Type 1 where
  pub Server : Type 0
  -- the value of `status_cache:v1`, none if the key does not exist or has expired
  pub held : Server → Option Text
  pub get_key : Server → Reply (Option Text) × Server
  pub set_key : Text → Server → Reply (Unit {0}) × Server
  pub delete_key : Server → Reply (Unit {0}) × Server
  -- GET answers the value; the key may expire meanwhile
  pub get_answers :
      (s : Server) (v : Option Text) → (get_key s).0 ≡ answers v → (v ≡ held s) ⊎ (v ≡ none)
  pub get_keeps : (s : Server) → (held (get_key s).1 ≡ held s) ⊎ (held (get_key s).1 ≡ none)
  -- SET that answers has set the value; one that fails may have
  pub set_answers :
      (v : Text) (s : Server) → (set_key v s).0 ≡ answers tt → held (set_key v s).1 ≡ some v
  pub set_keeps :
      (v : Text) (s : Server) → (held (set_key v s).1 ≡ some v) ⊎ (held (set_key v s).1 ≡ held s)
  -- DEL that answers has removed the key
  pub delete_answers : (s : Server) → (delete_key s).0 ≡ answers tt → held (delete_key s).1 ≡ none
  pub delete_keeps :
      (s : Server) → (held (delete_key s).1 ≡ none) ⊎ (held (delete_key s).1 ≡ held s)

-- `json.dumps` and `json.loads`; `loads` may raise on a corrupt text.
pub record Json (Text Body : Type 0) : Type 0 where
  pub dumps : Body → Text
  pub loads : Text → Option Body
  pub loads-dumps : (b : Body) → loads (dumps b) ≡ some b

module _ {Text : Type 0} (r : StatusKey Text) {Body : Type 0} (json : Json Text Body) where
  open r use {Server, get_key, set_key, delete_key}
  open json use {dumps, loads}

  -- What the first `try` makes of the reply: the cached body, or none for a miss of any kind.
  abbrev pub cached : Reply (Option Text) → Option Body
  cached (answers (some raw)) = loads raw
  cached (answers none) = none
  cached fails = none

  abbrev pub serve : Body → Option Body → Server → Body × Server
  serve status (some b) s = (b, s)
  serve status none s = (status, (set_key (dumps status) s).1)

  -- `get_cached_status`; `status` is what `db.get_status` gives now.
  unfoldable pub get_cached_status : Body → Server → Body × Server
  get_cached_status status s = serve status (cached (get_key s).0) (get_key s).1

  unfoldable pub invalidate_status_cache : Server → Server
  invalidate_status_cache s = (delete_key s).1
