-- ===== src/App/Site.antt =====
-- distributed/app as its clients see it: the replicas with their breakers and limiters, the service behind
-- them, and the cached status in Redis. `GET /status` of distributed/app/main.py goes through the cache.
use ticket_selling_system.Prelude.{ℕ, String, Option, List, [], ◌∷◌, Key}
use ticket_selling_system.Store.{StatusBody}
use ticket_selling_system.Limiter.{Limits}
use ticket_selling_system.Limiter.Allow.{World}
use ticket_selling_system.Db.{Outcome, ok, raised, reset_state}
use ticket_selling_system.Db.Snapshot.{get_status}
use ticket_selling_system.Cache.{StatusKey, Json, get_cached_status, invalidate_status_cache}
use ticket_selling_system.Queue.{Entry, Service}
use ticket_selling_system.App
use ticket_selling_system.App.{Response}
use ticket_selling_system.App.Served.{share, Env, serve}

-- What the functions of distributed/app/cache.py do while a handler runs: an invalidation, by it or by a
-- consumer, or the GET of a poller that reads the database, if it must, before or after the handler.
pub data CacheCall : Type 0 where
  invalidates polls_before polls_after : CacheCall

-- What happens with a request to a replica, and to the cache meanwhile.
pub record Visit : Type 0 where
  pub env : Env
  pub cache_calls : List CacheCall

-- No poller that has read the database before the handler stores after it.
abbrev pub ReadsAfter : CacheCall → Type 0
ReadsAfter invalidates = Unit
ReadsAfter polls_before = ⊥
ReadsAfter polls_after = Unit

module _ {Text : Type 0} (r : StatusKey Text) (json : Json Text StatusBody) where
  open r use {Server}

  abbrev pub call : StatusBody → StatusBody → CacheCall → Server → Server
  call before after invalidates s = invalidate_status_cache r json s
  call before after polls_before s = (get_cached_status r json before s).1
  call before after polls_after s = (get_cached_status r json after s).1

  unfoldable pub calls : StatusBody → StatusBody → List CacheCall → Server → Server
  calls before after [] s = s
  calls before after (c ∷ cs) s = calls before after cs (call before after c s)

  pub record Site (Uuid : Type 0) : Type 0 where
    pub worlds : ℕ → World
    pub service : Service Uuid
    pub cache : Server

  module _ {Uuid : Type 0} ⦃key : Key Uuid⦄ (parse : String → Option Uuid)
      (show : Uuid → String) where
    abbrev pub database_status : Service Uuid → StatusBody
    database_status y = get_status show y.tables y.tables

    -- `/buy` at the replica that nginx chose.
    abbrev pub visit : Limits → Visit → Entry → Site Uuid → Response × Site Uuid
    visit c v e x =
        let i = v.env.replica in
        let (response, w, y) = serve parse c v.env e (x.worlds i, x.service) in
        (
          response,
          record {
            worlds = share x.worlds i w;
            service = y;
            cache = calls (database_status x.service) (database_status y) v.cache_calls x.cache;
          },
        )

    -- The end of `reset_state`, which invalidates the cache if it has not raised.
    abbrev pub after_reset_state : Outcome (Unit {0}) → Server → Server
    after_reset_state (raised e) s = s
    after_reset_state (ok _) s = invalidate_status_cache r json s

    -- `/reset`; a poller may have read the database before it and store after it.
    abbrev pub reset_site : ℕ → Visit → Site Uuid → Site Uuid
    reset_site total v x =
        let i = v.env.replica in
        let (w, y) = App.reset total v.env.later v.env.clearing (x.worlds i) x.service in
        record {
          worlds = share x.worlds i w;
          service = y;
          cache =
              calls (database_status x.service) (database_status y) v.cache_calls
                (after_reset_state (reset_state total x.service.tables).0 x.cache);
        }

    -- `GET /status`.
    unfoldable pub status : Site Uuid → StatusBody × Server
    status x = get_cached_status r json (database_status x.service) x.cache
