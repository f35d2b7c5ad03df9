-- ===== src/Buyer/Client/Sites.antt =====
-- The cached status of distributed/app, from a reset on: it is always one of before.
use ticket_selling_system.Prelude.{
  ℕ, ◌<◌, ◌≡◌, sym, ◌∙◌, ◌⊎◌, inl, inr, String, Option, none, List, [], ◌∷◌, Key, string_key,
  none_eq_some, All, subst, refl,
}
use ticket_selling_system.Store.{StatusBody}
use ticket_selling_system.Buyer.Client.Earlier.{IsEarlier, IsEarlier-mono, now-IsEarlier}
use ticket_selling_system.Limiter.{Limits}
use ticket_selling_system.Db.{Tables, Outcome, ok, raised, int_bound, reset_state}
use ticket_selling_system.Db.Snapshot.{get_status}
use ticket_selling_system.Db.Keyed.{IsKeyed}
use ticket_selling_system.Cache.{StatusKey, Json, invalidate_status_cache}
use ticket_selling_system.Cache.Holds.{Holds, invalidate-Holds, get_cached_status-Holds}
use ticket_selling_system.Queue.{Entry}
use ticket_selling_system.App.Served.Ready.{IsReady, reset-IsServed}
use ticket_selling_system.App.Served.Keeps.{IsServed, IsKept, Handled, serve-Handled}
use ticket_selling_system.App.Site.{
  ReadsAfter, CacheCall, invalidates, polls_before, polls_after, Visit, Site, calls,
  database_status, visit, after_reset_state, reset_site, status,
}

module _ {Uuid : Type 0} ⦃key : Key Uuid⦄ (parse : String → Option Uuid) (show : Uuid → String)
    {Text : Type 0} (r : StatusKey Text) (json : Json Text StatusBody) where
  open r use {held, delete_keeps}

  -- The tables are as after earlier handlers, and what is cached, if it can be read, is earlier.
  pub record IsOpen (x : Site r json Uuid) : Type 0 where
    pub served : IsServed parse x.service
    pub cached : Holds r json (IsEarlier parse show x.service.tables) x.cache

  -- No results or answers of an earlier run, and nothing cached.
  pub record IsNew (x : Site r json Uuid) : Type 0 where
    pub ready : IsReady x.service
    pub uncached : held x.cache ≡ none

  pub uncached-Holds :
      (t : Tables Uuid) (s : r.Server) → held s ≡ none → Holds r json (IsEarlier parse show t) s
  uncached-Holds t s e raw b f l = none_eq_some (sym e ∙ f)

  calls-Holds :
      (t t' : Tables Uuid) (cs : List CacheCall) (s : r.Server)
      → IsKeyed t
      → IsKeyed t'
      → IsKept parse t t'
      → Holds r json (IsEarlier parse show t') s
      → Holds r json
          (IsEarlier parse show t')
          (calls r json (get_status show t t) (get_status show t' t') cs s)
  unfolding calls
  calls-Holds t t' [] s k k' kept h = h
  calls-Holds t t' (invalidates ∷ cs) s k k' kept h =
      calls-Holds t t' cs _ k k' kept (invalidate-Holds r json (IsEarlier parse show t') s h)
  calls-Holds t t' (polls_before ∷ cs) s k k' kept h =
      calls-Holds t t' cs _ k k' kept
        (get_cached_status-Holds r json (IsEarlier parse show t') (get_status show t t) s
          (IsEarlier-mono parse show t t' _ kept (now-IsEarlier parse show t k)) h).1
  calls-Holds t t' (polls_after ∷ cs) s k k' kept h =
      calls-Holds t t' cs _ k k' kept
        (get_cached_status-Holds r json (IsEarlier parse show t') (get_status show t' t') s
          (now-IsEarlier parse show t' k') h).1

  pub visit-Handled :
      (c : Limits) (v : Visit) (e : Entry) (x : Site r json Uuid)
      → IsOpen x
      → let (response, x') = visit r json parse show c v e x in
        Handled parse x.service e.req_id response x'.service
  visit-Handled c v e x o =
      serve-Handled parse c v.env e (x.worlds v.env.replica) x.service o.served

  pub visit-IsOpen :
      (c : Limits) (v : Visit) (e : Entry) (x : Site r json Uuid)
      → IsOpen x
      → IsOpen (visit r json parse show c v e x).1
  visit-IsOpen c v e x o =
      let h = visit-Handled c v e x o in
      let t' = (visit r json parse show c v e x).1.service.tables in
      record {
        served = h.served;
        cached =
            calls-Holds x.service.tables t' v.cache_calls x.cache o.served.keyed h.served.keyed
              h.kept
              (λ raw b held_ loaded.
                IsEarlier-mono parse show x.service.tables t' b h.kept
                  (o.cached raw b held_ loaded));
      }

  after_reset_state-uncached :
      (o : Outcome (Unit {0})) (s : r.Server)
      → held s ≡ none
      → held (after_reset_state r json parse show o s) ≡ none
  unfolding invalidate_status_cache
  after_reset_state-uncached (raised e) s h = h
  after_reset_state-uncached (ok _) s h = gone (delete_keeps s)
    where
      gone :
          (held (r.delete_key s).1 ≡ none) ⊎ (held (r.delete_key s).1 ≡ held s)
          → held (r.delete_key s).1 ≡ none
      gone (inl e) = e
      gone (inr same) = same ∙ h

  calls-after :
      (b b' : StatusBody) (cs : List CacheCall) (s : r.Server)
      → All ReadsAfter cs
      → calls r json b b' cs s ≡ calls r json b' b' cs s
  unfolding calls
  calls-after b b' [] s h = refl
  calls-after b b' (invalidates ∷ cs) s h = calls-after b b' cs _ h.1
  calls-after b b' (polls_before ∷ cs) s h = absurd h.0
  calls-after b b' (polls_after ∷ cs) s h = calls-after b b' cs _ h.1

  pub reset_site-IsOpen :
      (total : ℕ) (v : Visit) (x : Site r json Uuid)
      → total < int_bound
      → All ReadsAfter v.cache_calls
      → IsNew x
      → IsOpen (reset_site r json parse show total v x)
  reset_site-IsOpen total v x small punctual n =
      let served =
        reset-IsServed parse total v.env.later v.env.clearing (x.worlds v.env.replica) x.service
          small n.ready in
      let t' = (reset_site r json parse show total v x).service.tables in
      record {
        served = served;
        cached =
            subst (Holds r json (IsEarlier parse show t'))
              (sym (
                calls-after (database_status r json parse show x.service) (get_status show t' t')
                  v.cache_calls
                  (after_reset_state r json parse show (reset_state total x.service.tables).0
                    x.cache)
                  punctual))
              (calls-Holds t' t' v.cache_calls _ served.keyed served.keyed (λ id m h. h)
                (uncached-Holds t' _ (
                  after_reset_state-uncached (reset_state total x.service.tables).0 x.cache
                    n.uncached)));
      }

  pub status-IsEarlier :
      (x : Site r json Uuid)
      → IsOpen x
      → IsEarlier parse show x.service.tables (status r json parse show x).0
  unfolding status
  status-IsEarlier x o =
      (get_cached_status-Holds r json (IsEarlier parse show x.service.tables)
        (database_status r json parse show x.service) x.cache
        (now-IsEarlier parse show x.service.tables o.served.keyed) o.cached).0
