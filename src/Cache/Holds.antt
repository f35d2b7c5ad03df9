-- ===== src/Cache/Holds.antt =====
-- What a cached status may be, however stale: a property that every status read from the database has.
use ticket_selling_system.Prelude.{
  ◌≡◌, refl, sym, ap, ◌∙◌, ◌⊎◌, inl, inr, Option, none, some, subst, some_eq, none_eq_some,
}
use ticket_selling_system.Cache.{
  Reply, answers, fails, StatusKey, Json, cached, serve, get_cached_status, invalidate_status_cache,
}

module _ {Text : Type 0} (r : StatusKey Text) {Body : Type 0} (json : Json Text Body)
    (P : Body → Type 0) where
  open r use {
    Server, held, get_key, set_key, delete_key, get_answers, get_keeps, set_keeps, delete_keeps,
  }
  open json use {dumps, loads, loads-dumps}

  -- A cached text, if it can be read, is of a status with the property.
  abbrev pub Holds : Server → Type 0
  Holds s = (raw : Text) (b : Body) → held s ≡ some raw → loads raw ≡ some b → P b

  same_or_gone : (s t : Server) → (held t ≡ held s) ⊎ (held t ≡ none) → Holds s → Holds t
  same_or_gone s t (inl same) h raw b e l = h raw b (sym same ∙ e) l
  same_or_gone s t (inr gone) h raw b e l = none_eq_some (sym gone ∙ e)

  stored :
      (s t : Server) (status : Body)
      → (held t ≡ some (dumps status)) ⊎ (held t ≡ held s)
      → P status
      → Holds s
      → Holds t
  stored s t status (inl set) p h raw b e l =
      subst P (some_eq (sym (loads-dumps status) ∙ ap loads (some_eq (sym set ∙ e)) ∙ l)) p
  stored s t status (inr same) p h raw b e l = h raw b (sym same ∙ e) l

  swap : {A B : Type 0} → A ⊎ B → B ⊎ A
  swap (inl a) = inr a
  swap (inr b) = inl b

  pub invalidate-Holds : (s : Server) → Holds s → Holds (invalidate_status_cache r json s)
  unfolding invalidate_status_cache
  invalidate-Holds s h = same_or_gone s (delete_key s).1 (swap (delete_keeps s)) h

  cached-Holds :
      (s : Server) (reply : Reply (Option Text)) (b : Body)
      → (get_key s).0 ≡ reply
      → cached r json reply ≡ some b
      → Holds s
      → P b
  cached-Holds s (answers none) b e c h = none_eq_some c
  cached-Holds s fails b e c h = none_eq_some c
  cached-Holds s (answers (some raw)) b e c h = from (get_answers s (some raw) e)
    where
      from : (some raw ≡ held s) ⊎ (some raw ≡ none) → P b
      from (inl same) = h raw b (sym same) c
      from (inr gone) = none_eq_some (sym gone)

  serve-Holds :
      (status : Body) (o : Option Body) (s : Server)
      → P status
      → ((b : Body) → o ≡ some b → P b)
      → Holds s
      → P (serve r json status o s).0 × Holds (serve r json status o s).1
  serve-Holds status (some b) s p from h = (from b refl, h)
  serve-Holds status none s p from h =
      (p, stored s (set_key (dumps status) s).1 status (set_keeps (dumps status) s) p h)

  pub get_cached_status-Holds :
      (status : Body) (s : Server)
      → P status
      → Holds s
      → P (get_cached_status r json status s).0 × Holds (get_cached_status r json status s).1
  unfolding get_cached_status
  get_cached_status-Holds status s p h =
      serve-Holds status (cached r json (get_key s).0) (get_key s).1 p
        (λ b c. cached-Holds s (get_key s).0 b refl c h)
        (same_or_gone s (get_key s).1 (get_keeps s) h)
