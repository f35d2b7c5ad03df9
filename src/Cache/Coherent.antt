-- ===== src/Cache/Coherent.antt =====
-- When the cache serves the current status.
use ticket_selling_system.Prelude.{
  ◌≡◌, refl, sym, ap, ◌∙◌, ◌⊎◌, inl, inr, Option, none, some, some_eq, none_eq_some,
}
use ticket_selling_system.Cache.{
  Reply, answers, fails, StatusKey, Json, cached, serve, get_cached_status,
}

module _ {Text : Type 0} (r : StatusKey Text) {Body : Type 0} (json : Json Text Body) where
  open r use {
    Server, held, get_key, set_key, delete_key, get_answers, get_keeps, set_answers, set_keeps,
    delete_answers,
  }
  open json use {dumps, loads, loads-dumps}

  -- Nothing is cached, or the current status is.
  abbrev pub IsCoherent : Body → Server → Type 0
  IsCoherent status s = (held s ≡ none) ⊎ (held s ≡ some (dumps status))

  get-IsCoherent :
      (status : Body) (s : Server) → IsCoherent status s → IsCoherent status (get_key s).1
  get-IsCoherent status s h = keep (get_keeps s) h
    where
      keep :
          (held (get_key s).1 ≡ held s) ⊎ (held (get_key s).1 ≡ none)
          → IsCoherent status s
          → IsCoherent status (get_key s).1
      keep (inl same) (inl h) = inl (same ∙ h)
      keep (inl same) (inr h) = inr (same ∙ h)
      keep (inr gone) h = inl gone

  cached_coherent :
      (status : Body) (s : Server) (reply : Reply (Option Text))
      → (get_key s).0 ≡ reply
      → IsCoherent status s
      → (cached r json reply ≡ none) ⊎ (cached r json reply ≡ some status)
  cached_coherent status s (answers none) e h = inl refl
  cached_coherent status s fails e h = inl refl
  cached_coherent status s (answers (some raw)) e h = from (get_answers s (some raw) e) h
    where
      from :
          (some raw ≡ held s) ⊎ (some raw ≡ none)
          → IsCoherent status s
          → (loads raw ≡ none) ⊎ (loads raw ≡ some status)
      from (inl same) (inl h) = none_eq_some (sym (same ∙ h))
      from (inl same) (inr h) = inr (ap loads (some_eq (same ∙ h)) ∙ loads-dumps status)
      from (inr gone) h = none_eq_some (sym gone)

  serve-IsCoherent :
      (status : Body) (s : Server) (o : Option Body)
      → (o ≡ none) ⊎ (o ≡ some status)
      → IsCoherent status s
      → ((serve r json status o s).0 ≡ status) × IsCoherent status (serve r json status o s).1
  serve-IsCoherent status s none e h = (refl, stored (set_keeps (dumps status) s) h)
    where
      stored :
          (held (set_key (dumps status) s).1 ≡ some (dumps status))
            ⊎ (held (set_key (dumps status) s).1 ≡ held s)
          → IsCoherent status s
          → IsCoherent status (set_key (dumps status) s).1
      stored (inl set) h = inr set
      stored (inr same) (inl h) = inl (same ∙ h)
      stored (inr same) (inr h) = inr (same ∙ h)
  serve-IsCoherent status s (some b) (inl e) h = none_eq_some (sym e)
  serve-IsCoherent status s (some b) (inr e) h = (some_eq e, h)

  -- If nothing else is going on, and nothing or the current status is cached, then the current
  -- status is served, and the cache stays so; also if Redis fails, in any of its commands.
  pub get_cached_status-IsCoherent :
      (status : Body) (s : Server)
      → IsCoherent status s
      → ((get_cached_status r json status s).0 ≡ status)
        × IsCoherent status (get_cached_status r json status s).1
  unfolding get_cached_status
  get_cached_status-IsCoherent status s h =
      serve-IsCoherent status (get_key s).1 (cached r json (get_key s).0)
        (cached_coherent status s (get_key s).0 refl h) (get-IsCoherent status s h)
