-- ===== src/Dict/Laws.antt =====
-- The laws of the dict operations.
use ticket_selling_system.Prelude.{
  ℕ, suc, ◌+◌, ◌≤◌, ◌≡◌, ◌≢◌, refl, ap, true, false, none, some, List, [], ◌∷◌, ◌++◌, ite, arith,
  Key, length, length-append, count, count-append, All,
}
use ticket_selling_system.Dict.{Dict, values, get, contains, insert, append_to, joined}

module _ {ℓ} {K V : Type ℓ} ⦃key : Key K⦄ where
  pub contains_of_none : (k : K) (d : Dict K V) → get k d ≡ none → contains k d ≡ false
  contains_of_none k d h = rw (h, contains)

  pub contains_of_some : (k : K) (v : V) (d : Dict K V) → get k d ≡ some v → contains k d ≡ true
  contains_of_some k v d h = rw (h, contains)

  pub get-insert :
      (k j : K) (v : V) (d : Dict K V)
      → get j (insert k v d) ≡ ite (key.same k j) (some v) (get j d)
  get-insert k j v [] = refl
  get-insert k j v (e ∷ d) = ground (arith, get-insert k j v d)

  pub get-insert_self : (k : K) (v : V) (d : Dict K V) → get k (insert k v d) ≡ some v
  get-insert_self k v d = ground (arith, get-insert k k v d)

  pub get-insert_ne : (k j : K) (v : V) (d : Dict K V) → k ≢ j → get j (insert k v d) ≡ get j d
  get-insert_ne k j v d h = ground (arith, get-insert k j v d)

  -- A new key goes to the end.
  pub insert_new : (k : K) (v : V) (d : Dict K V) → get k d ≡ none → insert k v d ≡ d ++ (k, v) ∷ []
  insert_new k v [] h = refl
  insert_new k v (e ∷ d) h = ground (arith, insert_new k v d)

module _ {ℓ} {K V : Type ℓ} where
  pub values-append : (d e : Dict K V) → values (d ++ e) ≡ values d ++ values e
  values-append [] e = refl
  values-append (x ∷ d) e = ap (◌∷◌ x.1) (values-append d e)

  pub values-insert_new :
      (k : K) (v : V) ⦃key : Key K⦄ (d : Dict K V)
      → get k d ≡ none
      → values (insert k v d) ≡ values d ++ v ∷ []
  values-insert_new k v d h = rw (insert_new k v d h) (values-append d ((k, v) ∷ []))

  pub length-values : (d : Dict K V) → length (values d) ≡ length d
  length-values [] = refl
  length-values (x ∷ d) = ap suc (length-values d)

  pub All-values {κ} :
      (P : V → Type κ) (k : K) (v : V) ⦃key : Key K⦄ (d : Dict K V)
      → get k d ≡ some v
      → All P (values d)
      → P v
  All-values P k v [] e h = cc
  All-values P k v (x ∷ d) e h = ground (arith, All-values P k v d)

-- Two keys with one value make it occur twice among the values.
module _ {K : Type 0} ⦃key : Key K⦄ where
  pub count-values_pos : (k : K) (t : ℕ) (d : Dict K ℕ) → get k d ≡ some t → 1 ≤ count t (values d)
  count-values_pos k t [] e = cc
  count-values_pos k t (x ∷ d) e = ground (arith, count-values_pos k t d)

  pub count-values_two :
      (k j : K) (t : ℕ) (d : Dict K ℕ)
      → k ≢ j
      → get k d ≡ some t
      → get j d ≡ some t
      → 2 ≤ count t (values d)
  count-values_two k j t [] ne e f = cc
  count-values_two k j t (x ∷ d) ne e f =
      ground (arith, count-values_two k j t d ne, count-values_pos k t d, count-values_pos j t d)

module _ {K : Type 0} ⦃key : Key K⦄ where
  -- An append adds its element once to all the lists together.
  pub count-append_to :
      (a : ℕ) (k : K) (v : ℕ) (d : Dict K (List ℕ))
      → count a (joined (append_to k v d)) ≡ count a (joined d) + count a (v ∷ [])
  count-append_to a k v [] = omega arith
  count-append_to a k v ((j, vs) ∷ d) = ground (
    arith,
    count-append_to a k v d,
    count-append a vs (joined d),
    count-append a vs (v ∷ []),
    count-append a (vs ++ v ∷ []) (joined d),
    count-append a vs (joined (append_to k v d)),
  )

  pub length-append_to :
      (k : K) (v : ℕ) (d : Dict K (List ℕ))
      → length (joined (append_to k v d)) ≡ length (joined d) + 1
  length-append_to k v [] = refl
  length-append_to k v ((j, vs) ∷ d) = ground (
    arith,
    length-append_to k v d,
    length-append vs (joined d),
    length-append vs (v ∷ []),
    length-append (vs ++ v ∷ []) (joined d),
    length-append vs (joined (append_to k v d)),
  )
