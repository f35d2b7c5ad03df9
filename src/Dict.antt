-- ===== src/Dict.antt =====
-- A Python dict as the program uses it: entries in insertion order, a write to a known key stays in
-- its place. Keys are compared only.
pub mod Laws
use ticket_selling_system.Prelude.{
  Bool, true, false, Option, none, some, List, [], ◌∷◌, ◌++◌, map, ite, Key,
}

abbrev pub Dict {ℓ} : Type ℓ → Type ℓ → Type ℓ
Dict K V = List (K × V)

module _ {ℓ} {K V : Type ℓ} where
  -- `d.values()` and `d.keys()`
  abbrev pub values : Dict K V → List V
  values [] = []
  values ((k, v) ∷ d) = v ∷ values d

  abbrev pub keys : Dict K V → List K
  keys [] = []
  keys ((k, v) ∷ d) = k ∷ keys d

module _ {ℓ} {K V : Type ℓ} ⦃key : Key K⦄ where
  -- `d.get(k)`
  abbrev pub get : K → Dict K V → Option V
  get k [] = none
  get k ((j, v) ∷ d) = ite (key.same j k) (some v) (get k d)

  -- `k in d`
  abbrev pub contains : K → Dict K V → Bool
  contains k d = elim (get k d) [ none ↦ false | some _ ↦ true ]

  -- `d[k] = v`
  abbrev pub insert : K → V → Dict K V → Dict K V
  insert k v [] = (k, v) ∷ []
  insert k v ((j, w) ∷ d) = ite (key.same j k) ((j, v) ∷ d) ((j, w) ∷ insert k v d)

-- All the elements of a dict of lists.
module _ {ℓ} {K V : Type ℓ} where
  abbrev pub joined : Dict K (List V) → List V
  joined [] = []
  joined ((k, vs) ∷ d) = vs ++ joined d

-- `d.setdefault(k, []).append(v)`
module _ {ℓ} {K V : Type ℓ} ⦃key : Key K⦄ where
  abbrev pub append_to : K → V → Dict K (List V) → Dict K (List V)
  append_to k v [] = (k, v ∷ []) ∷ []
  append_to k v ((j, vs) ∷ d) =
      ite (key.same j k) ((j, vs ++ v ∷ []) ∷ d) ((j, vs) ∷ append_to k v d)
