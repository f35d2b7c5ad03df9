-- ===== src/Prelude/Keys.antt =====
-- Decidable equality of keys as an interface, with the instances the program's dicts need.
use Prim.Native.Nat.{ℕ}
use Prim.Native.String.{String}
use mathlib.Core.Path.{◌≡◌, refl}
use mathlib.Core.Logic.{◌↔◌}
use mathlib.Core.Bool.{Bool, true, false, false≢true}
use native.Mathlib.Decide.{ℕ_discrete}
use text.Mathlib.Text.{◌==◌}
use text.Mathlib.TextEquality.{eq_iff}

pub record Key {ℓ} (K : Type ℓ) : Type ℓ where
  pub same : Discrete K

abbrev decide_by {ℓ} : {P : Type ℓ} (b : Bool) → (b ≡ true) ↔ P → Dec P
decide_by true h = yes (h.0 refl)
decide_by false h = no (λ p. false≢true (h.1 p))

unfoldable pub string_discrete : Discrete String
string_discrete s t = decide_by (s == t) (eq_iff s t)

instance abbrev pub string_key : Key String
string_key = record { same = string_discrete }

instance abbrev pub nat_key : Key ℕ
nat_key = record { same = ℕ_discrete }
