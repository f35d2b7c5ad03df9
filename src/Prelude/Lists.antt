-- ===== src/Prelude/Lists.antt =====
-- Lists measured and counted by native numbers.
use Prim.Native.Nat.{ℕ, zero, suc, ◌+◌, ◌≤◌, ◌<◌}
use mathlib.Core.Path.{◌≡◌, refl, ap, subst}
use mathlib.Core.Option.{Option, none, some}
use mathlib.Core.List.{List, [], ◌∷◌, ◌++◌, map}
use native.Mathlib.Omega.{arith}
use native.Mathlib.Numerals.{add-one}
use ticket_selling_system.Prelude.Tests.{◌==◌, if◌then◌else◌, some_eq}

module _ {ℓ} {A : Type ℓ} where
  abbrev pub length : List A → ℕ
  length [] = 0
  length (x ∷ xs) = suc (length xs)

  abbrev pub replicate : ℕ → A → List A
  replicate zero a = []
  replicate (suc n) a = a ∷ replicate n a

  pub length-append : (xs ys : List A) → length (xs ++ ys) ≡ length xs + length ys
  length-append [] ys = omega arith
  length-append (x ∷ xs) ys = omega (arith, length-append xs ys)

module _ {ℓ κ} {A : Type ℓ} {B : Type κ} where
  pub length-map : (f : A → B) (xs : List A) → length (map f xs) ≡ length xs
  length-map f [] = refl
  length-map f (x ∷ xs) = ap suc (length-map f xs)

-- A predicate on every element, by recursion.
abbrev pub All {ℓ κ} : {A : Type ℓ} → (A → Type κ) → List A → Type κ
All P [] = Unit
All P (x ∷ xs) = P x × All P xs

pub All-append {ℓ κ} :
    {A : Type ℓ} (P : A → Type κ) (xs ys : List A) → All P xs → All P ys → All P (xs ++ ys)
All-append P [] ys hx hy = hy
All-append P (x ∷ xs) ys hx hy = (hx.0, All-append P xs ys hx.1 hy)

pub All-mono {ℓ κ μ} :
    {A : Type ℓ} {P : A → Type κ} {Q : A → Type μ} (xs : List A)
    → ((a : A) → P a → Q a)
    → All P xs
    → All Q xs
All-mono [] f h = tt
All-mono (x ∷ xs) f h = (f x h.0, All-mono xs f h.1)

-- How often a number occurs.
abbrev pub count : ℕ → List ℕ → ℕ
count t [] = 0
count t (x ∷ rest) = count t rest + (if x == t then 1 else 0)

-- 1, 2, …, n.
abbrev pub up_to : ℕ → List ℕ
up_to zero = []
up_to (suc n) = up_to n ++ suc n ∷ []

pub count-append :
    (t : ℕ) (front back : List ℕ) → count t (front ++ back) ≡ count t front + count t back
count-append t [] back = omega arith
count-append t (f ∷ front) back = let rest = count-append t front back in omega (arith, rest)

pub up_to-add_one : (n : ℕ) → up_to (n + 1) ≡ up_to n ++ (n + 1) ∷ []
up_to-add_one n = rw add-one

pub length-up_to : (n : ℕ) → length (up_to n) ≡ n
length-up_to zero = refl
length-up_to (suc n) = omega (arith, length-append (up_to n) (suc n ∷ []), length-up_to n)

pub up_to_bounds : (n : ℕ) → All (λ t. (1 ≤ t) × (t ≤ n)) (up_to n)
up_to_bounds zero = tt
up_to_bounds (suc n) =
    All-append (λ t. (1 ≤ t) × (t ≤ suc n)) (up_to n) (suc n ∷ [])
      (All-mono (up_to n) (λ a h. omega arith) (up_to_bounds n)) (omega arith)

-- Every number from 1 to n occurs once, and no other number occurs.
pub count-up_to_above : (a n : ℕ) → n < a → count a (up_to n) ≡ 0
count-up_to_above a zero h = refl
count-up_to_above a (suc n) h =
    ground (arith, count-append a (up_to n) (suc n ∷ []), count-up_to_above a n)

pub count-up_to_le : (a n : ℕ) → count a (up_to n) ≤ 1
count-up_to_le a zero = omega arith
count-up_to_le a (suc n) =
    ground (arith, count-append a (up_to n) (suc n ∷ []), count-up_to_le a n, count-up_to_above a n)

-- The element at a place, from 0 on.
abbrev pub get_elem? {ℓ} : {A : Type ℓ} → List A → ℕ → Option A
get_elem? [] i = none
get_elem? (x ∷ xs) zero = some x
get_elem? (x ∷ xs) (suc i) = get_elem? xs i

pub All-get_elem? {ℓ κ} :
    {A : Type ℓ} (P : A → Type κ) (xs : List A) (i : ℕ) (a : A)
    → All P xs
    → get_elem? xs i ≡ some a
    → P a
All-get_elem? P [] i a h e = cc
All-get_elem? P (x ∷ xs) zero a h e = subst P (some_eq e) h.0
All-get_elem? P (x ∷ xs) (suc i) a h e = All-get_elem? P xs i a h.1 e

-- Each number is at most those after it.
abbrev pub Ascends : List ℕ → Type 0
Ascends [] = Unit
Ascends (n ∷ ns) = All (λ m. n ≤ m) ns × Ascends ns
