-- ===== src/Buyer/Summary/Percentiles.antt =====
-- The figures of the latency line: they exist, and they are in order.
use ticket_selling_system.Prelude.{
  ℕ, zero, suc, ◌+◌, ◌-◌, ◌*◌, ◌/◌, ◌%◌, ◌≤◌, ◌≡◌, refl, ap, ◌∙◌, sym, some, List, [], ◌∷◌, arith,
  length, get_elem?, min, subst, ℕ_discrete, ◌≢◌, false, ==→eq, tests, ◌==◌, All, All-mono, Ascends,
  leb, leb→le, Bool-cases, inl, inr, if◌then◌else◌,
}
use native.Mathlib.Nat.{mul-le-mul_left}
use ticket_selling_system.Buyer.Summary.{
  insert_sorted, sorted, Figure, hundredths, exactly, interpolated, percentile, median,
}

insert_sorted-All :
    (P : ℕ → Type 0) (n : ℕ) (ms : List ℕ) → P n → All P ms → All P (insert_sorted n ms)
insert_sorted-All P n [] h hs = (h, tt)
insert_sorted-All P n (m ∷ ms) h hs = let rest = insert_sorted-All P n ms h hs.1 in ground arith

insert_sorted-Ascends : (n : ℕ) (ms : List ℕ) → Ascends ms → Ascends (insert_sorted n ms)
insert_sorted-Ascends n [] a = (tt, tt)
insert_sorted-Ascends n (m ∷ ms) a = elim (Bool-cases (leb n m)) [
  | inl le ↦
      let first = leb→le n m le in
      rw le ((first, All-mono ms (λ k h. omega (arith, h, first)) a.0), a)
  | inr gt ↦
      rw gt (insert_sorted-All (λ k. m ≤ k) n ms (ground arith) a.0, insert_sorted-Ascends n ms a.1)
]

pub sorted-Ascends : (ns : List ℕ) → Ascends (sorted ns)
sorted-Ascends [] = tt
sorted-Ascends (n ∷ ns) = insert_sorted-Ascends n (sorted ns) (sorted-Ascends ns)

-- The element at a place, or the last one for a place past the end.
abbrev pub nth : ℕ → List ℕ → ℕ → ℕ
nth v [] i = v
nth v (w ∷ vs) zero = v
nth v (w ∷ vs) (suc i) = nth w vs i

pub get_elem?-nth :
    (v : ℕ) (vs : List ℕ) (i : ℕ) → i ≤ length vs → get_elem? (v ∷ vs) i ≡ some (nth v vs i)
get_elem?-nth v [] zero h = refl
get_elem?-nth v [] (suc i) h = absurd (omega arith)
get_elem?-nth v (w ∷ vs) zero h = refl
get_elem?-nth v (w ∷ vs) (suc i) h = get_elem?-nth w vs i (omega arith)

nth_past : (v : ℕ) (vs : List ℕ) (i j : ℕ) → length vs ≤ i → length vs ≤ j → nth v vs i ≡ nth v vs j
nth_past v [] i j h k = refl
nth_past v (w ∷ vs) zero j h k = absurd (omega arith)
nth_past v (w ∷ vs) (suc i) zero h k = absurd (omega arith)
nth_past v (w ∷ vs) (suc i) (suc j) h k = nth_past w vs i j (omega arith) (omega arith)

pub nth_ge : (v : ℕ) (vs : List ℕ) (i : ℕ) → Ascends (v ∷ vs) → v ≤ nth v vs i
nth_ge v [] i a = omega arith
nth_ge v (w ∷ vs) zero a = omega arith
nth_ge v (w ∷ vs) (suc i) a = omega (arith, nth_ge w vs i a.1, a.0.0)

pub nth_mono : (v : ℕ) (vs : List ℕ) (i j : ℕ) → Ascends (v ∷ vs) → i ≤ j → nth v vs i ≤ nth v vs j
nth_mono v [] i j a h = omega arith
nth_mono v (w ∷ vs) zero j a h = nth_ge v (w ∷ vs) j a
nth_mono v (w ∷ vs) (suc i) zero a h = absurd (omega arith)
nth_mono v (w ∷ vs) (suc i) (suc j) a h = nth_mono w vs i j a.1 (omega arith)

-- The interpolated value at `k` hundredths of a place.
abbrev pub value : ℕ → List ℕ → ℕ → ℕ
value v vs k = nth v vs (k / 100) * (100 - k % 100) + nth v vs (k / 100 + 1) * (k % 100)

split_mix : (a d p r : ℕ) → a * p + (a + d) * r ≡ a * (p + r) + d * r
split_mix a d p r = grind arith

-- The first value and a part of the way to the second.
mix_of : (a b r : ℕ) → r ≤ 100 → a ≤ b → a * (100 - r) + b * r ≡ a * 100 + (b - a) * r
mix_of a b r h k =
    ap (λ c. a * (100 - r) + c * r) rest
    ∙ split_mix a (b - a) (100 - r) r
    ∙ ap (λ c. a * c + (b - a) * r) whole
  where
    rest : b ≡ a + (b - a)
    rest = omega arith

    whole : 100 - r + r ≡ 100
    whole = omega arith

mix_mono : (a b r s : ℕ) → r ≤ s → s ≤ 100 → a ≤ b → a * (100 - r) + b * r ≤ a * (100 - s) + b * s
mix_mono a b r s h k l =
    omega (arith, mix_of a b r (omega arith) l, mix_of a b s k l, mul-le-mul_left (b - a) h)

pub value_mono :
    (v : ℕ) (vs : List ℕ) (k l : ℕ) → Ascends (v ∷ vs) → k ≤ l → value v vs k ≤ value v vs l
value_mono v vs k l a h = elim (ℕ_discrete (k / 100) (l / 100)) [
  | yes same ↦
      subst (λ f. value v vs k ≤ nth v vs f * (100 - l % 100) + nth v vs (f + 1) * (l % 100)) same
        (mix_mono (nth v vs (k / 100)) (nth v vs (k / 100 + 1)) (k % 100) (l % 100)
          (omega (arith, same, h)) (omega arith)
          (nth_mono v vs (k / 100) (k / 100 + 1) a (omega arith)))
  | no ne ↦ omega (
    arith,
    mix_mono (nth v vs (k / 100)) (nth v vs (k / 100 + 1)) (k % 100) 100 (omega arith) (omega arith)
        (nth_mono v vs (k / 100) (k / 100 + 1) a (omega arith)),
    nth_mono v vs (k / 100 + 1) (l / 100) a (omega (arith, ne)),
    mix_mono (nth v vs (l / 100)) (nth v vs (l / 100 + 1)) 0 (l % 100) (omega arith) (omega arith)
        (nth_mono v vs (l / 100) (l / 100 + 1) a (omega arith)),
  )
]

mix_self : (a r : ℕ) → r ≤ 100 → a * 100 ≡ a * (100 - r) + a * r
mix_self a r h = omega (
  arith,
  mix_mono a a 0 r (omega arith) h (omega arith),
  mix_mono a a r 100 h (omega arith) (omega arith),
)

-- At the last place nothing is interpolated.
value_last :
    (v : ℕ) (vs : List ℕ) (k : ℕ) → length vs ≤ k / 100 → nth v vs (k / 100) * 100 ≡ value v vs k
value_last v vs k h =
    mix_self (nth v vs (k / 100)) (k % 100) (omega arith)
    ∙ ap (λ b. nth v vs (k / 100) * (100 - k % 100) + b * (k % 100))
        (nth_past v vs (k / 100) (k / 100 + 1) h (omega (arith, h)))

differs : (a b : ℕ) → (a == b) ≡ false → a ≢ b
differs a b h = ground arith

figure_at : ℕ → List ℕ → ℕ → Figure
figure_at v vs k =
    let f = k / 100 in
    let c = min (f + 1) (length vs) in
    if f == c
    then exactly (get_elem? (v ∷ vs) f)
    else interpolated (get_elem? (v ∷ vs) f) (get_elem? (v ∷ vs) c) (k % 100)

figure_at-value :
    (v : ℕ) (vs : List ℕ) (k : ℕ)
    → k ≤ length vs * 100
    → figure_at v vs k ≡ hundredths (value v vs k)
unfolding figure_at
figure_at-value v vs k h = elim (Bool-cases (k / 100 == min (k / 100 + 1) (length vs))) [
  | inl at_end ↦
      rw (at_end, get_elem?-nth v vs (k / 100) (omega (arith, h)))
        (ap hundredths (value_last v vs k (omega (tests, at_end))))
  | inr before ↦
      let next : min (k / 100 + 1) (length vs) ≡ k / 100 + 1 =
        omega (arith, differs _ _ before, h) in
      rw
        (
          before,
          next,
          get_elem?-nth v vs (k / 100) (omega (arith, h)),
          get_elem?-nth v vs (k / 100 + 1) (omega (arith, next)),
        )
        refl
]

pub percentile-value :
    (v : ℕ) (vs : List ℕ) (pct : ℕ)
    → pct ≤ 100
    → percentile (v ∷ vs) pct ≡ hundredths (value v vs (length vs * pct))
unfolding percentile figure_at
percentile-value v vs pct h = figure_at-value v vs (length vs * pct) (mul-le-mul_left (length vs) h)

-- The median is the 50th percentile.
pub median-value :
    (v : ℕ) (vs : List ℕ) → median (v ∷ vs) ≡ hundredths (value v vs (length vs * 50))
unfolding median
median-value v vs = elim (Bool-cases (suc (length vs) % 2 == 1)) [
  | inl odd ↦
      let place : length vs * 50 / 100 ≡ suc (length vs) / 2 = omega (arith, ==→eq _ _ odd) in
      let rest : length vs * 50 % 100 ≡ 0 = omega (arith, ==→eq _ _ odd) in
      rw (odd, get_elem?-nth v vs (suc (length vs) / 2) (omega (arith, place)), place, rest)
        (ap hundredths (omega arith))
  | inr even ↦
      let place : suc (length vs) / 2 - 1 ≡ length vs * 50 / 100 =
        omega (arith, differs _ _ even) in
      let next : suc (length vs) / 2 ≡ length vs * 50 / 100 + 1 = omega (arith, differs _ _ even) in
      let rest : length vs * 50 % 100 ≡ 50 = omega (arith, differs _ _ even) in
      rw
        (
          even,
          place,
          next,
          get_elem?-nth v vs (length vs * 50 / 100) (omega arith),
          get_elem?-nth v vs (length vs * 50 / 100 + 1) (omega (arith, next)),
          rest,
        )
        refl
]

pub value_first : (v : ℕ) (vs : List ℕ) → value v vs 0 ≡ v * 100
value_first v [] = omega arith
value_first v (w ∷ vs) = omega arith

pub value_end : (v : ℕ) (vs : List ℕ) → value v vs (length vs * 100) ≡ nth v vs (length vs) * 100
value_end v vs =
    sym (value_last v vs (length vs * 100) (omega arith)) ∙ ap (λ i. nth v vs i * 100) (omega arith)
