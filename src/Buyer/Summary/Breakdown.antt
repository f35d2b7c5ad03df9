-- ===== src/Buyer/Summary/Breakdown.antt =====
-- The response breakdown of load_client_async.py, and the line "Transport errors".
use ticket_selling_system.Prelude.{
  ℕ, ◌+◌, ◌≤◌, ◌≡◌, ◌≢◌, refl, ap, ◌∙◌, sym, String, List, [], ◌∷◌, max, arith, length, All,
  All-mono, leb, leb→le, Bool-cases, inl, inr, ite, if_pos, if_neg, string_key,
}
use ticket_selling_system.Dict.{Dict}
use ticket_selling_system.Buyer.Summary.{
  Timed, label, add_count, count_labels, insert_common, most_common, breakdown,
}

-- 1 if the two texts are the same.
abbrev is_one : String → String → ℕ
is_one k l = ite (string_key.same k l) 1 0

-- The number of results with a label.
abbrev pub labelled : String → List Timed → ℕ
labelled l [] = 0
labelled l (r ∷ rs) = is_one (label r) l + labelled l rs

-- A measure of the lines, added up.
abbrev pub total : (String × ℕ → ℕ) → Dict String ℕ → ℕ
total weight [] = 0
total weight (e ∷ d) = weight e + total weight d

-- The counts and the number of the lines for a label.
abbrev pub tally : String → Dict String ℕ → ℕ
tally l = total (λ e. ite (string_key.same e.0 l) e.1 0)

abbrev pub lines : String → Dict String ℕ → ℕ
lines l = total (λ e. is_one e.0 l)

abbrev pub sum_counts : Dict String ℕ → ℕ
sum_counts = total (λ e. e.1)

is_one_apart : (j k l : String) → j ≢ k → is_one j l + is_one k l ≤ 1
is_one_apart j k l ne = elim (string_key.same j l) [
  | yes e ↦ rw (if_neg (string_key.same k l) (λ f. ne (e ∙ sym f))) (ground arith)
  | no e ↦ rw (if_neg (string_key.same j l) e) (ground arith)
]

add_one_to :
    (j l : String) (n : ℕ)
    → ite (string_key.same j l) (n + 1) 0 ≡ ite (string_key.same j l) n 0 + is_one j l
add_one_to j l n = ground arith

tally-add_count :
    (l k : String) (d : Dict String ℕ) → tally l (add_count k d) ≡ tally l d + is_one k l
tally-add_count l k [] = omega arith
tally-add_count l k ((j, n) ∷ d) = elim (string_key.same j k) [
  | yes same ↦
      rw (if_pos (string_key.same j k) same)
        (omega (arith, add_one_to j l n, ap (λ x. is_one x l) same))
  | no ne ↦ rw (if_neg (string_key.same j k) ne) (omega (arith, tally-add_count l k d))
]

lines-add_count :
    (l k : String) (d : Dict String ℕ) → lines l (add_count k d) ≡ max (lines l d) (is_one k l)
lines-add_count l k [] = omega arith
lines-add_count l k ((j, n) ∷ d) = elim (string_key.same j k) [
  | yes same ↦ rw (if_pos (string_key.same j k) same) (omega (arith, ap (λ x. is_one x l) same))
  | no ne ↦
      rw (if_neg (string_key.same j k) ne)
        (omega (arith, lines-add_count l k d, is_one_apart j k l ne))
]

sum-add_count : (k : String) (d : Dict String ℕ) → sum_counts (add_count k d) ≡ sum_counts d + 1
sum-add_count k [] = omega arith
sum-add_count k ((j, n) ∷ d) = elim (string_key.same j k) [
  | yes same ↦ rw (if_pos (string_key.same j k) same) (omega arith)
  | no ne ↦ rw (if_neg (string_key.same j k) ne) (omega (arith, sum-add_count k d))
]

is_one_le : (k l : String) → is_one k l ≤ 1
is_one_le k l = ground arith

count_labels-tally :
    (l : String) (rs : List Timed) (d : Dict String ℕ)
    → tally l (count_labels rs d) ≡ tally l d + labelled l rs
unfolding count_labels
count_labels-tally l [] d = omega arith
count_labels-tally l (r ∷ rs) d =
    omega (arith, count_labels-tally l rs (add_count (label r) d), tally-add_count l (label r) d)

count_labels-lines :
    (l : String) (rs : List Timed) (d : Dict String ℕ)
    → lines l d ≤ 1
    → lines l (count_labels rs d) ≤ 1
unfolding count_labels
count_labels-lines l [] d h = h
count_labels-lines l (r ∷ rs) d h =
    count_labels-lines l rs (add_count (label r) d)
      (omega (arith, lines-add_count l (label r) d, is_one_le (label r) l, h))

count_labels-sum :
    (rs : List Timed) (d : Dict String ℕ)
    → sum_counts (count_labels rs d) ≡ sum_counts d + length rs
unfolding count_labels
count_labels-sum [] d = omega arith
count_labels-sum (r ∷ rs) d =
    omega (arith, count_labels-sum rs (add_count (label r) d), sum-add_count (label r) d)

-- Any measure of the lines is the same in any order.
total-insert_common :
    (weight : String × ℕ → ℕ) (e : String × ℕ) (d : Dict String ℕ)
    → total weight (insert_common e d) ≡ weight e + total weight d
total-insert_common weight e [] = refl
total-insert_common weight e (f ∷ d) = elim (Bool-cases (leb f.1 e.1)) [
  | inl le ↦ rw le refl
  | inr gt ↦ rw gt (omega (arith, total-insert_common weight e d))
]

total-most_common :
    (weight : String × ℕ → ℕ) (d : Dict String ℕ) → total weight (most_common d) ≡ total weight d
total-most_common weight [] = refl
total-most_common weight (e ∷ d) =
    omega (arith, total-insert_common weight e (most_common d), total-most_common weight d)

-- The counts fall from line to line.
abbrev pub Falls : Dict String ℕ → Type 0
Falls [] = Unit
Falls (e ∷ d) = All (λ f. f.1 ≤ e.1) d × Falls d

insert_common-All :
    (P : String × ℕ → Type 0) (e : String × ℕ) (d : Dict String ℕ)
    → P e
    → All P d
    → All P (insert_common e d)
insert_common-All P e [] h hs = (h, tt)
insert_common-All P e (f ∷ d) h hs = elim (Bool-cases (leb f.1 e.1)) [
  | inl le ↦ rw le (h, hs)
  | inr gt ↦ rw gt (hs.0, insert_common-All P e d h hs.1)
]

insert_common-Falls : (e : String × ℕ) (d : Dict String ℕ) → Falls d → Falls (insert_common e d)
insert_common-Falls e [] a = (tt, tt)
insert_common-Falls e (f ∷ d) a = elim (Bool-cases (leb f.1 e.1)) [
  | inl le ↦
      let first = leb→le f.1 e.1 le in
      rw le ((first, All-mono d (λ g h. omega (arith, h, first)) a.0), a)
  | inr gt ↦
      rw gt (insert_common-All (λ g. g.1 ≤ f.1) e d (ground arith) a.0, insert_common-Falls e d a.1)
]

most_common-Falls : (d : Dict String ℕ) → Falls (most_common d)
most_common-Falls [] = tt
most_common-Falls (e ∷ d) = insert_common-Falls e (most_common d) (most_common-Falls d)

-- For any results, the breakdown has at most one line for a label, the count of the line is the
-- number of results with this label, which is 0 if there is no line, the counts of all lines add
-- up to the number of results, and they fall from line to line.
pub breakdown_counts :
    (rs : List Timed)
    → ((l : String) → (lines l (breakdown rs) ≤ 1) × (tally l (breakdown rs) ≡ labelled l rs))
      × (sum_counts (breakdown rs) ≡ length rs)
      × Falls (breakdown rs)
unfolding breakdown
breakdown_counts rs =
    let d : Dict String ℕ = count_labels rs [] in
    (
      (λ l. (
        omega (
          arith,
          total-most_common (λ e. is_one e.0 l) d,
          count_labels-lines l rs [] (omega arith),
        ),
        total-most_common _ d ∙ count_labels-tally l rs [] ∙ omega arith,
      )),
      total-most_common (λ e. e.1) d ∙ count_labels-sum rs [] ∙ omega arith,
      most_common-Falls d,
    )
