-- ===== src/Prelude/Decimal.antt =====
-- `str` of a number: its decimal digits, which can be read back and hold no dash.
use Prim.Native.Nat.{ℕ, zero, suc, ◌+◌, ◌-◌, ◌*◌, ◌/◌, ◌%◌, ◌<◌}
use Prim.Native.Char.{Char, char, code}
use Prim.Native.String.{String, [], ◌∷◌, ◌++◌}
use mathlib.Core.Path.{◌≡◌, refl, sym, ap, ◌∙◌}
use mathlib.Core.Logic.{◌≢◌, inl, inr}
use native.Mathlib.Omega.{arith}
use text.Mathlib.TextLemmas.{
  nil-append, cons-append, nil≢cons, head-eq_of_cons-eq, tail-eq_of_cons-eq,
}
use ticket_selling_system.Prelude.Tests.{ltb, ltb→lt, if◌then◌else◌, Bool-cases}

abbrev digit : ℕ → Char
digit zero = char 48 tt
digit (suc zero) = char 49 tt
digit (suc (suc zero)) = char 50 tt
digit (suc (suc (suc zero))) = char 51 tt
digit (suc (suc (suc (suc zero)))) = char 52 tt
digit (suc (suc (suc (suc (suc zero))))) = char 53 tt
digit (suc (suc (suc (suc (suc (suc zero)))))) = char 54 tt
digit (suc (suc (suc (suc (suc (suc (suc zero))))))) = char 55 tt
digit (suc (suc (suc (suc (suc (suc (suc (suc zero)))))))) = char 56 tt
digit _ = char 57 tt

-- The digits of `n` before a text; more than `n` units of fuel are enough.
str_before : ℕ → ℕ → String → String
str_before zero n text = text
str_before (suc fuel) n text =
    let rest = str_before fuel (n / 10) (digit (n % 10) ∷ text) in
    if ltb n 10 then digit n ∷ text else rest

unfoldable pub str : ℕ → String
unfolding str_before
str n = str_before (suc n) n []

code-digit : (d : ℕ) → d < 10 → code (digit d) ≡ 48 + d
code-digit zero h = refl
code-digit (suc zero) h = refl
code-digit (suc (suc zero)) h = refl
code-digit (suc (suc (suc zero))) h = refl
code-digit (suc (suc (suc (suc zero)))) h = refl
code-digit (suc (suc (suc (suc (suc zero))))) h = refl
code-digit (suc (suc (suc (suc (suc (suc zero)))))) h = refl
code-digit (suc (suc (suc (suc (suc (suc (suc zero))))))) h = refl
code-digit (suc (suc (suc (suc (suc (suc (suc (suc zero)))))))) h = refl
code-digit (suc (suc (suc (suc (suc (suc (suc (suc (suc zero))))))))) h = refl
code-digit (suc (suc (suc (suc (suc (suc (suc (suc (suc (suc d)))))))))) h = absurd (omega arith)

-- The number that a text of digits stands for, after the digits of `n`.
read_after : ℕ → String → ℕ
read_after n [] = n
read_after n (c ∷ s) = read_after (n * 10 + (code c - 48)) s

read_digit :
    (n d : ℕ) (s : String) → d < 10 → read_after n (digit d ∷ s) ≡ read_after (n * 10 + d) s
unfolding read_after
read_digit n d s h = ap (λ k. read_after (n * 10 + k) s) (omega (arith, code-digit d h))

read_after-str_before :
    (fuel n : ℕ) (text : String)
    → n < fuel
    → read_after 0 (str_before fuel n text) ≡ read_after n text
unfolding str_before
read_after-str_before zero n text h = absurd (omega arith)
read_after-str_before (suc fuel) n text h = elim (Bool-cases (ltb n 10)) [
  | inl small ↦
      rw small (read_digit 0 n text (ltb→lt n 10 small) ∙ ap (λ k. read_after k text) (omega arith))
  | inr large ↦ rw large (
      read_after-str_before fuel (n / 10) (digit (n % 10) ∷ text) (ground arith)
      ∙ read_digit (n / 10) (n % 10) text (omega arith)
      ∙ ap (λ k. read_after k text) (omega arith))
]

pub str_injective : (m n : ℕ) → str m ≡ str n → m ≡ n
unfolding str read_after
str_injective m n e =
    sym (read_after-str_before (suc m) m [] (omega arith))
    ∙ ap (read_after 0) e
    ∙ read_after-str_before (suc n) n [] (omega arith)

-- `-`
abbrev pub dash : Char
dash = char 45 tt

abbrev HasNoDash : String → Type 0
HasNoDash [] = Unit
HasNoDash (c ∷ s) = (code c ≢ 45) × HasNoDash s

digit-HasNoDash : (d : ℕ) → d < 10 → code (digit d) ≢ 45
digit-HasNoDash d h e = omega (arith, code-digit d h, e)

str_before-HasNoDash :
    (fuel n : ℕ) (text : String) → HasNoDash text → HasNoDash (str_before fuel n text)
unfolding str_before
str_before-HasNoDash zero n text h = h
str_before-HasNoDash (suc fuel) n text h = elim (Bool-cases (ltb n 10)) [
  | inl small ↦ rw small (digit-HasNoDash n (ltb→lt n 10 small), h)
  | inr large ↦ rw large (
      str_before-HasNoDash fuel (n / 10) (digit (n % 10) ∷ text)
        (digit-HasNoDash (n % 10) (omega arith), h))
]

has_dash : (s d e : String) → HasNoDash d → d ≡ s ++ (dash ∷ e) → ⊥
has_dash [] [] e h f = nil≢cons (f ∙ nil-append (dash ∷ e))
has_dash [] (c ∷ d) e h f = h.0 (ap code (head-eq_of_cons-eq (f ∙ nil-append (dash ∷ e))))
has_dash (b ∷ s) [] e h f = nil≢cons (f ∙ cons-append b s (dash ∷ e))
has_dash (b ∷ s) (c ∷ d) e h f =
    has_dash s d e h.1 (tail-eq_of_cons-eq (f ∙ cons-append b s (dash ∷ e)))

-- The last dash of a text cuts it in one way.
cut :
    (s t d e : String)
    → HasNoDash d
    → HasNoDash e
    → s ++ (dash ∷ d) ≡ t ++ (dash ∷ e)
    → (s ≡ t) × (d ≡ e)
cut [] [] d e h k f =
    (refl, tail-eq_of_cons-eq (sym (nil-append (dash ∷ d)) ∙ f ∙ nil-append (dash ∷ e)))
cut [] (c ∷ t) d e h k f = absurd (
    has_dash t d e h
      (tail-eq_of_cons-eq (sym (nil-append (dash ∷ d)) ∙ f ∙ cons-append c t (dash ∷ e))))
cut (b ∷ s) [] d e h k f = absurd (
    has_dash s e d k
      (tail-eq_of_cons-eq (sym (nil-append (dash ∷ e)) ∙ sym f ∙ cons-append b s (dash ∷ d))))
cut (b ∷ s) (c ∷ t) d e h k f =
    let g = sym (cons-append b s (dash ∷ d)) ∙ f ∙ cons-append c t (dash ∷ e) in
    let (same, rest) = cut s t d e h k (tail-eq_of_cons-eq g) in
    ((λ i. (head-eq_of_cons-eq g i) ∷ (same i)), rest)

pub str_after_dash :
    (s t : String) (m n : ℕ) → s ++ (dash ∷ str m) ≡ t ++ (dash ∷ str n) → (s ≡ t) × (m ≡ n)
unfolding str
str_after_dash s t m n e =
    let (same, digits) =
      cut s t (str m) (str n) (str_before-HasNoDash (suc m) m [] tt)
        (str_before-HasNoDash (suc n) n [] tt) e in
    (same, str_injective m n digits)
