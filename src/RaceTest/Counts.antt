-- ===== src/RaceTest/Counts.antt =====
-- How many of the threads of seller/main.py were told a response of some kind, by the history of the calls.
use ticket_selling_system.Prelude.{
  ℕ, zero, suc, ◌+◌, ◌≤◌, ◌≡◌, refl, Bool, List, [], ◌∷◌, inl, inr, ite, ℕ_discrete, arith,
  if◌then◌else◌,
}
use ticket_selling_system.Store.{BuyResponse}
use ticket_selling_system.Seller.Lock.{Place, waiting, inside, returned}
use ticket_selling_system.Seller.Lock.Serial.{History, Told}
use ticket_selling_system.RaceTest.{put_returned, returned_responses}

abbrev sum : ℕ → (ℕ → ℕ) → ℕ
sum zero f = 0
sum (suc n) f = sum n f + f n

sum-add : (n : ℕ) (f g : ℕ → ℕ) → sum n (λ i. f i + g i) ≡ sum n f + sum n g
sum-add zero f g = refl
sum-add (suc n) f g = omega (arith, sum-add n f g)

sum-zero : (n : ℕ) → sum n (λ _. 0) ≡ 0
sum-zero zero = refl
sum-zero (suc n) = omega (arith, sum-zero n)

-- At most one number below a bound is `j`.
sum-at_above : (n j c : ℕ) → n ≤ j → sum n (λ i. ite (ℕ_discrete i j) c 0) ≡ 0
sum-at_above zero j c h = refl
sum-at_above (suc n) j c h = ground (arith, sum-at_above n j c)

sum-at : (n j c : ℕ) → sum n (λ i. ite (ℕ_discrete i j) c 0) ≤ c
sum-at zero j c = omega arith
sum-at (suc n) j c = ground (arith, sum-at n j c, sum-at_above n j c)

module _ (P : BuyResponse → Bool) where
  abbrev pub one_if : BuyResponse → ℕ
  one_if r = if P r then 1 else 0

  abbrev pub count_if : List BuyResponse → ℕ
  count_if [] = 0
  count_if (r ∷ rs) = one_if r + count_if rs

  abbrev pub in_history : History → ℕ
  in_history [] = 0
  in_history ((j, r) ∷ h) = one_if r + in_history h

  abbrev by_thread : History → ℕ → ℕ
  by_thread [] i = 0
  by_thread ((j, r) ∷ h) i = ite (ℕ_discrete i j) (one_if r) 0 + by_thread h i

  sum-by_thread : (n : ℕ) (h : History) → sum n (by_thread h) ≤ in_history h
  sum-by_thread n [] = omega (arith, sum-zero n)
  sum-by_thread n ((j, r) ∷ h) = omega (
    arith,
    sum-add n (λ i. ite (ℕ_discrete i j) (one_if r) 0) (by_thread h),
    sum-at n j (one_if r),
    sum-by_thread n h,
  )

  Told-by_thread : (i : ℕ) (r : BuyResponse) (h : History) → Told i r h → one_if r ≤ by_thread h i
  Told-by_thread i r [] t = absurd t
  Told-by_thread i r ((j, q) ∷ h) (inl (same, eq)) = rw eq (ground (arith, same))
  Told-by_thread i r ((j, q) ∷ h) (inr t) = omega (arith, Told-by_thread i r h t)

  put_returned-le :
      (w : Place) (rs : List BuyResponse) (c : ℕ)
      → ((r : BuyResponse) → w ≡ returned r → one_if r ≤ c)
      → count_if (put_returned w rs) ≤ c + count_if rs
  put_returned-le (returned r) rs c h = omega (arith, h r refl)
  put_returned-le waiting rs c h = omega arith
  put_returned-le (inside _) rs c h = omega arith

  responses-sum :
      (n : ℕ) (place : ℕ → Place) (h : History)
      → ((i : ℕ) (r : BuyResponse) → place i ≡ returned r → Told i r h)
      → count_if (returned_responses n place) ≤ sum n (by_thread h)
  responses-sum zero place h told = omega arith
  responses-sum (suc n) place h told = omega (
    arith,
    responses-sum n place h told,
    put_returned-le (place n) (returned_responses n place) (by_thread h n)
        (λ r e. Told-by_thread n r h (told n r e)),
  )

  -- No more threads have returned with such a response than calls were told one.
  pub responses-in_history :
      (n : ℕ) (place : ℕ → Place) (h : History)
      → ((i : ℕ) (r : BuyResponse) → place i ≡ returned r → Told i r h)
      → count_if (returned_responses n place) ≤ in_history h
  responses-in_history n place h told =
      omega (arith, responses-sum n place h told, sum-by_thread n h)
