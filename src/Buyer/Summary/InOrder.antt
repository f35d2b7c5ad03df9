-- ===== src/Buyer/Summary/InOrder.antt =====
-- The latency line of a summary, for any results.
use ticket_selling_system.Prelude.{
  ℕ, zero, suc, ◌-◌, ◌*◌, ◌≤◌, ◌<◌, ◌≡◌, refl, ap, ◌∙◌, sym, subst, some, List, [], ◌∷◌, arith,
  length, get_elem?, Ascends, leb, count, Bool-cases, inl, inr,
}
use ticket_selling_system.Buyer.Summary.{
  Timed, insert_sorted, sorted, hundredths, exactly, LatencyLine, line_of, line_if_any,
  latencies_of, latency_line,
}
use ticket_selling_system.Buyer.Summary.Percentiles.{
  sorted-Ascends, nth, get_elem?-nth, nth_ge, value, value_mono, value_first, value_end,
  percentile-value, median-value,
}

insert_sorted-cons : (n : ℕ) (ms : List ℕ) → (v : ℕ) × (vs : List ℕ) × (insert_sorted n ms ≡ v ∷ vs)
insert_sorted-cons n [] = (n, [], refl)
insert_sorted-cons n (m ∷ ms) = elim (Bool-cases (leb n m)) [
  | inl le ↦ (n, m ∷ ms, rw le refl)
  | inr gt ↦ (m, insert_sorted n ms, rw gt refl)
]

count-insert_sorted : (t n : ℕ) (ms : List ℕ) → count t (insert_sorted n ms) ≡ count t (n ∷ ms)
count-insert_sorted t n [] = refl
count-insert_sorted t n (m ∷ ms) = ground (arith, count-insert_sorted t n ms)

count-sorted : (t : ℕ) (ns : List ℕ) → count t (sorted ns) ≡ count t ns
count-sorted t [] = refl
count-sorted t (n ∷ ns) = omega (arith, count-insert_sorted t n (sorted ns), count-sorted t ns)

nth-count : (v : ℕ) (vs : List ℕ) (i : ℕ) → 0 < count (nth v vs i) (v ∷ vs)
nth-count v [] i = ground arith
nth-count v (w ∷ vs) zero = ground arith
nth-count v (w ∷ vs) (suc i) = omega (arith, nth-count w vs i)

count-bounds :
    (v : ℕ) (vs : List ℕ) (t : ℕ)
    → Ascends (v ∷ vs)
    → 0 < count t (v ∷ vs)
    → (v ≤ t) × (t ≤ nth v vs (length vs))
count-bounds v [] t a h = ground arith
count-bounds v (w ∷ vs) t a h = ground (arith, count-bounds w vs t a.1, nth_ge w vs (length vs) a.1)

-- The five figures are there and in order, and the first and the last are the bounds of the latencies.
pub record IsInOrder (latencies : List ℕ) (l : LatencyLine) : Type 0 where
  pub low : ℕ
  pub mid : ℕ
  pub nearly : ℕ
  pub hardly : ℕ
  pub high : ℕ
  pub least_is : l.least ≡ hundredths (low * 100)
  pub middle_is : l.middle ≡ hundredths mid
  pub p95_is : l.p95 ≡ hundredths nearly
  pub p99_is : l.p99 ≡ hundredths hardly
  pub most_is : l.most ≡ hundredths (high * 100)
  pub in_order : (low * 100 ≤ mid) × (mid ≤ nearly) × (nearly ≤ hardly) × (hardly ≤ high * 100)
  pub low_occurs : 0 < count low latencies
  pub high_occurs : 0 < count high latencies
  pub all_within : (t : ℕ) → 0 < count t latencies → (low ≤ t) × (t ≤ high)

line_of-IsInOrder : (v : ℕ) (vs : List ℕ) → Ascends (v ∷ vs) → IsInOrder (v ∷ vs) (line_of (v ∷ vs))
line_of-IsInOrder v vs a = record {
  low = v;
  mid = value v vs (length vs * 50);
  nearly = value v vs (length vs * 95);
  hardly = value v vs (length vs * 99);
  high = nth v vs (length vs);
  least_is = refl;
  middle_is = median-value v vs;
  p95_is = percentile-value v vs 95 (omega arith);
  p99_is = percentile-value v vs 99 (omega arith);
  most_is =
      ap (λ i. exactly (get_elem? (v ∷ vs) i)) last
      ∙ ap exactly (get_elem?-nth v vs (length vs) (omega arith));
  in_order = omega (
    arith,
    value_first v vs,
    value_mono v vs 0 (length vs * 50) a (omega arith),
    value_mono v vs (length vs * 50) (length vs * 95) a (omega arith),
    value_mono v vs (length vs * 95) (length vs * 99) a (omega arith),
    value_mono v vs (length vs * 99) (length vs * 100) a (omega arith),
    value_end v vs,
  );
  low_occurs = ground arith;
  high_occurs = nth-count v vs (length vs);
  all_within = λ t h. count-bounds v vs t a h;
}
  where
    last : suc (length vs) - 1 ≡ length vs
    last = omega arith

-- The same line is that of any list with the same numbers in it.
IsInOrder-count :
    (ms ns : List ℕ) (l : LatencyLine)
    → ((t : ℕ) → count t ms ≡ count t ns)
    → IsInOrder ms l
    → IsInOrder ns l
IsInOrder-count ms ns l same h = record {
  low = h.low;
  mid = h.mid;
  nearly = h.nearly;
  hardly = h.hardly;
  high = h.high;
  least_is = h.least_is;
  middle_is = h.middle_is;
  p95_is = h.p95_is;
  p99_is = h.p99_is;
  most_is = h.most_is;
  in_order = h.in_order;
  low_occurs = omega (arith, same h.low, h.low_occurs);
  high_occurs = omega (arith, same h.high, h.high_occurs);
  all_within = λ t occurs. h.all_within t (omega (arith, same t, occurs));
}

-- For any results, if there is one, the summary prints the latency line, no index being out of
-- range, and its figures are in order: the least latency, the median, the 95th and the 99th
-- percentile, and the greatest latency.
pub latency_line-IsInOrder :
    (r : Timed) (rs : List Timed)
    → (l : LatencyLine) × (latency_line (r ∷ rs) ≡ some l) × IsInOrder (latencies_of (r ∷ rs)) l
unfolding latency_line
latency_line-IsInOrder r rs =
    let (v, vs, e) = insert_sorted-cons r.latency_ms (sorted (latencies_of rs)) in
    let ns = latencies_of (r ∷ rs) in
    (
      line_of (v ∷ vs),
      ap line_if_any e,
      IsInOrder-count (v ∷ vs) ns (line_of (v ∷ vs)) (λ t. ap (count t) (sym e) ∙ count-sorted t ns)
          (line_of-IsInOrder v vs (subst Ascends e (sorted-Ascends ns))),
    )
