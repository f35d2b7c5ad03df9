-- ===== src/Tests/Summaries.antt =====
-- The summary of the load clients, on results at hand.
use ticket_selling_system.Prelude.{ℕ, ◌≡◌, refl, String, none, some, List, [], ◌∷◌, string_discrete}
use ticket_selling_system.Store.{success}
use ticket_selling_system.Buyer.{of_seller, rate_limited}
use ticket_selling_system.Buyer.Summary.{
  Timed, percentile, median, hundredths, nan, LatencyLine, latency_line, transport_errors,
  breakdown, index_error,
}
use ticket_selling_system.Buyer.Summary.InOrder.{IsInOrder, latency_line-IsInOrder}
use ticket_selling_system.Buyer.Summary.Breakdown.{tally}
use ticket_selling_system.Buyer.Summary.Silent.{silent_errors_uncounted}

-- An answer after so many milliseconds, and an attempt that ended with this exception.
abbrev answered : ℕ → ℕ → Timed
answered ms t = record {
  result = record {
    user_id = "ann";
    req_id = "r1";
    body_status = some (of_seller success);
    ticket_number = some t;
  };
  latency_ms = ms;
  error = none;
}

abbrev limited : ℕ → Timed
limited ms = record {
  result = record {
    user_id = "bob";
    req_id = "r2";
    body_status = some rate_limited;
    ticket_number = none;
  };
  latency_ms = ms;
  error = none;
}

abbrev failed : String → Timed
failed e = record {
  result = record { user_id = "bob"; req_id = "r3"; body_status = none; ticket_number = none };
  latency_ms = 30;
  error = some e;
}

abbrev some_results : List Timed
some_results = limited 10 ∷ answered 40 1 ∷ failed "" ∷ limited 20 ∷ failed "reset" ∷ []

-- Half-way between the two in the middle, and 85 hundredths of the way to the last.
interpolates :
    (percentile (10 ∷ 20 ∷ 30 ∷ 40 ∷ []) 50 ≡ hundredths 2500)
    × (percentile (10 ∷ 20 ∷ 30 ∷ 40 ∷ []) 95 ≡ hundredths 3850)
    × (median (10 ∷ 20 ∷ 30 ∷ 40 ∷ []) ≡ hundredths 2500)
    × (percentile [] 99 ≡ nan)
    × (percentile (7 ∷ []) 200 ≡ hundredths 700)
    × (percentile (7 ∷ 8 ∷ []) 200 ≡ index_error)
unfolding percentile median
interpolates = (refl, refl, refl, refl, refl, refl)

breaks_down :
    (breakdown some_results
      ≡ ("rate_limited", 2)
        ∷ ("success", 1)
        ∷ ("transport_error:", 1)
        ∷ ("transport_error:reset", 1)
        ∷ [])
    × (transport_errors some_results ≡ 1)
unfolding breakdown transport_errors string_discrete
breaks_down = (refl, refl)

-- Each theorem at an input.
latency_line-IsInOrder_example :
    (l : LatencyLine) × (latency_line (limited 10 ∷ answered 40 1 ∷ failed "" ∷ []) ≡ some l)
    × IsInOrder (10 ∷ 40 ∷ 30 ∷ []) l
latency_line-IsInOrder_example =
    latency_line-IsInOrder (limited 10) (answered 40 1 ∷ failed "" ∷ [])

silent_errors_uncounted_example :
    let rs = failed "" ∷ failed "" ∷ [] in
    (transport_errors rs ≡ 0) × (tally "transport_error:" (breakdown rs) ≡ 2)
silent_errors_uncounted_example =
    silent_errors_uncounted (failed "" ∷ failed "" ∷ []) ((refl, refl), ((refl, refl), tt))
