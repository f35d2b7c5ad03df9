-- ===== src/Buyer/Summary.antt =====
-- buyer/load_client.py and buyer/load_client_async.py: percentile, and what `print_perf_summary` prints.
-- A latency is a whole number of some unit; a figure of the summary is in hundredths of it, so that the
-- interpolation by a whole percentage is exact. What floats round off, and the throughput, are left out.
pub mod Percentiles
pub mod InOrder
pub mod Breakdown
pub mod Silent
use Prim.Native.String
use ticket_selling_system.Prelude.{
  ℕ, zero, suc, ◌+◌, ◌-◌, ◌*◌, ◌/◌, ◌%◌, min, String, Bool, true, false, Option, none, some, List,
  [], ◌∷◌, map, leb, ltb, ◌==◌, if◌then◌else◌, length, get_elem?, string_key, ite,
}
use ticket_selling_system.Dict.{Dict}
use ticket_selling_system.Store.{success, already_processed, sold_out}
use ticket_selling_system.Buyer.{BodyStatus, of_seller, rate_limited, error, RequestResult}

-- A `RequestResult` with the fields that only the summary reads; the error is `str(e)`.
pub record Timed : Type 0 where
  pub result : RequestResult
  pub latency_ms : ℕ
  pub error : Option String

-- `sorted`
abbrev pub insert_sorted : ℕ → List ℕ → List ℕ
insert_sorted n [] = n ∷ []
insert_sorted n (m ∷ ms) = let rest = insert_sorted n ms in if leb n m then n ∷ m ∷ ms else m ∷ rest

abbrev pub sorted : List ℕ → List ℕ
sorted [] = []
sorted (n ∷ ns) = insert_sorted n (sorted ns)

-- A figure; `index_error` is an index out of range.
pub data Figure : Type 0 where
  nan : Figure
  hundredths : ℕ → Figure
  index_error : Figure

abbrev pub exactly : Option ℕ → Figure
exactly none = index_error
exactly (some a) = hundredths (a * 100)

-- `a + (b - a) * (k - f)`, with `r` hundredths for the last factor.
abbrev pub interpolated : Option ℕ → Option ℕ → ℕ → Figure
interpolated (some a) (some b) r = hundredths (a * (100 - r) + b * r)
interpolated _ _ r = index_error

unfoldable pub percentile : List ℕ → ℕ → Figure
percentile [] pct = nan
percentile (v ∷ vs) pct =
    let k = length vs * pct in
    let f = k / 100 in
    let c = min (f + 1) (length vs) in
    if f == c
    then exactly (get_elem? (v ∷ vs) f)
    else interpolated (get_elem? (v ∷ vs) f) (get_elem? (v ∷ vs) c) (k % 100)

-- `statistics.median` of a sorted list that is not empty.
unfoldable pub median : List ℕ → Figure
median vs =
    let n = length vs in
    if n % 2 == 1
    then exactly (get_elem? vs (n / 2))
    else interpolated (get_elem? vs (n / 2 - 1)) (get_elem? vs (n / 2)) 50

-- The line "Latency ms"; load_client.py prints no p95.
pub record LatencyLine : Type 0 where
  pub least : Figure
  pub middle : Figure
  pub p95 : Figure
  pub p99 : Figure
  pub most : Figure

-- `latencies[0]` and `latencies[-1]`
abbrev pub line_of : List ℕ → LatencyLine
line_of vs = record {
  least = exactly (get_elem? vs 0);
  middle = median vs;
  p95 = percentile vs 95;
  p99 = percentile vs 99;
  most = exactly (get_elem? vs (length vs - 1));
}

-- The line is printed if there is a latency.
abbrev pub line_if_any : List ℕ → Option LatencyLine
line_if_any [] = none
line_if_any (v ∷ vs) = some (line_of (v ∷ vs))

abbrev pub latencies_of : List Timed → List ℕ
latencies_of = map (λ r. r.latency_ms)

unfoldable pub latency_line : List Timed → Option LatencyLine
unfolding median percentile
latency_line results = line_if_any (sorted (latencies_of results))

-- Whether a text or none counts as true.
abbrev pub is_truthy : Option String → Bool
is_truthy none = false
is_truthy (some s) = ite (string_key.same s "") false true

-- `[r for r in results if r.error]`, counted.
unfoldable pub transport_errors : List Timed → ℕ
transport_errors [] = 0
transport_errors (r ∷ rs) = transport_errors rs + (if is_truthy r.error then 1 else 0)

abbrev pub text_of : BodyStatus → String
text_of (of_seller success) = "success"
text_of (of_seller already_processed) = "already_processed"
text_of (of_seller sold_out) = "sold_out"
text_of rate_limited = "rate_limited"
text_of BodyStatus.error = "error"

-- `f"{r.error}"`
abbrev pub shown : Option String → String
shown none = "None"
shown (some s) = s

-- `r.body_status or f"transport_error:{r.error}"`
abbrev pub label_by : Option BodyStatus → Option String → String
label_by (some b) e = text_of b
label_by none e = String.◌++◌ "transport_error:" (shown e)

abbrev pub label : Timed → String
label r = label_by r.result.body_status r.error

-- `counts[label] += 1` of a Counter
abbrev pub add_count : String → Dict String ℕ → Dict String ℕ
add_count l [] = (l, 1) ∷ []
add_count l ((k, n) ∷ d) = ite (string_key.same k l) ((k, n + 1) ∷ d) ((k, n) ∷ add_count l d)

unfoldable pub count_labels : List Timed → Dict String ℕ → Dict String ℕ
count_labels [] d = d
count_labels (r ∷ rs) d = count_labels rs (add_count (label r) d)

-- `most_common`: by falling count, and in the order of the dict where counts are equal.
abbrev pub insert_common : String × ℕ → Dict String ℕ → Dict String ℕ
insert_common e [] = e ∷ []
insert_common e (f ∷ d) =
    let rest = insert_common e d in if leb f.1 e.1 then e ∷ f ∷ d else f ∷ rest

abbrev pub most_common : Dict String ℕ → Dict String ℕ
most_common [] = []
most_common (e ∷ d) = insert_common e (most_common d)

-- The lines of the "Response Breakdown".
unfoldable pub breakdown : List Timed → Dict String ℕ
unfolding count_labels
breakdown results = most_common (count_labels results [])
