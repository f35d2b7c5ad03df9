-- ===== src/Buyer/Summary/Silent.antt =====
-- Requests that fail without a message: `str(e)` is empty for some exceptions of httpx.
use ticket_selling_system.Prelude.{
  ◌≡◌, refl, ◌∙◌, none, some, List, [], ◌∷◌, arith, length, All, string_discrete,
}
use ticket_selling_system.Buyer.Summary.{Timed, transport_errors, breakdown}
use ticket_selling_system.Buyer.Summary.Breakdown.{labelled, tally, breakdown_counts}

-- A result of `fire_one` after an exception whose text is empty.
abbrev pub FailedSilently : Timed → Type 0
FailedSilently r = (r.result.body_status ≡ none) × (r.error ≡ some "")

silent_transport_errors : (rs : List Timed) → All FailedSilently rs → transport_errors rs ≡ 0
unfolding transport_errors string_discrete
silent_transport_errors [] h = refl
silent_transport_errors (r ∷ rs) h = rw (h.0.1) (omega (arith, silent_transport_errors rs h.1))

silent_labelled :
    (rs : List Timed) → All FailedSilently rs → labelled "transport_error:" rs ≡ length rs
unfolding string_discrete
silent_labelled [] h = refl
silent_labelled (r ∷ rs) h = rw (h.0.0, h.0.1) (omega (arith, silent_labelled rs h.1))

-- If all the requests ended with an exception whose text is empty, then the line "Transport
-- errors" of the summary says 0, while the breakdown counts each of them as a transport error.
pub silent_errors_uncounted :
    (rs : List Timed)
    → All FailedSilently rs
    → (transport_errors rs ≡ 0) × (tally "transport_error:" (breakdown rs) ≡ length rs)
silent_errors_uncounted rs h = (
  silent_transport_errors rs h,
  ((breakdown_counts rs).0 "transport_error:").1 ∙ silent_labelled rs h,
)
