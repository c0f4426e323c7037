-- ===== src/Tests/Limits.antt =====
-- The admission object and the consent limiter on concrete calls.
use snow_mcp.Common.{
  ℕ, zero, suc, ◌≤◌, ◌<◌, ◌≡◌, ◌≢◌, ◌↔◌, refl, false, none, List, [], ◌∷◌, arith, length,
}
use snow_mcp.Admission.{
  AdmissionState, admitted, refused, concurrency, admit, release, renew, snapshot, earliest,
  max_requests_per_window, max_in_flight, or_empty, is_inherited,
}
use snow_mcp.Admission.Bounds.{
  Call, admit_call, renew_call, Timed, perform, perform_all, Bounded, perform_all-Bounded,
  admitted_iff,
}
use snow_mcp.Admission.Retry.{refused-retry}
use snow_mcp.Admission.Quiet.{perform_all-admitted}
use snow_mcp.Admission.Window.{admissions, admissions-le}
use snow_mcp.Consent.{allow, max_per_window}
use snow_mcp.Consent.Size.{Request, allow_all}
use snow_mcp.Consent.Denials.{allowed_of, denied-allowed_of}

abbrev idle : AdmissionState
idle = record { window = none; leases = none }

abbrev at_time : ℕ → Call → Timed
at_time now call = record { now = now; call = call }

abbrev four_requests : List Timed
four_requests =
    at_time 10 (admit_call "a")
    ∷ at_time 20 (admit_call "b")
    ∷ at_time 30 (admit_call "c")
    ∷ at_time 40 (admit_call "d")
    ∷ []

abbrev full : AdmissionState
full = perform_all four_requests idle

-- The fifth request waits for the lease of the first, which ends at 75010.
fifth_request : (admit 50 "e" full).0 ≡ refused concurrency 74960
unfolding perform_all perform admit release renew earliest
fifth_request = refl

full-Bounded : Bounded full
full-Bounded = perform_all-Bounded four_requests idle (tt, (tt, (tt, (tt, tt)))) (omega arith)

abbrev one_renewal : List Timed
one_renewal = at_time 50 (renew_call "a") ∷ []

perform_all-Bounded_example : Bounded (perform_all one_renewal full)
unfolding is_inherited
perform_all-Bounded_example = perform_all-Bounded one_renewal full (refl, tt) full-Bounded

-- A renewal of the name of an inherited property adds a fifth lease.
fifth_lease : length (or_empty (renew "constructor" 50 full).1.leases) ≡ 5
unfolding renew is_inherited perform_all perform admit
fifth_lease = refl

admitted_iff_example :
    ((admit 50 "e" full).0 ≡ admitted "e")
    ↔ ((snapshot 50 full).0 < max_requests_per_window × (snapshot 50 full).1 < max_in_flight)
admitted_iff_example = admitted_iff 50 "e" full

refused-retry_example :
    (1 ≤ 74960) × ((admit 75010 "f" (admit 50 "e" full).1).0 ≢ refused concurrency 1)
refused-retry_example =
    refused-retry concurrency 50 75010 74960 1 "e" "f" full full-Bounded fifth_request (omega arith)

-- The four leases of before are held, and nobody calls until the last has run out.
perform_all-admitted_example : (admit 75040 "g" (perform_all four_requests idle)).0 ≡ admitted "g"
perform_all-admitted_example =
    perform_all-admitted 40 75040 "g" four_requests
      (omega arith, (omega arith, (omega arith, (omega arith, tt)))) (omega arith)

admissions-le_example : admissions four_requests idle ≤ max_requests_per_window
admissions-le_example = admissions-le 10 four_requests (omega arith)

abbrev repeated : ℕ → Request → List Request
repeated n r = elim n [ zero ↦ [] | suc (k → rs) ↦ r ∷ rs ]

abbrev thirty : List Request
thirty = repeated 30 (record { key = "10.0.0.1"; now = 5 })

thirty_first : (allow "10.0.0.1" 6 (allow_all thirty [])).0 ≡ false
unfolding allow_all allow
thirty_first = refl

denied-allowed_of_example : max_per_window ≤ allowed_of "10.0.0.1" thirty []
denied-allowed_of_example = denied-allowed_of "10.0.0.1" 6 thirty thirty_first
