-- ===== src/Admission/Window.antt =====
-- How many requests the admission object admits within one window length.
use snow_mcp.Common.{ℕ, ◌+◌, ◌≤◌, ◌<◌, Option, none, some, List, [], ◌∷◌, All, arith}
use snow_mcp.Admission.{
  WindowState, AdmissionState, AdmissionResult, admitted, refused, current_window, admit, release,
  renew, window_ms, max_requests_per_window,
}
use snow_mcp.Admission.Bounds.{Call, admit_call, release_call, renew_call, Timed, perform}

abbrev answer_admitted : AdmissionResult → ℕ
answer_admitted (admitted id) = 1
answer_admitted (refused reason ms) = 0

abbrev answer : ℕ → Call → AdmissionState → ℕ
answer now (admit_call id) s = answer_admitted (admit now id s).0
answer now _ s = 0

-- How many requests of the sequence are admitted.
unfoldable pub admissions : List Timed → AdmissionState → ℕ
admissions [] s = 0
admissions (c ∷ cs) s = answer c.now c.call s + admissions cs (perform c s)

abbrev used : Option WindowState → ℕ
used none = 0
used (some w) = w.count

-- The window, if there is one, began at `start` or later and has at most 60 requests.
abbrev Inside : ℕ → Option WindowState → Type 0
Inside start none = Unit
Inside start (some w) = (start ≤ w.start_at) × (w.count ≤ max_requests_per_window)

answer-used :
    (start now : ℕ) (c : Call) (s : AdmissionState)
    → start ≤ now
    → now < start + window_ms
    → Inside start s.window
    → (answer now c s + used s.window ≤ used (perform (record { now = now; call = c }) s).window)
      × Inside start (perform (record { now = now; call = c }) s).window
unfolding perform admit current_window release renew
answer-used start now (admit_call id) s h k i = ground arith
answer-used start now (release_call id) s h k i = ground arith
answer-used start now (renew_call id) s h k i = ground arith

used-le : (start : ℕ) (w : Option WindowState) → Inside start w → used w ≤ max_requests_per_window
used-le start none i = omega arith
used-le start (some w) i = i.1

admissions-used :
    (start : ℕ) (cs : List Timed) (s : AdmissionState)
    → All (λ c. (start ≤ c.now) × (c.now < start + window_ms)) cs
    → Inside start s.window
    → admissions cs s + used s.window ≤ max_requests_per_window
unfolding admissions
admissions-used start [] s times i = omega (arith, used-le start s.window i)
admissions-used start (c ∷ cs) s (time, times) i =
    let (le, inside) = answer-used start c.now c.call s time.0 time.1 i in
    omega (arith, admissions-used start cs (perform c s) times inside)

-- From an empty object, if all the calls are made within one stretch of the window's length, then at
-- most 60 requests are admitted, whatever the order of the calls, with releases and renewals among
-- them.
pub admissions-le :
    (start : ℕ) (cs : List Timed)
    → All (λ c. (start ≤ c.now) × (c.now < start + window_ms)) cs
    → admissions cs (record { window = none; leases = none }) ≤ max_requests_per_window
admissions-le start cs times =
    omega (arith, admissions-used start cs (record { window = none; leases = none }) times tt)
