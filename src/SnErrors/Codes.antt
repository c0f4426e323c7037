-- ===== src/SnErrors/Codes.antt =====
-- The code of a host error survives the sandbox, and no message brings in an unknown one.
use snow_mcp.Common.{
  ℕ, ◌≡◌, ◌≢◌, ◌≤◌, ◌<◌, ◌↔◌, ◌⊎◌, refl, Option, none, some, Bool, true, false, ◌||◌, arith, ap,
  inl, inr, eq_of_some-eq,
}
use snow_mcp.Errors.{ErrorCode, capability_denied, tool_error}
use snow_mcp.Text.{Text, text}
use snow_mcp.Text.Laws.{text_eq-eq, text_eq_refl}
use snow_mcp.SnErrors.{
  ServiceNowErrorBody, no_error, error_string, error_object, raw_service_now_error,
  encode_sandbox_error, parse_sandbox_error, map_service_now_error, is_post_send_unknown, is_text,
}

-- The code and the message of a host error are read back from what the sandbox throws.
pub parse-encode :
    (c : ErrorCode) (message : Text)
    → parse_sandbox_error (encode_sandbox_error c message) ≡ (some c, message)
unfolding parse_sandbox_error encode_sandbox_error
parse-encode capability_denied message = refl
parse-encode c message = refl

-- The body has one of these texts for an error, flat or as the message of an error object.
abbrev pub Says : ServiceNowErrorBody → Text → Text → Type 0
Says body a b =
    ((body ≡ error_string a) ⊎ (body ≡ error_object (some a)))
    ⊎ ((body ≡ error_string b) ⊎ (body ≡ error_object (some b)))

-- The executor says that it is switched off, before it runs anything.
abbrev pub ExecutorOff : ℕ → ServiceNowErrorBody → Type 0
ExecutorOff status body =
    (status ≡ 503) × Says body (text "executor_disabled") (text "run_server_script_disabled")

is_text_iff : (o : Option Text) (t : Text) → (is_text o t ≡ true) ↔ (o ≡ some t)
is_text_iff none t = (λ h. absurd (cc h), λ h. absurd (cc h))
is_text_iff (some s) t =
    (λ h. ap some (text_eq-eq s t h), λ h. rw (eq_of_some-eq h) (text_eq_refl t))

said :
    (body : ServiceNowErrorBody) (t : Text)
    → raw_service_now_error body ≡ some t
    → (body ≡ error_string t) ⊎ (body ≡ error_object (some t))
unfolding raw_service_now_error
said no_error t h = absurd (cc h)
said (error_string s) t h = inl (ap error_string (eq_of_some-eq h))
said (error_object o) t h = inr (ap error_object h)

said_raw :
    (body : ServiceNowErrorBody) (t : Text)
    → (body ≡ error_string t) ⊎ (body ≡ error_object (some t))
    → raw_service_now_error body ≡ some t
unfolding raw_service_now_error
said_raw body t (inl e) = ap raw_service_now_error e
said_raw body t (inr e) = ap raw_service_now_error e

says_text :
    (body : ServiceNowErrorBody) (t : Text)
    → (is_text (raw_service_now_error body) t ≡ true)
      ↔ ((body ≡ error_string t) ⊎ (body ≡ error_object (some t)))
says_text body t =
    let test = is_text_iff (raw_service_now_error body) t in
    (λ h. said body t (test.0 h), λ h. test.1 (said_raw body t h))

or_cases : (a b : Bool) → (a || b) ≡ true → (a ≡ true) ⊎ (b ≡ true)
or_cases true b h = inl refl
or_cases false b h = inr h

or_true : (a b : Bool) → (a ≡ true) ⊎ (b ≡ true) → (a || b) ≡ true
or_true a b (inl e) = rw e refl
or_true true b (inr e) = refl
or_true false b (inr e) = e

-- A map of each side of a sum.
map_either : {A B C D : Type 0} → (A → C) → (B → D) → A ⊎ B → C ⊎ D
map_either f g (inl a) = inl (f a)
map_either f g (inr b) = inr (g b)

-- The same, of the test that the code makes.
abbrev TestsOff : ℕ → ServiceNowErrorBody → Type 0
TestsOff status body =
    (status ≡ 503)
    × ((is_text (raw_service_now_error body) (text "executor_disabled")
          || is_text (raw_service_now_error body) (text "run_server_script_disabled"))
        ≡ true)

tested_off :
    (status : ℕ) (body : ServiceNowErrorBody) → TestsOff status body → ExecutorOff status body
tested_off status body (at, h) = (
  at,
  map_either (says_text body (text "executor_disabled")).0
      (says_text body (text "run_server_script_disabled")).0 (or_cases _ _ h),
)

off_tested :
    (status : ℕ) (body : ServiceNowErrorBody) → ExecutorOff status body → TestsOff status body
off_tested status body (at, h) = (
  at,
  or_true _ _ (
      map_either (says_text body (text "executor_disabled")).1
        (says_text body (text "run_server_script_disabled")).1 h),
)

tests-clean :
    (status : ℕ) (body : ServiceNowErrorBody) (c : ErrorCode)
    → map_service_now_error status body ≡ some c
    → (is_post_send_unknown (tool_error c) ≡ false)
      ↔ (((400 ≤ status) × (status < 500) × (status ≢ 429)) ⊎ TestsOff status body)
unfolding map_service_now_error is_post_send_unknown
tests-clean status body c h = (λ k. ground (arith, h, k), λ k. ground (arith, h, k))

-- An answer with an error is taken for a rejection before any effect exactly if its status is of the
-- 4xx family and not 429, or it is a 503 whose error, a text or the message of an object, is one of
-- the two by which the executor says that it is switched off.
pub map_service_now_error-clean :
    (status : ℕ) (body : ServiceNowErrorBody) (c : ErrorCode)
    → map_service_now_error status body ≡ some c
    → (is_post_send_unknown (tool_error c) ≡ false)
      ↔ (((400 ≤ status) × (status < 500) × (status ≢ 429)) ⊎ ExecutorOff status body)
map_service_now_error-clean status body c h =
    let clean = tests-clean status body c h in
    (
      λ k. map_either (λ x. x) (tested_off status body) (clean.0 k),
      λ k. clean.1 (map_either (λ x. x) (off_tested status body) k),
    )
