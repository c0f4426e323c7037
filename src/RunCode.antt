-- ===== src/RunCode.antt =====
-- `runCode` of packages/mcp-server/src/tools/run_code.ts: the order of a run, from the size check to the
-- reconciliation of the daily budget.
-- The run keeps its meter, once there is one, and whether the daily reserve succeeded, beside the state
-- `S` of everything outside. Parameters: the transpiler, the executor with the RPC boundary that it is
-- given, the JSON of a result, the redaction of a message, and the daily budget's calls. The code of a
-- snippet is given by its UTF-8 bytes. The message of an error is left out, but for that of a snippet.
pub mod Reserves
pub mod Attested
use snow_mcp.Common.{
  ℕ, ◌*◌, String, Bool, true, false, ◌&&◌, Option, none, some, List, [], ◌∷◌, ltb, length, str_eq,
  if◌then◌else◌,
}
use snow_mcp.Errors.{
  Result, ok, throw, Thrown, tool_error, code_size, mode_not_permitted, precondition_required,
  budget_exceeded, transpile_error, RunDimension,
}
use snow_mcp.Exec.{Exec}
use snow_mcp.Exec.Steps.{◌>>=◌, ◌>>◌, check, return}
use snow_mcp.Mode.{Mode}
use snow_mcp.EffectiveMode.{
  ModeCeilings, EffectiveModeResult, permitted, mode_not_permitted as mode_denied,
  resolve_effective_mode,
}
use snow_mcp.Text.{Text}
use snow_mcp.Validate.{
  Unknown, string, validate_reason, validate_idempotency_key, validate_approval_token,
}
use snow_mcp.RunBudget.{RunBudget, new_run_budget, per_run}
use snow_mcp.SnErrors.{parse_sandbox_error}
use snow_mcp.Serialize.{Utf8, SerializedResult, CappedLogs, cap_logs}
use snow_mcp.Approval.{is_missing}
pub use snow_mcp.Rpc.{RunContext}
use snow_mcp.Rpc.{Host, HostSignals}

-- `SIZE_LIMITS` of config.ts.
abbrev pub max_code_bytes : ℕ
max_code_bytes = 64 * 1024

abbrev pub max_output_bytes : ℕ
max_output_bytes = 256 * 1024

abbrev pub max_log_bytes : ℕ
max_log_bytes = 64 * 1024

abbrev pub max_log_entries : ℕ
max_log_entries = 1000

pub record RunCodeInput : Type 0 where
  pub code : Utf8
  pub mode : Option Mode
  pub reason : Option Text
  pub idempotency_key : Option Text
  pub approval_token : Option Text

-- The answer of the daily reserve.
pub data Reservation : Type 0 where
  reserved_ok reserve_denied : Reservation

pub data Transpiled (C : Type 0) : Type 0 where
  transpiled : C → Transpiled C
  transpile_failure : Transpiled C

-- What the executor returns; it does not throw.
pub record Executed (V : Type 0) : Type 0 where
  pub result : V
  pub error : Option Text
  pub logs : List Utf8

pub record RunCodeDeps (S C V : Type 0) : Type 0 where
  pub ceilings : ModeCeilings
  pub preflight_auth : Option (Exec S (Unit {0}))
  pub reserve_daily_budget : Option (Exec S Reservation)
  pub transpile_ts : Utf8 → Exec S (Transpiled C)
  pub random_uuid : S → String
  pub make_run_budget : Option RunBudget
  pub execute : Mode → RunContext → C → Host S → Executed V × Host S
  pub serialize_result : V → ℕ → SerializedResult
  pub redact : Text → Text
  pub reconcile_daily_budget : Option (Option RunBudget → Exec S (Unit {0}))

pub record RunState (S : Type 0) : Type 0 where
  pub outside : S
  pub run_budget : Option RunBudget
  pub reserved : Bool

-- The tool result, without the texts that restate it.
pub data ToolResult : Type 0 where
  error_result : Thrown → ToolResult
  budget_result : Option RunDimension → CappedLogs → RunBudget → ToolResult
  reauth_result : Option String → CappedLogs → RunBudget → ToolResult
  run_error_result : Text → CappedLogs → RunBudget → ToolResult
  success_result : Mode → SerializedResult → CappedLogs → RunBudget → ToolResult

abbrev pub outside_in : {S A : Type 0} → Result A × S → RunState S → Result A × RunState S
outside_in (r, w) s = (r, record s { outside = w })

unfoldable pub on_outside : {S A : Type 0} → Exec S A → Exec (RunState S) A
on_outside m s = outside_in (m s.outside) s

-- `if (dep) await dep()`.
abbrev pub if_given : {S : Type 0} → Option (Exec S (Unit {0})) → Exec (RunState S) (Unit {0})
if_given none = return tt
if_given (some m) = on_outside m

-- The mode, or the error of a denial.
abbrev pub effective_of : EffectiveModeResult → Result Mode
effective_of (permitted m) = ok m
effective_of (mode_denied requested ceiling source) = throw (tool_error mode_not_permitted)

abbrev pub check_if : Bool → Thrown → Result (Unit {0})
check_if true e = throw e
check_if false e = ok tt

-- `value !== undefined ? validate(value) : undefined`.
abbrev pub if_present : (Text → Result Text) → Option Text → Result (Option Text)
if_present f none = ok none
if_present f (some t) = elim (f t) [ ok a ↦ ok (some a) | throw e ↦ throw e ]

abbrev pub given : Text → Unknown (Unit {0})
given t = string t

-- Sets `reserved`, or throws if the reserve was denied.
abbrev pub note_reservation :
    {S : Type 0} → Result Reservation × S → RunState S → Result (Unit {0}) × RunState S
note_reservation (ok reserved_ok, w) s = (ok tt, record s { outside = w; reserved = true })
note_reservation (ok reserve_denied, w) s =
    (throw (tool_error budget_exceeded), record s { outside = w })
note_reservation (throw e, w) s = (throw e, record s { outside = w })

unfoldable pub reserve_before_load :
    {S : Type 0} → Option (Exec S Reservation) → Exec (RunState S) (Unit {0})
reserve_before_load none s = (ok tt, s)
reserve_before_load (some m) s = note_reservation (m s.outside) s

abbrev pub js_of : {C : Type 0} → Transpiled C → Result C
js_of (transpiled c) = ok c
js_of transpile_failure = throw (tool_error transpile_error)

abbrev pub or_uncapped : Option RunBudget → RunBudget
or_uncapped none = new_run_budget per_run none none
or_uncapped (some b) = b

abbrev pub no_signals : HostSignals
no_signals = record { budget_signal = none; reauth_signal = none }

-- An empty text is falsy.
abbrev pub truthy : Option Text → Option Text
truthy none = none
truthy (some []) = none
truthy (some (c ∷ s)) = some (c ∷ s)

abbrev pub url_or_none : Option String → Option String
url_or_none none = none
url_or_none (some u) = if str_eq u "" then none else some u

module _ {S C V : Type 0} (deps : RunCodeDeps S C V) where
  -- The result of a run: the signals of the host come first, then the error of the snippet.
  abbrev pub by_error : Mode → Executed V → Option Text → CappedLogs → RunBudget → ToolResult
  by_error mode exec (some e) logs budget =
      run_error_result (deps.redact (parse_sandbox_error e).1) logs budget
  by_error mode exec none logs budget =
      success_result mode (deps.serialize_result exec.result max_output_bytes) logs budget

  abbrev pub by_reauth :
      Mode → Executed V → Option (Option String) → CappedLogs → RunBudget → ToolResult
  by_reauth mode exec (some url) logs budget = reauth_result (url_or_none url) logs budget
  by_reauth mode exec none logs budget = by_error mode exec (truthy exec.error) logs budget

  abbrev pub by_signals : Mode → Executed V → HostSignals → CappedLogs → RunBudget → ToolResult
  by_signals mode exec g logs budget = elim g.budget_signal [
    | some d ↦ budget_result d logs budget
    | none ↦ by_reauth mode exec g.reauth_signal logs budget
  ]

  unfoldable pub finalize : Mode → Executed V → Host S → ToolResult
  unfolding cap_logs
  finalize mode exec h =
      by_signals mode exec h.signals (cap_logs exec.logs max_log_entries max_log_bytes) h.budget

  abbrev executed : Mode → Executed V × Host S → RunState S → Result ToolResult × RunState S
  executed mode (exec, h) s =
      (ok (finalize mode exec h), record s { outside = h.outside; run_budget = some h.budget })

  -- 4) and 5).
  unfoldable pub execute_and_finalize :
      Mode → Option Text → Option Text → Option Text → C → Exec (RunState S) ToolResult
  unfolding finalize
  execute_and_finalize mode reason run_key token js s =
      executed mode
        (deps.execute mode
          (record {
            request_id = deps.random_uuid s.outside;
            reason = reason;
            run_key = run_key;
            approval_token = token;
          })
          js
          (record {
            budget = or_uncapped deps.make_run_budget;
            signals = no_signals;
            ordinal = 0;
            outside = s.outside;
          }))
        s

  -- The `try` block.
  unfoldable pub run_body : RunCodeInput → Exec (RunState S) ToolResult
  unfolding reserve_before_load on_outside execute_and_finalize
  run_body input = do
    check (check_if (ltb max_code_bytes (length input.code)) (tool_error code_size))
    mode ← check (effective_of (resolve_effective_mode input.mode deps.ceilings))
    check (
        check_if (str_eq mode "admin_script" && is_missing input.reason)
          (tool_error precondition_required))
    reason ← check (if_present (λ t. validate_reason (given t)) input.reason)
    run_key ← check (if_present (λ t. validate_idempotency_key (given t)) input.idempotency_key)
    token ← check (if_present (λ t. validate_approval_token (given t)) input.approval_token)
    if_given deps.preflight_auth
    reserve_before_load deps.reserve_daily_budget
    answer ← on_outside (deps.transpile_ts input.code)
    js ← check (js_of answer)
    execute_and_finalize mode reason run_key token js

  -- The `catch`: `toToolResult`.
  abbrev tool_result_of : Result ToolResult → ToolResult
  tool_result_of (ok r) = r
  tool_result_of (throw e) = error_result e

  -- The `finally`; an error of the reconciliation is swallowed.
  abbrev pub reconcile_with : Option (Option RunBudget → Exec S (Unit {0})) → Bool → RunState S → S
  reconcile_with none reserved s = s.outside
  reconcile_with (some m) false s = s.outside
  reconcile_with (some m) true s = (m s.run_budget s.outside).1

  abbrev pub finish : Result ToolResult × RunState S → ToolResult × S
  finish (r, s) = (tool_result_of r, reconcile_with deps.reconcile_daily_budget s.reserved s)

  unfoldable pub run_code : RunCodeInput → S → ToolResult × S
  unfolding run_body
  run_code input w =
      finish (run_body input (record { outside = w; run_budget = none; reserved = false }))
