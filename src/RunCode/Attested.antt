-- ===== src/RunCode/Attested.antt =====
-- What a result of a run that was executed says of its input and of the host.
use snow_mcp.Common.{◌≤◌, ◌≡◌, Bool, true, false, Option, none, some, length, str_eq, arith, String}
use snow_mcp.Errors.{Result, ok, throw, Thrown, RunDimension}
use snow_mcp.Exec.Rules.{After, Ensures, Ensures-bind, Ensures-then, Ensures-check, Ensures-checked}
use snow_mcp.Mode.{Mode}
use snow_mcp.EffectiveMode.{EffectiveModeResult, permitted, resolve_effective_mode}
use snow_mcp.Text.{Text}
use snow_mcp.RunBudget.{RunBudget}
use snow_mcp.Serialize.{CappedLogs}
use snow_mcp.Approval.{is_missing}
use snow_mcp.Rpc.{Host}
use snow_mcp.RunCode.{
  RunCodeInput, RunCodeDeps, RunState, Executed, ToolResult, error_result, budget_result,
  reauth_result, run_error_result, success_result, effective_of, check_if, finalize, by_signals,
  by_reauth, by_error, execute_and_finalize, run_body, run_code, max_code_bytes, finish, RunContext,
  or_uncapped, no_signals,
}

-- The input of a run in a mode: the mode is the effective one, the code is of a permitted size, and
-- `admin_script` is asked for with a reason.
pub record RunsIn {S C V : Type 0} (deps : RunCodeDeps S C V) (input : RunCodeInput) (mode : Mode)
    : Type 0 where
  pub effective : resolve_effective_mode input.mode deps.ceilings ≡ permitted mode
  pub small : length input.code ≤ max_code_bytes
  pub explained : str_eq mode "admin_script" ≡ true → is_missing input.reason ≡ false

abbrev pub Attested : {S C V : Type 0} → RunCodeDeps S C V → RunCodeInput → ToolResult → Type 0
Attested deps input (error_result e) = Unit
Attested deps input (success_result mode v logs b) = RunsIn deps input mode
Attested deps input (budget_result d logs b) = (mode : Mode) × RunsIn deps input mode
Attested deps input (reauth_result u logs b) = (mode : Mode) × RunsIn deps input mode
Attested deps input (run_error_result e logs b) = (mode : Mode) × RunsIn deps input mode

effective_of-ok : (r : EffectiveModeResult) (m : Mode) → effective_of r ≡ ok m → r ≡ permitted m
effective_of-ok r m h = ground (arith, h)

check_if-ok : (b : Bool) (e : Thrown) → check_if b e ≡ ok tt → b ≡ false
check_if-ok b e h = ground (arith, h)

module _ {S C V : Type 0} (deps : RunCodeDeps S C V) (input : RunCodeInput) where
  by_error-Attested :
      (mode : Mode) (exec : Executed V) (o : Option Text) (logs : CappedLogs) (b : RunBudget)
      → RunsIn deps input mode
      → Attested deps input (by_error deps mode exec o logs b)
  by_error-Attested mode exec none logs b i = i
  by_error-Attested mode exec (some e) logs b i = (mode, i)

  by_reauth-Attested :
      (mode : Mode) (exec : Executed V) (o : Option (Option String)) (logs : CappedLogs)
      (b : RunBudget)
      → RunsIn deps input mode
      → Attested deps input (by_reauth deps mode exec o logs b)
  by_reauth-Attested mode exec none logs b i = by_error-Attested mode exec _ logs b i
  by_reauth-Attested mode exec (some u) logs b i = (mode, i)

  by_signals-Attested :
      (mode : Mode) (exec : Executed V) (o : Option (Option RunDimension))
      (u : Option (Option String)) (logs : CappedLogs) (b : RunBudget)
      → RunsIn deps input mode
      → Attested deps input
          (by_signals deps mode exec (record { budget_signal = o; reauth_signal = u }) logs b)
  by_signals-Attested mode exec none u logs b i = by_reauth-Attested mode exec u logs b i
  by_signals-Attested mode exec (some d) u logs b i = (mode, i)

  finalize-Attested :
      (mode : Mode) (exec : Executed V) (h : Host S)
      → RunsIn deps input mode
      → Attested deps input (finalize deps mode exec h)
  unfolding finalize
  finalize-Attested mode exec h i =
      by_signals-Attested mode exec h.signals.budget_signal h.signals.reauth_signal _ h.budget i

  execute_and_finalize-Attested :
      (mode : Mode) (reason run_key token : Option Text) (js : C)
      → RunsIn deps input mode
      → Ensures (execute_and_finalize deps mode reason run_key token js) (Attested deps input)
  unfolding execute_and_finalize
  execute_and_finalize-Attested mode reason run_key token js i = record {
    after = λ s.
        let context : RunContext = record {
          request_id = deps.random_uuid s.outside;
          reason = reason;
          run_key = run_key;
          approval_token = token;
        } in
        let x = deps.execute mode context js (record {
          budget = or_uncapped deps.make_run_budget;
          signals = no_signals;
          ordinal = 0;
          outside = s.outside;
        }) in
        finalize-Attested mode x.0 x.1 i;
  }

  run_body-Attested : Ensures (run_body deps input) (Attested deps input)
  unfolding run_body
  run_body-Attested = Ensures-checked _ _ λ size. Ensures-check _ _ λ mode resolved.
      Ensures-checked _ _ λ reasoned. Ensures-check _ _ λ reason _. Ensures-check _ _ λ run_key _.
        Ensures-check _ _ λ token _. Ensures-then _ _ (
          Ensures-then _ _ (
            Ensures-bind _ _ λ answer. Ensures-check _ _ λ js _.
              execute_and_finalize-Attested mode reason run_key token js (record {
                effective = effective_of-ok _ mode resolved;
                small = let e = check_if-ok _ _ size in ground (arith, e);
                explained = λ admin. let e = check_if-ok _ _ reasoned in ground (arith, admin, e);
              })))

  finish-Attested :
      (x : Result ToolResult × RunState S)
      → After x (Attested deps input)
      → Attested deps input (finish deps x).0
  finish-Attested (ok r, s) h = h
  finish-Attested (throw e, s) h = tt

-- A result other than an error comes from a run in the effective mode of its input, of code of a
-- permitted size, with a reason if the mode is `admin_script`; a success names that mode.
pub run_code-Attested :
    {S C V : Type 0} (deps : RunCodeDeps S C V) (input : RunCodeInput) (w : S)
    → Attested deps input (run_code deps input w).0
unfolding run_code
run_code-Attested deps input w =
    finish-Attested deps input _ ((run_body-Attested deps input).after _)
