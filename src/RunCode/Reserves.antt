-- ===== src/RunCode/Reserves.antt =====
-- The daily budget around a run: reserved before the snippet is executed, and reconciled once for each
-- reserve, on every way out.
use snow_mcp.Common.{
  ◌≡◌, refl, Bool, true, false, Option, none, some, List, [], ◌∷◌, inl, inr, ◌⊎◌, ap, ap₂, String,
  ◌∙◌,
}
use snow_mcp.Errors.{Result, ok, throw, Thrown, RunDimension}
use snow_mcp.Exec.{Exec}
use snow_mcp.Exec.Steps.{return}
use snow_mcp.Exec.Rules.{Triple, Triple-bind, Triple-then, Triple-check, Triple-check_then}
use snow_mcp.Mode.{Mode}
use snow_mcp.Text.{Text}
use snow_mcp.RunBudget.{RunBudget}
use snow_mcp.Serialize.{CappedLogs, cap_logs}
use snow_mcp.Rpc.{Host}
use snow_mcp.RunCode.{
  RunCodeInput, RunCodeDeps, RunContext, RunState, Reservation, reserved_ok, reserve_denied,
  Executed, ToolResult, error_result, budget_result, reauth_result, run_error_result,
  success_result, if_given, note_reservation, reconcile_with, by_signals, by_reauth, by_error,
  finish, or_uncapped, no_signals, on_outside, reserve_before_load, finalize, execute_and_finalize,
  run_body, run_code,
}

-- What the daily budget and the executor are asked for.
pub data Event : Type 0 where
  reserved : Event
  ran : Event
  reconciled : Option RunBudget → Event

abbrev pub Logged : Type 0 → Type 0
Logged S = S × List Event

abbrev kept : {S A : Type 0} → Exec S A → Exec (Logged S) A
kept m (w, log) = let (r, w') = m w in (r, (w', log))

-- A reserve is logged if it succeeds.
abbrev granted : {S : Type 0} → Result Reservation × S → List Event → Result Reservation × Logged S
granted (ok reserved_ok, w) log = (ok reserved_ok, (w, reserved ∷ log))
granted (ok reserve_denied, w) log = (ok reserve_denied, (w, log))
granted (throw e, w) log = (throw e, (w, log))

abbrev logged_reserve : {S : Type 0} → Exec S Reservation → Exec (Logged S) Reservation
logged_reserve m (w, log) = granted (m w) log

abbrev logged_run :
    {S V : Type 0} → (Host S → Executed V × Host S) → Host (Logged S) → Executed V × Host (Logged S)
logged_run run h =
    let (exec, h') = run (record {
      budget = h.budget;
      signals = h.signals;
      ordinal = h.ordinal;
      outside = h.outside.0;
    }) in
    (
      exec,
      record {
        budget = h'.budget;
        signals = h'.signals;
        ordinal = h'.ordinal;
        outside = (h'.outside, ran ∷ h.outside.1);
      },
    )

abbrev logged_reconcile :
    {S : Type 0}
    → (Option RunBudget → Exec S (Unit {0}))
    → Option RunBudget
    → Exec (Logged S) (Unit {0})
logged_reconcile m b (w, log) = let (r, w') = m b w in (r, (w', reconciled b ∷ log))

abbrev kept_if : {S : Type 0} → Option (Exec S (Unit {0})) → Option (Exec (Logged S) (Unit {0}))
kept_if none = none
kept_if (some m) = some (kept m)

-- The dependencies with a log, where the daily budget is given.
abbrev pub watched :
    {S C V : Type 0}
    → RunCodeDeps S C V
    → Exec S Reservation
    → (Option RunBudget → Exec S (Unit {0}))
    → RunCodeDeps (Logged S) C V
watched deps reserve reconcile = record {
  ceilings = deps.ceilings;
  preflight_auth = kept_if deps.preflight_auth;
  reserve_daily_budget = some (logged_reserve reserve);
  transpile_ts = λ code. kept (deps.transpile_ts code);
  random_uuid = λ s. deps.random_uuid s.0;
  make_run_budget = deps.make_run_budget;
  execute = λ mode context js. logged_run (deps.execute mode context js);
  serialize_result = deps.serialize_result;
  redact = deps.redact;
  reconcile_daily_budget = some (logged_reconcile reconcile);
}

-- The meter of a result.
abbrev pub meter_of : ToolResult → Option RunBudget
meter_of (error_result e) = none
meter_of (budget_result d logs b) = some b
meter_of (reauth_result url logs b) = some b
meter_of (run_error_result e logs b) = some b
meter_of (success_result mode v logs b) = some b

-- Nothing was asked for, or a reserve was reconciled without a meter; a snippet that was executed came
-- after the reserve and before the reconciliation with its meter.
abbrev pub Settled : ToolResult → List Event → Type 0
Settled (error_result e) log = (log ≡ []) ⊎ (log ≡ reconciled none ∷ reserved ∷ [])
Settled r log = log ≡ reconciled (meter_of r) ∷ ran ∷ reserved ∷ []

record Unreserved {S : Type 0} (s : RunState (Logged S)) : Type 0 where
  pub unset : s.reserved ≡ false
  pub unmetered : s.run_budget ≡ none
  pub quiet : s.outside.1 ≡ []

record Reserved {S : Type 0} (s : RunState (Logged S)) : Type 0 where
  pub is_set : s.reserved ≡ true
  pub unmetered : s.run_budget ≡ none
  pub log_is : s.outside.1 ≡ reserved ∷ []

record Ran {S : Type 0} (b : Option RunBudget) (s : RunState (Logged S)) : Type 0 where
  pub is_set : s.reserved ≡ true
  pub metered : s.run_budget ≡ b
  pub log_is : s.outside.1 ≡ ran ∷ reserved ∷ []

AfterReserve : {S : Type 0} → Result (Unit {0}) × RunState (Logged S) → Type 0
AfterReserve (ok a, s) = Reserved s
AfterReserve (throw e, s) = Unreserved s

abbrev MeteredBy : {S : Type 0} → ToolResult → RunState (Logged S) → Type 0
MeteredBy (error_result e) s = Unreserved s
MeteredBy r s = Ran (meter_of r) s

abbrev Ended : {S : Type 0} → Result ToolResult × RunState (Logged S) → Type 0
Ended (ok r, s) = MeteredBy r s
Ended (throw e, s) = Unreserved s ⊎ Reserved s

module _ {S C V : Type 0} (deps : RunCodeDeps S C V) (reserve : Exec S Reservation)
    (reconcile : Option RunBudget → Exec S (Unit {0})) where
  -- A call that only the outside sees keeps a run before the reserve, and after it.
  kept-Unreserved :
      {A : Type 0} (m : Exec S A) → Triple Unreserved (on_outside (kept m)) (λ x. Unreserved x.1)
  unfolding on_outside
  kept-Unreserved m = record {
    ends = λ s i. record { unset = i.unset; unmetered = i.unmetered; quiet = i.quiet };
  }

  kept-Reserved :
      {A : Type 0} (m : Exec S A) → Triple Reserved (on_outside (kept m)) (λ x. Reserved x.1)
  unfolding on_outside
  kept-Reserved m = record {
    ends = λ s i. record { is_set = i.is_set; unmetered = i.unmetered; log_is = i.log_is };
  }

  preflight-Unreserved :
      (o : Option (Exec S (Unit {0})))
      → Triple Unreserved (if_given (kept_if o)) (λ x. Unreserved x.1)
  unfolding return
  preflight-Unreserved none = record { ends = λ s i. i }
  preflight-Unreserved (some m) = kept-Unreserved m

  reserve_before_load-AfterReserve :
      Triple Unreserved (reserve_before_load (some (logged_reserve reserve))) AfterReserve
  unfolding reserve_before_load AfterReserve
  reserve_before_load-AfterReserve = record { ends = λ s i. by_answer s i (reserve s.outside.0) }
    where
      by_answer :
          (s : RunState (Logged S))
          → Unreserved s
          → (x : Result Reservation × S) → AfterReserve (note_reservation (granted x s.outside.1) s)
      by_answer s i (ok reserved_ok, w) = record {
        is_set = refl;
        unmetered = i.unmetered;
        log_is = ap (λ log. reserved ∷ log) i.quiet;
      }
      by_answer s i (ok reserve_denied, w) = record {
        unset = i.unset;
        unmetered = i.unmetered;
        quiet = i.quiet;
      }
      by_answer s i (throw e, w) = record {
        unset = i.unset;
        unmetered = i.unmetered;
        quiet = i.quiet;
      }

  finalize-MeteredBy :
      (mode : Mode) (exec : Executed V) (h : Host (Logged S)) (s : RunState (Logged S))
      → Ran (some h.budget) s
      → MeteredBy (finalize (watched deps reserve reconcile) mode exec h) s
  unfolding finalize cap_logs
  finalize-MeteredBy mode exec h s i = by_budget _ h.signals.budget_signal
    where
      by_text :
          (logs : CappedLogs) (o : Option Text)
          → MeteredBy (by_error (watched deps reserve reconcile) mode exec o logs h.budget) s
      by_text logs none = i
      by_text logs (some e) = i

      by_reauth_signal :
          (logs : CappedLogs) (o : Option (Option String))
          → MeteredBy (by_reauth (watched deps reserve reconcile) mode exec o logs h.budget) s
      by_reauth_signal logs none = by_text logs _
      by_reauth_signal logs (some u) = i

      by_budget :
          (logs : CappedLogs) (o : Option (Option RunDimension))
          → MeteredBy
              (by_signals
                (watched deps reserve reconcile)
                mode
                exec
                (record { budget_signal = o; reauth_signal = h.signals.reauth_signal })
                logs
                h.budget)
              s
      by_budget logs none = by_reauth_signal logs h.signals.reauth_signal
      by_budget logs (some d) = i

  execute_and_finalize-Ended :
      (mode : Mode) (reason run_key token : Option Text) (js : C)
      → Triple Reserved
          (execute_and_finalize (watched deps reserve reconcile) mode reason run_key token js)
          Ended
  unfolding execute_and_finalize
  execute_and_finalize-Ended mode reason run_key token js = record {
    ends = λ s i.
        let context : RunContext = record {
          request_id = deps.random_uuid s.outside.0;
          reason = reason;
          run_key = run_key;
          approval_token = token;
        } in
        let x = deps.execute mode context js (record {
          budget = or_uncapped deps.make_run_budget;
          signals = no_signals;
          ordinal = 0;
          outside = s.outside.0;
        }) in
        finalize-MeteredBy mode x.0
          (record {
            budget = x.1.budget;
            signals = x.1.signals;
            ordinal = x.1.ordinal;
            outside = (x.1.outside, ran ∷ s.outside.1);
          })
          _ (record { is_set = i.is_set; metered = refl; log_is = ap (λ log. ran ∷ log) i.log_is });
  }

  before : (e : Thrown) (s : RunState (Logged S)) → Unreserved s → Ended (throw e, s)
  before e s i = inl i

  run_body-Ended :
      (input : RunCodeInput)
      → Triple Unreserved (run_body (watched deps reserve reconcile) input) Ended
  unfolding run_body AfterReserve
  run_body-Ended input = Triple-check_then _ _ before λ _. Triple-check _ _ before λ mode _.
      Triple-check_then _ _ before λ _. Triple-check _ _ before λ reason _.
        Triple-check _ _ before λ run_key _. Triple-check _ _ before λ token _.
          Triple-then _ _ _ (preflight-Unreserved deps.preflight_auth) before (
            Triple-then AfterReserve _ _ reserve_before_load-AfterReserve before (
              Triple-bind (λ x. Reserved x.1) _ _ (kept-Reserved (deps.transpile_ts input.code))
                (λ e s i. inr i)
                λ answer.
                  Triple-check _ _ (λ e s i. inr i)
                    λ js _. execute_and_finalize-Ended mode reason run_key token js))

  reconcile_with-reserved :
      (s : RunState (Logged S)) (b : Bool)
      → b ≡ true
      → (reconcile_with (watched deps reserve reconcile) (some (logged_reconcile reconcile)) b s).1
        ≡ reconciled s.run_budget ∷ s.outside.1
  reconcile_with-reserved s true e = refl
  reconcile_with-reserved s false e = cc

  reconcile_with-unreserved :
      (s : RunState (Logged S)) (b : Bool)
      → b ≡ false
      → (reconcile_with (watched deps reserve reconcile) (some (logged_reconcile reconcile)) b s).1
        ≡ s.outside.1
  reconcile_with-unreserved s true e = cc
  reconcile_with-unreserved s false e = refl

  -- The log once the budget of a run is reconciled.
  log_with_reconcile :
      (s : RunState (Logged S)) (b : Option RunBudget) (log : List Event)
      → s.reserved ≡ true
      → s.run_budget ≡ b
      → s.outside.1 ≡ log
      → (reconcile_with
          (watched deps reserve reconcile)
          (some (logged_reconcile reconcile))
          s.reserved
          s).1
        ≡ reconciled b ∷ log
  log_with_reconcile s b log set meter e =
      reconcile_with-reserved s s.reserved set ∙ ap₂ (λ b log. reconciled b ∷ log) meter e

  log_without_reserve :
      (s : RunState (Logged S))
      → Unreserved s
      → (reconcile_with
          (watched deps reserve reconcile)
          (some (logged_reconcile reconcile))
          s.reserved
          s).1
        ≡ []
  log_without_reserve s i = reconcile_with-unreserved s s.reserved i.unset ∙ i.quiet

  finish-Settled :
      (x : Result ToolResult × RunState (Logged S))
      → Ended x
      → let (r, w) = finish (watched deps reserve reconcile) x in Settled r w.1
  finish-Settled (throw e, s) (inl i) = inl (log_without_reserve s i)
  finish-Settled (throw e, s) (inr i) =
      inr (log_with_reconcile s none _ i.is_set i.unmetered i.log_is)
  finish-Settled (ok (error_result e), s) i = inl (log_without_reserve s i)
  finish-Settled (ok (budget_result d logs b), s) i =
      log_with_reconcile s _ _ i.is_set i.metered i.log_is
  finish-Settled (ok (reauth_result u logs b), s) i =
      log_with_reconcile s _ _ i.is_set i.metered i.log_is
  finish-Settled (ok (run_error_result e logs b), s) i =
      log_with_reconcile s _ _ i.is_set i.metered i.log_is
  finish-Settled (ok (success_result m v logs b), s) i =
      log_with_reconcile s _ _ i.is_set i.metered i.log_is

-- Where the daily budget is given, a run whose snippet was executed had a successful reserve before it
-- and one reconciliation after it, with the meter of its result; any other run is an error that reserved
-- and reconciled nothing, or reserved once and reconciled that reserve once, without a meter.
pub run_code-Settled :
    {S C V : Type 0} (deps : RunCodeDeps S C V) (reserve : Exec S Reservation)
    (reconcile : Option RunBudget → Exec S (Unit {0})) (input : RunCodeInput) (w : S)
    → let (r, left) = run_code (watched deps reserve reconcile) input (w, []) in Settled r left.1
unfolding run_code
run_code-Settled deps reserve reconcile input w = finish-Settled deps reserve reconcile _ (
    (run_body-Ended deps reserve reconcile input).ends _
      (record { unset = refl; unmetered = refl; quiet = refl }))
