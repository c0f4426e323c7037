-- ===== src/Tests/Runs.antt =====
-- A run of a snippet on a concrete host, and the meters and caps of its results.
use snow_mcp.Common.{
  arith, ℕ, suc, ◌≤◌, ◌<◌, ◌≡◌, ◌≢◌, ◌↔◌, ◌⊎◌, refl, true, false, none, some, List, [], ◌∷◌, length,
}
use snow_mcp.Errors.{ok, tool_error, rows_returned, capability_denied}
use snow_mcp.Exec.Steps.{◌>>◌, check}
use snow_mcp.Mode.{mode_risk, mode_risk_table}
use snow_mcp.EffectiveMode.{resolve_effective_mode, ceiling_entry, lowest_entry, min_by_risk}
use snow_mcp.RunBudget.{RunBudget, new_run_budget, per_run}
use snow_mcp.RunBudget.Bounds.{
  Use, use_rows, use_rpc_call, granted, spend, cap, used, AtMostLeft, granted-AtMostLeft,
}
use snow_mcp.Text.{text}
use snow_mcp.SnErrors.{
  ServiceNowErrorBody, error_object, map_service_now_error, is_post_send_unknown,
}
use snow_mcp.SnErrors.Codes.{ExecutorOff, map_service_now_error-clean}
use snow_mcp.Serialize.{Utf8, cap_logs, truncate_encoded_utf8}
use snow_mcp.Serialize.Characters.{Character, encoded, first_characters, ReadFrom, truncate-whole}
use snow_mcp.Serialize.Caps.{total_length, cap_logs-caps}
use snow_mcp.RunCode.{RunCodeInput, RunCodeDeps, Executed, transpiled, reserved_ok, run_code}
use snow_mcp.RunCode.Reserves.{Settled, watched, run_code-Settled}
use snow_mcp.RunCode.Attested.{Attested, run_code-Attested}

abbrev ten_rows : RunBudget
ten_rows = new_run_budget per_run (some 10) none

abbrev uses : List Use
uses = use_rows 6 ∷ use_rpc_call ∷ use_rows 6 ∷ use_rows 3 ∷ []

granted-AtMostLeft_example :
    AtMostLeft
      (granted rows_returned uses ten_rows)
      (cap rows_returned ten_rows)
      (used rows_returned ten_rows)
granted-AtMostLeft_example = granted-AtMostLeft rows_returned uses ten_rows

-- The use that fails is counted, so that the later one, which alone would fit, fails too.
granted_six : granted rows_returned uses ten_rows ≡ 6
unfolding granted spend
granted_six = refl

-- The executor is switched off, and says so in the message of an error object.
abbrev off_body : ServiceNowErrorBody
off_body = error_object (some (text "executor_disabled"))

executor_off : map_service_now_error 503 off_body ≡ some capability_denied
unfolding map_service_now_error
executor_off = refl

map_service_now_error-clean_example :
    (is_post_send_unknown (tool_error capability_denied) ≡ false)
    ↔ (((400 ≤ 503) × (503 < 500) × (◌≢◌ {A = ℕ} 503 429)) ⊎ ExecutorOff 503 off_body)
map_service_now_error-clean_example =
    map_service_now_error-clean 503 off_body capability_denied executor_off

abbrev logs : List Utf8
logs = (97 ∷ 98 ∷ []) ∷ (99 ∷ 0xc3 ∷ 0xa9 ∷ []) ∷ (100 ∷ []) ∷ []

cap_logs-caps_example :
    (length (cap_logs logs 2 4).logs ≤ 2)
    × (total_length (cap_logs logs 2 4).logs ≤ 4)
    × (((cap_logs logs 2 4).truncated ≡ true) ⊎ ((cap_logs logs 2 4).logs ≡ logs))
cap_logs-caps_example = cap_logs-caps logs 2 4

-- The second entry is cut before the character that does not fit.
cuts_logs : (cap_logs logs 2 4).logs ≡ (97 ∷ 98 ∷ []) ∷ (99 ∷ []) ∷ []
unfolding cap_logs
cuts_logs = refl

-- The outside counts the calls of the executor; a snippet is its own code.
abbrev executed_fine : Executed ℕ
executed_fine = record { result = 7; error = none; logs = logs }

abbrev deps : RunCodeDeps ℕ Utf8 ℕ
deps = record {
  ceilings = record {
    scope_max_mode = "write";
    tenant_max_mode = "write";
    instance_max_mode = "admin_script";
  };
  preflight_auth = some (λ n. (ok tt, n));
  reserve_daily_budget = none;
  transpile_ts = λ code n. (ok (transpiled code), n);
  random_uuid = λ n. "r1";
  make_run_budget = some ten_rows;
  execute = λ mode context js h. (executed_fine, record h { outside = suc h.outside });
  serialize_result = λ v cap. record { text = 55 ∷ []; truncated = false; total_bytes = 1 };
  redact = λ t. t;
  reconcile_daily_budget = none;
}

abbrev input : RunCodeInput
input = record {
  code = 55 ∷ [];
  mode = some "write";
  reason = none;
  idempotency_key = none;
  approval_token = none;
}

run_code-Settled_example :
    let (r, left) =
      run_code (watched deps (λ n. (ok reserved_ok, n)) (λ b n. (ok tt, n))) input (0, []) in
    Settled r left.1
run_code-Settled_example =
    run_code-Settled deps (λ n. (ok reserved_ok, n)) (λ b n. (ok tt, n)) input 0

run_code-Attested_example : Attested deps input (run_code deps input 0).0
run_code-Attested_example = run_code-Attested deps input 0

runs_once : (run_code deps input 0).1 ≡ 1
unfolding run_code ◌>>◌ check resolve_effective_mode mode_risk mode_risk_table ceiling_entry
    lowest_entry min_by_risk
runs_once = refl

-- A byte-order mark, an `a` and an `é`.
abbrev marked : List Character
marked =
    record { lead = 239; rest = 187 ∷ 191 ∷ []; begins = refl; continues = (refl, (refl, tt)) }
    ∷ record { lead = 97; rest = []; begins = refl; continues = tt }
    ∷ record { lead = 0xc3; rest = 0xa9 ∷ []; begins = refl; continues = (refl, tt) }
    ∷ []

mark_dropped : truncate_encoded_utf8 (encoded marked) 5 ≡ 97 ∷ []
unfolding truncate_encoded_utf8
mark_dropped = refl

truncate-whole_example :
    (k : ℕ) × ReadFrom
      (encoded (first_characters k marked))
      (truncate_encoded_utf8 (encoded marked) 5)
    × (5 < length (encoded (first_characters (suc k) marked)))
truncate-whole_example = truncate-whole marked 5 (omega arith)
