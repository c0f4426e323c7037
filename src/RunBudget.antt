-- ===== src/RunBudget.antt =====
-- packages/mcp-server/src/sn/run-budget.ts and query-budget.ts: the meters of one run.
-- A method takes the meter and returns it with a value or a thrown error; a cap that is `none` is
-- `Number.POSITIVE_INFINITY`.
pub mod Bounds
use snow_mcp.Common.{ℕ, ◌+◌, ◌*◌, Bool, true, false, Option, none, some, ltb, ◌==◌, if◌then◌else◌}
use snow_mcp.Errors.{
  Result, ok, throw, Thrown, tool_error, budget_error, path_denied, RunDimension, rpc_calls,
  service_now_requests, rows_returned, bytes_returned, outbound_bytes_sent,
}

pub record RunBudgetLimits : Type 0 where
  pub rpc_call_limit : ℕ
  pub service_now_request_limit : ℕ
  pub max_outbound_bytes : ℕ

-- `BUDGETS.perRun` of config.ts.
abbrev pub per_run : RunBudgetLimits
per_run = record {
  rpc_call_limit = 200;
  service_now_request_limit = 200;
  max_outbound_bytes = 256 * 1024;
}

-- `SN_REQUEST_LIMITS.maxQueryStringBytes`.
abbrev pub max_query_string_bytes : ℕ
max_query_string_bytes = 8192

pub record RunBudget : Type 0 where
  pub rpc_calls_made : ℕ
  pub requests_made : ℕ
  pub rows : ℕ
  pub bytes : ℕ
  pub outbound_bytes : ℕ
  pub limits : RunBudgetLimits
  pub max_rows : Option ℕ
  pub max_bytes : Option ℕ

-- The constructor.
abbrev pub new_run_budget : RunBudgetLimits → Option ℕ → Option ℕ → RunBudget
new_run_budget limits max_rows max_bytes = record {
  rpc_calls_made = 0;
  requests_made = 0;
  rows = 0;
  bytes = 0;
  outbound_bytes = 0;
  limits = limits;
  max_rows = max_rows;
  max_bytes = max_bytes;
}

abbrev pub Metered : Type 0
Metered = Result (Unit {0}) × RunBudget

-- `n > cap`.
abbrev pub exceeds : ℕ → Option ℕ → Bool
exceeds n none = false
exceeds n (some cap) = ltb cap n

abbrev meter : Bool → RunDimension → RunBudget → Metered
meter over d b = if over then (throw (budget_error d), b) else (ok tt, b)

unfoldable pub count_rpc_call : RunBudget → Metered
count_rpc_call b =
    meter (ltb b.limits.rpc_call_limit (b.rpc_calls_made + 1)) rpc_calls
      (record b { rpc_calls_made = b.rpc_calls_made + 1 })

unfoldable pub count_service_now_request : RunBudget → Metered
count_service_now_request b =
    meter (ltb b.limits.service_now_request_limit (b.requests_made + 1)) service_now_requests
      (record b { requests_made = b.requests_made + 1 })

unfoldable pub count_rows : ℕ → RunBudget → Metered
count_rows n b =
    meter (exceeds (b.rows + n) b.max_rows) rows_returned (record b { rows = b.rows + n })

unfoldable pub count_bytes : ℕ → RunBudget → Metered
count_bytes n b =
    meter (exceeds (b.bytes + n) b.max_bytes) bytes_returned (record b { bytes = b.bytes + n })

-- Bytes that would pass the limit are not counted.
unfoldable pub count_outbound_bytes : ℕ → RunBudget → Metered
count_outbound_bytes n b =
    if ltb b.limits.max_outbound_bytes (b.outbound_bytes + n)
    then (throw (budget_error outbound_bytes_sent), b)
    else (ok tt, record b { outbound_bytes = b.outbound_bytes + n })

-- `countServiceNowQueryBytes`, of the encoded length of the query string.
unfoldable pub count_query_bytes : ℕ → RunBudget → Metered
unfolding count_outbound_bytes
count_query_bytes n b =
    if n == 0
    then (ok tt, b)
    else if ltb max_query_string_bytes n
    then (throw (tool_error path_denied), b)
    else count_outbound_bytes n b
