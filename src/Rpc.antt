-- ===== src/Rpc.antt =====
-- The reading methods of `ServiceNowRPC`, packages/mcp-server/src/sn/rpc.ts, with the capabilities of
-- config.ts: the boundary that the sandbox sees.
-- A method runs on a `Host`: the meter of the run, the signals that the host attests, and the state `W`
-- of everything outside. The client is a parameter, at the three endpoints that the methods read; the
-- instance answers each with its result, with none, or with no JSON object. A query is the record of
-- its `sysparm_` parameters; the length of its encoding and of a value's JSON are parameters.
mod Parts
pub mod Gate
pub mod Results
pub mod Permitted
pub mod Requests
pub mod Sent
pub mod Signals
use snow_mcp.Common.{
  ℕ, suc, zero, ◌+◌, Bool, true, false, not, ◌||◌, Option, none, some, List, [], ◌∷◌, ◌++◌, map,
  ltb, leb, length, ◌==◌, str_eq, if◌then◌else◌, String,
}
use snow_mcp.Errors.{
  ErrorCode, capability_denied, budget_exceeded, reauth_required, Result, ok, throw, Thrown,
  tool_error, other_error, budget_error, reauth_error, RunDimension,
}
use snow_mcp.Exec.{Exec}
use snow_mcp.Exec.Steps.{◌>>=◌, ◌>>◌, check, return}
use snow_mcp.Mode.{Mode}
use snow_mcp.Text.{Text, text, includes}
use snow_mcp.Validate.{
  Unknown, validate_table_name, validate_fields, validate_user_query, validate_limit,
  validate_sys_id, validate_group_by_fields, max_fields, table_page_cap,
}
use snow_mcp.Policy.{
  ActorPolicy, assert_actor_policy, assert_requested_fields_allowed, assert_query_fields_allowed,
  apply_row_filter, mandatory_filter, mask_row,
}
use snow_mcp.RunBudget.{
  RunBudget, Metered, count_rpc_call, count_service_now_request, count_rows, count_bytes,
  count_query_bytes,
}
use snow_mcp.SnErrors.{throw_mapped}
pub use Parts.{
  Capability, Endpoint, SnQuery, SnRequest, Body, SnResponse, SnHttpClient, HostSignals, Host,
  RunContext, RpcDeps, TableQueryArgs, TableRowsResult, TableGetArgs, AggregateArgs, read_tables,
  write_tables, run_server_script, table_list, table_record, table_stats, result_body, no_object,
  Row, result_of, or_empty, first_of_list, with_sys_id, if_not_empty, is_some, require_some,
  page_limit, request_limit, is_partial, list_params, record_params, stats_params, or_set,
}
unfoldable pub use Parts.{
  has_capability, require_capability, take, unique_from, metered, send, mapped, raise_signal, coded,
}

module _ {W V : Type 0} (deps : RpcDeps W V) where
  open deps use {http, instance_host, effective_mode, actor_policy}

  unfoldable pub gate_read : Text → Option (List Text) → Exec (Host W) (Unit {0})
  gate_read table fields =
      check (assert_actor_policy actor_policy instance_host table effective_mode)
      >> check (require_capability effective_mode read_tables)
      >> check (assert_requested_fields_allowed actor_policy table fields)
      >> metered count_rpc_call

  abbrev pub has_mandatory_filter : Text → Bool
  has_mandatory_filter table = is_some (mandatory_filter actor_policy table)

  -- Counts the query's bytes and the request, sends it, and maps an error answer.
  unfoldable pub counted_request :
      {A : Type 0} → (SnRequest → Exec W (SnResponse A)) → SnRequest → Exec (Host W) (SnResponse A)
  counted_request call req =
      metered (count_query_bytes (deps.query_bytes req.params))
      >> metered count_service_now_request
      >> send (call req)

  -- `fetchRowInFilterScope`.
  unfoldable pub fetch_row_in_filter_scope :
      Text → Text → Option (List Text) → Exec (Host W) (Option (Row V))
  unfolding counted_request mapped
  fetch_row_in_filter_scope table sys_id fields = do
    let query = apply_row_filter actor_policy table (text "sys_id=" ++ sys_id)
    let params = list_params 1 (some query) fields
    res ← counted_request http.get_rows (record { endpoint = table_list table; params = params })
    mapped res
    rows ← check (result_of res.body)
    return (first_of_list (or_empty rows))

  -- What `tableQuery` does with the rows that come back.
  unfoldable pub finish_query : Text → ℕ → List (Row V) → Exec (Host W) (TableRowsResult V)
  unfolding take
  finish_query table limit raw = do
    let rows = map (mask_row actor_policy table) (take limit raw)
    metered (count_rows (length rows))
    metered (count_bytes (deps.rows_bytes rows))
    return (record { rows = rows; partial = is_partial limit (length raw) })

  unfoldable pub table_query : {J : Type 0} → TableQueryArgs J → Exec (Host W) (TableRowsResult V)
  unfolding gate_read counted_request mapped finish_query unique_from
  table_query args = do
    table ← check (validate_table_name args.table)
    req_fields ← check (validate_fields max_fields args.fields)
    user_query ← check (validate_user_query args.query (has_mandatory_filter table))
    req_limit ← check (validate_limit args.limit)
    gate_read table req_fields
    check (assert_query_fields_allowed actor_policy table user_query)
    let query = apply_row_filter actor_policy table user_query
    let limit = page_limit req_limit
    let params = list_params (request_limit limit) (if_not_empty query) (with_sys_id req_fields)
    res ← counted_request http.get_rows (record { endpoint = table_list table; params = params })
    mapped res
    raw ← check (result_of res.body)
    finish_query table limit (or_empty raw)

  -- The record endpoint, for a table without a mandatory filter; a 404 is no row.
  unfoldable pub fetch_row : Text → Text → Option (List Text) → Exec (Host W) (Option (Row V))
  unfolding counted_request mapped
  fetch_row table sys_id fields = do
    let params = record_params fields
    res ←
        counted_request http.get_row
          (record { endpoint = table_record table sys_id; params = params })
    if res.status == 404 then return none else (mapped res >> check (result_of res.body))

  unfoldable pub finish_get : Text → Option (Row V) → Exec (Host W) (Option (Row V))
  finish_get table none = return none
  finish_get table (some row) = do
    let masked = mask_row actor_policy table row
    metered (count_rows 1)
    metered (count_bytes (deps.row_bytes masked))
    return (some masked)

  unfoldable pub table_get : {J : Type 0} → TableGetArgs J → Exec (Host W) (Option (Row V))
  unfolding gate_read fetch_row fetch_row_in_filter_scope finish_get unique_from
  table_get args = do
    table ← check (validate_table_name args.table)
    sys_id ← check (validate_sys_id args.sys_id)
    req_fields ← check (validate_fields max_fields args.fields)
    gate_read table req_fields
    let fields = with_sys_id req_fields
    row ←
        (if has_mandatory_filter table
          then fetch_row_in_filter_scope table sys_id fields
          else fetch_row table sys_id fields)
    finish_get table row

  unfoldable pub aggregate : {J : Type 0} → AggregateArgs J → Exec (Host W) (Option V)
  unfolding gate_read counted_request mapped
  aggregate args = do
    table ← check (validate_table_name args.table)
    user_query ← check (validate_user_query args.query (has_mandatory_filter table))
    group_by ← check (validate_group_by_fields args.group_by)
    gate_read table group_by
    check (assert_query_fields_allowed actor_policy table user_query)
    let query = apply_row_filter actor_policy table user_query
    let params = stats_params (if_not_empty query) group_by
    res ← counted_request http.get_stats (record { endpoint = table_stats table; params = params })
    mapped res
    result ← check (result_of res.body)
    metered (count_bytes (deps.stats_bytes result))
    return result
