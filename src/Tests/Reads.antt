-- ===== src/Tests/Reads.antt =====
-- A client with one page of rows, behind the reading methods.
use snow_mcp.Common.{ℕ, suc, ◌≡◌, refl, false, none, some, List, [], ◌∷◌, All, pos}
use snow_mcp.Errors.{ok}
use snow_mcp.Exec.Rules.{After}
use snow_mcp.Text.{
  text, all_units, drop, drop_leading, has_prefix, includes, is_space, leading, map_units, split_on,
  split_pieces, text_eq, to_lower, to_upper, trim_start,
}
use snow_mcp.RunBudget.{
  new_run_budget, per_run, count_rpc_call, count_bytes, count_outbound_bytes, count_query_bytes,
  count_rows, count_service_now_request,
}
use snow_mcp.Rpc.{
  Row, Host, RpcDeps, SnHttpClient, TableQueryArgs, result_body, table_query, require_capability,
  metered, has_capability, mapped, send, take, unique_from, counted_request, finish_query,
  gate_read,
}
use snow_mcp.Rpc.Results.{Shown, table_query-Shown}
use snow_mcp.Rpc.Permitted.{Permitted, watched}
use snow_mcp.Rpc.Sent.{call_query, left_by, sent-Permitted}
use snow_mcp.Exec.Steps.{◌>>=◌, check, ◌>>◌, return}
use snow_mcp.Validate.{
  string, integer, undefined, validate_table_name, validate_fields, validate_user_query,
  validate_limit, field_names, has_structural_operator, is_field_name, is_operator,
  is_structural_token, is_table_name, operator_after_caret, assert_mandatory_row_filter_safe,
}
use snow_mcp.Policy.{
  mandatory_filter, assert_actor_policy, assert_requested_fields_allowed,
  assert_query_fields_allowed, apply_row_filter, assert_mode_within_policy, clause_forbidden,
  compile_rules, dot_prefixes, field_token, find_entry, glued_field, is_field_masked, is_forbidden,
  is_table_allowed, mask_row, masked_fields, matches_table, starts_with_ci, strip_operator,
  assert_policy_row_filters_safe,
}
use snow_mcp.Mode.{mode_risk, mode_risk_table}
use snow_mcp.SnErrors.{no_error, map_service_now_error, throw_mapped}
use snow_mcp.Tests.Policies.{host, incident, incident_policy}

abbrev two_rows : List (Row ℕ)
two_rows = ((text "number", 1) ∷ (text "caller_id", 2) ∷ []) ∷ ((text "number", 3) ∷ []) ∷ []

-- The client counts what it is asked.
abbrev client : SnHttpClient ℕ ℕ
client = record {
  get_rows = λ req n. (
    ok (record { status = 200; error_body = no_error; body = result_body (some two_rows) }),
    suc n,
  );
  get_row = λ req n.
      (ok (record { status = 404; error_body = no_error; body = result_body none }), suc n);
  get_stats = λ req n.
      (ok (record { status = 200; error_body = no_error; body = result_body (some 2) }), suc n);
}

abbrev pub deps : RpcDeps ℕ ℕ
deps = record {
  http = client;
  instance_host = host;
  effective_mode = "read_only";
  actor_policy = incident_policy;
  query_bytes = λ q. 20;
  rows_bytes = λ rows. 10;
  row_bytes = λ row. 5;
  stats_bytes = λ v. 2;
}

abbrev args : TableQueryArgs ℕ
args = record {
  table = string incident;
  query = string (text "priority=1");
  fields = undefined;
  limit = integer (pos 5);
}

abbrev pub host_of : {W : Type 0} → W → Host W
host_of w = record {
  budget = new_run_budget per_run none none;
  signals = record { budget_signal = none; reauth_signal = none };
  ordinal = 0;
  outside = w;
}

-- The caller's column is gone.
shows_numbers :
    (table_query deps args (host_of 0)).0
    ≡ ok (record {
      rows = ((text "number", 1) ∷ []) ∷ ((text "number", 3) ∷ []) ∷ [];
      partial = false;
    })
unfolding ◌>>=◌ check validate_table_name all_units validate_fields validate_user_query
    mandatory_filter validate_limit ◌>>◌ assert_actor_policy mode_risk mode_risk_table
    require_capability assert_requested_fields_allowed metered count_rpc_call
    assert_query_fields_allowed return apply_row_filter assert_mode_within_policy clause_forbidden
    compile_rules dot_prefixes field_token find_entry glued_field is_field_masked is_forbidden
    is_table_allowed mask_row masked_fields matches_table starts_with_ci strip_operator
    has_capability mapped send take unique_from counted_request finish_query gate_read count_bytes
    count_outbound_bytes count_query_bytes count_rows count_service_now_request
    map_service_now_error throw_mapped drop drop_leading has_prefix includes is_space leading
    map_units split_on split_pieces text_eq to_lower to_upper trim_start field_names
    has_structural_operator is_field_name is_operator is_structural_token is_table_name
    operator_after_caret table_query
shows_numbers = refl

table_query-Shown_example : After (table_query deps args (host_of 0)) (Shown deps args)
table_query-Shown_example = (table_query-Shown deps args).after (host_of 0)

pub filters_safe : assert_policy_row_filters_safe incident_policy ≡ ok tt
unfolding assert_policy_row_filters_safe assert_mandatory_row_filter_safe
filters_safe = refl

sent-Permitted_example :
    All (Permitted deps) (left_by (watched deps) (call_query args) (host_of (0, []))).outside.1
sent-Permitted_example = sent-Permitted deps filters_safe (call_query args) (host_of (0, [])) tt
