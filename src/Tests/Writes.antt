-- ===== src/Tests/Writes.antt =====
-- A client with one row, behind the mutating methods.
use snow_mcp.Common.{map, ℕ, suc, ◌≡◌, refl, true, false, none, some, List, [], ◌∷◌}
use snow_mcp.Errors.{ok}
use snow_mcp.Text.{text}
use snow_mcp.ReplayPayload.{JsValue, other_value}
use snow_mcp.Guard.{LedgerHandle, claim_new}
use snow_mcp.Rpc.{RpcDeps, result_body}
use snow_mcp.Validate.{string, object}
use snow_mcp.Mutation.Body.{number}
use snow_mcp.Mutation.Parts.{WriteClient, MutationDeps, MutationTools, ApprovalPolicy}
use snow_mcp.Mutation.Update.{TableUpdateArgs, table_update}
use snow_mcp.Mutation.Script.{Signing, ScriptDeps, run_script}
use snow_mcp.Mutation.Trace.{Sent, listed, fetched, patched, posted}
use snow_mcp.Mutation.Permitted.{AllPermitted}
use snow_mcp.Mutation.Sent.{WriteCall, call_update, call_script, written_by, written-Permitted}
use snow_mcp.Tests.Guards.{ann}
use snow_mcp.Tests.Policies.{host, incident, incident_policy}
use snow_mcp.Tests.Reads.{deps, host_of, filters_safe}
use snow_mcp.Text.{
  all_units, drop, drop_leading, has_prefix, includes, is_space, leading, map_units, split_on,
  split_pieces, text_eq, to_lower, to_upper, trim_start,
}
use snow_mcp.RunBudget.{
  count_rpc_call, count_bytes, count_outbound_bytes, count_query_bytes, count_rows,
  count_service_now_request,
}
use snow_mcp.Rpc.{
  require_capability, metered, has_capability, mapped, send, take, unique_from, counted_request,
  gate_read,
}
use snow_mcp.Exec.Steps.{◌>>=◌, check, ◌>>◌, return}
use snow_mcp.Validate.{
  validate_table_name, validate_fields, validate_user_query, validate_limit, field_names,
  has_structural_operator, is_field_name, is_operator, is_structural_token, is_table_name,
  operator_after_caret,
}
use snow_mcp.Policy.{
  mandatory_filter, assert_actor_policy, assert_requested_fields_allowed,
  assert_query_fields_allowed, apply_row_filter, assert_mode_within_policy, clause_forbidden,
  compile_rules, dot_prefixes, field_token, find_entry, glued_field, is_field_masked, is_forbidden,
  is_table_allowed, mask_row, masked_fields, matches_table, starts_with_ci, strip_operator,
}
use snow_mcp.Mode.{mode_risk, mode_risk_table}
use snow_mcp.SnErrors.{no_error, map_service_now_error, throw_mapped}
use snow_mcp.Guard.Audit.{build_audit_record, emit_audit}
use snow_mcp.Guard.{
  write_row, emit_denial, emit_outcome_error, deny_and_throw, write_intent, write_outcome,
  effect_failed, effect_succeeded, run_effect, run_gates, act_on_claim, claim_and_run,
  guard_mutation,
}
use snow_mcp.Mutation.Body.{
  is_json_serializable, text_ltb, insert_entry, sort_entries, assert_entries_serializable,
  canonical_object_json,
}
use snow_mcp.Mutation.Parts.{
  on_host, assign, locals, calling, next_ordinal, visible_result, finish_mutation,
}
use snow_mcp.Mutation.Update.{
  assert_sys_id_in_row_filter_scope, patch_row, current_row, snapshot_step, update_preflight,
  update_effect, guarded_call,
}
use snow_mcp.Mutation.Script.{
  sign_actor, send_script, resolve_user, approval_preflight, script_preflight, script_effect,
  guarded_script_call,
}
use snow_mcp.Approval.{
  differ_nowhere, constant_time_equal_ascii, match_any, approval_token_matches,
  assert_admin_script_approved,
}
use snow_mcp.ReplayPayload.{
  is_replay_safe_wrapper, truncated_payload, replay_safe_result, visible_replay_result,
}
use snow_mcp.Serialize.{back_off, truncate_encoded_utf8, capped_json_text}
use snow_mcp.Validate.{
  validate_sys_id, is_sys_id, validate_update_fields, check_update_keys, validate_reason,
}
use snow_mcp.Rpc.{fetch_row_in_filter_scope}
use snow_mcp.Text.{is_blank}

abbrev write_deps : RpcDeps ℕ ℕ
write_deps = record deps { effective_mode = "write" }

abbrev client : WriteClient ℕ ℕ ℕ
client = record {
  patch_row = λ req n. (
    ok (record {
      status = 200;
      error_body = no_error;
      body = result_body (some ((text "number", 1) ∷ (text "caller_id", 2) ∷ []));
    }),
    suc n,
  );
  post_script = λ req n.
      (ok (record { status = 200; error_body = no_error; json = some (other_value 7) }), suc n);
}

abbrev handle : LedgerHandle ℕ (JsValue ℕ)
handle = record {
  begin = λ hash n. (ok claim_new, n);
  complete = λ r n. (ok tt, n);
  fail = λ n. (ok tt, n);
  mark_indeterminate = λ n. (ok tt, n);
}

abbrev approval : ApprovalPolicy
approval = record {
  admin_script_allowlist = text "ann" ∷ [];
  valid_approval_tokens = some (text "token" ∷ []);
  actor_access_groups = none;
  required_access_group = none;
}

abbrev mutation : MutationDeps ℕ ℕ ℕ ℕ
mutation = record {
  run_context = record {
    request_id = "r1";
    reason = some (text "fix");
    run_key = some (text "key");
    approval_token = some (text "token");
  };
  identity = ann;
  now = λ n. n;
  durability_required = true;
  mutation_freeze = false;
  ledger = some (λ ordinal. handle);
  audit = some (λ r n. (ok tt, n));
  capture_snapshot = some (λ input n. (ok true, n));
  snapshot_enabled_tables = some (incident ∷ []);
  approval = some approval;
}

abbrev tools : MutationTools ℕ ℕ ℕ ℕ
tools = record {
  string_of = λ t. "text";
  date_of = λ n. "2026-01-01";
  hash_value = λ ts. "hash";
  actor_policy_scope_fingerprint = λ p. text "scope";
  utf8_length = λ t. 10;
  stringify = λ fs. text "{}";
  reference_value = λ v. none;
  row_value = λ r. other_value 5;
  replay_json = λ v. 55 ∷ [];
  parse_json = λ s. ok (other_value 5);
  value_bytes = λ v. 1;
  audit_tools = record { hash_value = λ r n. (ok "hash", n); redact = λ r. r };
}

abbrev pub args : TableUpdateArgs ℕ
args = record {
  table = string incident;
  sys_id = string (text "0123456789abcdef0123456789abcdef");
  fields = object ((text "state", number 2) ∷ []);
}

written-Permitted_example :
    AllPermitted write_deps tools mutation
      (written_by write_deps tools client mutation (call_update args) (host_of (0, []))).outside.1
written-Permitted_example =
    written-Permitted write_deps tools client mutation filters_safe (call_update args)
      (host_of (0, [])) tt

-- The update looks the record up, patches it and returns its result.
abbrev kind : Sent → ℕ
kind (listed req found) = 1
kind (fetched req) = 2
kind (patched req) = 3
kind (posted req) = 4

abbrev sent_by : WriteCall ℕ ℕ → List ℕ
sent_by call =
    map kind (written_by write_deps tools client mutation call (host_of (0, []))).outside.1

writes : Unit {0}
unfolding ◌>>=◌ check validate_table_name all_units validate_fields validate_user_query
    mandatory_filter validate_limit ◌>>◌ assert_actor_policy mode_risk mode_risk_table
    require_capability assert_requested_fields_allowed metered count_rpc_call
    assert_query_fields_allowed return apply_row_filter assert_mode_within_policy clause_forbidden
    compile_rules dot_prefixes field_token find_entry glued_field is_field_masked is_forbidden
    is_table_allowed mask_row masked_fields matches_table starts_with_ci strip_operator
    has_capability mapped send take unique_from counted_request gate_read count_bytes
    count_outbound_bytes count_query_bytes count_rows count_service_now_request
    map_service_now_error throw_mapped drop drop_leading has_prefix includes is_space leading
    map_units split_on split_pieces text_eq to_lower to_upper trim_start field_names
    has_structural_operator is_field_name is_operator is_structural_token is_table_name
    operator_after_caret build_audit_record emit_audit write_row emit_denial emit_outcome_error
    deny_and_throw write_intent write_outcome effect_failed effect_succeeded run_effect run_gates
    act_on_claim claim_and_run guard_mutation is_json_serializable text_ltb insert_entry
    sort_entries assert_entries_serializable canonical_object_json on_host assign locals calling
    next_ordinal visible_result finish_mutation assert_sys_id_in_row_filter_scope patch_row
    current_row snapshot_step update_preflight update_effect guarded_call sign_actor send_script
    resolve_user approval_preflight script_preflight script_effect guarded_script_call
    differ_nowhere constant_time_equal_ascii match_any approval_token_matches
    assert_admin_script_approved is_replay_safe_wrapper truncated_payload replay_safe_result
    visible_replay_result back_off truncate_encoded_utf8 capped_json_text validate_sys_id is_sys_id
    validate_update_fields check_update_keys fetch_row_in_filter_scope validate_reason is_blank
    table_update run_script
writes = tt

updates : sent_by (call_update args) ≡ 3 ∷ 1 ∷ []
unfolding writes
updates = refl

-- Where the lookup finds no row, nothing is patched.
abbrev no_rows_deps : RpcDeps ℕ ℕ
no_rows_deps = record write_deps {
  http = record write_deps.http {
    get_rows = λ req n.
        (ok (record { status = 200; error_body = no_error; body = result_body (some []) }), n);
  };
}

refuses :
    map kind
      (written_by no_rows_deps tools client mutation (call_update args) (host_of (0, []))).outside.1
    ≡ 1 ∷ []
unfolding writes
refuses = refl

abbrev signing : Signing ℕ
signing = record {
  claims = record {
    mcp_actor_user_id = text "ann";
    mcp_actor_email = text "ann@x";
    snow_effective_user_sys_id = [];
    instance = host;
    request_id = text "r1";
  };
  now = λ n. n;
  nonce = λ n. (ok (text "n"), n);
  sha256 = λ t. t;
  sign = λ p. text "sig";
  resolve_effective_user_sys_id = none;
}

abbrev script_deps : ScriptDeps ℕ
script_deps = record {
  signing = some signing;
  executor_path = some (text "/api/x");
  body_bytes = λ s a sig. 20;
}

abbrev admin_deps : RpcDeps ℕ ℕ
admin_deps = record deps {
  effective_mode = "admin_script";
  actor_policy = record incident_policy { max_mode = "admin_script" };
}

runs :
    map kind
      (written_by admin_deps tools client mutation
        (call_script script_deps (string (text "gs.info(1)")))
        (host_of (0, []))).outside.1
    ≡ 4 ∷ []
unfolding writes
runs = refl
