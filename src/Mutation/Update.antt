-- ===== src/Mutation/Update.antt =====
-- `tableUpdate` of packages/mcp-server/src/sn/rpc.ts: the checks before the guard, the callbacks that it
-- gives the guard, and what it returns.
use snow_mcp.Common.{ℕ, String, Bool, Option, none, some, List, [], ◌∷◌, map, if◌then◌else◌}
use snow_mcp.Errors.{Result, ok, throw, tool_error, actor_policy_denied, precondition_required}
use snow_mcp.Exec.{Exec}
use snow_mcp.Exec.Steps.{◌>>=◌, ◌>>◌, check, return}
use snow_mcp.Text.{Text, text}
use snow_mcp.Validate.{Unknown, validate_table_name, validate_sys_id, validate_update_fields}
use snow_mcp.Policy.{assert_actor_policy, assert_requested_fields_allowed, mask_row}
use snow_mcp.RunBudget.{
  count_rpc_call, count_service_now_request, count_query_bytes, count_outbound_bytes,
}
use snow_mcp.SnErrors.{is_post_send_unknown}
use snow_mcp.ReplayPayload.{JsValue, replay_safe_result}
use snow_mcp.Guard.Audit.{update}
use snow_mcp.Guard.{GuardedEffect, guard_mutation}
use snow_mcp.Rpc.{
  Row, Host, RpcDeps, table_record, write_tables, has_mandatory_filter, fetch_row_in_filter_scope,
  counted_request, mapped, metered, send, require_capability, result_of, record_params,
}
use snow_mcp.Mutation.Body.{JsTree, canonical_object_json}
use snow_mcp.Mutation.Parts.{
  WriteClient, SnapshotInput, MutationDeps, MutationTools, Recoverability, recoverability,
  reversible_from_snapshot, non_recoverable, Calling, on_host, on_outside, assign, locals, calling,
  from_outside, tools_on, next_ordinal, require_mutation_deps, guard_of, finish_mutation,
}

pub record TableUpdateArgs (J : Type 0) : Type 0 where
  pub table : Unknown (JsTree J)
  pub sys_id : Unknown (JsTree J)
  pub fields : Unknown (JsTree J)

-- The variables `rowFilterScopeRow` and `beforeRow`.
pub record UpdateLocals (V : Type 0) : Type 0 where
  pub row_filter_scope_row : Option (Row V)
  pub before_row : Option (Row V)

abbrev pub no_rows : {V : Type 0} → UpdateLocals V
no_rows = record { row_filter_scope_row = none; before_row = none }

-- `?? {}`.
abbrev pub or_no_columns : {V : Type 0} → Option (Row V) → Row V
or_no_columns none = []
or_no_columns (some r) = r

-- `?? []`.
abbrev or_no_tables : Option (List Text) → List Text
or_no_tables none = []
or_no_tables (some ts) = ts

abbrev pub or_no_reason : Option Text → Text
or_no_reason none = []
or_no_reason (some r) = r

abbrev pub or_precondition : Result Text → Result Text
or_precondition (ok body) = ok body
or_precondition (throw e) = throw (tool_error precondition_required)

module _ {W V K J : Type 0} (deps : RpcDeps W V) (tools : MutationTools W V K J)
    (client : WriteClient W V K) where
  open deps use {http, instance_host, effective_mode, actor_policy}

  abbrev Call : Type 0
  Call = Calling W (UpdateLocals V)

  abbrev pub in_scope : Option (Row V) → Result (Option (Row V))
  in_scope none = throw (tool_error actor_policy_denied)
  in_scope (some row) = ok (some row)

  unfoldable pub assert_sys_id_in_row_filter_scope : Text → Text → Exec (Host W) (Option (Row V))
  unfolding fetch_row_in_filter_scope
  assert_sys_id_in_row_filter_scope table sys_id =
      if has_mandatory_filter deps table
      then (fetch_row_in_filter_scope deps table sys_id none >>= λ row. check (in_scope row))
      else return none

  abbrev normal_value : V → Option V → V
  normal_value v none = v
  normal_value v (some value) = value

  -- `normalizeReferenceLinks`.
  abbrev pub normalize_reference_links : Row V → Row V
  normalize_reference_links row = map (λ e. (e.0, normal_value e.1 (tools.reference_value e.1))) row

  unfoldable pub patch_row : Text → Text → Text → Exec (Host W) (Row V)
  unfolding mapped
  patch_row table sys_id body_json = do
    let q = record_params none
    metered (count_query_bytes (deps.query_bytes q))
    res ← send (
        client.patch_row
          (record { table = table; sys_id = sys_id; params = q; body_json = body_json }))
    mapped res
    result ← check (result_of res.body)
    return (normalize_reference_links (or_no_columns result))

  -- `tableUpdateRequestHash`.
  abbrev pub table_update_request_hash : Text → Text → Text → Option Text → String
  table_update_request_hash table sys_id body_json reason = tools.hash_value (
      text "tableUpdate"
      ∷ table
      ∷ sys_id
      ∷ body_json
      ∷ text effective_mode
      ∷ tools.actor_policy_scope_fingerprint actor_policy
      ∷ or_no_reason reason
      ∷ [])

  -- The record as it stands: the row of the scope check, or the answer of the record endpoint.
  unfoldable pub current_row : Text → Text → Option (Row V) → Exec (Host W) (Row V)
  unfolding counted_request mapped
  current_row table sys_id (some row) = return row
  current_row table sys_id none = do
    let q = record_params none
    cur ←
        counted_request deps http.get_row
          (record { endpoint = table_record table sys_id; params = q })
    mapped cur
    result ← check (result_of cur.body)
    return (or_no_columns result)

  module _ (mutation : MutationDeps W V K J) (ordinal : ℕ) (table sys_id body_json : Text)
      (fields : List (Text × JsTree J)) where
    -- `snapshotStep`.
    unfoldable pub snapshot_step : (SnapshotInput V J → Exec W Bool) → Exec Call (Unit {0})
    unfolding current_row
    snapshot_step capture = do
      rows ← locals
      row ← on_host (current_row table sys_id rows.row_filter_scope_row)
      assign (λ l. record l { before_row = some row })
      stored ← on_outside (λ w.
          capture
            (record {
              request_id = mutation.run_context.request_id;
              ordinal = ordinal;
              table = table;
              sys_id = sys_id;
              before = row;
              after = fields;
              taken_at = mutation.now w;
            })
            w)
      return tt

    abbrev pub snapshot_for :
        Option (SnapshotInput V J → Exec W Bool) → Recoverability → Option (Exec Call (Unit {0}))
    snapshot_for none r = none
    snapshot_for (some capture) reversible_from_snapshot = some (snapshot_step capture)
    snapshot_for (some capture) non_recoverable = none

    unfoldable pub update_preflight : Exec Call (Unit {0})
    unfolding assert_sys_id_in_row_filter_scope
    update_preflight = do
      row ← on_host (assert_sys_id_in_row_filter_scope table sys_id)
      assign (λ l. record l { row_filter_scope_row = row })
      on_host (metered count_service_now_request)

    unfoldable pub update_effect : Exec (Host W) (JsValue K × Option (Row V))
    unfolding patch_row
    update_effect = do
      metered (count_outbound_bytes (tools.utf8_length body_json))
      raw ← patch_row table sys_id body_json
      let masked = mask_row actor_policy table raw
      return (replay_safe_result tools.replay_json (some (tools.row_value masked)), some raw)

    -- The second argument of `guardMutation`.
    abbrev pub guarded_update : GuardedEffect Call (JsValue K) (Row V)
    guarded_update = record {
      ordinal = ordinal;
      op = update;
      table = some (tools.string_of table);
      sys_id = some (tools.string_of sys_id);
      reason = reason_string mutation.run_context.reason;
      request_hash = table_update_request_hash table sys_id body_json mutation.run_context.reason;
      preflight = some update_preflight;
      replay_preflight = none;
      snapshot =
          snapshot_for mutation.capture_snapshot
            (recoverability update (some table) (or_no_tables mutation.snapshot_enabled_tables));
      before = λ c. c.local.before_row;
      effect = on_host update_effect;
      is_indeterminate = some is_post_send_unknown;
    }
      where
        reason_string : Option Text → Option String
        reason_string none = none
        reason_string (some r) = some (tools.string_of r)

    unfoldable pub guarded_call : Exec (Host W) (JsValue K)
    unfolding finish_mutation
    guarded_call = do
      guarded ← calling no_rows (
          guard_mutation (tools_on from_outside tools.audit_tools) tools.date_of
            (guard_of tools instance_host mutation) guarded_update)
      finish_mutation tools guarded

  unfoldable pub table_update :
      Option (MutationDeps W V K J) → TableUpdateArgs J → Exec (Host W) (JsValue K)
  unfolding guarded_call canonical_object_json
  table_update wiring args = do
    table ← check (validate_table_name args.table)
    sys_id ← check (validate_sys_id args.sys_id)
    fields ← check (validate_update_fields args.fields)
    check (assert_actor_policy actor_policy instance_host table effective_mode)
    check (require_capability effective_mode write_tables)
    check (assert_requested_fields_allowed actor_policy table (some (map (λ e. e.0) fields)))
    metered count_rpc_call
    mutation ← check (require_mutation_deps wiring)
    ordinal ← next_ordinal
    body_json ← check (or_precondition (canonical_object_json tools.stringify fields))
    guarded_call mutation ordinal table sys_id body_json fields
