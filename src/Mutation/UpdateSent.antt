-- ===== src/Mutation/UpdateSent.antt =====
-- What the callbacks of `tableUpdate` send: the lookup of its preflight, the record of its snapshot, and
-- the PATCH of its effect, which relies on the lookup.
use snow_mcp.Common.{ℕ, ◌≡◌, refl, Bool, true, false, Option, none, some, List}
use snow_mcp.Errors.{ok}
use snow_mcp.Exec.{Exec, optional}
use snow_mcp.Exec.Rules.{Triple}
use snow_mcp.Exec.Leaves.{
  Ends, Leaves-bind, Leaves-then, Leaves-return, Leaves-check, Leaves-known, Leaves-weaken,
  Leaves-state,
}
use snow_mcp.Text.{Text}
use snow_mcp.Validate.{Unknown, validate_sys_id}
use snow_mcp.Policy.{mandatory_filter, assert_policy_row_filters_safe}
use snow_mcp.Policy.Access.{MayTouch}
use snow_mcp.Rpc.{Row, RpcDeps, has_capability, write_tables, is_some, record_params}
use snow_mcp.RunBudget.{RunBudget, Metered}
use snow_mcp.Guard.Preflight.{GateLaws}
use snow_mcp.Mutation.Body.{JsTree}
use snow_mcp.Mutation.Parts.{
  PatchRequest, WriteClient, SnapshotInput, MutationDeps, MutationTools, Recoverability,
  reversible_from_snapshot, non_recoverable, Calling, call_on, on_host, tools_on, from_outside,
  guard_of,
}
use snow_mcp.Mutation.Update.{
  UpdateLocals, patch_row, current_row, snapshot_step, snapshot_for, update_preflight,
  update_effect, guarded_update,
}
use snow_mcp.Mutation.Trace.{
  Sent, patched, Traced, traced_deps, traced_client, traced_tools, traced_mutation, untraced,
  OfHost, OfCall, metered-Kept, untraced-Kept, traced_Quiet,
}
use snow_mcp.Mutation.Permitted.{LookedIf, WritesNoMask, PermittedAfter, AllPermitted}
use snow_mcp.Mutation.Steps.{
  send-Leaves, mapped-Leaves, on_host-Leaves, assign-Leaves, locals-Leaves, metered_call-Kept,
}
use snow_mcp.Mutation.Lookup.{Scoped, assert_scope-Leaves}
use snow_mcp.Mutation.CurrentRow.{no_row-open, ScopedBy-grows, current_row-Leaves}

module _ {W V K J : Type 0} (deps : RpcDeps W V) (tools : MutationTools W V K J)
    (client : WriteClient W V K) (mutation : MutationDeps W V K J)
    (safe : assert_policy_row_filters_safe deps.actor_policy ≡ ok tt) (table sys_id : Text)
    (arg : Unknown (JsTree J)) (valid : validate_sys_id arg ≡ ok sys_id)
    (may : MayTouch deps.actor_policy deps.instance_host table deps.effective_mode) (ordinal : ℕ)
    (body_json : Text) (fields : List (Text × JsTree J)) where
  abbrev All : List Sent → Type 0
  All = AllPermitted deps tools mutation

  abbrev filter : Option Text
  filter = mandatory_filter deps.actor_policy table

  abbrev ScopedBy : Option Text → Option (Row V) → List Sent → Type 0
  ScopedBy = Scoped deps tools client mutation table sys_id

  -- What the preflight leaves.
  abbrev pub Ready : List Sent → UpdateLocals V → Type 0
  Ready log l = All log × ScopedBy filter l.row_filter_scope_row log

  abbrev AllOf : List Sent → UpdateLocals V → Type 0
  AllOf log l = All log

  abbrev Call : Type 0
  Call = Calling (Traced W) (UpdateLocals V)

  pub preflight-Ends :
      Triple
        (OfCall AllOf)
        (update_preflight
          (traced_deps deps)
          (traced_tools tools)
          (traced_client client)
          (traced_mutation mutation)
          ordinal
          table
          sys_id
          body_json
          fields)
        (Ends (OfCall Ready) (OfCall AllOf))
  unfolding update_preflight
  preflight-Ends =
      Leaves-bind _ _
        (on_host-Leaves (λ h l. OfHost All h)
          (λ row h l. OfHost (λ log. All log × ScopedBy filter row log) h) (λ h l. OfHost All h) _
          (λ l. assert_scope-Leaves deps tools client mutation safe table sys_id arg valid may))
        λ row.
          Leaves-then _ _ (assign-Leaves _ (λ c i. i))
            (Leaves-weaken _ (metered_call-Kept Ready _) (λ a s i. i) (λ s i. i.0))

  -- What is known of the call while its snapshot is taken.
  abbrev Snapping : UpdateLocals V → List Sent → UpdateLocals V → Type 0
  Snapping l log l' = Ready log l × (l'.row_filter_scope_row ≡ l.row_filter_scope_row)

  snapshot_row-Leaves :
      (l l' : UpdateLocals V)
      → Triple
          (OfHost {W = W} (λ log. Snapping l log l'))
          (current_row
            (traced_deps deps)
            (traced_tools tools)
            (traced_client client)
            table
            sys_id
            l.row_filter_scope_row)
          (Ends (OfHost (λ log. Snapping l log l')) (OfHost All))
  snapshot_row-Leaves l l' =
      Leaves-known (is_some l.row_filter_scope_row ≡ false → is_some filter ≡ false) _
        (λ s i.
          no_row-open deps tools client mutation table sys_id filter l.row_filter_scope_row
            s.outside.1 i.0.1)
        λ open_table.
          current_row-Leaves deps tools client mutation table sys_id may (λ log. Snapping l log l')
            l.row_filter_scope_row open_table (λ log i. i.0.0)
            (λ e log p i. (
              (
                (p, i.0.0),
                ScopedBy-grows deps tools client mutation table sys_id filter l.row_filter_scope_row
                    e log i.0.1,
              ),
              i.1,
            ))

  snapshot_step-Ends :
      (capture : SnapshotInput V J → Exec W Bool)
      → Triple
          (OfCall Ready)
          (snapshot_step
            (traced_deps deps)
            (traced_tools tools)
            (traced_client client)
            (traced_mutation mutation)
            ordinal
            table
            sys_id
            body_json
            fields
            (λ input. untraced Bool (capture input)))
          (Ends (OfCall Ready) (OfCall AllOf))
  unfolding snapshot_step
  snapshot_step-Ends capture =
      Leaves-bind _ _ (locals-Leaves {P = λ l c. OfCall (Snapping l) c} (λ c i. (i, refl))) λ l.
        Leaves-bind _ _
          (on_host-Leaves (λ h l'. OfHost (λ log. Snapping l log l') h)
            (λ row h l'. OfHost (λ log. Snapping l log l') h) (λ h l'. OfHost All h) _
            (snapshot_row-Leaves l))
          λ row.
            Leaves-then _ _ (assign-Leaves {P = OfCall Ready} _ (λ c i. (i.0.0, rw i.1 i.0.1))) (
              Leaves-bind _ _
                (Leaves-weaken _
                  (untraced-Kept Ready (λ w.
                    capture
                      (record {
                        request_id = mutation.run_context.request_id;
                        ordinal = ordinal;
                        table = table;
                        sys_id = sys_id;
                        before = row;
                        after = fields;
                        taken_at = mutation.now w;
                      })
                      w))
                  (λ a s i. i) (λ s i. i.0))
                (λ stored. Leaves-return _ (λ s i. i)))

  abbrev patch_request : PatchRequest
  patch_request = record {
    table = table;
    sys_id = sys_id;
    params = record_params none;
    body_json = body_json;
  }

  Scoped-LookedIf :
      (o : Option Text) (row : Option (Row V)) (log : List Sent)
      → ScopedBy o row log
      → LookedIf deps tools mutation o table sys_id log
  Scoped-LookedIf none row log i = tt
  Scoped-LookedIf (some f) row log i = i.0

  effect_sent :
      has_capability deps.effective_mode write_tables ≡ some true
      → WritesNoMask deps tools mutation table body_json
      → (l : UpdateLocals V)
      → Triple
          (OfHost {W = W} (λ log. Ready log l))
          (update_effect
            (traced_deps deps)
            (traced_tools tools)
            (traced_client client)
            (traced_mutation mutation)
            ordinal
            table
            sys_id
            body_json
            fields)
          (Ends (OfHost All) (OfHost All))
  unfolding update_effect patch_row
  effect_sent capability shown l =
      let weak = λ (m : RunBudget → Metered).
        Leaves-weaken _ (metered-Kept {W = W} (λ log. Ready log l) m) (λ a s i. i) (λ s i. i.0) in
      let sent : (log : List Sent)
          → Ready log l
          → PermittedAfter deps tools mutation (patched patch_request) log × All log =
        λ log i.
          ((may, capability, shown, Scoped-LookedIf filter l.row_filter_scope_row log i.1), i.0) in
      Leaves-then _ _ (weak _) (
        Leaves-bind {P = λ raw. OfHost All} _ _
          (Leaves-then _ _ (weak _) (
            Leaves-bind _ _
              (send-Leaves (λ log. Ready log l) All (λ res. All) (λ q r. patched q) client.patch_row
                patch_request (λ log i res. sent log i) (λ log i r. sent log i))
              λ res.
                Leaves-then _ _ (mapped-Leaves res (λ s i. i))
                  (Leaves-check _ _ (λ s i. i) λ r e. Leaves-return _ (λ s i. i))))
          (λ raw. Leaves-return _ (λ s i. i)))

  pub effect-Ends :
      has_capability deps.effective_mode write_tables ≡ some true
      → WritesNoMask deps tools mutation table body_json
      → Triple
          (OfCall Ready)
          (on_host (
            update_effect
              (traced_deps deps)
              (traced_tools tools)
              (traced_client client)
              (traced_mutation mutation)
              ordinal
              table
              sys_id
              body_json
              fields))
          (λ x. OfCall AllOf x.1)
  effect-Ends capability shown = Leaves-state (OfCall AllOf) _ (
      on_host-Leaves (λ h l. OfHost (λ log. Ready log l) h) (λ a h l. OfHost All h)
        (λ h l. OfHost All h) _ (effect_sent capability shown))

  -- The snapshot, where there is one.
  snapshot_for-Ends :
      (o : Option (SnapshotInput V J → Exec W Bool)) (r : Recoverability)
      → Triple
          (OfCall Ready)
          (optional (
            snapshot_for
              (traced_deps deps)
              (traced_tools tools)
              (traced_client client)
              (traced_mutation mutation)
              ordinal
              table
              sys_id
              body_json
              fields
              (call_on untraced o)
              r))
          (Ends (OfCall Ready) (OfCall AllOf))
  snapshot_for-Ends none r = record { ends = λ s i. i }
  snapshot_for-Ends (some capture) reversible_from_snapshot = snapshot_step-Ends capture
  snapshot_for-Ends (some capture) non_recoverable = record { ends = λ s i. i }

  -- The callbacks of a guarded update keep the laws of the guard.
  pub update-GateLaws :
      has_capability deps.effective_mode write_tables ≡ some true
      → WritesNoMask deps tools mutation table body_json
      → GateLaws
          (tools_on from_outside (traced_tools tools).audit_tools)
          tools.date_of
          (guard_of (traced_tools tools) deps.instance_host (traced_mutation mutation))
          (guarded_update
            (traced_deps deps)
            (traced_tools tools)
            (traced_client client)
            (traced_mutation mutation)
            ordinal
            table
            sys_id
            body_json
            fields)
          (OfCall AllOf)
          (OfCall Ready)
  update-GateLaws capability shown = record {
    quiet = traced_Quiet AllOf tools mutation deps.instance_host _;
    quiet_ready = traced_Quiet Ready tools mutation deps.instance_host _;
    ready = λ s i. i.0;
    preflight = preflight-Ends;
    replay_preflight = record { ends = λ s i. i };
    snapshot = snapshot_for-Ends mutation.capture_snapshot _;
    effect = effect-Ends capability shown;
  }
