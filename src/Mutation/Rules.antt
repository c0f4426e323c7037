-- ===== src/Mutation/Rules.antt =====
-- Rules for the mutating methods as wholes: what their guarded part keeps, the method keeps.
use snow_mcp.Common.{ℕ, ◌≡◌, refl, Bool, true, false, Option, none, some, List, [], map, any, arith}
use snow_mcp.Errors.{Result, ok, throw}
use snow_mcp.Exec.Leaves.{
  Kept, Leaves-bind, Leaves-then, Leaves-return, Leaves-check, Leaves-check_then, Leaves-passed,
}
use snow_mcp.Text.{Text}
use snow_mcp.Risk.{RiskLe}
use snow_mcp.Mode.{Mode, mode_risk}
use snow_mcp.Validate.{Unknown, string, validate_sys_id, validate_reason}
use snow_mcp.Policy.{assert_requested_fields_allowed, ActorPolicy}
use snow_mcp.Policy.Masks.{is_covered, assert_requested_fields_allowed-covered}
use snow_mcp.Policy.Access.{MayTouch, assert_actor_policy_iff, passes_mode}
use snow_mcp.ReplayPayload.{JsValue}
use snow_mcp.Guard.{GuardMutationResult, guard_mutation}
use snow_mcp.Rpc.{
  Host, RpcDeps, Capability, has_capability, require_capability, require_some, write_tables,
  run_server_script,
}
use snow_mcp.Mutation.Body.{JsTree}
use snow_mcp.Mutation.Parts.{
  WriteClient, MutationDeps, MutationTools, next_ordinal, finish_mutation, Calling, tools_on,
  from_outside, guard_of,
}
use snow_mcp.Mutation.Update.{
  TableUpdateArgs, no_rows, guarded_update, or_precondition, guarded_call, table_update,
}
use snow_mcp.Mutation.Script.{
  Signing, ScriptDeps, required_signing, guarded_script, guarded_script_call, run_script,
}
use snow_mcp.Mutation.Permitted.{WritesNoMask, canonical_object_json-WritesNoMask}
use snow_mcp.Mutation.Steps.{calling-Leaves, metered_outside-Kept}

require_capability-has :
    (mode : Mode) (cap : Capability)
    → require_capability mode cap ≡ ok tt
    → has_capability mode cap ≡ some true
unfolding require_capability
require_capability-has mode cap h = of_some (has_capability mode cap) h
  where
    of_some : (o : Option Bool) → require_some o ≡ ok tt → o ≡ some true
    of_some none h = cc
    of_some (some true) h = refl
    of_some (some false) h = cc

shown_keys :
    (p : ActorPolicy) (t : Text) (fs : List Text)
    → assert_requested_fields_allowed p t (some fs) ≡ ok tt
    → any (is_covered p t) fs ≡ false
shown_keys p t fs h = let e = assert_requested_fields_allowed-covered p t fs in ground (arith, h, e)

or_precondition-ok : (r : Result Text) (body : Text) → or_precondition r ≡ ok body → r ≡ ok body
or_precondition-ok (ok b) body h = h
or_precondition-ok (throw e) body h = cc

validate_reason-same :
    (J : Type 0) (reason r : Text)
    → validate_reason {J = J} (string reason) ≡ ok r
    → validate_reason {J = J} (string reason) ≡ ok reason
unfolding validate_reason
validate_reason-same J reason r h = ground (arith, h)

module _ {W V K J : Type 0} (deps : RpcDeps W V) (tools : MutationTools W V K J)
    (client : WriteClient W V K) (mutation : MutationDeps W V K J) (X : W → Type 0) where
  -- A property of what is outside.
  abbrev Out : Host W → Type 0
  Out h = X h.outside

  abbrev OutOfCall : {L : Type 0} → Calling W L → Type 0
  OutOfCall c = X c.host.outside

  next_ordinal-Kept : Kept Out next_ordinal
  unfolding next_ordinal
  next_ordinal-Kept = record { ends = λ h i. i }

  finish-Kept : (r : GuardMutationResult (JsValue K)) → Kept Out (finish_mutation tools r)
  unfolding finish_mutation
  finish-Kept r =
      Leaves-check _ _ (λ s i. i)
        λ v e. Leaves-then _ _ (metered_outside-Kept X _) (Leaves-return _ (λ s i. i))

  -- The update of a record that passed the checks.
  abbrev pub UpdateKept : Type 0
  UpdateKept =
      (table sys_id : Text) (arg : Unknown (JsTree J))
      → validate_sys_id arg ≡ ok sys_id
      → MayTouch deps.actor_policy deps.instance_host table deps.effective_mode
      → (ordinal : ℕ) (body_json : Text) (fields : List (Text × JsTree J))
      → has_capability deps.effective_mode write_tables ≡ some true
      → WritesNoMask deps tools mutation table body_json
      → Kept OutOfCall (
          guard_mutation (tools_on from_outside tools.audit_tools) tools.date_of
            (guard_of tools deps.instance_host mutation)
            (guarded_update deps tools client mutation ordinal table sys_id body_json fields))

  pub table_update-Kept :
      UpdateKept
      → (args : TableUpdateArgs J) → Kept Out (table_update deps tools client (some mutation) args)
  unfolding table_update guarded_call
  table_update-Kept guarded args =
      let out = λ (h : Host W) (i : Out h). i in
      Leaves-check _ _ out λ table _. Leaves-check _ _ out λ sys_id valid.
        Leaves-check _ _ out λ fields _. Leaves-check_then _ _ out λ policy.
          Leaves-check_then _ _ out λ capability. Leaves-check_then _ _ out λ requested.
            Leaves-then _ _ (metered_outside-Kept X _) (
              Leaves-passed mutation _ (
                Leaves-bind _ _ next_ordinal-Kept λ ordinal. Leaves-check _ _ out λ body_json made.
                  let may =
                    (assert_actor_policy_iff deps.actor_policy deps.instance_host table
                        deps.effective_mode).0
                      policy in
                  let shown =
                    shown_keys deps.actor_policy table (map (λ e. e.0) fields) requested in
                  let call =
                    guarded table sys_id args.sys_id valid may ordinal body_json fields
                      (require_capability-has deps.effective_mode write_tables capability)
                      (canonical_object_json-WritesNoMask deps tools mutation table fields body_json
                        (or_precondition-ok _ body_json made) shown) in
                  Leaves-bind _ _ (calling-Leaves Out no_rows _ call) (λ r. finish-Kept r)))

  module _ (script_deps : ScriptDeps W) where
    -- The script that passed the checks.
    abbrev pub ScriptKept : Type 0
    ScriptKept =
        (signing : Signing W)
        → script_deps.signing ≡ some signing
        → (script reason path : Text) (ordinal : ℕ)
        → RiskLe (mode_risk deps.effective_mode) (mode_risk deps.actor_policy.max_mode)
        → has_capability deps.effective_mode run_server_script ≡ some true
        → validate_reason {J = J} (string reason) ≡ ok reason
        → Kept OutOfCall (
            guard_mutation (tools_on from_outside tools.audit_tools) tools.date_of
              (guard_of tools deps.instance_host mutation)
              (guarded_script deps tools client script_deps signing script reason mutation path
                ordinal))

    required_signing-some :
        (o : Option (Signing W)) (signing : Signing W)
        → required_signing o ≡ ok signing
        → o ≡ some signing
    required_signing-some none signing h = cc
    required_signing-some (some s) signing h = ground (arith, h)

    pub run_script-Kept :
        ScriptKept
        → (arg : Unknown J)
        → Kept Out (run_script deps tools client script_deps (some mutation) arg)
    unfolding run_script guarded_script_call
    run_script-Kept guarded arg =
        let out = λ (h : Host W) (i : Out h). i in
        Leaves-check _ _ out λ script _. Leaves-check_then _ _ out λ ceiling.
          Leaves-check_then _ _ out λ capability. Leaves-check _ _ out λ signing signed.
            Leaves-check _ _ out λ path _. Leaves-then _ _ (metered_outside-Kept X _) (
              Leaves-passed mutation _ (
                Leaves-check _ _ out λ reason _. Leaves-check _ _ out λ r valid.
                  Leaves-bind _ _ next_ordinal-Kept λ ordinal.
                    let call =
                      guarded signing (required_signing-some _ signing signed) script reason path
                        ordinal ((passes_mode deps.actor_policy deps.effective_mode).0 ceiling)
                        (require_capability-has deps.effective_mode run_server_script capability)
                        (validate_reason-same J reason r valid) in
                    Leaves-bind _ _ (calling-Leaves Out [] _ call) (λ r. finish-Kept r)))
