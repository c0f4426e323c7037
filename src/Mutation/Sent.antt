-- ===== src/Mutation/Sent.antt =====
-- What a mutating call sends to the instance, from its arguments to its result.
use snow_mcp.Common.{◌≡◌, some}
use snow_mcp.Errors.{ok}
use snow_mcp.Exec.Leaves.{Leaves-state}
use snow_mcp.Validate.{Unknown}
use snow_mcp.Policy.{assert_policy_row_filters_safe}
use snow_mcp.Guard.Preflight.{guard_mutation-Kept}
use snow_mcp.Rpc.{Host, RpcDeps}
use snow_mcp.Mutation.Parts.{WriteClient, MutationDeps, MutationTools}
use snow_mcp.Mutation.Update.{TableUpdateArgs, table_update}
use snow_mcp.Mutation.Script.{ScriptDeps, run_script}
use snow_mcp.Mutation.Trace.{
  Traced, traced_deps, traced_client, traced_tools, traced_mutation, OfHost,
}
use snow_mcp.Mutation.Permitted.{AllPermitted}
use snow_mcp.Mutation.Rules.{UpdateKept, ScriptKept, table_update-Kept, run_script-Kept}
use snow_mcp.Mutation.UpdateSent.{update-GateLaws}
use snow_mcp.Mutation.ScriptSent.{script-GateLaws}
use snow_mcp.Mutation.Signing.{traced_script_deps, traced_option-some}

module _ {W V K J : Type 0} (deps : RpcDeps W V) (tools : MutationTools W V K J)
    (client : WriteClient W V K) (mutation : MutationDeps W V K J) where
  abbrev All : Traced W → Type 0
  All t = AllPermitted deps tools mutation t.1

  update_sent :
      assert_policy_row_filters_safe deps.actor_policy ≡ ok tt
      → UpdateKept
          (traced_deps deps)
          (traced_tools tools)
          (traced_client client)
          (traced_mutation mutation)
          All
  update_sent safe table sys_id arg valid may ordinal body_json fields capability shown =
      guard_mutation-Kept _ _ _ _ _ _ (
        update-GateLaws deps tools client mutation safe table sys_id arg valid may ordinal body_json
          fields capability shown)

  script_sent :
      (script_deps : ScriptDeps W)
      → ScriptKept
          (traced_deps deps)
          (traced_tools tools)
          (traced_client client)
          (traced_mutation mutation)
          All
          (traced_script_deps script_deps)
  script_sent script_deps signing signed script reason path ordinal within capable sound =
      let (plain, _, is_traced) = traced_option-some script_deps.signing signing signed in
      rw is_traced (
        guard_mutation-Kept _ _ _ _ _ _ (
          script-GateLaws deps tools client mutation script_deps plain script reason path ordinal
            within capable sound))

-- The methods, with their arguments.
pub data WriteCall (W J : Type 0) : Type 0 where
  call_update : TableUpdateArgs J → WriteCall W J
  call_script : ScriptDeps W → Unknown J → WriteCall W J

-- What a traced call leaves, whether it returns or throws.
abbrev pub written_by :
    {W V K J : Type 0}
    → RpcDeps W V
    → MutationTools W V K J
    → WriteClient W V K
    → MutationDeps W V K J
    → WriteCall W J
    → Host (Traced W)
    → Host (Traced W)
written_by deps tools client mutation (call_update args) h =
    (table_update (traced_deps deps) (traced_tools tools) (traced_client client)
      (some (traced_mutation mutation)) args h).1
written_by deps tools client mutation (call_script script_deps arg) h =
    (run_script (traced_deps deps) (traced_tools tools) (traced_client client)
      (traced_script_deps script_deps) (some (traced_mutation mutation)) arg h).1

-- If the policy's filters passed the check made when it was loaded, a mutating call sends only what is
-- permitted at the time: a PATCH of a table that the policy lets through, in a mode that may write, whose
-- body has no masked field, and, where the table has a mandatory filter, of a record that a lookup behind
-- the filter found before; a POST of a script in a mode within the policy's ceiling that may run it, with
-- a signed reason that is valid and, for the signed user, reason and token, the second approval; and reads
-- that a reading method could have sent.
pub written-Permitted :
    {W V K J : Type 0} (deps : RpcDeps W V) (tools : MutationTools W V K J)
    (client : WriteClient W V K) (mutation : MutationDeps W V K J)
    → assert_policy_row_filters_safe deps.actor_policy ≡ ok tt
    → (call : WriteCall W J) (h : Host (Traced W)) → AllPermitted deps tools mutation h.outside.1
    → AllPermitted deps tools mutation (written_by deps tools client mutation call h).outside.1
written-Permitted deps tools client mutation safe (call_update args) h i =
    (Leaves-state (OfHost (AllPermitted deps tools mutation)) _ (
        table_update-Kept (traced_deps deps) (traced_tools tools) (traced_client client)
          (traced_mutation mutation) _ (update_sent deps tools client mutation safe) args)).ends
      h i
written-Permitted deps tools client mutation safe (call_script script_deps arg) h i =
    (Leaves-state (OfHost (AllPermitted deps tools mutation)) _ (
        run_script-Kept (traced_deps deps) (traced_tools tools) (traced_client client)
          (traced_mutation mutation) _ (traced_script_deps script_deps)
          (script_sent deps tools client mutation script_deps) arg)).ends
      h i
