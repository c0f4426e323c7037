-- ===== src/Mutation/Script.antt =====
-- `runServerScript` of packages/mcp-server/src/sn/rpc.ts: the checks before the guard, the callbacks that
-- it gives the guard, and what it returns.
use snow_mcp.Common.{zero, suc, ℕ, String, Option, none, some, [], ◌∷◌, if◌then◌else◌}
use snow_mcp.Errors.{
  Result, ok, throw, tool_error, path_denied, internal_error, capability_denied, reauth_required,
}
use snow_mcp.Exec.{Exec}
use snow_mcp.Exec.Steps.{◌>>=◌, ◌>>◌, check, return}
use snow_mcp.Text.{Text, text}
use snow_mcp.Validate.{Unknown, string, validate_reason}
use snow_mcp.Policy.{assert_mode_within_policy}
use snow_mcp.Approval.{ApprovalContext, assert_admin_script_approved, is_missing}
use snow_mcp.RunBudget.{RunBudget, count_rpc_call, count_service_now_request, count_outbound_bytes}
use snow_mcp.SnErrors.{is_post_send_unknown, throw_mapped}
use snow_mcp.ReplayPayload.{JsValue, replay_safe_result}
use snow_mcp.Guard.Audit
use snow_mcp.Guard.{GuardedEffect, guard_mutation}
use snow_mcp.Rpc.{Row, Host, RpcDeps, run_server_script, metered, send, require_capability}
use snow_mcp.Mutation.Parts.{
  ActorClaims, SignedActorPayload, WriteClient, ApprovalPolicy, MutationDeps, MutationTools,
  Calling, on_host, assign, locals, calling, from_outside, tools_on, next_ordinal,
  require_mutation_deps, guard_of, finish_mutation,
}

-- `signing`; the resolver of the effective user counts what it sends on the run's meter. The SHA-256 of
-- the script and the signature are functions of what is hashed and signed.
pub record Signing (W : Type 0) : Type 0 where
  pub claims : ActorClaims
  pub now : W → ℕ
  pub nonce : Exec W Text
  pub sha256 : Text → Text
  pub sign : SignedActorPayload → Text
  pub resolve_effective_user_sys_id : Option (Exec (RunBudget × W) Text)

-- `deps.signing`, `deps.executorPath`, and the length in UTF-8 of the JSON of a body: a script, an actor
-- and a signature.
pub record ScriptDeps (W : Type 0) : Type 0 where
  pub signing : Option (Signing W)
  pub executor_path : Option Text
  pub body_bytes : Text → SignedActorPayload → Text → ℕ

-- `"x".repeat(n)`.
abbrev repeat_x : ℕ → Text
repeat_x zero = []
repeat_x (suc n) = b'x' ∷ repeat_x n

abbrev or_longest_user : Text → Text
or_longest_user [] = repeat_x 32
or_longest_user (c ∷ s) = c ∷ s

abbrev longest_claims : ActorClaims → ActorClaims
longest_claims claims = record claims {
  snow_effective_user_sys_id = or_longest_user claims.snow_effective_user_sys_id;
}

-- `runServerScriptBodyUpperBoundBytes`; the number is `Number.MAX_SAFE_INTEGER`.
abbrev pub run_server_script_body_upper_bound_bytes :
    {W : Type 0} → ScriptDeps W → Text → ActorClaims → Text → ℕ
run_server_script_body_upper_bound_bytes d script claims reason =
    d.body_bytes script
      (record {
        claims = longest_claims claims;
        script_sha256 = repeat_x 44;
        issued_at = 9007199254740991;
        nonce = repeat_x 36;
        reason = reason;
      })
      (repeat_x 44)

abbrev pub script_text : {J : Type 0} → Unknown J → Result Text
script_text (string (c ∷ s)) = ok (c ∷ s)
script_text _ = throw (tool_error path_denied)

-- `!this.deps.signing` and `!this.deps.executorPath`.
abbrev pub required_signing : {W : Type 0} → Option (Signing W) → Result (Signing W)
required_signing none = throw (tool_error internal_error)
required_signing (some s) = ok s

abbrev pub required_path : Option Text → Result Text
required_path (some (c ∷ p)) = ok (c ∷ p)
required_path _ = throw (tool_error internal_error)

abbrev pub required_reason : Option Text → Result Text
required_reason none = throw (tool_error capability_denied)
required_reason (some r) =
    if is_missing (some r) then throw (tool_error capability_denied) else ok r

abbrev pub or_empty_policy : Option ApprovalPolicy → ApprovalPolicy
or_empty_policy none = record {
  admin_script_allowlist = [];
  valid_approval_tokens = none;
  actor_access_groups = none;
  required_access_group = none;
}
or_empty_policy (some p) = p

-- The claims, with the resolved user if there is one.
abbrev pub with_user : Text → ActorClaims → ActorClaims
with_user [] claims = claims
with_user (c ∷ s) claims = record claims { snow_effective_user_sys_id = c ∷ s }

module _ {W V K J : Type 0} (deps : RpcDeps W V) (tools : MutationTools W V K J)
    (client : WriteClient W V K) (script_deps : ScriptDeps W) where
  open deps use {instance_host, effective_mode, actor_policy}

  -- The variable is `effectiveSysId`.
  abbrev Call : Type 0
  Call = Calling W Text

  -- `runServerScriptRequestHash`.
  abbrev pub run_server_script_request_hash : Text → Text → Text → String
  run_server_script_request_hash script reason actor_user_id = tools.hash_value (
      text "runServerScript"
      ∷ script
      ∷ reason
      ∷ text effective_mode
      ∷ instance_host
      ∷ actor_user_id
      ∷ tools.actor_policy_scope_fingerprint actor_policy
      ∷ [])

  module _ (signing : Signing W) (script reason : Text) where
    abbrev pub read_clock : Exec W ℕ
    read_clock w = (ok (signing.now w), w)

    abbrev pub signed_payload : Text → ℕ → Text → SignedActorPayload
    signed_payload effective_sys_id issued_at nonce = record {
      claims = with_user effective_sys_id signing.claims;
      script_sha256 = signing.sha256 script;
      issued_at = issued_at;
      nonce = nonce;
      reason = reason;
    }

    -- `signActor`, of auth/actor.ts.
    unfoldable pub sign_actor : Text → Exec W (SignedActorPayload × Text)
    sign_actor effective_sys_id = do
      issued_at ← read_clock
      nonce ← signing.nonce
      let payload = signed_payload effective_sys_id issued_at nonce
      return (payload, signing.sign payload)

    -- `sendScript`.
    unfoldable pub send_script : Text → Text → Exec (Host W) (Option (JsValue K))
    unfolding sign_actor
    send_script path effective_sys_id = do
      signed ← send (sign_actor effective_sys_id)
      res ← send (
          client.post_script
            (record { path = path; script = script; actor = signed.0; actor_sig = signed.1 }))
      check (throw_mapped res.status res.error_body)
      return res.json

    -- `Promise.resolve(resolveEffectiveUserSysId?.(runBudget) ?? "")`, and its check.
    abbrev pub resolved_in : Result Text × (RunBudget × W) → Host W → Result Text × Host W
    resolved_in (ok [], (b, w)) h =
        (throw (tool_error reauth_required), record h { budget = b; outside = w })
    resolved_in (r, (b, w)) h = (r, record h { budget = b; outside = w })

    abbrev pub resolve_with : Option (Exec (RunBudget × W) Text) → Exec (Host W) Text
    resolve_with none h = (ok [], h)
    resolve_with (some resolve) h = resolved_in (resolve (h.budget, h.outside)) h

    unfoldable pub resolve_user : Exec (Host W) Text
    resolve_user = resolve_with signing.resolve_effective_user_sys_id

    module _ (mutation : MutationDeps W V K J) (path : Text) (ordinal : ℕ) where
      abbrev pub approval_context : ApprovalContext
      approval_context =
          let approval = or_empty_policy mutation.approval in
          record {
            mode = effective_mode;
            actor_user_id = signing.claims.mcp_actor_user_id;
            reason = some reason;
            admin_script_allowlist = approval.admin_script_allowlist;
            approval_token = mutation.run_context.approval_token;
            valid_approval_tokens = approval.valid_approval_tokens;
            actor_access_groups = approval.actor_access_groups;
            required_access_group = approval.required_access_group;
          }

      unfoldable pub approval_preflight : Exec Call (Unit {0})
      approval_preflight = check (assert_admin_script_approved approval_context)

      unfoldable pub script_preflight : Exec Call (Unit {0})
      unfolding approval_preflight resolve_user
      script_preflight = do
        approval_preflight
        resolved ← on_host resolve_user
        assign (λ l. resolved)
        on_host (metered count_service_now_request)

      unfoldable pub script_effect : Exec Call (JsValue K × Option (Row V))
      unfolding send_script
      script_effect = do
        on_host (
            metered (
              count_outbound_bytes (
                run_server_script_body_upper_bound_bytes script_deps script signing.claims reason)))
        effective_sys_id ← locals
        json ← on_host (send_script path effective_sys_id)
        return (replay_safe_result tools.replay_json json, none)

      abbrev pub guarded_script : GuardedEffect Call (JsValue K) (Row V)
      guarded_script = record {
        ordinal = ordinal;
        op = Audit.run_server_script;
        table = none;
        sys_id = none;
        reason = some (tools.string_of reason);
        request_hash =
            run_server_script_request_hash script reason signing.claims.mcp_actor_user_id;
        preflight = some script_preflight;
        replay_preflight = some approval_preflight;
        snapshot = none;
        before = λ c. none;
        effect = script_effect;
        is_indeterminate = some is_post_send_unknown;
      }

      unfoldable pub guarded_script_call : Exec (Host W) (JsValue K)
      unfolding finish_mutation
      guarded_script_call = do
        guarded ← calling [] (
            guard_mutation (tools_on from_outside tools.audit_tools) tools.date_of
              (guard_of tools instance_host mutation) guarded_script)
        finish_mutation tools guarded

  unfoldable pub run_script : Option (MutationDeps W V K J) → Unknown J → Exec (Host W) (JsValue K)
  unfolding guarded_script_call
  run_script wiring arg = do
    script ← check (script_text arg)
    check (assert_mode_within_policy actor_policy effective_mode)
    check (require_capability effective_mode run_server_script)
    signing ← check (required_signing script_deps.signing)
    path ← check (required_path script_deps.executor_path)
    metered count_rpc_call
    mutation ← check (require_mutation_deps wiring)
    reason ← check (required_reason mutation.run_context.reason)
    _ ← check (validate_reason {J = J} (string reason))
    ordinal ← next_ordinal
    guarded_script_call signing script reason mutation path ordinal
