-- ===== src/Mutation/ScriptSent.antt =====
-- What the callbacks of `runServerScript` send: one POST, of a signed actor who is approved.
use snow_mcp.Common.{ℕ, ◌≡◌, refl, true, Option, none, some, List, [], ◌∷◌}
use snow_mcp.Errors.{Result, ok, throw}
use snow_mcp.Exec.{Exec}
use snow_mcp.Exec.Rules.{Triple}
use snow_mcp.Exec.Leaves.{
  Outcome, Ends, Kept, Leaves-bind, Leaves-then, Leaves-return, Leaves-check_then, Leaves-checked,
  Leaves-weaken, Leaves-state,
}
use snow_mcp.Text.{Text}
use snow_mcp.Risk.{RiskLe}
use snow_mcp.Mode.{mode_risk}
use snow_mcp.Validate.{string, validate_reason}
use snow_mcp.RunBudget.{RunBudget}
use snow_mcp.Approval.{ApprovalContext}
use snow_mcp.Approval.Laws.{Approved}
use snow_mcp.Guard.Preflight.{GateLaws}
use snow_mcp.Rpc.{Host, RpcDeps, has_capability, run_server_script}
use snow_mcp.Mutation.Parts.{
  SignedActorPayload, WriteClient, MutationDeps, MutationTools, Calling, tools_on, from_outside,
  guard_of,
}
use snow_mcp.Mutation.Script.{
  Signing, ScriptDeps, sign_actor, send_script, resolved_in, resolve_with, resolve_user,
  approval_context, approval_preflight, script_preflight, script_effect, guarded_script,
}
use snow_mcp.Mutation.Trace.{
  Sent, posted, Traced, traced_deps, traced_client, traced_tools, traced_mutation, OfHost, OfCall,
  traced_Quiet,
}
use snow_mcp.Mutation.Permitted.{PermittedAfter, AllPermitted}
use snow_mcp.Mutation.Steps.{
  send-Leaves, outside-Leaves, untraced-Leaves, on_host-Leaves, assign-Leaves, locals-Leaves,
  metered_call-Kept,
}
use snow_mcp.Mutation.Signing.{
  traced_resolver, traced_signing, traced_script_deps, has_capability-admin_script, gate-Approved,
  with_user-actor,
}

module _ {W V K J : Type 0} (deps : RpcDeps W V) (tools : MutationTools W V K J)
    (client : WriteClient W V K) (mutation : MutationDeps W V K J) (script_deps : ScriptDeps W)
    (signing : Signing W) (script reason path : Text) (ordinal : ℕ)
    (within : RiskLe (mode_risk deps.effective_mode) (mode_risk deps.actor_policy.max_mode))
    (capable : has_capability deps.effective_mode run_server_script ≡ some true)
    (sound_reason : validate_reason {J = J} (string reason) ≡ ok reason) where
  abbrev All : List Sent → Type 0
  All = AllPermitted deps tools mutation

  abbrev AllOf : List Sent → Text → Type 0
  AllOf log l = All log

  abbrev context : ApprovalContext
  context =
      approval_context (traced_deps deps) (traced_tools tools) (traced_client client)
        (traced_script_deps script_deps) (traced_signing signing) script reason
        (traced_mutation mutation) path ordinal

  -- What the preflight leaves.
  abbrev ReadyLog : List Sent → Type 0
  ReadyLog log = Approved context × All log

  abbrev pub Ready : List Sent → Text → Type 0
  Ready log l = ReadyLog log

  posted-Approved :
      Approved context
      → (payload : SignedActorPayload) (sig : Text) (log : List Sent) → payload.reason ≡ reason
      → payload.claims.mcp_actor_user_id ≡ signing.claims.mcp_actor_user_id
      → PermittedAfter deps tools mutation
          (posted (record { path = path; script = script; actor = payload; actor_sig = sig }))
          log
  posted-Approved approved payload sig log r a =
      (within, capable, rw (r, a) approved, rw r sound_reason)

  -- The signed actor, with the reason and the user that were approved.
  abbrev Signed : SignedActorPayload × Text → List Sent → Type 0
  Signed signed log =
      (signed.0.reason ≡ reason)
      × (signed.0.claims.mcp_actor_user_id ≡ signing.claims.mcp_actor_user_id)
      × ReadyLog log

  sign_actor-Leaves :
      (user : Text)
      → Triple
          (λ t. ReadyLog t.1)
          (sign_actor
            (traced_deps deps)
            (traced_tools tools)
            (traced_client client)
            (traced_script_deps script_deps)
            (traced_signing signing)
            script
            reason
            user)
          (Outcome (λ signed t. Signed signed t.1) (λ t. All t.1))
  unfolding sign_actor
  sign_actor-Leaves user =
      Leaves-bind {P = λ (n : ℕ) (t : Traced W). ReadyLog t.1} _ _ (record { ends = λ t i. i })
        λ issued_at.
          Leaves-bind _ _
            (Leaves-weaken _ (untraced-Leaves ReadyLog signing.nonce) (λ n t i. i) (λ t i. i.1))
            λ nonce. Leaves-return _ (λ t i. (refl, with_user-actor user signing.claims, i))

  send_script-Leaves :
      (user : Text)
      → Triple
          (OfHost {W = W} ReadyLog)
          (send_script
            (traced_deps deps)
            (traced_tools tools)
            (traced_client client)
            (traced_script_deps script_deps)
            (traced_signing signing)
            script
            reason
            path
            user)
          (Ends (OfHost All) (OfHost All))
  unfolding send_script
  send_script-Leaves user =
      Leaves-bind _ _ (outside-Leaves _ _ _ _ (sign_actor-Leaves user)) λ signed.
        let sent : (log : List Sent)
            → Signed signed log
            → PermittedAfter deps tools mutation
                (posted
                  (record { path = path; script = script; actor = signed.0; actor_sig = signed.1 }))
                log
              × All log =
          λ log i. (posted-Approved i.2.0 signed.0 signed.1 log i.0 i.1, i.2.1) in
        Leaves-bind _ _
          (send-Leaves (Signed signed) All (λ res. All) (λ q r. posted q) client.post_script _
            (λ log i res. sent log i) (λ log i r. sent log i))
          λ res. Leaves-check_then _ _ (λ s i. i) (λ e. Leaves-return _ (λ s i. i))

  effect-Ends :
      Triple
        (OfCall Ready)
        (script_effect
          (traced_deps deps)
          (traced_tools tools)
          (traced_client client)
          (traced_script_deps script_deps)
          (traced_signing signing)
          script
          reason
          (traced_mutation mutation)
          path
          ordinal)
        (λ x. OfCall AllOf x.1)
  unfolding script_effect
  effect-Ends = Leaves-state (OfCall AllOf) _ (
      Leaves-then _ _ (Leaves-weaken _ (metered_call-Kept Ready _) (λ a s i. i) (λ s i. i.1)) (
        Leaves-bind _ _ (locals-Leaves {P = λ l c. OfCall Ready c} (λ c i. i)) λ user.
          Leaves-bind _ _
            (on_host-Leaves (λ h l. OfHost ReadyLog h) (λ a h l. OfHost All h) (λ h l. OfHost All h)
              _ (λ l. send_script-Leaves user))
            (λ json. Leaves-return _ (λ s i. i))))

  resolved-Kept :
      (Q : List Sent → Type 0) (o : Option (Exec (RunBudget × W) Text))
      → Kept (OfHost {W = W} Q) (
          resolve_with
            (traced_deps deps)
            (traced_tools tools)
            (traced_client client)
            (traced_script_deps script_deps)
            (traced_signing signing)
            script
            reason
            (traced_resolver o))
  resolved-Kept Q none = record { ends = λ s i. i }
  resolved-Kept Q (some m) = record { ends = λ s i. after (m (s.budget, s.outside.0)) s i }
    where
      after :
          (x : Result Text × (RunBudget × W)) (s : Host (Traced W))
          → OfHost Q s
          → Ends (OfHost Q) (OfHost Q) (
              resolved_in
                (traced_deps deps)
                (traced_tools tools)
                (traced_client client)
                (traced_script_deps script_deps)
                (traced_signing signing)
                script
                reason
                (x.0, (x.1.0, (x.1.1, s.outside.1)))
                s)
      after (ok [], (b, w)) s i = i
      after (ok (c ∷ u), (b, w)) s i = i
      after (throw e, (b, w)) s i = i

  approval-Ends :
      Triple
        (OfCall AllOf)
        (approval_preflight
          (traced_deps deps)
          (traced_tools tools)
          (traced_client client)
          (traced_script_deps script_deps)
          (traced_signing signing)
          script
          reason
          (traced_mutation mutation)
          path
          ordinal)
        (Ends (OfCall Ready) (OfCall AllOf))
  unfolding approval_preflight
  approval-Ends =
      let mode = has_capability-admin_script deps.effective_mode capable in
      Leaves-checked _ (λ s i. i) (λ a e s i. (gate-Approved context mode e, i))

  preflight-Ends :
      Triple
        (OfCall AllOf)
        (script_preflight
          (traced_deps deps)
          (traced_tools tools)
          (traced_client client)
          (traced_script_deps script_deps)
          (traced_signing signing)
          script
          reason
          (traced_mutation mutation)
          path
          ordinal)
        (Ends (OfCall Ready) (OfCall AllOf))
  unfolding script_preflight resolve_user
  preflight-Ends =
      let weak = λ (s : Calling (Traced W) Text) (i : OfCall Ready s). i.1 in
      Leaves-then _ _ approval-Ends (
        Leaves-bind {P = λ u c. OfCall Ready c} _ _
          (Leaves-weaken _
            (on_host-Leaves (λ h l. OfHost ReadyLog h) (λ a h l. OfHost ReadyLog h)
              (λ h l. OfHost ReadyLog h) _
              (λ l. resolved-Kept ReadyLog signing.resolve_effective_user_sys_id))
            (λ a s i. i) weak)
          λ resolved.
            Leaves-then _ _ (assign-Leaves {P = OfCall Ready} _ (λ c i. i))
              (Leaves-weaken _ (metered_call-Kept Ready _) (λ a s i. i) weak))

  -- The callbacks of a guarded script keep the laws of the guard.
  pub script-GateLaws :
      GateLaws
        (tools_on from_outside (traced_tools tools).audit_tools)
        tools.date_of
        (guard_of (traced_tools tools) deps.instance_host (traced_mutation mutation))
        (guarded_script
          (traced_deps deps)
          (traced_tools tools)
          (traced_client client)
          (traced_script_deps script_deps)
          (traced_signing signing)
          script
          reason
          (traced_mutation mutation)
          path
          ordinal)
        (OfCall AllOf)
        (OfCall Ready)
  script-GateLaws = record {
    quiet = traced_Quiet AllOf tools mutation deps.instance_host _;
    quiet_ready = traced_Quiet Ready tools mutation deps.instance_host _;
    ready = λ s i. i.1;
    preflight = preflight-Ends;
    replay_preflight = Leaves-weaken _ approval-Ends (λ a s i. i.1) (λ s i. i);
    snapshot = record { ends = λ s i. i };
    effect = effect-Ends;
  }
