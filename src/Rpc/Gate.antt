-- ===== src/Rpc/Gate.antt =====
-- The gate in front of every read: what is known of a call that has passed it.
use snow_mcp.Common.{◌≡◌, Option, List}
use snow_mcp.Errors.{ok}
use snow_mcp.Exec.{Exec}
use snow_mcp.Exec.Steps.{◌>>◌, check}
use snow_mcp.Exec.Rules.{
  Ensures, Ensures-checked, Ensures-then, Keeps, Keeps-check_then, Keeps-then, then_assoc,
}
use snow_mcp.Text.{Text}
use snow_mcp.Policy.{assert_actor_policy, assert_requested_fields_allowed}
use snow_mcp.Policy.Access.{MayTouch, assert_actor_policy_iff}
use snow_mcp.RunBudget.{count_rpc_call}
use snow_mcp.Rpc.{Host, RpcDeps, metered, gate_read, require_capability, read_tables}

module _ {W V : Type 0} (deps : RpcDeps W V) where
  abbrev pub Passed : Text → Option (List Text) → Type 0
  Passed t fields =
      MayTouch deps.actor_policy deps.instance_host t deps.effective_mode
      × (assert_requested_fields_allowed deps.actor_policy t fields ≡ ok tt)

  gate_steps :
      {A : Type 0} (t : Text) (fields : Option (List Text)) (k : Exec (Host W) A)
      → (gate_read deps t fields >> k) ≡ (
          check (assert_actor_policy deps.actor_policy deps.instance_host t deps.effective_mode)
          >> (check (require_capability deps.effective_mode read_tables)
              >> (check (assert_requested_fields_allowed deps.actor_policy t fields)
                  >> (metered count_rpc_call >> k))))
  unfolding gate_read
  gate_steps t fields k = simp then_assoc

  pub gate_read-Ensures :
      {A : Type 0} {Q : A → Type 0} (t : Text) (fields : Option (List Text)) (k : Exec (Host W) A)
      → (Passed t fields → Ensures k Q)
      → Ensures (gate_read deps t fields >> k) Q
  gate_read-Ensures t fields k h = rw (gate_steps t fields k) (
      Ensures-checked _ _ λ policy. Ensures-checked _ _ λ capability.
        Ensures-checked _ _ λ requested. Ensures-then _ _ (
          h (
            (assert_actor_policy_iff deps.actor_policy deps.instance_host t deps.effective_mode).0
                policy,
            requested,
          )))

  pub gate_read-Keeps :
      {A : Type 0} {I : Host W → Type 0} (t : Text) (fields : Option (List Text))
      (k : Exec (Host W) A)
      → Keeps I (metered count_rpc_call)
      → (Passed t fields → Keeps I k)
      → Keeps I (gate_read deps t fields >> k)
  gate_read-Keeps t fields k counted h = rw (gate_steps t fields k) (
      Keeps-check_then _ _ λ policy. Keeps-check_then _ _ λ capability.
        Keeps-check_then _ _ λ requested. Keeps-then _ _ counted (
          h (
            (assert_actor_policy_iff deps.actor_policy deps.instance_host t deps.effective_mode).0
                policy,
            requested,
          )))
