-- ===== src/Guard/Cases.antt =====
-- The four ways out of a guarded mutation's checks.
use snow_mcp.Common.{ℕ, String, not, ◌&&◌, Bool-cases, inl, inr}
use snow_mcp.Errors.{Result, tool_error, capability_denied, internal_error}
use snow_mcp.Exec.{raise}
use snow_mcp.Guard.Audit.{AuditTools}
use snow_mcp.Guard.{
  GuardMutationResult, MutationGuard, GuardedEffect, deny, handle_of, claim_and_run, guard_mutation,
  is_some, is_missing,
}

module _ {S T J : Type 0} (tools : AuditTools S J) (date_of : ℕ → String)
    (guard : MutationGuard S T) (eff : GuardedEffect S T J) where
  -- It is refused, denied, or claimed and run.
  pub guard_mutation-cases :
      (Q : Result (GuardMutationResult T) × S → Type 0) (s : S)
      → Q (raise (tool_error internal_error) s)
      → Q (deny tools date_of guard eff (tool_error capability_denied) s)
      → Q (
          claim_and_run tools date_of guard eff
            (handle_of tools date_of guard eff guard.ledger)
            (date_of (guard.now s))
            s)
      → Q (guard_mutation tools date_of guard eff s)
  unfolding guard_mutation
  guard_mutation-cases Q s refuse freeze run =
      elim (Bool-cases (guard.durability_required && not (is_some guard.audit))) [
        | inl a ↦ rw a refuse
        | inr a ↦ rw a (elim (Bool-cases guard.mutation_freeze) [
          | inl b ↦ simp b freeze
          | inr b ↦ simp b (elim (Bool-cases (is_missing guard.run_key)) [
            | inl c ↦ rw c freeze
            | inr c ↦
                rw c (elim (Bool-cases (guard.durability_required && not (is_some guard.ledger))) [
                  | inl d ↦ rw d refuse
                  | inr d ↦ rw d run
                ])
          ])
        ])
      ]
