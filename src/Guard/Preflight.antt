-- ===== src/Guard/Preflight.antt =====
-- The rule for a guarded mutation whose effect relies on its preflight.
use snow_mcp.Common.{ℕ, String, Option, none, some}
use snow_mcp.Errors.{Thrown, tool_error, capability_denied}
use snow_mcp.Exec.{optional}
use snow_mcp.Exec.Rules.{Triple}
use snow_mcp.Exec.Leaves.{Ends, Kept, Leaves-weaken}
use snow_mcp.Guard.Audit.{AuditTools}
use snow_mcp.Guard.{
  LedgerBegin, claim_new, claim_replay, claim_blocked, LedgerHandle, GuardMutationResult,
  MutationGuard, GuardedEffect, write_intent, handle_of, run_effect, run_gates, act_on_claim,
  claim_and_run, guard_mutation, as_tool_error,
}
use snow_mcp.Guard.Cases.{guard_mutation-cases}
use snow_mcp.Guard.Gated.{
  Ends-bind, Ends-catch, Ends-pure, Quiet, HandleKept, deny-Ends, deny_and_throw-Ends,
  write_intent-Kept, after_effect-Kept,
}

module _ {S T J : Type 0} (tools : AuditTools S J) (date_of : ℕ → String)
    (guard : MutationGuard S T) (eff : GuardedEffect S T J) where
  -- All callbacks keep `I`; the preflight leaves `P` if it lets the mutation through, which the others
  -- keep up to the effect.
  pub record GateLaws (I P : S → Type 0) : Type 0 where
    pub quiet : Quiet tools date_of guard eff I
    pub quiet_ready : Quiet tools date_of guard eff P
    pub ready : (s : S) → P s → I s
    pub preflight : Triple I (optional eff.preflight) (Ends P I)
    pub replay_preflight : Kept I (optional eff.replay_preflight)
    pub snapshot : Triple P (optional eff.snapshot) (Ends P I)
    pub effect : Triple P eff.effect (λ x. I x.1)

  module _ (I P : S → Type 0) (laws : GateLaws I P) where
    module _ (o : Option (LedgerHandle S T)) (handle : HandleKept tools date_of guard eff I o)
        (handle_ready : HandleKept tools date_of guard eff P o) (date_key : String) where
      run_effect-Ends : Triple P (run_effect tools date_of guard eff o date_key) (Ends I I)
      unfolding run_effect
      run_effect-Ends = record {
        ends = λ s p.
            after_effect-Kept tools date_of guard eff I laws.quiet o handle date_key (eff.effect s)
              (laws.effect.ends s p);
      }

      write_intent-Ends : Triple P (write_intent tools date_of guard eff o date_key) (Ends P I)
      write_intent-Ends =
          Leaves-weaken _
            (write_intent-Kept tools date_of guard eff P laws.quiet_ready o handle_ready date_key)
            (λ a s p. p) laws.ready

      run_gates-Kept : Kept I (run_gates tools date_of guard eff o date_key)
      unfolding run_gates
      run_gates-Kept =
          let refuse = λ (e : Thrown).
            deny_and_throw-Ends tools date_of guard eff I laws.quiet o handle {A = Unit {0}} P e in
          Ends-bind _ _ (Ends-catch _ _ laws.preflight refuse) λ _.
            Ends-bind _ _ (Ends-catch _ _ laws.snapshot (λ e. refuse (as_tool_error e)))
              λ _. Ends-bind _ _ write_intent-Ends (λ _. run_effect-Ends)

    act_on_claim-Kept :
        (l : LedgerHandle S T)
        → HandleKept tools date_of guard eff I (some l)
        → HandleKept tools date_of guard eff P (some l)
        → (date_key : String) (c : LedgerBegin T)
        → Kept I (act_on_claim tools date_of guard eff l date_key c)
    unfolding act_on_claim
    act_on_claim-Kept l h p date_key claim_new = run_gates-Kept (some l) h p date_key
    act_on_claim-Kept l h p date_key (claim_replay result) =
        Ends-bind _ _
          (Ends-catch _ _ laws.replay_preflight
            (λ e. deny-Ends tools date_of guard eff I laws.quiet I e))
          (λ _. Ends-pure _)
    act_on_claim-Kept l h p date_key (claim_blocked status) =
        deny-Ends tools date_of guard eff I laws.quiet I _

    claim_and_run-Kept :
        (o : Option (LedgerHandle S T))
        → HandleKept tools date_of guard eff I o
        → HandleKept tools date_of guard eff P o
        → (date_key : String) → Kept I (claim_and_run tools date_of guard eff o date_key)
    unfolding claim_and_run
    claim_and_run-Kept none h p date_key = run_gates-Kept none h p date_key
    claim_and_run-Kept (some l) h p date_key =
        Ends-bind _ _ (h.begin eff.request_hash) (act_on_claim-Kept l h p date_key)

    pub guard_mutation-Kept : Kept I (guard_mutation tools date_of guard eff)
    guard_mutation-Kept = record {
      ends = λ s i.
          guard_mutation-cases tools date_of guard eff (Ends I I) s i
            ((deny-Ends tools date_of guard eff I laws.quiet {A = GuardMutationResult T} I
                (tool_error capability_denied)).ends
              s i)
            ((claim_and_run-Kept (handle_of tools date_of guard eff guard.ledger) laws.quiet.ledger
                laws.quiet_ready.ledger (date_of (guard.now s))).ends
              s i);
    }
