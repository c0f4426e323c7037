-- ===== src/Mutation/ScriptClaims.antt =====
-- `runServerScript` sends its POST only against a claim of the ledger.
use snow_mcp.Common.{ℕ, Option, none, some, [], ◌∷◌, arith}
use snow_mcp.Errors.{Result, ok, throw}
use snow_mcp.Exec.{Exec}
use snow_mcp.Exec.Rules.{Triple}
use snow_mcp.Exec.Leaves.{
  Ends, Kept, Leaves-bind, Leaves-then, Leaves-return, Leaves-check_then, Leaves-checked,
  Leaves-weaken, Leaves-state,
}
use snow_mcp.Text.{Text}
use snow_mcp.RunBudget.{RunBudget}
use snow_mcp.Guard.{guard_mutation}
use snow_mcp.Guard.Balance.{Step, Covered, CallbackLaws}
use snow_mcp.Rpc.{Host, RpcDeps}
use snow_mcp.Mutation.Parts.{
  WriteClient, MutationDeps, MutationTools, Calling, on_host, from_outside, tools_on, guard_of,
}
use snow_mcp.Mutation.Script.{
  Signing, ScriptDeps, resolved_in, resolve_with, resolve_user, sign_actor, send_script,
  approval_preflight, script_preflight, script_effect, guarded_script,
}
use snow_mcp.Mutation.Steps.{
  outside-Leaves, metered_outside-Kept, on_host-Leaves, assign-Leaves, locals-Leaves,
}
use snow_mcp.Mutation.Measure.{
  Covered-Kept, At, GoodCall, effects_of, claims_of, Covered-of, Spends-of, from_outside-Covered,
  audit_on-AuditLaw, send_spent, weaker,
}
use snow_mcp.Mutation.WriteLaws.{WriteLaws, guarded-Kept}

module _ {W V K J : Type 0} (deps : RpcDeps W V) (tools : MutationTools W V K J)
    (client : WriteClient W V K) (mutation : MutationDeps W V K J) (Good : W → Type 0)
    (effects claims : W → ℕ) where
  -- The resolver of the user keeps the balance, with the meter beside it.
  abbrev ResolverLaw : Option (Exec (RunBudget × W) Text) → Type 0
  ResolverLaw none = Unit
  ResolverLaw (some m) =
      (b : RunBudget) (w : W) → Good w → Step Good effects claims 0 w (m (b, w)).1.1

  abbrev pub SigningLaw : Option (Signing W) → Type 0
  SigningLaw none = Unit
  SigningLaw (some s) =
      Covered Good effects claims s.nonce × ResolverLaw s.resolve_effective_user_sys_id

  module _ (script_deps : ScriptDeps W) (signing : Signing W) (script reason path : Text)
      (ordinal : ℕ) (laws : WriteLaws deps tools client mutation Good effects claims)
      (signing_law : SigningLaw (some signing)) where
    module _ (start : W) where
      abbrev Out : ℕ → Host W → Type 0
      Out n h = At Good effects claims n start h.outside

      abbrev OutOf : ℕ → Calling W Text → Type 0
      OutOf n c = At Good effects claims n start c.host.outside

      on_host-Kept :
          {A : Type 0} (m : Exec (Host W) A) → Kept (Out 0) m → Kept (OutOf 0) (on_host m)
      on_host-Kept m h =
          on_host-Leaves (λ h l. Out 0 h) (λ a h l. Out 0 h) (λ h l. Out 0 h) m (λ l. h)

      resolve-Kept :
          (o : Option (Exec (RunBudget × W) Text))
          → ResolverLaw o
          → Kept (Out 0) (resolve_with deps tools client script_deps signing script reason o)
      resolve-Kept none law = record { ends = λ s i. i }
      resolve-Kept (some m) law = record {
        ends = λ s i. after (m (s.budget, s.outside)) s i (law s.budget s.outside i.within.1);
      }
        where
          after :
              (x : Result Text × (RunBudget × W)) (s : Host W)
              → Out 0 s
              → Step Good effects claims 0 s.outside x.1.1
              → Ends
                  (Out 0)
                  (Out 0)
                  (resolved_in deps tools client script_deps signing script reason x s)
          after (ok [], (b, w)) s i g = let v = i.within in record { within = (omega arith, g.1) }
          after (ok (c ∷ u), (b, w)) s i g =
              let v = i.within in record { within = (omega arith, g.1) }
          after (throw e, (b, w)) s i g = let v = i.within in record { within = (omega arith, g.1) }

      approval-Kept : Kept (OutOf 0) (
          approval_preflight deps tools client script_deps signing script reason mutation path
            ordinal)
      unfolding approval_preflight
      approval-Kept = Leaves-checked _ (λ s i. i) (λ a e s i. i)

      script_preflight-Kept : Kept (OutOf 0) (
          script_preflight deps tools client script_deps signing script reason mutation path
            ordinal)
      unfolding script_preflight resolve_user
      script_preflight-Kept = Leaves-then _ _ approval-Kept (
          Leaves-bind _ _
            (on_host-Kept _ (resolve-Kept signing.resolve_effective_user_sys_id signing_law.1))
            λ user.
              Leaves-then _ _ (assign-Leaves {P = OutOf 0} _ (λ c i. i))
                (on_host-Kept _ (metered_outside-Kept _ _)))

      sign_actor-Kept :
          (user : Text)
          → Kept
              (At Good effects claims 0 start)
              (sign_actor deps tools client script_deps signing script reason user)
      unfolding sign_actor
      sign_actor-Kept user =
          Leaves-bind {P = λ (n : ℕ). At Good effects claims 0 start} _ _
            (record { ends = λ t i. i })
            λ issued_at.
              Leaves-bind _ _ (Covered-Kept Good effects claims start signing.nonce signing_law.0)
                (λ nonce. Leaves-return _ (λ t i. i))

      send_script-Leaves :
          (user : Text)
          → Triple
              (Out 0)
              (send_script deps tools client script_deps signing script reason path user)
              (Ends (Out 1) (Out 1))
      unfolding send_script
      send_script-Leaves user =
          Leaves-bind _ _
            (Leaves-weaken _
              (outside-Leaves (At Good effects claims 0 start) (λ a. At Good effects claims 0 start)
                (At Good effects claims 0 start) _ (sign_actor-Kept user))
              (λ a s i. i) (λ s i. weaker Good effects claims start s.outside i))
            λ signed.
              Leaves-bind _ _ (send_spent Good effects claims start _ (laws.post _))
                λ res. Leaves-check_then _ _ (λ s i. i) (λ e. Leaves-return _ (λ s i. i))

      script_effect-Leaves :
          Triple
            (OutOf 0)
            (script_effect deps tools client script_deps signing script reason mutation path
              ordinal)
            (Ends (OutOf 1) (OutOf 1))
      unfolding script_effect
      script_effect-Leaves =
          Leaves-then _ _
            (Leaves-weaken {P = λ a. OutOf 0} _ (on_host-Kept _ (metered_outside-Kept _ _))
              (λ a s i. i) (λ c i. weaker Good effects claims start c.host.outside i))
            (Leaves-bind _ _ (locals-Leaves {P = λ l c. OutOf 0 c} (λ c i. i)) λ user.
              Leaves-bind _ _
                (on_host-Leaves (λ h l. Out 0 h) (λ a h l. Out 1 h) (λ h l. Out 1 h) _
                  (λ l. send_script-Leaves user))
                (λ json. Leaves-return _ (λ s i. i)))

    guarded_script-CallbackLaws :
        CallbackLaws
          (GoodCall Good effects claims)
          (effects_of Good effects claims)
          (claims_of Good effects claims)
          (tools_on from_outside tools.audit_tools)
          tools.date_of
          (guard_of tools deps.instance_host mutation)
          (guarded_script deps tools client script_deps signing script reason mutation path ordinal)
    guarded_script-CallbackLaws = record {
      hash = λ v. from_outside-Covered Good effects claims _ (laws.hash v);
      audit = audit_on-AuditLaw Good effects claims Text mutation.audit laws.audit;
      preflight = Covered-of Good effects claims _ script_preflight-Kept;
      replay_preflight = Covered-of Good effects claims _ approval-Kept;
      snapshot = tt;
      effect =
          Spends-of Good effects claims _
            (λ start. Leaves-state (OutOf start 1) _ (script_effect-Leaves start));
    }

    -- The guarded part keeps the balance from every start.
    pub script_balance :
        (start : W)
        → Kept
            (λ c. At Good effects claims 0 start c.host.outside)
            (guard_mutation
              (tools_on from_outside tools.audit_tools)
              tools.date_of
              (guard_of tools deps.instance_host mutation)
              (guarded_script deps tools client script_deps signing script reason mutation path
                ordinal))
    script_balance =
        guarded-Kept deps tools client mutation Good effects claims _ laws
          guarded_script-CallbackLaws
