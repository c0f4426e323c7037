-- ===== src/Mutation/WriteLaws.antt =====
-- What the parameters of the mutating methods do to a measure of effects and claims.
use snow_mcp.Common.{ℕ, Bool, Option, none, some}
use snow_mcp.Exec.{Exec}
use snow_mcp.Exec.Leaves.{Kept}
use snow_mcp.ReplayPayload.{JsValue}
use snow_mcp.Guard.Audit.{AuditTools}
use snow_mcp.Guard.{guard_mutation, LedgerHandle, MutationGuard, GuardedEffect}
use snow_mcp.Guard.Balance.{
  Covered, Spends, HandleLaws, AuditLaw, CallbackLaws, LedgerLaw, guard_mutation-Covered,
}
use snow_mcp.Rpc.{Row, RpcDeps, SnRequest}
use snow_mcp.Mutation.Parts.{
  PatchRequest, ScriptRequest, WriteClient, SnapshotInput, MutationDeps, MutationTools, Calling,
  from_outside, ledger_on, tools_on, guard_of,
}
use snow_mcp.Mutation.Measure.{At, GoodCall, effects_of, claims_of, call_Kept, handle_on-HandleLaws}

module _ {W V K J : Type 0} (deps : RpcDeps W V) (tools : MutationTools W V K J)
    (client : WriteClient W V K) (mutation : MutationDeps W V K J) (Good : W → Type 0)
    (effects claims : W → ℕ) where
  abbrev pub CaptureLaw : Option (SnapshotInput V J → Exec W Bool) → Type 0
  CaptureLaw none = Unit
  CaptureLaw (some capture) =
      (input : W → SnapshotInput V J) → Covered Good effects claims (λ w. capture (input w) w)

  -- There is a ledger, and its handles keep their laws.
  abbrev pub LedgerLaws : Option (ℕ → LedgerHandle W (JsValue K)) → Type 0
  LedgerLaws none = ⊥
  LedgerLaws (some f) = (ordinal : ℕ) → HandleLaws Good effects claims (f ordinal)

  -- What a call's parameters do: a PATCH or a POST is one effect; nothing else is one, or takes a claim
  -- back; and the ledger grants a claim when it answers `new`.
  pub record WriteLaws : Type 0 where
    pub rows : (req : SnRequest) → Covered Good effects claims (deps.http.get_rows req)
    pub row : (req : SnRequest) → Covered Good effects claims (deps.http.get_row req)
    pub patch : (req : PatchRequest) → Spends Good effects claims (client.patch_row req)
    pub post : (req : ScriptRequest) → Spends Good effects claims (client.post_script req)
    pub hash : (r : Row V) → Covered Good effects claims (tools.audit_tools.hash_value r)
    pub audit : AuditLaw Good effects claims mutation.audit
    pub capture : CaptureLaw mutation.capture_snapshot
    pub ledger : LedgerLaws mutation.ledger

  module _ {L : Type 0} (eff : GuardedEffect (Calling W L) (JsValue K) (Row V)) where
    abbrev call_tools : AuditTools (Calling W L) (Row V)
    call_tools = tools_on from_outside tools.audit_tools

    abbrev call_guard : MutationGuard (Calling W L) (JsValue K)
    call_guard = guard_of tools deps.instance_host mutation

    ledger_on-LedgerLaw :
        (o : Option (ℕ → LedgerHandle W (JsValue K)))
        → LedgerLaws o
        → LedgerLaw
            (GoodCall Good effects claims)
            (effects_of Good effects claims)
            (claims_of Good effects claims)
            call_tools
            tools.date_of
            call_guard
            eff
            (ledger_on from_outside o)
    ledger_on-LedgerLaw none h = h
    ledger_on-LedgerLaw (some f) h =
        handle_on-HandleLaws Good effects claims (f eff.ordinal) (h eff.ordinal)

    -- The guarded part keeps the balance from every start.
    pub guarded-Kept :
        WriteLaws
        → CallbackLaws
            (GoodCall Good effects claims)
            (effects_of Good effects claims)
            (claims_of Good effects claims)
            call_tools
            tools.date_of
            call_guard
            eff
        → (start : W)
        → Kept
            (λ c. At Good effects claims 0 start c.host.outside)
            (guard_mutation call_tools tools.date_of call_guard eff)
    guarded-Kept laws callbacks start = call_Kept Good effects claims start _ (
        guard_mutation-Covered _ _ _ _ _ _ _ callbacks
          (ledger_on-LedgerLaw mutation.ledger laws.ledger))
