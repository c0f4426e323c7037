-- ===== src/Mutation/Claims.antt =====
-- How often the mutating methods write: never without a claim that the ledger has granted.
use snow_mcp.Common.{ℕ, ◌+◌, ◌≤◌, some, arith}
use snow_mcp.Exec.Leaves.{Leaves-state}
use snow_mcp.Rpc.{Host, RpcDeps}
use snow_mcp.Mutation.Parts.{WriteClient, MutationDeps, MutationTools}
use snow_mcp.Mutation.Update.{table_update}
use snow_mcp.Mutation.Script.{ScriptDeps, run_script}
use snow_mcp.Mutation.Rules.{UpdateKept, ScriptKept, table_update-Kept, run_script-Kept}
use snow_mcp.Mutation.Measure.{At}
use snow_mcp.Mutation.Sent.{WriteCall, call_update, call_script}
use snow_mcp.Mutation.WriteLaws.{WriteLaws}
use snow_mcp.Mutation.UpdateClaims.{update_balance}
use snow_mcp.Mutation.ScriptClaims.{SigningLaw, script_balance}

-- What a call leaves, whether it returns or throws.
abbrev pub after_call :
    {W V K J : Type 0}
    → RpcDeps W V
    → MutationTools W V K J
    → WriteClient W V K
    → MutationDeps W V K J
    → WriteCall W J
    → Host W
    → Host W
after_call deps tools client mutation (call_update args) h =
    (table_update deps tools client (some mutation) args h).1
after_call deps tools client mutation (call_script script_deps arg) h =
    (run_script deps tools client script_deps (some mutation) arg h).1

module _ {W V K J : Type 0} (deps : RpcDeps W V) (tools : MutationTools W V K J)
    (client : WriteClient W V K) (mutation : MutationDeps W V K J) (Good : W → Type 0)
    (effects claims : W → ℕ) where
  abbrev pub CallLaw : WriteCall W J → Type 0
  CallLaw (call_update args) = Unit
  CallLaw (call_script script_deps arg) =
      SigningLaw deps tools client mutation Good effects claims script_deps.signing

  module _ (laws : WriteLaws deps tools client mutation Good effects claims) (start : W) where
    update_covered : UpdateKept deps tools client mutation (At Good effects claims 0 start)
    update_covered table sys_id arg valid may ordinal body_json fields capability shown =
        update_balance deps tools client mutation Good effects claims laws ordinal table sys_id
          body_json fields start

    script_covered :
        (script_deps : ScriptDeps W)
        → SigningLaw deps tools client mutation Good effects claims script_deps.signing
        → ScriptKept deps tools client mutation (At Good effects claims 0 start) script_deps
    script_covered script_deps law signing signed script reason path ordinal within capable sound =
        script_balance deps tools client mutation Good effects claims script_deps signing script
          reason path ordinal laws (rw signed at law) start

    call-Kept :
        (call : WriteCall W J)
        → CallLaw call
        → (h : Host W) → At Good effects claims 0 start h.outside
        → At Good effects claims 0 start (after_call deps tools client mutation call h).outside
    call-Kept (call_update args) law h i =
        (Leaves-state _ _ (table_update-Kept deps tools client mutation _ update_covered args)).ends
          h i
    call-Kept (call_script script_deps arg) law h i =
        (Leaves-state _ _ (
            run_script-Kept deps tools client mutation _ script_deps
              (script_covered script_deps law) arg)).ends
          h i

  -- With a ledger, and for every measure of the effects and the claims that the parameters respect (a
  -- PATCH or a POST to the executor is at most one effect, nothing else is one, the ledger grants a claim
  -- whenever it answers `new`, and no claim is taken back), the effects that a mutating call adds, from
  -- its arguments to its result, are at most the claims that it adds.
  pub effects-le-claims :
      WriteLaws deps tools client mutation Good effects claims
      → (call : WriteCall W J) → CallLaw call
      → (h : Host W) → Good h.outside
      → effects (after_call deps tools client mutation call h).outside + claims h.outside
        ≤ effects h.outside + claims (after_call deps tools client mutation call h).outside
  effects-le-claims laws call law h good =
      let start : At Good effects claims 0 h.outside h.outside = record {
        within = (omega arith, good);
      } in
      let after = (call-Kept laws h.outside call law h start).within.0 in omega (arith, after)
