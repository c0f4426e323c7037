-- ===== src/Mutation/UpdateClaims.antt =====
-- `tableUpdate` runs its PATCH only against a claim of the ledger.
use snow_mcp.Common.{ℕ, Bool, true, false, Option, none, some, List, if◌then◌else◌}
use snow_mcp.Exec.{Exec}
use snow_mcp.Exec.Steps.{◌>>=◌, check, return}
use snow_mcp.Exec.Rules.{Triple}
use snow_mcp.Exec.Leaves.{
  Ends, Kept, Leaves-bind, Leaves-then, Leaves-return, Leaves-check, Leaves-checked, Leaves-weaken,
  Leaves-state,
}
use snow_mcp.Text.{Text}
use snow_mcp.RunBudget.{RunBudget, Metered}
use snow_mcp.Guard.{guard_mutation}
use snow_mcp.Guard.Balance.{Covered, CoveredOption, CallbackLaws}
use snow_mcp.Rpc.{
  Row, Host, RpcDeps, SnRequest, SnResponse, metered, counted_request, mapped,
  fetch_row_in_filter_scope, has_mandatory_filter,
}
use snow_mcp.Rpc.Requests.{row_request, scope_request}
use snow_mcp.Mutation.Body.{JsTree}
use snow_mcp.Mutation.Parts.{
  WriteClient, SnapshotInput, MutationDeps, MutationTools, Recoverability, reversible_from_snapshot,
  non_recoverable, Calling, on_host, from_outside, tools_on, guard_of,
}
use snow_mcp.Mutation.Update.{
  UpdateLocals, assert_sys_id_in_row_filter_scope, patch_row, current_row, snapshot_step,
  snapshot_for, update_preflight, update_effect, guarded_update, in_scope,
}
use snow_mcp.Mutation.Steps.{metered_outside-Kept, on_host-Leaves, assign-Leaves, locals-Leaves}
use snow_mcp.Mutation.Measure.{
  At, GoodCall, effects_of, claims_of, Covered-of, Spends-of, from_outside-Covered,
  audit_on-AuditLaw, send_covered, send_spent, weaker,
}
use snow_mcp.Mutation.WriteLaws.{WriteLaws, CaptureLaw, guarded-Kept}

module _ {W V K J : Type 0} (deps : RpcDeps W V) (tools : MutationTools W V K J)
    (client : WriteClient W V K) (mutation : MutationDeps W V K J) (Good : W → Type 0)
    (effects claims : W → ℕ) where
  module _ (laws : WriteLaws deps tools client mutation Good effects claims) (start : W) where
    abbrev Out : ℕ → Host W → Type 0
    Out n h = At Good effects claims n start h.outside

    abbrev OutOf : {L : Type 0} → ℕ → Calling W L → Type 0
    OutOf n c = At Good effects claims n start c.host.outside

    -- The host in a call.
    on_host-Kept :
        {L A : Type 0} (m : Exec (Host W) A) → Kept (Out 0) m → Kept (OutOf {L = L} 0) (on_host m)
    on_host-Kept m h =
        on_host-Leaves (λ h l. Out 0 h) (λ a h l. Out 0 h) (λ h l. Out 0 h) m (λ l. h)

    counted_request-Kept :
        {A : Type 0} (call : SnRequest → Exec W (SnResponse A)) (req : SnRequest)
        → Covered Good effects claims (call req)
        → Kept (Out 0) (counted_request deps call req)
    unfolding counted_request
    counted_request-Kept call req h =
        Leaves-then _ _ (metered_outside-Kept _ _)
          (Leaves-then _ _ (metered_outside-Kept _ _) (send_covered Good effects claims start _ h))

    mapped-Kept : {A : Type 0} (n : ℕ) (res : SnResponse A) → Kept (Out n) (mapped res)
    unfolding mapped
    mapped-Kept n res = Leaves-checked _ (λ s i. i) (λ a e s i. i)

    scope-Kept :
        (table sys_id : Text)
        → Kept (Out 0) (assert_sys_id_in_row_filter_scope deps tools client table sys_id)
    unfolding assert_sys_id_in_row_filter_scope fetch_row_in_filter_scope
    scope-Kept table sys_id = by_filter (has_mandatory_filter deps table)
      where
        by_filter :
            (b : Bool)
            → Kept (Out 0) (
                if b
                then (fetch_row_in_filter_scope deps table sys_id none >>= λ row.
                    check (in_scope deps tools client row))
                else return none)
        by_filter true =
            Leaves-bind _ _
              (Leaves-bind _ _
                (counted_request-Kept deps.http.get_rows (scope_request deps table sys_id none)
                  (laws.rows (scope_request deps table sys_id none)))
                λ res.
                  Leaves-then _ _ (mapped-Kept 0 res)
                    (Leaves-check _ _ (λ s i. i) λ rows e. Leaves-return _ (λ s i. i)))
              (λ row. Leaves-checked _ (λ s i. i) (λ a e s i. i))
        by_filter false = Leaves-return _ (λ s i. i)

    current_row-Kept :
        (table sys_id : Text) (row : Option (Row V))
        → Kept (Out 0) (current_row deps tools client table sys_id row)
    unfolding current_row
    current_row-Kept table sys_id (some r) = Leaves-return _ (λ s i. i)
    current_row-Kept table sys_id none =
        Leaves-bind _ _
          (counted_request-Kept deps.http.get_row (row_request deps table sys_id none)
            (laws.row (row_request deps table sys_id none)))
          λ res.
            Leaves-then _ _ (mapped-Kept 0 res)
              (Leaves-check _ _ (λ s i. i) λ r e. Leaves-return _ (λ s i. i))

    module _ (ordinal : ℕ) (table sys_id body_json : Text) (fields : List (Text × JsTree J)) where
      update_preflight-Kept :
          Kept
            (OutOf 0)
            (update_preflight deps tools client mutation ordinal table sys_id body_json fields)
      unfolding update_preflight
      update_preflight-Kept = Leaves-bind _ _ (on_host-Kept _ (scope-Kept table sys_id)) λ row.
          Leaves-then _ _ (assign-Leaves {P = OutOf 0} _ (λ c i. i))
            (on_host-Kept _ (metered_outside-Kept _ _))

      snapshot_step-Kept :
          (capture : SnapshotInput V J → Exec W Bool)
          → ((input : W → SnapshotInput V J)
              → Covered Good effects claims (λ w. capture (input w) w))
          → Kept (OutOf 0) (
              snapshot_step deps tools client mutation ordinal table sys_id body_json fields
                capture)
      unfolding snapshot_step
      snapshot_step-Kept capture h =
          Leaves-bind _ _ (locals-Leaves {P = λ l c. OutOf 0 c} (λ c i. i)) λ rows.
            Leaves-bind _ _ (on_host-Kept _ (current_row-Kept table sys_id _)) λ row.
              Leaves-then _ _ (assign-Leaves {P = OutOf 0} _ (λ c i. i)) (
                Leaves-bind _ _ (on_host-Kept _ (send_covered Good effects claims start _ (h _)))
                  (λ stored. Leaves-return _ (λ s i. i)))

      update_effect-Leaves :
          Triple
            (Out 0)
            (update_effect deps tools client mutation ordinal table sys_id body_json fields)
            (Ends (Out 1) (Out 1))
      unfolding update_effect patch_row
      update_effect-Leaves =
          let metered_before = λ (m : RunBudget → Metered).
            Leaves-weaken {P = λ a. Out 0} (metered m)
              (metered_outside-Kept (At Good effects claims 0 start) m) (λ a s i. i)
              (λ s i. weaker Good effects claims start s.outside i) in
          Leaves-then _ _ (metered_before _) (
            Leaves-bind {P = λ raw. Out 1} _ _
              (Leaves-then _ _ (metered_before _) (
                Leaves-bind _ _ (send_spent Good effects claims start _ (laws.patch _)) λ res.
                  Leaves-then _ _ (mapped-Kept 1 res)
                    (Leaves-check _ _ (λ s i. i) λ r e. Leaves-return _ (λ s i. i))))
              (λ raw. Leaves-return _ (λ s i. i)))

  module _ (laws : WriteLaws deps tools client mutation Good effects claims) (ordinal : ℕ)
      (table sys_id body_json : Text) (fields : List (Text × JsTree J)) where
    abbrev Call : Type 0
    Call = Calling W (UpdateLocals V)

    CoveredSnapshot :
        (o : Option (SnapshotInput V J → Exec W Bool)) (r : Recoverability)
        → CaptureLaw deps tools client mutation Good effects claims o
        → CoveredOption
            (GoodCall Good effects claims)
            (effects_of Good effects claims)
            (claims_of Good effects claims)
            (snapshot_for deps tools client mutation ordinal table sys_id body_json fields o r)
    CoveredSnapshot none r h = tt
    CoveredSnapshot (some capture) reversible_from_snapshot h =
        Covered-of Good effects claims _
          (λ start. snapshot_step-Kept laws start ordinal table sys_id body_json fields capture h)
    CoveredSnapshot (some capture) non_recoverable h = tt

    guarded_update-CallbackLaws :
        CallbackLaws
          (GoodCall Good effects claims)
          (effects_of Good effects claims)
          (claims_of Good effects claims)
          (tools_on from_outside tools.audit_tools)
          tools.date_of
          (guard_of tools deps.instance_host mutation)
          (guarded_update deps tools client mutation ordinal table sys_id body_json fields)
    guarded_update-CallbackLaws = record {
      hash = λ v. from_outside-Covered Good effects claims _ (laws.hash v);
      audit = audit_on-AuditLaw Good effects claims (UpdateLocals V) mutation.audit laws.audit;
      preflight =
          Covered-of Good effects claims _
            (λ start. update_preflight-Kept laws start ordinal table sys_id body_json fields);
      replay_preflight = tt;
      snapshot = CoveredSnapshot mutation.capture_snapshot _ laws.capture;
      effect = Spends-of Good effects claims _ (λ start. Leaves-state (OutOf laws start 1) _ (
          on_host-Leaves (λ h l. Out laws start 0 h) (λ a h l. Out laws start 1 h)
            (λ h l. Out laws start 1 h) _
            (λ l. update_effect-Leaves laws start ordinal table sys_id body_json fields)));
    }

    -- The guarded part keeps the balance from every start.
    pub update_balance :
        (start : W)
        → Kept
            (λ c. At Good effects claims 0 start c.host.outside)
            (guard_mutation
              (tools_on from_outside tools.audit_tools)
              tools.date_of
              (guard_of tools deps.instance_host mutation)
              (guarded_update deps tools client mutation ordinal table sys_id body_json fields))
    update_balance =
        guarded-Kept deps tools client mutation Good effects claims _ laws
          guarded_update-CallbackLaws
