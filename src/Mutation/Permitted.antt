-- ===== src/Mutation/Permitted.antt =====
-- What a mutating call may send: the predicates on the log.
use snow_mcp.Common.{
  ◌≡◌, ◌⊎◌, Bool, true, false, ◌||◌, Option, none, some, List, [], ◌∷◌, map, any, arith, refl,
}
use snow_mcp.Errors.{ok}
use snow_mcp.Text.{Text}
use snow_mcp.Risk.{RiskLe}
use snow_mcp.Mode.{mode_risk}
use snow_mcp.Validate.{string, validate_reason}
use snow_mcp.Policy.{mandatory_filter}
use snow_mcp.Policy.Masks.{is_covered}
use snow_mcp.Policy.Access.{MayTouch}
use snow_mcp.Approval.Laws.{Approved}
use snow_mcp.Rpc.{RpcDeps, has_capability, write_tables, run_server_script}
use snow_mcp.Rpc.Permitted.{Permitted}
use snow_mcp.Rpc.Requests.{scope_request}
use snow_mcp.Mutation.Body.{JsTree, insert_entry, sort_entries, canonical_object_json}
use snow_mcp.Mutation.Parts.{ScriptRequest, MutationDeps, MutationTools}
use snow_mcp.Mutation.Script.{or_empty_policy}
use snow_mcp.Mutation.Trace.{Sent, listed, fetched, patched, posted}

module _ {V : Type 0} where
  any-insert :
      (p : Text → Bool) (e : Text × V) (es : List (Text × V))
      → any p (map (λ f. f.0) (insert_entry e es)) ≡ (p e.0 || any p (map (λ f. f.0) es))
  unfolding insert_entry
  any-insert p e [] = refl
  any-insert p (k, v) ((j, w) ∷ es) = let rest = any-insert p (k, v) es in ground (arith, rest)

  -- Sorting the entries changes no test of their keys.
  any-sort_entries :
      (p : Text → Bool) (es : List (Text × V))
      → any p (map (λ f. f.0) (sort_entries es)) ≡ any p (map (λ f. f.0) es)
  unfolding sort_entries
  any-sort_entries p [] = refl
  any-sort_entries p (e ∷ es) =
      let rest = any-sort_entries p es in
      let first = any-insert p e (sort_entries es) in ground (arith, rest, first)

module _ {W V K J : Type 0} (deps : RpcDeps W V) (tools : MutationTools W V K J)
    (mutation : MutationDeps W V K J) where
  -- A lookup of the record behind the filter of its table, which found it.
  abbrev pub IsLookup : Text → Text → Sent → Type 0
  IsLookup table sys_id (listed req true) = req ≡ scope_request deps table sys_id none
  IsLookup table sys_id _ = ⊥

  abbrev pub Looked : Text → Text → List Sent → Type 0
  Looked table sys_id [] = ⊥
  Looked table sys_id (e ∷ log) = IsLookup table sys_id e ⊎ Looked table sys_id log

  -- Where the table has a mandatory filter, the record was found behind it.
  abbrev pub LookedIf : Option Text → Text → Text → List Sent → Type 0
  LookedIf none table sys_id log = Unit
  LookedIf (some filter) table sys_id log = Looked table sys_id log

  -- The body is the JSON of fields of which none is masked.
  abbrev pub WritesNoMask : Text → Text → Type 0
  WritesNoMask table body_json =
      (fields : List (Text × JsTree J)) × (body_json ≡ tools.stringify fields)
      × (any (is_covered deps.actor_policy table) (map (λ e. e.0) fields) ≡ false)

  -- The actor, reason and token of a script are approved.
  abbrev pub ScriptApproved : ScriptRequest → Type 0
  ScriptApproved req =
      let approval = or_empty_policy mutation.approval in
      Approved (record {
        mode = deps.effective_mode;
        actor_user_id = req.actor.claims.mcp_actor_user_id;
        reason = some req.actor.reason;
        admin_script_allowlist = approval.admin_script_allowlist;
        approval_token = mutation.run_context.approval_token;
        valid_approval_tokens = approval.valid_approval_tokens;
        actor_access_groups = approval.actor_access_groups;
        required_access_group = approval.required_access_group;
      })

  -- What was sent, after what is in the log.
  abbrev pub PermittedAfter : Sent → List Sent → Type 0
  PermittedAfter (listed req found) log = Permitted deps req
  PermittedAfter (fetched req) log = Permitted deps req
  PermittedAfter (patched req) log =
      MayTouch deps.actor_policy deps.instance_host req.table deps.effective_mode
      × (has_capability deps.effective_mode write_tables ≡ some true)
      × WritesNoMask req.table req.body_json
      × LookedIf (mandatory_filter deps.actor_policy req.table) req.table req.sys_id log
  PermittedAfter (posted req) log =
      RiskLe (mode_risk deps.effective_mode) (mode_risk deps.actor_policy.max_mode)
      × (has_capability deps.effective_mode run_server_script ≡ some true)
      × ScriptApproved req
      × (validate_reason {J = J} (string req.actor.reason) ≡ ok req.actor.reason)

  abbrev pub AllPermitted : List Sent → Type 0
  AllPermitted [] = Unit
  AllPermitted (e ∷ log) = PermittedAfter e log × AllPermitted log

  serialized :
      (fields : List (Text × JsTree J)) (body : Text)
      → canonical_object_json tools.stringify fields ≡ ok body
      → body ≡ tools.stringify (sort_entries fields)
  unfolding canonical_object_json
  serialized fields body h = ground (arith, h)

  -- The body that is made of fields which are not masked.
  pub canonical_object_json-WritesNoMask :
      (table : Text) (fields : List (Text × JsTree J)) (body : Text)
      → canonical_object_json tools.stringify fields ≡ ok body
      → any (is_covered deps.actor_policy table) (map (λ e. e.0) fields) ≡ false
      → WritesNoMask table body
  canonical_object_json-WritesNoMask table fields body h shown =
      let keys = any-sort_entries (is_covered deps.actor_policy table) fields in
      (sort_entries fields, serialized fields body h, rw keys shown)
