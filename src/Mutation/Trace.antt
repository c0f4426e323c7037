-- ===== src/Mutation/Trace.antt =====
-- A log of what the mutating methods ask the instance, and what the other callbacks leave of it.
use snow_mcp.Common.{ℕ, Bool, true, false, Option, none, some, List, ◌∷◌}
use snow_mcp.Errors.{Result, ok, throw}
use snow_mcp.Exec.{Exec}
use snow_mcp.RunBudget.{RunBudget, Metered}
use snow_mcp.ReplayPayload.{JsValue}
use snow_mcp.Text.{Text}
use snow_mcp.Guard.Audit.{AuditRecord, AuditTools}
use snow_mcp.Guard.{LedgerHandle, MutationGuard, GuardedEffect, handle_of}
use snow_mcp.Exec.Leaves.{Ends, Kept}
use snow_mcp.Guard.Gated.{Quiet, HandleKept, AuditKept}
use snow_mcp.Rpc.{Row, Host, RpcDeps, SnRequest, SnResponse, Body, result_body, metered, send}
use snow_mcp.Mutation.Parts.{
  PatchRequest, ScriptRequest, WriteClient, MutationDeps, MutationTools, Calling, Lift, ledger_on,
  call_on, tools_on, on_host, from_outside, guard_of,
}

-- A request, and of a list whether a row came back.
pub data Sent : Type 0 where
  listed : SnRequest → (found : Bool) → Sent
  fetched : SnRequest → Sent
  patched : PatchRequest → Sent
  posted : ScriptRequest → Sent

abbrev pub Traced : Type 0 → Type 0
Traced W = W × List Sent

abbrev pub has_row : {A : Type 0} → Body (List A) → Bool
has_row (result_body (some (r ∷ rs))) = true
has_row _ = false

abbrev pub found_in : {A : Type 0} → Result (SnResponse (List A)) → Bool
found_in (ok res) = has_row res.body
found_in (throw e) = false

abbrev pub noted :
    {W A : Type 0} → Result A × W → (Result A → Sent) → List Sent → Result A × Traced W
noted (r, w) f log = (r, (w, f r ∷ log))

abbrev pub tracing :
    {W Q A : Type 0} → (Q → Result A → Sent) → (Q → Exec W A) → Q → Exec (Traced W) A
tracing f call q (w, log) = noted (call q w) (f q) log

-- A callback that asks nothing.
abbrev pub beside : {W A : Type 0} → Result A × W → List Sent → Result A × Traced W
beside (r, w) log = (r, (w, log))

abbrev pub untraced : {W : Type 0} → Lift W (Traced W)
untraced A m (w, log) = beside (m w) log

module _ {W V : Type 0} where
  abbrev pub traced_deps : RpcDeps W V → RpcDeps (Traced W) V
  traced_deps deps = record {
    http = record {
      get_rows = tracing (λ q r. listed q (found_in r)) deps.http.get_rows;
      get_row = tracing (λ q r. fetched q) deps.http.get_row;
      get_stats = tracing (λ q r. fetched q) deps.http.get_stats;
    };
    instance_host = deps.instance_host;
    effective_mode = deps.effective_mode;
    actor_policy = deps.actor_policy;
    query_bytes = deps.query_bytes;
    rows_bytes = deps.rows_bytes;
    row_bytes = deps.row_bytes;
    stats_bytes = deps.stats_bytes;
  }

  abbrev pub traced_client : {K : Type 0} → WriteClient W V K → WriteClient (Traced W) V K
  traced_client client = record {
    patch_row = tracing (λ q r. patched q) client.patch_row;
    post_script = tracing (λ q r. posted q) client.post_script;
  }

  module _ {K J : Type 0} where
    abbrev pub traced_tools : MutationTools W V K J → MutationTools (Traced W) V K J
    traced_tools tools = record {
      string_of = tools.string_of;
      date_of = tools.date_of;
      hash_value = tools.hash_value;
      actor_policy_scope_fingerprint = tools.actor_policy_scope_fingerprint;
      utf8_length = tools.utf8_length;
      stringify = tools.stringify;
      reference_value = tools.reference_value;
      row_value = tools.row_value;
      replay_json = tools.replay_json;
      parse_json = tools.parse_json;
      value_bytes = tools.value_bytes;
      audit_tools = tools_on untraced tools.audit_tools;
    }

    abbrev pub traced_mutation : MutationDeps W V K J → MutationDeps (Traced W) V K J
    traced_mutation mutation = record {
      run_context = mutation.run_context;
      identity = mutation.identity;
      now = λ t. mutation.now t.0;
      durability_required = mutation.durability_required;
      mutation_freeze = mutation.mutation_freeze;
      ledger = ledger_on untraced mutation.ledger;
      audit = call_on untraced mutation.audit;
      capture_snapshot = call_on untraced mutation.capture_snapshot;
      snapshot_enabled_tables = mutation.snapshot_enabled_tables;
      approval = mutation.approval;
    }

-- A property of the log.
abbrev pub OfHost : {W : Type 0} → (List Sent → Type 0) → Host (Traced W) → Type 0
OfHost Q h = Q h.outside.1

-- A property of the log and the variables of a call.
abbrev pub OfCall : {W L : Type 0} → (List Sent → L → Type 0) → Calling (Traced W) L → Type 0
OfCall Q c = Q c.host.outside.1 c.local

module _ {W : Type 0} where
  pub metered-Kept :
      (Q : List Sent → Type 0) (m : RunBudget → Metered) → Kept (OfHost {W = W} Q) (metered m)
  unfolding metered
  metered-Kept Q m = record { ends = λ h i. after (m h.budget) h i }
    where
      after :
          (r : Metered) (h : Host (Traced W))
          → OfHost Q h
          → Ends (OfHost Q) (OfHost Q) (r.0, record h { budget = r.1 })
      after (ok a, b) h i = i
      after (throw e, b) h i = i

module _ {W L : Type 0} (Q : List Sent → L → Type 0) where
  -- What a callback that asks nothing leaves.
  pub untraced-Kept : {A : Type 0} (m : Exec W A) → Kept (OfCall Q) (from_outside A (untraced A m))
  unfolding on_host send
  untraced-Kept {A} m = record { ends = λ c i. after (m c.host.outside.0) c i }
    where
      after :
          (x : Result A × W) (c : Calling (Traced W) L)
          → OfCall Q c
          → Ends
              (OfCall Q)
              (OfCall Q)
              (x.0, record c { host = record c.host { outside = (x.1, c.host.outside.1) } })
      after (ok a, w) c i = i
      after (throw e, w) c i = i

  module _ {V K J : Type 0} (tools : MutationTools W V K J) (mutation : MutationDeps W V K J)
      (host : Text) where
    abbrev traced_guard : MutationGuard (Calling (Traced W) L) (JsValue K)
    traced_guard = guard_of (traced_tools tools) host (traced_mutation mutation)

    abbrev traced_audit_tools : AuditTools (Calling (Traced W) L) (Row V)
    traced_audit_tools = tools_on from_outside (traced_tools tools).audit_tools

    module _ (eff : GuardedEffect (Calling (Traced W) L) (JsValue K) (Row V)) where
      audit_Kept :
          (o : Option (AuditRecord → Exec W (Unit {0})))
          → AuditKept traced_audit_tools tools.date_of traced_guard eff
              (OfCall Q)
              (call_on from_outside (call_on untraced o))
      audit_Kept none = tt
      audit_Kept (some sink) = λ r. untraced-Kept (sink r)

      ledger_Kept :
          (o : Option (ℕ → LedgerHandle W (JsValue K)))
          → HandleKept traced_audit_tools tools.date_of traced_guard eff (OfCall Q) (
              handle_of traced_audit_tools tools.date_of traced_guard eff
                (ledger_on from_outside (ledger_on untraced o)))
      ledger_Kept none = tt
      ledger_Kept (some f) = record {
        begin = λ hash. untraced-Kept ((f eff.ordinal).begin hash);
        complete = λ r. untraced-Kept ((f eff.ordinal).complete r);
        fail = untraced-Kept (f eff.ordinal).fail;
        mark_indeterminate = untraced-Kept (f eff.ordinal).mark_indeterminate;
      }

      pub traced_Quiet : Quiet traced_audit_tools tools.date_of traced_guard eff (OfCall Q)
      traced_Quiet = record {
        hash = λ v. untraced-Kept (tools.audit_tools.hash_value v);
        audit = audit_Kept mutation.audit;
        ledger = ledger_Kept mutation.ledger;
      }
