-- ===== src/Mutation/Parts.antt =====
-- What the two mutating methods share: the safety wiring, the client at the endpoints that write, the
-- state of a call, and what becomes of the guard's result.
use snow_mcp.Common.{
  ℕ, ◌+◌, String, Bool, true, false, ◌&&◌, Option, none, some, List, [], ◌∷◌, if◌then◌else◌,
}
use snow_mcp.Errors.{Result, ok, throw, tool_error, internal_error}
use snow_mcp.Exec.{Exec}
use snow_mcp.Exec.Steps.{◌>>=◌, ◌>>◌, check, return}
use snow_mcp.SnErrors.{ServiceNowErrorBody}
use snow_mcp.Text.{Text, includes}
use snow_mcp.Policy.{ActorPolicy}
use snow_mcp.RunBudget.{count_bytes}
use snow_mcp.Serialize.{Utf8}
use snow_mcp.ReplayPayload.{
  JsValue, Field, object, other_value, boolean, get_field, is_replay_safe_wrapper,
  visible_replay_result,
}
use snow_mcp.ReplayPayload
use snow_mcp.Guard.Audit.{AuditIdentity, AuditTools, AuditRecord, MutationOp, update}
use snow_mcp.Guard.Audit
use snow_mcp.Guard.{LedgerHandle, GuardMutationResult, executed, replayed, MutationGuard}
use snow_mcp.Rpc.{Row, Host, RunContext, SnQuery, SnResponse, metered, send}
use snow_mcp.Mutation.Body.{JsTree}

-- A PATCH of a record.
pub record PatchRequest : Type 0 where
  pub table : Text
  pub sys_id : Text
  pub params : SnQuery
  pub body_json : Text

-- `ActorClaims` and `SignedActorPayload` of auth/actor.ts.
pub record ActorClaims : Type 0 where
  pub mcp_actor_user_id : Text
  pub mcp_actor_email : Text
  pub snow_effective_user_sys_id : Text
  pub instance : Text
  pub request_id : Text

pub record SignedActorPayload : Type 0 where
  pub claims : ActorClaims
  pub script_sha256 : Text
  pub issued_at : ℕ
  pub nonce : Text
  pub reason : Text

-- A POST to the executor.
pub record ScriptRequest : Type 0 where
  pub path : Text
  pub script : Text
  pub actor : SignedActorPayload
  pub actor_sig : Text

pub record ScriptResponse (K : Type 0) : Type 0 where
  pub status : ℕ
  pub error_body : ServiceNowErrorBody
  pub json : Option (JsValue K)

pub record WriteClient (W V K : Type 0) : Type 0 where
  pub patch_row : PatchRequest → Exec W (SnResponse (Row V))
  pub post_script : ScriptRequest → Exec W (ScriptResponse K)

-- The input of `captureSnapshot`.
pub record SnapshotInput (V J : Type 0) : Type 0 where
  pub request_id : String
  pub ordinal : ℕ
  pub table : Text
  pub sys_id : Text
  pub before : Row V
  pub after : List (Text × JsTree J)
  pub taken_at : ℕ

-- `Omit<ApprovalContext, …>`.
pub record ApprovalPolicy : Type 0 where
  pub admin_script_allowlist : List Text
  pub valid_approval_tokens : Option (List Text)
  pub actor_access_groups : Option (List Text)
  pub required_access_group : Option Text

pub record MutationDeps (W V K J : Type 0) : Type 0 where
  pub run_context : RunContext
  pub identity : AuditIdentity
  pub now : W → ℕ
  pub durability_required : Bool
  pub mutation_freeze : Bool
  pub ledger : Option (ℕ → LedgerHandle W (JsValue K))
  pub audit : Option (AuditRecord → Exec W (Unit {0}))
  pub capture_snapshot : Option (SnapshotInput V J → Exec W Bool)
  pub snapshot_enabled_tables : Option (List Text)
  pub approval : Option ApprovalPolicy

-- What the methods use of JSON, hashes, encodings and dates. `string_of` is a text as the audit rows and
-- the ledger hold it; `reference_value` is the `value` of an object that has a `value` and a `link`;
-- `row_value` is a row as a value of the replay payloads.
pub record MutationTools (W V K J : Type 0) : Type 0 where
  pub string_of : Text → String
  pub date_of : ℕ → String
  pub hash_value : List Text → String
  pub actor_policy_scope_fingerprint : ActorPolicy → Text
  pub utf8_length : Text → ℕ
  pub stringify : List (Text × JsTree J) → Text
  pub reference_value : V → Option V
  pub row_value : Row V → JsValue K
  pub replay_json : Option (JsValue K) → Utf8
  pub parse_json : Utf8 → Result (JsValue K)
  pub value_bytes : JsValue K → ℕ
  pub audit_tools : AuditTools W (Row V)

-- snapshots.ts and recovery/policy.ts.
abbrev pub is_snapshot_enabled : List Text → Text → Bool
is_snapshot_enabled enabled_tables table = includes enabled_tables table

pub data Recoverability : Type 0 where
  reversible_from_snapshot non_recoverable : Recoverability

abbrev not_empty : Text → Bool
not_empty [] = false
not_empty (c ∷ t) = true

abbrev pub recoverability : MutationOp → Option Text → List Text → Recoverability
recoverability Audit.run_server_script table enabled_tables = non_recoverable
recoverability update none enabled_tables = non_recoverable
recoverability update (some table) enabled_tables =
    if not_empty table && is_snapshot_enabled enabled_tables table
    then reversible_from_snapshot
    else non_recoverable

-- The callbacks of one state, on another.
abbrev pub Lift : Type 0 → Type 0 → Type 1
Lift W S = (A : Type 0) → Exec W A → Exec S A

module _ {W S : Type 0} (lift : Lift W S) where
  abbrev pub handle_on : {T : Type 0} → LedgerHandle W T → LedgerHandle S T
  handle_on l = record {
    begin = λ hash. lift _ (l.begin hash);
    complete = λ result. lift _ (l.complete result);
    fail = lift _ l.fail;
    mark_indeterminate = lift _ l.mark_indeterminate;
  }

  abbrev pub ledger_on :
      {T : Type 0} → Option (ℕ → LedgerHandle W T) → Option (ℕ → LedgerHandle S T)
  ledger_on none = none
  ledger_on (some f) = some (λ ordinal. handle_on (f ordinal))

  abbrev pub call_on : {B A : Type 0} → Option (B → Exec W A) → Option (B → Exec S A)
  call_on none = none
  call_on (some f) = some (λ b. lift _ (f b))

  abbrev pub tools_on : {V : Type 0} → AuditTools W V → AuditTools S V
  tools_on tools = record { hash_value = λ v. lift _ (tools.hash_value v); redact = tools.redact }

-- A call on its host, with the variables that its callbacks share.
pub record Calling (W L : Type 0) : Type 0 where
  pub host : Host W
  pub local : L

module _ {W L : Type 0} where
  abbrev hosted : {A : Type 0} → Result A × Host W → Calling W L → Result A × Calling W L
  hosted (r, h) c = (r, record c { host = h })

  unfoldable pub on_host : {A : Type 0} → Exec (Host W) A → Exec (Calling W L) A
  on_host m c = hosted (m c.host) c

  abbrev pub on_outside : {A : Type 0} → Exec W A → Exec (Calling W L) A
  on_outside m = on_host (send m)

  unfoldable pub assign : (L → L) → Exec (Calling W L) (Unit {0})
  assign f c = (ok tt, record c { local = f c.local })

  unfoldable pub locals : Exec (Calling W L) L
  locals c = (ok c.local, c)

  abbrev pub from_outside : Lift W (Calling W L)
  from_outside A m = on_outside m

  -- Runs a call from the given variables.
  abbrev pub ended : {A : Type 0} → Result A × Calling W L → Result A × Host W
  ended (r, c) = (r, c.host)

  unfoldable pub calling : {A : Type 0} → L → Exec (Calling W L) A → Exec (Host W) A
  calling start m h = ended (m (record { host = h; local = start }))

-- `++this.ordinal`.
unfoldable pub next_ordinal : {W : Type 0} → Exec (Host W) ℕ
next_ordinal h = (ok (h.ordinal + 1), record h { ordinal = h.ordinal + 1 })

-- `requireMutationDeps`.
abbrev pub require_mutation_deps : {A : Type 0} → Option A → Result A
require_mutation_deps none = throw (tool_error internal_error)
require_mutation_deps (some m) = ok m

abbrev string_option : {A B : Type 0} → (A → B) → Option A → Option B
string_option f none = none
string_option f (some a) = some (f a)

module _ {W V K J : Type 0} (tools : MutationTools W V K J) where
  -- The first argument of `guardMutation`.
  abbrev pub guard_of :
      {L : Type 0} → Text → MutationDeps W V K J → MutationGuard (Calling W L) (JsValue K)
  guard_of instance_host mutation = record {
    request_id = mutation.run_context.request_id;
    run_key = string_option tools.string_of mutation.run_context.run_key;
    instance_host = tools.string_of instance_host;
    identity = mutation.identity;
    now = λ c. mutation.now c.host.outside;
    durability_required = mutation.durability_required;
    mutation_freeze = mutation.mutation_freeze;
    ledger = ledger_on from_outside mutation.ledger;
    audit = call_on from_outside mutation.audit;
  }

  abbrev pub result_value : GuardMutationResult (JsValue K) → JsValue K
  result_value (executed v) = v
  result_value (replayed v) = v

  abbrev visible_parts : Option (Field K) → Option (Field K) → Option (Field K) → Result (JsValue K)
  visible_parts (some (boolean truncated)) (some n) (some (ReplayPayload.text s)) =
      visible_replay_result tools.parse_json truncated n s
  visible_parts _ _ _ = throw (tool_error internal_error)

  abbrev visible_fields : JsValue K → Result (JsValue K)
  visible_fields (other_value k) = throw (tool_error internal_error)
  visible_fields (object fs) =
      visible_parts (get_field "truncated" fs) (get_field "totalBytes" fs)
        (get_field "serializedResult" fs)

  -- What the method shows of a result, which has to be a wrapper.
  unfoldable pub visible_result : JsValue K → Result (JsValue K)
  unfolding is_replay_safe_wrapper visible_replay_result
  visible_result v =
      if is_replay_safe_wrapper v then visible_fields v else throw (tool_error internal_error)

  -- After the guard: the bytes that the snippet gets are counted.
  unfoldable pub finish_mutation : GuardMutationResult (JsValue K) → Exec (Host W) (JsValue K)
  unfolding visible_result
  finish_mutation guarded = do
    visible ← check (visible_result (result_value guarded))
    metered (count_bytes (tools.value_bytes visible))
    return visible
