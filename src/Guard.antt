-- ===== src/Guard.antt =====
-- `guardMutation` of packages/mcp-server/src/sn/mutation-guard.ts: the order in which the safety
-- layers stand before a mutation.
-- The callbacks (ledger, audit sink, preflight, snapshot, effect) act on a state `S` of the outside.
pub mod Audit
pub mod Cases
pub mod Balance
pub mod Gated
pub mod Preflight
pub mod Retries
pub mod Script
pub mod Layers
pub mod Order
use snow_mcp.Common.{
  ℕ, String, Bool, true, false, not, ◌&&◌, Option, none, some, str_eq, if◌then◌else◌,
}
use snow_mcp.Errors.{
  ErrorCode, capability_denied, idempotency_conflict, internal_error, Thrown, tool_error,
  other_error, Result, ok, throw, code_of,
}
use snow_mcp.Exec.{Exec, pure, raise, ◌>>=◌, ◌>>◌, catch, best_effort, optional}
use snow_mcp.Ledger.{LedgerStatus}
pub use Audit.{AuditIdentity, MutationOp, update, run_server_script, AuditStatus, intent, succeeded}
pub use Audit.{errored, denied, ErrorClass, class_of, indeterminate_class, AuditRecord, BuildInput}
pub use Audit.{AuditTools}
unfoldable pub use Audit.{build_audit_record, emit_audit}

pub data LedgerBegin (T : Type 0) : Type 0 where
  claim_new : LedgerBegin T
  claim_replay : T → LedgerBegin T
  claim_blocked : LedgerStatus → LedgerBegin T

pub record LedgerHandle (S T : Type 0) : Type 0 where
  pub begin : String → Exec S (LedgerBegin T)
  pub complete : T → Exec S (Unit {0})
  pub fail : Exec S (Unit {0})
  pub mark_indeterminate : Exec S (Unit {0})

pub data GuardMutationResult (T : Type 0) : Type 0 where
  executed : T → GuardMutationResult T
  replayed : T → GuardMutationResult T

pub record MutationGuard (S T : Type 0) : Type 0 where
  pub request_id : String
  pub run_key : Option String
  pub instance_host : String
  pub identity : AuditIdentity
  pub now : S → ℕ
  pub durability_required : Bool
  pub mutation_freeze : Bool
  pub ledger : Option (ℕ → LedgerHandle S T)
  pub audit : Option (AuditRecord → Exec S (Unit {0}))

pub record GuardedEffect (S T J : Type 0) : Type 0 where
  pub ordinal : ℕ
  pub op : MutationOp
  pub table : Option String
  pub sys_id : Option String
  pub reason : Option String
  pub request_hash : String
  pub preflight : Option (Exec S (Unit {0}))
  pub replay_preflight : Option (Exec S (Unit {0}))
  pub snapshot : Option (Exec S (Unit {0}))
  pub before : S → Option J
  pub effect : Exec S (T × Option J)
  pub is_indeterminate : Option (Thrown → Bool)

abbrev pub is_some {ℓ} : {A : Type ℓ} → Option A → Bool
is_some none = false
is_some (some a) = true

-- `!guard.run.runKey`: no key, or the empty one.
abbrev pub is_missing : Option String → Bool
is_missing none = true
is_missing (some key) = str_eq key ""

-- `e instanceof McpToolError ? e : new McpToolError("internal_error", …)`.
abbrev pub as_tool_error : Thrown → Thrown
as_tool_error other_error = tool_error internal_error
as_tool_error e = e

module _ {S T J : Type 0} (tools : AuditTools S J) (date_of : ℕ → String)
    (guard : MutationGuard S T) (eff : GuardedEffect S T J) where
  -- `auditEffectInput`, with the fields that the callers add.
  abbrev pub audit_input :
      ℕ → Option String → Option J → Option J → AuditStatus → Option ErrorClass → BuildInput J
  audit_input ts date_key before after status error_class = record {
    ts = ts;
    date_key = date_key;
    request_id = guard.request_id;
    ordinal = eff.ordinal;
    instance_host = guard.instance_host;
    actor = guard.identity;
    op = eff.op;
    table = eff.table;
    sys_id = eff.sys_id;
    before = before;
    after = after;
    reason = eff.reason;
    status = status;
    error_class = error_class;
  }

  -- Builds a row at the current time, with the content that is then held, and emits it.
  unfoldable pub write_row :
      (AuditRecord → Exec S (Unit {0}))
      → Option String
      → (S → Option J)
      → Option J
      → AuditStatus
      → Option ErrorClass
      → Exec S (Unit {0})
  unfolding build_audit_record emit_audit
  write_row sink date_key before after status error_class s =
      (build_audit_record tools
            (audit_input (guard.now s) date_key (before s) after status error_class)
          >>= λ r. emit_audit tools sink r)
        s

  unfoldable pub emit_denial : Thrown → Exec S (Unit {0})
  emit_denial err = elim guard.audit [
    | none ↦ pure tt
    | some sink ↦
        best_effort (write_row sink none (λ _. none) none denied (some (class_of (code_of err))))
  ]

  abbrev outcome_class : Bool → ErrorCode → ErrorClass
  outcome_class true code = indeterminate_class code
  outcome_class false code = class_of code

  unfoldable pub emit_outcome_error : Thrown → Bool → String → Exec S (Unit {0})
  emit_outcome_error err unknown date_key = elim guard.audit [
    | none ↦ pure tt
    | some sink ↦ best_effort (
        write_row sink (some date_key) (λ _. none) none errored
          (some (outcome_class unknown (code_of err))))
  ]

  abbrev pub deny : {A : Type 0} → Thrown → Exec S A
  deny err = emit_denial err >> raise err

  abbrev pub with_ledger :
      Option (LedgerHandle S T) → (LedgerHandle S T → Exec S (Unit {0})) → Exec S (Unit {0})
  with_ledger none f = pure tt
  with_ledger (some l) f = f l

  unfoldable pub deny_and_throw : {A : Type 0} → Option (LedgerHandle S T) → Thrown → Exec S A
  deny_and_throw ledger err = with_ledger ledger (λ l. l.fail) >> deny err

  -- 4) The intent row.
  unfoldable pub write_intent : Option (LedgerHandle S T) → String → Exec S (Unit {0})
  write_intent ledger date_key = elim guard.audit [
    | none ↦ pure tt
    | some sink ↦
        catch (write_row sink (some date_key) eff.before none intent none)
          (λ _. deny_and_throw ledger (tool_error internal_error))
  ]

  abbrev pub judged_indeterminate : Thrown → Bool
  judged_indeterminate e = elim eff.is_indeterminate [ none ↦ true | some f ↦ f e ]

  -- 5) The `catch` of the effect.
  unfoldable pub effect_failed :
      {A : Type 0} → Option (LedgerHandle S T) → String → Thrown → Exec S A
  effect_failed ledger date_key e =
      best_effort
        (with_ledger ledger (λ l. if judged_indeterminate e then l.mark_indeterminate else l.fail))
      >> emit_outcome_error e (judged_indeterminate e) date_key
      >> raise e

  unfoldable pub write_outcome : String → Option J → Exec S (Unit {0})
  write_outcome date_key after = elim guard.audit [
    | none ↦ pure tt
    | some sink ↦ best_effort (write_row sink (some date_key) eff.before after succeeded none)
  ]

  -- 6) The outcome of an effect that succeeded.
  unfoldable pub effect_succeeded :
      Option (LedgerHandle S T) → String → T → Option J → Exec S (GuardMutationResult T)
  effect_succeeded ledger date_key result after =
      best_effort (with_ledger ledger (λ l. l.complete result))
      >> write_outcome date_key after
      >> pure (executed result)

  -- The `try` around `eff.effect()`, and what follows it.
  abbrev pub after_effect :
      Option (LedgerHandle S T)
      → String
      → Result (T × Option J) × S
      → Result (GuardMutationResult T) × S
  after_effect ledger date_key (ok (result, after), s) =
      effect_succeeded ledger date_key result after s
  after_effect ledger date_key (throw e, s) = effect_failed ledger date_key e s

  unfoldable pub run_effect : Option (LedgerHandle S T) → String → Exec S (GuardMutationResult T)
  run_effect ledger date_key s = after_effect ledger date_key (eff.effect s)

  -- 2) to 6): the gates, then the effect.
  unfoldable pub run_gates : Option (LedgerHandle S T) → String → Exec S (GuardMutationResult T)
  run_gates ledger date_key =
      catch (optional eff.preflight) (λ e. deny_and_throw ledger e)
      >> catch (optional eff.snapshot) (λ e. deny_and_throw ledger (as_tool_error e))
      >> write_intent ledger date_key
      >> run_effect ledger date_key

  -- 1) What the claim says.
  unfoldable pub act_on_claim :
      LedgerHandle S T → String → LedgerBegin T → Exec S (GuardMutationResult T)
  act_on_claim l date_key claim_new = run_gates (some l) date_key
  act_on_claim l date_key (claim_replay result) =
      catch (optional eff.replay_preflight) (λ e. deny e) >> pure (replayed result)
  act_on_claim l date_key (claim_blocked status) = deny (tool_error idempotency_conflict)

  unfoldable pub claim_and_run : Option (LedgerHandle S T) → String → Exec S (GuardMutationResult T)
  claim_and_run none date_key = run_gates none date_key
  claim_and_run (some l) date_key = l.begin eff.request_hash >>= λ c. act_on_claim l date_key c

  abbrev pub handle_of : Option (ℕ → LedgerHandle S T) → Option (LedgerHandle S T)
  handle_of none = none
  handle_of (some f) = some (f eff.ordinal)

  unfoldable pub guard_mutation : Exec S (GuardMutationResult T)
  guard_mutation s =
      let date_key = date_of (guard.now s) in
      if guard.durability_required && not (is_some guard.audit)
      then raise (tool_error internal_error) s
      else if guard.mutation_freeze
      then deny (tool_error capability_denied) s
      else if is_missing guard.run_key
      then deny (tool_error capability_denied) s
      else if guard.durability_required && not (is_some guard.ledger)
      then raise (tool_error internal_error) s
      else claim_and_run (handle_of guard.ledger) date_key s
