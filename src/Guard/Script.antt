-- ===== src/Guard/Script.antt =====
-- A world that answers the callbacks of a guarded mutation as a script says and logs each call, and
-- the logs that stand before and after an effect.
use snow_mcp.Common.{ℕ, String, Bool, true, false, Option, none, some, List, [], ◌∷◌, if◌then◌else◌}
use snow_mcp.Errors.{Thrown, Result, ok, throw, code_of}
use snow_mcp.Exec.{Exec, pure}
use snow_mcp.Guard.Audit.{
  AuditIdentity, MutationOp, AuditRecord, AuditStatus, intent, succeeded, errored, AuditTools,
  ErrorClass, class_of, indeterminate_class,
}
use snow_mcp.Guard.{LedgerBegin, LedgerHandle, MutationGuard, GuardedEffect}

pub data Event : Type 0 where
  begun preflight_run replay_preflight_run snapshot_run effect_run : Event
  completed_call failed_call marked_call : Event
  audited : AuditRecord → Event

-- The outside answers as the script says and logs each call, the latest first.
pub record Script (T J : Type 0) : Type 0 where
  pub has_ledger : Bool
  pub has_audit : Bool
  pub begin_answer : Result (LedgerBegin T)
  pub complete_answer : Result (Unit {0})
  pub fail_answer : Result (Unit {0})
  pub mark_answer : Result (Unit {0})
  pub audit_answer : AuditRecord → Result (Unit {0})
  pub preflight_answer : Option (Result (Unit {0}))
  pub replay_answer : Option (Result (Unit {0}))
  pub snapshot_answer : Option (Result (Unit {0}))
  pub effect_answer : Result (T × Option J)
  pub judge : Option (Thrown → Bool)
  pub durable : Bool
  pub frozen : Bool
  pub run_key : Option String
  pub now : List Event → ℕ
  pub hash : J → String
  pub date_of : ℕ → String
  pub request_id : String
  pub instance_host : String
  pub request_hash : String
  pub identity : AuditIdentity
  pub op : MutationOp
  pub ordinal : ℕ
  pub table : Option String
  pub sys_id : Option String
  pub reason : Option String
  pub before : List Event → Option J

abbrev pub Log : Type 0
Log = List Event

abbrev pub logged : {A : Type 0} → Event → Result A → Exec Log A
logged e r log = (r, e ∷ log)

abbrev pub when : {A : Type 0} → Bool → A → Option A
when true a = some a
when false a = none

abbrev pub logged_option : Event → Option (Result (Unit {0})) → Option (Exec Log (Unit {0}))
logged_option e none = none
logged_option e (some r) = some (logged e r)

abbrev pub logged_if : Option (Result (Unit {0})) → Event → Log → Log
logged_if none e log = log
logged_if (some r) e log = e ∷ log

abbrev pub push_if : Bool → Event → Log → Log
push_if true e log = e ∷ log
push_if false e log = log

module _ {T J : Type 0} (script : Script T J) where
  open script use {
    has_ledger, has_audit, begin_answer, complete_answer, fail_answer, mark_answer, audit_answer,
    preflight_answer, replay_answer, snapshot_answer, effect_answer, judge, durable, frozen,
    run_key, now, hash, date_of, request_id, instance_host, request_hash, identity, op, ordinal,
    table, sys_id, reason, before,
  }

  abbrev pub script_tools : AuditTools Log J
  script_tools = record { hash_value = λ v. pure (hash v); redact = λ r. r }

  abbrev pub script_handle : LedgerHandle Log T
  script_handle = record {
    begin = λ h. logged begun begin_answer;
    complete = λ r. logged completed_call complete_answer;
    fail = logged failed_call fail_answer;
    mark_indeterminate = logged marked_call mark_answer;
  }

  abbrev pub script_sink : AuditRecord → Exec Log (Unit {0})
  script_sink r = logged (audited r) (audit_answer r)

  abbrev pub script_guard : MutationGuard Log T
  script_guard = record {
    request_id = request_id;
    run_key = run_key;
    instance_host = instance_host;
    identity = identity;
    now = now;
    durability_required = durable;
    mutation_freeze = frozen;
    ledger = when has_ledger (λ n. script_handle);
    audit = when has_audit script_sink;
  }

  abbrev pub script_effect : GuardedEffect Log T J
  script_effect = record {
    ordinal = ordinal;
    op = op;
    table = table;
    sys_id = sys_id;
    reason = reason;
    request_hash = request_hash;
    preflight = logged_option preflight_run preflight_answer;
    replay_preflight = logged_option replay_preflight_run replay_answer;
    snapshot = logged_option snapshot_run snapshot_answer;
    before = before;
    effect = logged effect_run effect_answer;
    is_indeterminate = judge;
  }

  abbrev pub hash_of : Option J → Option String
  hash_of none = none
  hash_of (some v) = some (hash v)

  -- The row that is written at a log, with its status and what it adds.
  abbrev pub row :
      Log → String → Option J → Option J → AuditStatus → Option ErrorClass → AuditRecord
  row log date_key content after status error_class = record {
    ts = now log;
    date_key = some date_key;
    request_id = request_id;
    ordinal = ordinal;
    instance_host = instance_host;
    actor = identity;
    op = op;
    table = table;
    sys_id = sys_id;
    before_hash = hash_of content;
    after_hash = hash_of after;
    reason = reason;
    status = status;
    error_class = error_class;
  }

  -- What is logged before the effect: the claim, the preflight, the snapshot and the intent row.
  abbrev pub gates : String → Log
  gates date_key =
      let claimed = push_if has_ledger begun [] in
      let checked = logged_if preflight_answer preflight_run claimed in
      let saved = logged_if snapshot_answer snapshot_run checked in
      push_if has_audit (audited (row saved date_key (before saved) none intent none)) saved

  abbrev pub judged : Thrown → Bool
  judged e = elim judge [ none ↦ true | some f ↦ f e ]

  abbrev pub error_row : Bool → Thrown → ErrorClass
  error_row true e = indeterminate_class (code_of e)
  error_row false e = class_of (code_of e)

  -- What is logged after the effect: the ledger's outcome and the outcome row.
  abbrev pub outcome : String → Result (T × Option J) → Log → Log
  outcome date_key (ok (result, after)) log =
      let recorded = push_if has_ledger completed_call log in
      push_if has_audit (audited (row recorded date_key (before recorded) after succeeded none))
        recorded
  outcome date_key (throw e) log =
      let recorded = push_if has_ledger (if judged e then marked_call else failed_call) log in
      push_if has_audit
        (audited (row recorded date_key none none errored (some (error_row (judged e) e)))) recorded
