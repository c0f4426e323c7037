-- ===== src/Guard/Audit.antt =====
-- The audit rows of packages/mcp-server/src/observability/audit.ts, which the guard writes.
use snow_mcp.Common.{ℕ, String, Option, none, some}
use snow_mcp.Errors.{ErrorCode}
use snow_mcp.Exec.{Exec, pure, ◌>>=◌}

pub record AuditIdentity : Type 0 where
  pub mcp_actor_user_id : String
  pub mcp_actor_email : Option String
  pub snow_effective_user : Option String

pub data MutationOp : Type 0 where
  update run_server_script : MutationOp

-- `"intent" | "ok" | "error" | "denied"`.
pub data AuditStatus : Type 0 where
  intent succeeded errored denied : AuditStatus

-- A code, or a code with the suffix `:indeterminate`.
pub data ErrorClass : Type 0 where
  class_of : ErrorCode → ErrorClass
  indeterminate_class : ErrorCode → ErrorClass

pub record AuditRecord : Type 0 where
  pub ts : ℕ
  pub date_key : Option String
  pub request_id : String
  pub ordinal : ℕ
  pub instance_host : String
  pub actor : AuditIdentity
  pub op : MutationOp
  pub table : Option String
  pub sys_id : Option String
  pub before_hash : Option String
  pub after_hash : Option String
  pub reason : Option String
  pub status : AuditStatus
  pub error_class : Option ErrorClass

-- `BuildAuditInput`, with content of a type `J` before and after the effect.
pub record BuildInput (J : Type 0) : Type 0 where
  pub ts : ℕ
  pub date_key : Option String
  pub request_id : String
  pub ordinal : ℕ
  pub instance_host : String
  pub actor : AuditIdentity
  pub op : MutationOp
  pub table : Option String
  pub sys_id : Option String
  pub before : Option J
  pub after : Option J
  pub reason : Option String
  pub status : AuditStatus
  pub error_class : Option ErrorClass

-- What the rows need of JSON, SHA-256 and the redaction of secrets.
pub record AuditTools (S J : Type 0) : Type 0 where
  pub hash_value : J → Exec S String
  pub redact : AuditRecord → AuditRecord

module _ {S J : Type 0} (tools : AuditTools S J) where
  open tools use {hash_value, redact}

  abbrev pub hash_option : Option J → Exec S (Option String)
  hash_option none = pure none
  hash_option (some v) = hash_value v >>= λ h. pure (some h)

  unfoldable pub build_audit_record : BuildInput J → Exec S AuditRecord
  build_audit_record input = do
    before_hash ← hash_option input.before
    after_hash ← hash_option input.after
    pure (record {
      ts = input.ts;
      date_key = input.date_key;
      request_id = input.request_id;
      ordinal = input.ordinal;
      instance_host = input.instance_host;
      actor = input.actor;
      op = input.op;
      table = input.table;
      sys_id = input.sys_id;
      before_hash = before_hash;
      after_hash = after_hash;
      reason = input.reason;
      status = input.status;
      error_class = input.error_class;
    })

  unfoldable pub emit_audit : (AuditRecord → Exec S (Unit {0})) → AuditRecord → Exec S (Unit {0})
  emit_audit sink r = sink (redact r)
