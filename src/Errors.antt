-- ===== src/Errors.antt =====
-- `ErrorCode` of packages/shared/src/types.ts, and `McpToolError` of
-- packages/mcp-server/src/sn/errors.ts with the host functions that throw it.
-- A thrown value is a `McpToolError`, known by its code, or any other error. Of the structured detail
-- only what the host reads again is kept: the dimension of a run's budget and the URL at which to
-- authorize again; messages are left out.
use snow_mcp.Common.{String, Option}

pub data ErrorCode : Type 0 where
  capability_denied mode_not_permitted actor_policy_denied table_not_found budget_exceeded :
      ErrorCode
  path_denied precondition_required idempotency_conflict instance_hibernating : ErrorCode
  reauth_required executor_disabled run_server_script_disabled actor_signature_invalid : ErrorCode
  code_size transpile_error timeout run_error internal_error : ErrorCode

-- `detail.dimension` of a run's budget.
pub data RunDimension : Type 0 where
  rpc_calls service_now_requests rows_returned bytes_returned outbound_bytes_sent : RunDimension

-- `budget_error` has the code "budget_exceeded", and `reauth_error` the code "reauth_required".
pub data Thrown : Type 0 where
  tool_error : ErrorCode → Thrown
  budget_error : RunDimension → Thrown
  reauth_error : (authorize_url : Option String) → Thrown
  other_error : Thrown

-- The outcome of a call: a value, or a thrown error.
pub data Result {ℓ} (A : Type ℓ) : Type ℓ where
  ok : A → Result A
  throw : Thrown → Result A

infixl 5 ◌>>=◌ ◌>>◌
abbrev pub ◌>>=◌ {ℓ κ} : {A : Type ℓ} {B : Type κ} → Result A → (A → Result B) → Result B
ok a >>= f = f a
throw e >>= f = throw e

abbrev pub ◌>>◌ {ℓ} : {B : Type ℓ} → Result (Unit {0}) → Result B → Result B
m >> k = m >>= λ _. k

-- `err instanceof McpToolError ? err.code : "internal_error"`.
abbrev pub code_of : Thrown → ErrorCode
code_of (tool_error c) = c
code_of (budget_error d) = budget_exceeded
code_of (reauth_error url) = reauth_required
code_of other_error = internal_error
