-- ===== src/SnErrors.antt =====
-- packages/mcp-server/src/sn/errors.ts: the errors that answers of ServiceNow become, and the code of an
-- error inside the message that crosses the boundary of the sandbox.
pub mod Codes
use snow_mcp.Common.{
  ℕ, String, Bool, true, false, ◌&&◌, ◌||◌, Option, none, some, List, [], ◌∷◌, ◌++◌, ltb, leb, ◌==◌,
  if◌then◌else◌,
}
use snow_mcp.Errors.{
  ErrorCode, capability_denied, mode_not_permitted, actor_policy_denied, table_not_found,
  budget_exceeded, path_denied, precondition_required, idempotency_conflict, instance_hibernating,
  reauth_required, executor_disabled, run_server_script_disabled, actor_signature_invalid,
  code_size, transpile_error, timeout, run_error, internal_error, Result, ok, throw, Thrown,
  tool_error, budget_error, reauth_error, other_error, service_now_requests, outbound_bytes_sent,
}
use snow_mcp.Text.{Text, text, text_eq, has_prefix, is_lower, is_space, leading, drop_leading}

-- The parsed body of an answer: it has no error, or an error that is a text, or one that is an object
-- with a message or without. A message is a text, if there is one.
pub data ServiceNowErrorBody : Type 0 where
  no_error : ServiceNowErrorBody
  error_string : Text → ServiceNowErrorBody
  error_object : Option Text → ServiceNowErrorBody

unfoldable pub raw_service_now_error : ServiceNowErrorBody → Option Text
raw_service_now_error no_error = none
raw_service_now_error (error_string t) = some t
raw_service_now_error (error_object message) = message

abbrev pub is_text : Option Text → Text → Bool
is_text none t = false
is_text (some s) t = text_eq s t

unfoldable pub map_service_now_error : ℕ → ServiceNowErrorBody → Option ErrorCode
unfolding text_eq raw_service_now_error
map_service_now_error status body =
    let raw = raw_service_now_error body in
    if leb 200 status && ltb status 300
    then none
    else if status == 401
    then some reauth_required
    else if status == 404
    then some table_not_found
    else if status == 403
    then some actor_policy_denied
    else if status == 429
    then some budget_exceeded
    else if (status == 413) && is_text raw (text "code_size")
    then some code_size
    else if (status == 503)
        && (is_text raw (text "executor_disabled")
            || is_text raw (text "run_server_script_disabled"))
    then some capability_denied
    else if leb 500 status
    then some instance_hibernating
    else if leb 400 status && ltb status 500
    then some path_denied
    else some internal_error

abbrev throw_code : Option ErrorCode → Result (Unit {0})
throw_code none = ok tt
throw_code (some c) = throw (tool_error c)

unfoldable pub throw_mapped : ℕ → ServiceNowErrorBody → Result (Unit {0})
unfolding map_service_now_error
throw_mapped status body = throw_code (map_service_now_error status body)

-- The name of a code in `ERROR_CODES`.
unfoldable pub code_name : ErrorCode → Text
code_name capability_denied = text "capability_denied"
code_name mode_not_permitted = text "mode_not_permitted"
code_name actor_policy_denied = text "actor_policy_denied"
code_name table_not_found = text "table_not_found"
code_name budget_exceeded = text "budget_exceeded"
code_name path_denied = text "path_denied"
code_name precondition_required = text "precondition_required"
code_name idempotency_conflict = text "idempotency_conflict"
code_name instance_hibernating = text "instance_hibernating"
code_name reauth_required = text "reauth_required"
code_name executor_disabled = text "executor_disabled"
code_name run_server_script_disabled = text "run_server_script_disabled"
code_name actor_signature_invalid = text "actor_signature_invalid"
code_name code_size = text "code_size"
code_name transpile_error = text "transpile_error"
code_name timeout = text "timeout"
code_name run_error = text "run_error"
code_name internal_error = text "internal_error"

-- `ERROR_CODES`.
abbrev pub error_codes : List ErrorCode
error_codes =
    capability_denied ∷ mode_not_permitted ∷ actor_policy_denied ∷ table_not_found ∷ budget_exceeded
    ∷ path_denied ∷ precondition_required ∷ idempotency_conflict ∷ instance_hibernating
    ∷ reauth_required ∷ executor_disabled ∷ run_server_script_disabled ∷ actor_signature_invalid
    ∷ code_size ∷ transpile_error ∷ timeout ∷ run_error ∷ internal_error ∷ []

-- `ERROR_CODE_SET.has(name) ? name : undefined`.
unfoldable pub find_code : Text → List ErrorCode → Option ErrorCode
unfolding code_name text_eq
find_code name [] = none
find_code name (c ∷ cs) = if text_eq (code_name c) name then some c else find_code name cs

-- `encodeSandboxError` of a `McpToolError` with its code and message.
unfoldable pub encode_sandbox_error : ErrorCode → Text → Text
unfolding code_name
encode_sandbox_error c message = text "[[" ++ (code_name c ++ (text "]] " ++ message))

abbrev pub ParsedError : Type 0
ParsedError = Option ErrorCode × Text

abbrev is_tag_unit : ℕ → Bool
is_tag_unit c = is_lower c || (c == b'_')

abbrev drop_space : Text → Text
drop_space [] = []
drop_space (c ∷ s) = if is_space c then s else c ∷ s

-- What follows the tag: `]]`, and at most one white space.
abbrev after_tag : Text → Text → Text → ParsedError
after_tag whole [] rest = (none, whole)
after_tag whole (n ∷ name) (c ∷ d ∷ rest) =
    if (c == b']') && (d == b']')
    then (find_code (n ∷ name) error_codes, drop_space rest)
    else (none, whole)
after_tag whole (n ∷ name) rest = (none, whole)

abbrev parse_tag : Text → Text → ParsedError
parse_tag whole s = after_tag whole (leading is_tag_unit s) (drop_leading is_tag_unit s)

-- `parseSandboxError`.
unfoldable pub parse_sandbox_error : Text → ParsedError
unfolding leading drop_leading find_code is_space
parse_sandbox_error [] = (none, [])
parse_sandbox_error (a ∷ []) = (none, a ∷ [])
parse_sandbox_error (a ∷ b ∷ s) =
    if (a == b'[') && (b == b'[') then parse_tag (a ∷ b ∷ s) s else (none, a ∷ b ∷ s)

-- `isPostSendUnknown` of sn/rpc.ts: an error after which the effect may have been applied.
unfoldable pub is_post_send_unknown : Thrown → Bool
is_post_send_unknown other_error = true
is_post_send_unknown (budget_error outbound_bytes_sent) = false
is_post_send_unknown (budget_error service_now_requests) = false
is_post_send_unknown (budget_error d) = true
is_post_send_unknown (reauth_error url) = false
is_post_send_unknown (tool_error reauth_required) = false
is_post_send_unknown (tool_error actor_policy_denied) = false
is_post_send_unknown (tool_error capability_denied) = false
is_post_send_unknown (tool_error table_not_found) = false
is_post_send_unknown (tool_error path_denied) = false
is_post_send_unknown (tool_error precondition_required) = false
is_post_send_unknown (tool_error code_size) = false
is_post_send_unknown (tool_error c) = true
