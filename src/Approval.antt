-- ===== src/Approval.antt =====
-- packages/mcp-server/src/authz/approval.ts: the second approval of an admin script, with
-- `constantTimeEqualAscii` of auth/encoding.ts.
-- The loop that compares two tokens collects their difference in a number; that this is 0 is the
-- Boolean `same`.
pub mod Laws
use snow_mcp.Common.{
  ℕ, Bool, true, false, not, ◌&&◌, ◌||◌, Option, none, some, List, [], ◌∷◌, str_eq, length, ◌==◌,
  if◌then◌else◌,
}
use snow_mcp.Errors.{Result, ok, throw, tool_error, capability_denied}
use snow_mcp.Mode.{Mode}
use snow_mcp.Text.{Text, includes, is_blank}

pub record ApprovalContext : Type 0 where
  pub mode : Mode
  pub actor_user_id : Text
  pub reason : Option Text
  pub admin_script_allowlist : List Text
  pub approval_token : Option Text
  pub valid_approval_tokens : Option (List Text)
  pub actor_access_groups : Option (List Text)
  pub required_access_group : Option Text

-- `diff |= a.charCodeAt(i) ^ b.charCodeAt(i)` over texts of one length.
unfoldable pub differ_nowhere : Bool → Text → Text → Bool
differ_nowhere same (c ∷ s) (d ∷ t) = differ_nowhere (same && (c == d)) s t
differ_nowhere same _ _ = same

unfoldable pub constant_time_equal_ascii : Text → Text → Bool
unfolding differ_nowhere
constant_time_equal_ascii a b =
    if not (length a == length b) then false else differ_nowhere true a b

-- The loop over the valid tokens, which goes on after a match.
unfoldable pub match_any : Text → Bool → List Text → Bool
unfolding constant_time_equal_ascii
match_any presented matched [] = matched
match_any presented matched (t ∷ ts) =
    match_any presented (constant_time_equal_ascii presented t || matched) ts

unfoldable pub approval_token_matches : Option Text → Option (List Text) → Bool
unfolding match_any
approval_token_matches none ts = false
approval_token_matches (some []) ts = false
approval_token_matches (some (c ∷ s)) none = false
approval_token_matches (some (c ∷ s)) (some ts) = match_any (c ∷ s) false ts

-- `!reason?.trim()`.
abbrev pub is_missing : Option Text → Bool
is_missing none = true
is_missing (some s) = is_blank s

-- `Boolean(group) && (groups?.includes(group) ?? false)`.
abbrev pub in_group : Option Text → Option (List Text) → Bool
in_group none gs = false
in_group (some []) gs = false
in_group (some (c ∷ g)) none = false
in_group (some (c ∷ g)) (some gs) = includes gs (c ∷ g)

unfoldable pub assert_admin_script_approved : ApprovalContext → Result (Unit {0})
unfolding approval_token_matches includes is_blank
assert_admin_script_approved c =
    if not (str_eq c.mode "admin_script")
    then ok tt
    else if is_missing c.reason
    then throw (tool_error capability_denied)
    else if not (includes c.admin_script_allowlist c.actor_user_id)
    then throw (tool_error capability_denied)
    else if not (approval_token_matches c.approval_token c.valid_approval_tokens)
        && not (in_group c.required_access_group c.actor_access_groups)
    then throw (tool_error capability_denied)
    else ok tt
