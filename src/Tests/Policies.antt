-- ===== src/Tests/Policies.antt =====
-- The actor policy, the checks of queries and the approval of admin scripts on concrete inputs.
use snow_mcp.Common.{
  ℕ, ◌≡◌, ◌≢◌, ◌↔◌, ◌⊎◌, refl, true, none, some, List, [], ◌∷◌, any, if◌then◌else◌, inr,
}
use snow_mcp.Errors.{ok}
use snow_mcp.Mode.{mode_risk, mode_risk_table}
use snow_mcp.Text.{
  Text, text, split_on, includes, all_units, is_space, text_eq, has_prefix, map_units, to_lower,
  to_upper,
}
use snow_mcp.Validate.{has_structural_operator, is_structural_token}
use snow_mcp.Validate.Operators.{has_structural_operator-any}
use snow_mcp.Policy.{
  ActorPolicy, name_rule, denied, find_entry, mask_row, assert_actor_policy, masked_fields,
  assert_query_fields_allowed, starts_with_ci,
}
use snow_mcp.Policy.Masks.{is_covered, find_entry-mask_row}
use snow_mcp.Policy.Access.{MayTouch, assert_actor_policy_iff}
use snow_mcp.Policy.Operators.{or_else}
use snow_mcp.Policy.Query.{query-refused}
use snow_mcp.Approval.{ApprovalContext, assert_admin_script_approved}
use snow_mcp.Approval.Laws.{Approved, assert_admin_script_approved_iff}

abbrev pub host : Text
host = text "dev1.service-now.com"

abbrev pub incident : Text
incident = text "incident"

-- The active incidents, without the caller and the description.
abbrev pub incident_policy : ActorPolicy
incident_policy = record {
  allowed_instances = host ∷ [];
  allow = some (name_rule incident ∷ []);
  deny_rules = none;
  field_masks = (incident, text "caller_id" ∷ text "description" ∷ []) ∷ [];
  max_mode = "write";
  max_rows_per_run = 100;
  max_bytes_per_run = 10000;
  row_filters = some ((incident, text "active=true") ∷ []);
}

has_structural_operator-any_example :
    has_structural_operator (text "a=1^NQb=2")
    ≡ any is_structural_token (split_on b'^' (text "a=1^NQb=2"))
has_structural_operator-any_example = has_structural_operator-any (text "a=1^NQb=2")

finds_new_query : has_structural_operator (text "a=1^NQb=2") ≡ true
unfolding has_structural_operator
finds_new_query = refl

abbrev row : List (Text × ℕ)
row = (text "number", 1) ∷ (text "caller_id.email", 2) ∷ []

find_entry-mask_row_example :
    find_entry (text "caller_id.email") (mask_row incident_policy incident row) ≡ (
      if is_covered incident_policy incident (text "caller_id.email")
      then none
      else find_entry (text "caller_id.email") row)
find_entry-mask_row_example =
    find_entry-mask_row incident_policy incident (text "caller_id.email") row

masks_caller : is_covered incident_policy incident (text "caller_id.email") ≡ true
unfolding masked_fields text_eq has_prefix find_entry
masks_caller = refl

assert_actor_policy_iff_example :
    (assert_actor_policy incident_policy host incident "read_only" ≡ ok tt)
    ↔ MayTouch incident_policy host incident "read_only"
assert_actor_policy_iff_example = assert_actor_policy_iff incident_policy host incident "read_only"

reads_incidents : assert_actor_policy incident_policy host incident "read_only" ≡ ok tt
unfolding assert_actor_policy text_eq mode_risk mode_risk_table
reads_incidents = refl

-- A comparison is glued to a masked field, behind an `or` in small letters.
query-refused_example :
    assert_query_fields_allowed incident_policy incident (text "active=true^orcaller_idLIKEbob")
    ≡ denied
unfolding split_on includes all_units masked_fields map_units to_lower to_upper has_prefix text_eq
    find_entry is_space starts_with_ci
query-refused_example =
    query-refused incident_policy incident (text "active=true^orcaller_idLIKEbob") [] (text "or")
      (text "aller_id") (text "LIKEbob") or_else b'c' refl refl refl refl refl
      (inr (refl, refl, refl))

-- Ordering by the masked field passes: `ORDERBYDESC` is stripped in any case, and what is left of
-- `ORDERBYdescription` is no field of a mask.
orders_by_description :
    assert_query_fields_allowed incident_policy incident (text "ORDERBYdescription") ≡ ok tt
unfolding assert_query_fields_allowed
orders_by_description = refl

abbrev approval : ApprovalContext
approval = record {
  mode = "admin_script";
  actor_user_id = text "u1";
  reason = some (text "fix");
  admin_script_allowlist = text "u1" ∷ [];
  approval_token = some (text "t2");
  valid_approval_tokens = some (text "t1" ∷ text "t2" ∷ []);
  actor_access_groups = none;
  required_access_group = none;
}

assert_admin_script_approved_iff_example :
    (assert_admin_script_approved approval ≡ ok tt)
    ↔ ((approval.mode ≢ "admin_script") ⊎ Approved approval)
assert_admin_script_approved_iff_example = assert_admin_script_approved_iff approval

approves : assert_admin_script_approved approval ≡ ok tt
unfolding assert_admin_script_approved text_eq
approves = refl
