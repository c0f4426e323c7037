-- ===== src/Tests/Loads.antt =====
-- The loader of actor policies, run on settings.
use snow_mcp.Common.{ℕ, true, ◌≡◌, refl, Option, none, some, List, [], ◌∷◌, All}
use snow_mcp.Errors.{Result, ok, throw, other_error}
use snow_mcp.Mode.{is_valid_mode, mode_risk, mode_risk_table}
use snow_mcp.Text.{Text, text, text_eq, includes}
use snow_mcp.Validate.{is_table_name, is_field_name, assert_mandatory_row_filter_safe}
use snow_mcp.Policy.{ActorPolicy, name_rule, assert_actor_policy}
use snow_mcp.Policy.Loader.{
  PolicyEnv, NamedEntry, settings, parse_list, load_actor_policy, load_named_actor_policies,
}
use snow_mcp.Policy.Named.{
  GoodPolicy, load_named_actor_policies-FailsClosed, load_actor_policy-assert_actor_policy,
}

-- A ceiling is a number here, and ACTOR_POLICIES_JSON has one policy, of two settings.
abbrev host : Text
host = text "dev1.service-now.com"

abbrev natural : ℕ → Option ℕ
natural n = some n

abbrev flat_settings : PolicyEnv ℕ
flat_settings = record {
  table_allowlist = some (text "incident, problem");
  field_masks = some (text "incident: work_notes");
  row_filters = some (text "incident:active=true");
  max_rows_per_run = some 50;
  max_bytes_per_run = none;
  max_mode = some "readonly";
}

abbrev ops_settings : PolicyEnv ℕ
ops_settings = record {
  table_allowlist = some (text "cmdb_ci");
  field_masks = none;
  row_filters = none;
  max_rows_per_run = none;
  max_bytes_per_run = none;
  max_mode = some "write";
}

abbrev default_loaded : ActorPolicy
default_loaded = record {
  allowed_instances = host ∷ [];
  allow = some (name_rule (text "incident") ∷ name_rule (text "problem") ∷ []);
  deny_rules = none;
  field_masks = (text "incident", text "work_notes" ∷ []) ∷ [];
  max_mode = "read_only";
  max_rows_per_run = 50;
  max_bytes_per_run = 5000000;
  row_filters = some ((text "incident", text "active=true") ∷ []);
}

abbrev ops_loaded : ActorPolicy
ops_loaded = record {
  allowed_instances = host ∷ [];
  allow = some (name_rule (text "cmdb_ci") ∷ []);
  deny_rules = none;
  field_masks = [];
  max_mode = "write";
  max_rows_per_run = 10000;
  max_bytes_per_run = 5000000;
  row_filters = none;
}

abbrev parse_json : Text → Result (List (Text × NamedEntry ℕ))
parse_json s = ok ((text "ops", settings ops_settings) ∷ [])

abbrev policies : List (Text × ActorPolicy)
policies = (text "default", default_loaded) ∷ (text "ops", ops_loaded) ∷ []

flat_loaded : load_actor_policy natural flat_settings host ≡ ok default_loaded
unfolding load_actor_policy is_table_name is_field_name assert_mandatory_row_filter_safe
    is_valid_mode mode_risk_table
flat_loaded = refl

all_loaded :
    load_named_actor_policies natural parse_json flat_settings (some (text "{}")) host ≡ ok policies
unfolding load_named_actor_policies is_table_name is_field_name assert_mandatory_row_filter_safe
    is_valid_mode mode_risk_table
all_loaded = refl

passes : assert_actor_policy default_loaded host (text "problem") "read_only" ≡ ok tt
unfolding assert_actor_policy mode_risk_table mode_risk text_eq
passes = refl

-- A filter that begins with an operator stops the loading, and so does a table that is masked twice.
self_defeating :
    load_actor_policy natural
      (record flat_settings { row_filters = some (text "incident:^NQactive=true") })
      host
    ≡ throw other_error
unfolding load_actor_policy is_table_name is_field_name assert_mandatory_row_filter_safe
self_defeating = refl

masked_twice :
    load_actor_policy natural
      (record flat_settings { field_masks = some (text "incident:a;incident:b") })
      host
    ≡ throw other_error
unfolding load_actor_policy is_table_name is_field_name assert_mandatory_row_filter_safe
masked_twice = refl

load_named_actor_policies-FailsClosed_example : All (GoodPolicy host) policies
load_named_actor_policies-FailsClosed_example =
    load_named_actor_policies-FailsClosed natural parse_json flat_settings (some (text "{}")) host
      policies all_loaded

load_actor_policy-assert_actor_policy_example :
    (host ≡ host)
    × (includes (parse_list flat_settings.table_allowlist) (text "problem") ≡ true)
    × (is_table_name (text "problem") ≡ true)
    × (is_valid_mode "read_only" ≡ true)
load_actor_policy-assert_actor_policy_example =
    load_actor_policy-assert_actor_policy natural flat_settings host host (text "problem")
      "read_only" default_loaded flat_loaded passes
