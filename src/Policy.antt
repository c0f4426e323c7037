-- ===== src/Policy.antt =====
-- packages/mcp-server/src/authz/actor-policy.ts: what an actor may touch, enforced before each call.
-- A record of the host is the list of its entries, in their order; a regular expression among the
-- table rules is the test that it makes. The cache of compiled policies only saves time, so a policy
-- is compiled at each use.
pub mod Masks
pub mod Operators
pub mod Fields
pub mod Query
pub mod Access
pub mod Filters
pub mod Loader
pub mod Entries
pub mod Loaded
pub mod Named
use snow_mcp.Common.{
  ℕ, ◌+◌, Bool, true, false, not, ◌&&◌, ◌||◌, Option, none, some, List, [], ◌∷◌, ◌++◌, map, ltb,
  ◌==◌, length, any, filter_by, if◌then◌else◌,
}
use snow_mcp.Errors.{Result, ok, throw, Thrown, tool_error, actor_policy_denied, ◌>>=◌, ◌>>◌}
use snow_mcp.Risk.{risk_ltb}
use snow_mcp.Mode.{Mode, mode_risk}
use snow_mcp.Validate.{assert_mandatory_row_filter_safe}
use snow_mcp.Text.{
  Text, text, text_eq, includes, has_prefix, leading, drop, is_digit, is_letter, to_lower, to_upper,
  map_units, trim_start, split_on,
}

pub data TableRule : Type 0 where
  name_rule : Text → TableRule
  pattern_rule : (Text → Bool) → TableRule

pub record ActorPolicy : Type 0 where
  pub allowed_instances : List Text
  pub allow : Option (List TableRule)
  pub deny_rules : Option (List TableRule)
  pub field_masks : List (Text × List Text)
  pub max_mode : Mode
  pub max_rows_per_run : ℕ
  pub max_bytes_per_run : ℕ
  pub row_filters : Option (List (Text × Text))

abbrev pub denied : {A : Type 0} → Result A
denied = throw (tool_error actor_policy_denied)

-- `record[key]`, of its own properties, and `map.get(key)`.
module _ {ℓ} {A : Type ℓ} where
  unfoldable pub find_entry : Text → List (Text × A) → Option A
  unfolding text_eq
  find_entry k [] = none
  find_entry k ((j, a) ∷ es) = if text_eq j k then some a else find_entry k es

-- `denyAllPolicy`.
abbrev pub deny_all_policy : Text → ActorPolicy
deny_all_policy host = record {
  allowed_instances = host ∷ [];
  allow = some [];
  deny_rules = none;
  field_masks = [];
  max_mode = "read_only";
  max_rows_per_run = 1;
  max_bytes_per_run = 1;
  row_filters = none;
}

-- `compileTableRules`: the exact names, and the patterns.
abbrev pub CompiledRules : Type 0
CompiledRules = List Text × List (Text → Bool)

abbrev add_rule : TableRule → CompiledRules → CompiledRules
add_rule (name_rule t) (names, patterns) = (t ∷ names, patterns)
add_rule (pattern_rule p) (names, patterns) = (names, p ∷ patterns)

unfoldable pub compile_rules : List TableRule → CompiledRules
compile_rules [] = ([], [])
compile_rules (r ∷ rs) = add_rule r (compile_rules rs)

abbrev or_no_rules : Option (List TableRule) → List TableRule
or_no_rules none = []
or_no_rules (some rs) = rs

unfoldable pub matches_table : CompiledRules → Text → Bool
unfolding includes
matches_table (names, patterns) t = includes names t || any (λ p. p t) patterns

abbrev allowed_by : Option (List TableRule) → Text → Bool
allowed_by none t = true
allowed_by (some rs) t = matches_table (compile_rules rs) t

unfoldable pub is_table_allowed : ActorPolicy → Text → Bool
unfolding matches_table compile_rules
is_table_allowed p t =
    if matches_table (compile_rules (or_no_rules p.deny_rules)) t
    then false
    else allowed_by p.allow t

unfoldable pub assert_mode_within_policy : ActorPolicy → Mode → Result (Unit {0})
assert_mode_within_policy p mode =
    if risk_ltb (mode_risk p.max_mode) (mode_risk mode) then denied else ok tt

unfoldable pub assert_actor_policy : ActorPolicy → Text → Text → Mode → Result (Unit {0})
unfolding is_table_allowed assert_mode_within_policy includes
assert_actor_policy p instance_host table mode =
    if not (includes p.allowed_instances instance_host)
    then denied
    else if not (is_table_allowed p table)
    then denied
    else assert_mode_within_policy p mode

-- What `rowFilters[table]` finds on `Object.prototype`, for a name that is a table name.
abbrev inherited : Text → Option Text
inherited t =
    if text_eq t (text "constructor")
    then some (text "function Object() { [native code] }")
    else if text_eq t (text "__proto__")
    then some (text "[object Object]")
    else none

abbrev own_or_inherited : Option Text → Text → Option Text
own_or_inherited (some f) t = some f
own_or_inherited none t = inherited t

abbrev filter_in : Option (List (Text × Text)) → Text → Option Text
filter_in none t = none
filter_in (some fs) t = own_or_inherited (find_entry t fs) t

-- `policy.rowFilters?.[table]`, where the empty text is falsy.
abbrev truthy : Option Text → Option Text
truthy none = none
truthy (some []) = none
truthy (some (c ∷ s)) = some (c ∷ s)

unfoldable pub mandatory_filter : ActorPolicy → Text → Option Text
unfolding find_entry text_eq
mandatory_filter p t = truthy (filter_in p.row_filters t)

abbrev join_filter : Option Text → Text → Text
join_filter none q = q
join_filter (some f) [] = f
join_filter (some f) (c ∷ q) = f ++ b'^' ∷ c ∷ q

unfoldable pub apply_row_filter : ActorPolicy → Text → Text → Text
unfolding mandatory_filter
apply_row_filter p t q = join_filter (mandatory_filter p t) q

-- `assertPolicyRowFiltersSafe`: the loop over the entries of `rowFilters`.
unfoldable pub assert_filters_safe : List (Text × Text) → Result (Unit {0})
assert_filters_safe [] = ok tt
assert_filters_safe ((t, f) ∷ fs) = assert_mandatory_row_filter_safe f >> assert_filters_safe fs

abbrev or_no_filters : Option (List (Text × Text)) → List (Text × Text)
or_no_filters none = []
or_no_filters (some fs) = fs

unfoldable pub assert_policy_row_filters_safe : ActorPolicy → Result (Unit {0})
unfolding assert_filters_safe
assert_policy_row_filters_safe p = assert_filters_safe (or_no_filters p.row_filters)

-- The fields that are masked on a table; none if there is no entry or it is empty.
abbrev or_no_fields : Option (List Text) → List Text
or_no_fields none = []
or_no_fields (some fs) = fs

unfoldable pub masked_fields : ActorPolicy → Text → List Text
unfolding find_entry
masked_fields p t = or_no_fields (find_entry t p.field_masks)

-- `field.slice(0, dot)` for each dot of the field.
unfoldable pub dot_prefixes : Text → List Text
dot_prefixes [] = []
dot_prefixes (c ∷ s) =
    let later = map (λ p. c ∷ p) (dot_prefixes s) in if c == b'.' then [] ∷ later else later

-- `isFieldMaskedByIndex`.
unfoldable pub is_field_masked : List Text → Text → Bool
unfolding includes dot_prefixes
is_field_masked masked f = includes masked f || any (includes masked) (dot_prefixes f)

-- `maskRow`, for a row of columns; no column is called `__proto__`.
unfoldable pub mask_row : {V : Type 0} → ActorPolicy → Text → List (Text × V) → List (Text × V)
unfolding masked_fields is_field_masked
mask_row p t row = filter_by (λ e. not (is_field_masked (masked_fields p t) e.0)) row

abbrev deny_any : {A : Type 0} → List A → Result (Unit {0})
deny_any [] = ok tt
deny_any (a ∷ as') = denied

unfoldable pub assert_requested_fields_allowed :
    ActorPolicy → Text → Option (List Text) → Result (Unit {0})
unfolding masked_fields is_field_masked
assert_requested_fields_allowed p t none = ok tt
assert_requested_fields_allowed p t (some fs) =
    deny_any (filter_by (is_field_masked (masked_fields p t)) fs)

abbrev pub is_field_unit : ℕ → Bool
is_field_unit c = is_letter c || is_digit c || (c == b'_') || (c == b'.')

-- `leadingFieldToken`, of a clause whose leading white space is gone.
unfoldable pub field_token : Text → Text
unfolding leading map_units to_lower trim_start
field_token s = map_units to_lower (leading is_field_unit (trim_start s))

-- A literal of `QUERY_OP_PREFIX`, in any case, at the start.
unfoldable pub starts_with_ci : Text → Text → Bool
unfolding has_prefix map_units to_upper
starts_with_ci op s = has_prefix op (map_units to_upper s)

-- `clause.replace(QUERY_OP_PREFIX, "")`.
unfoldable pub strip_operator : Text → Text
unfolding starts_with_ci drop
strip_operator s =
    if starts_with_ci (text "ORDERBYDESC") s
    then drop 11 s
    else if starts_with_ci (text "ORDERBY") s || starts_with_ci (text "GROUPBY") s
    then drop 7 s
    else if starts_with_ci (text "NQ") s
        || starts_with_ci (text "OR") s
        || starts_with_ci (text "EQ") s
    then drop 2 s
    else s

abbrev pub begins_with_letter : Text → Bool
begins_with_letter [] = false
begins_with_letter (c ∷ s) = is_letter c

-- `maskedFieldWithGluedOperator`.
unfoldable pub glued_field : List Text → Text → Option Text
unfolding has_prefix drop
glued_field [] token = none
glued_field (m ∷ ms) token =
    if has_prefix m token && begins_with_letter (drop (length m) token)
    then some m
    else glued_field ms token

abbrev pub is_truthy : Option Text → Bool
is_truthy none = false
is_truthy (some []) = false
is_truthy (some (c ∷ s)) = true

abbrev is_empty : Text → Bool
is_empty [] = true
is_empty (c ∷ s) = false

-- A candidate for which the loop throws.
unfoldable pub is_forbidden : List Text → Text → Bool
unfolding is_field_masked glued_field
is_forbidden masked f =
    not (is_empty f) && (is_field_masked masked f || is_truthy (glued_field masked f))

unfoldable pub clause_forbidden : List Text → Text → Bool
unfolding field_token strip_operator is_forbidden
clause_forbidden masked clause =
    is_forbidden masked (field_token (trim_start clause))
    || is_forbidden masked (field_token (strip_operator (trim_start clause)))

unfoldable pub assert_query_fields_allowed : ActorPolicy → Text → Text → Result (Unit {0})
unfolding clause_forbidden masked_fields split_on
assert_query_fields_allowed p t q =
    if any (clause_forbidden (masked_fields p t)) (split_on b'^' q) then denied else ok tt
