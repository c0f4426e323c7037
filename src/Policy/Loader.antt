-- ===== src/Policy/Loader.antt =====
-- The loader of policies, packages/mcp-server/src/authz/actor-policy.ts: from the settings of the
-- environment to an actor's policy, or to none.
-- Settings are texts; `Number(…)` and `JSON.parse` are parameters. The property `__proto__` of an object
-- cannot be set as an entry, so a table of that name is dropped.
use snow_mcp.Common.{
  ℕ, Bool, true, false, not, ◌&&◌, ◌||◌, Option, none, some, List, [], ◌∷◌, ◌++◌, map, filter_by,
  leb, length, ◌==◌, if◌then◌else◌,
}
use snow_mcp.Errors.{Result, ok, throw, other_error, ◌>>=◌, ◌>>◌}
use snow_mcp.Mode.{Mode, is_valid_mode}
use snow_mcp.Text.{
  Text, text, text_eq, all_units, is_blank, is_digit, is_letter, is_space, split_on, trim_start,
}
use snow_mcp.Validate.{is_table_name, is_field_name}
use snow_mcp.Policy.{
  ActorPolicy, name_rule, find_entry, deny_all_policy, assert_policy_row_filters_safe,
}

-- A ceiling is a text or a number.
pub record PolicyEnv (N : Type 0) : Type 0 where
  pub table_allowlist : Option Text
  pub field_masks : Option Text
  pub row_filters : Option Text
  pub max_rows_per_run : Option N
  pub max_bytes_per_run : Option N
  pub max_mode : Option Mode

abbrev pub invalid : {A : Type 0} → Result A
invalid = throw other_error

abbrev keep_unless_space : ℕ → Text → Text
keep_unless_space c [] = if is_space c then [] else c ∷ []
keep_unless_space c (d ∷ s) = c ∷ d ∷ s

unfoldable pub trim_end : Text → Text
unfolding is_space
trim_end [] = []
trim_end (c ∷ s) = keep_unless_space c (trim_end s)

-- `s.trim()`.
unfoldable pub trim : Text → Text
unfolding trim_start trim_end
trim s = trim_end (trim_start s)

abbrev pub or_empty_text : Option Text → Text
or_empty_text none = []
or_empty_text (some s) = s

abbrev pub is_not_empty : {A : Type 0} → List A → Bool
is_not_empty [] = false
is_not_empty (a ∷ as') = true

-- `(value ?? "").split(c).map((s) => s.trim()).filter(Boolean)`.
unfoldable pub trimmed_pieces : ℕ → Option Text → List Text
unfolding split_on trim
trimmed_pieces sep value = filter_by is_not_empty (map trim (split_on sep (or_empty_text value)))

unfoldable pub parse_list : Option Text → List Text
unfolding trimmed_pieces
parse_list value = trimmed_pieces b',' value

unfoldable pub has_non_empty_config : Option Text → Bool
unfolding is_blank
has_non_empty_config none = false
has_non_empty_config (some s) = not (is_blank s)

-- The loops of `assertConfiguredTableName` and `assertConfiguredFieldName`.
unfoldable pub assert_all : (Text → Bool) → List Text → Result (Unit {0})
assert_all p [] = ok tt
assert_all p (s ∷ ss) = if p s then assert_all p ss else invalid

-- A setting that is there has to have entries.
abbrev pub assert_entries : Option Text → List Text → Result (Unit {0})
assert_entries value entries =
    if has_non_empty_config value && not (is_not_empty entries) then invalid else ok tt

unfoldable pub parse_table_allowlist : Option Text → Result (List Text)
unfolding parse_list has_non_empty_config assert_all
parse_table_allowlist value = do
  assert_entries value (parse_list value)
  assert_all is_table_name (parse_list value)
  ok (parse_list value)

-- What stands before and after the first colon; none if there is no colon or it comes first.
abbrev before_unit : ℕ → Option (Text × Text) → Option (Text × Text)
before_unit c none = none
before_unit c (some (key, rest)) = some (c ∷ key, rest)

unfoldable pub split_at_colon : Text → Option (Text × Text)
split_at_colon [] = none
split_at_colon (c ∷ s) =
    let rest = split_at_colon s in if c == b':' then some ([], s) else before_unit c rest

abbrev pub key_and_value : Option (Text × Text) → Result (Text × Text)
key_and_value none = invalid
key_and_value (some ([], rest)) = invalid
key_and_value (some (c ∷ key, rest)) = ok (c ∷ key, rest)

module _ {T : Type 0} where
  abbrev pub is_there : Option T → Bool
  is_there none = false
  is_there (some v) = true

  -- `out[table] = value`, where there is no entry yet.
  abbrev pub set_property : Text → T → List (Text × T) → List (Text × T)
  set_property table v out =
      if text_eq table (text "__proto__") then out else out ++ (table, v) ∷ []

  -- The body of the loop over the entries.
  unfoldable pub add_entry : (Text → Result T) → Text → List (Text × T) → Result (List (Text × T))
  unfolding split_at_colon trim find_entry
  add_entry parse_value entry out = do
    (key, raw) ← key_and_value (split_at_colon entry)
    let table = trim key
    if is_table_name table then ok tt else invalid
    if is_there (find_entry table out) then invalid else ok tt
    v ← parse_value raw
    ok (set_property table v out)

  unfoldable pub add_entries :
      (Text → Result T) → List Text → List (Text × T) → Result (List (Text × T))
  unfolding add_entry
  add_entries parse_value [] out = ok out
  add_entries parse_value (e ∷ es) out =
      add_entry parse_value e out >>= λ out'. add_entries parse_value es out'

  unfoldable pub parse_table_scoped_config :
      Option Text → (Text → Result T) → Result (List (Text × T))
  unfolding trimmed_pieces add_entries
  parse_table_scoped_config value parse_value = do
    assert_entries value (trimmed_pieces b';' value)
    add_entries parse_value (trimmed_pieces b';' value) []

-- The fields of a mask.
unfoldable pub parse_fields : Text → Result (List Text)
unfolding parse_list assert_all
parse_fields raw = do
  if is_not_empty (parse_list (some raw)) then ok tt else invalid
  assert_all is_field_name (parse_list (some raw))
  ok (parse_list (some raw))

unfoldable pub parse_table_map : Option Text → Result (List (Text × List Text))
unfolding parse_table_scoped_config parse_fields
parse_table_map value = parse_table_scoped_config value parse_fields

unfoldable pub parse_filter : Text → Result Text
unfolding trim
parse_filter raw = if is_not_empty (trim raw) then ok (trim raw) else invalid

unfoldable pub parse_row_filters : Option Text → Result (List (Text × Text))
unfolding parse_table_scoped_config parse_filter
parse_row_filters value = parse_table_scoped_config value parse_filter

abbrev is_set : {A : Type 0} → Option A → Bool
is_set none = false
is_set (some a) = true

-- `isValidMode(v) ? v : "read_only"`.
abbrev pub mode_or_read_only : Option Mode → Mode
mode_or_read_only none = "read_only"
mode_or_read_only (some m) = if is_valid_mode m then m else "read_only"

abbrev pub if_any : List (Text × Text) → Option (List (Text × Text))
if_any [] = none
if_any (f ∷ fs) = some (f ∷ fs)

-- A setting of `ACTOR_POLICIES_JSON`: an object of settings, or anything else.
pub data NamedEntry (N : Type 0) : Type 0 where
  settings : PolicyEnv N → NamedEntry N
  other_entry : NamedEntry N

-- `/^[a-zA-Z0-9_.-]{1,64}$/`.
unfoldable pub is_policy_name : Text → Bool
unfolding all_units
is_policy_name s =
    leb 1 (length s)
    && leb (length s) 64
    && all_units (λ c. is_letter c || is_digit c || (c == b'_') || (c == b'.') || (c == b'-')) s

-- `map.set(name, policy)`.
unfoldable pub set_policy :
    Text → ActorPolicy → List (Text × ActorPolicy) → List (Text × ActorPolicy)
unfolding text_eq
set_policy name p [] = (name, p) ∷ []
set_policy name p ((n, q) ∷ ps) =
    let rest = set_policy name p ps in if text_eq n name then (n, p) ∷ ps else (n, q) ∷ rest

-- `natural` is the natural number that `Number(…)` gives, if it gives one.
module _ {N : Type 0} (natural : N → Option ℕ) where
  abbrev pub positive : Option ℕ → Result ℕ
  positive none = invalid
  positive (some n) = if leb 1 n then ok n else invalid

  unfoldable pub parse_positive_int : Option N → ℕ → Result ℕ
  parse_positive_int none default_value = ok default_value
  parse_positive_int (some v) default_value = positive (natural v)

  unfoldable pub has_flat_policy_config : PolicyEnv N → Bool
  unfolding has_non_empty_config
  has_flat_policy_config env =
      has_non_empty_config env.table_allowlist
      || has_non_empty_config env.field_masks
      || has_non_empty_config env.row_filters
      || is_set env.max_rows_per_run
      || is_set env.max_bytes_per_run
      || is_set env.max_mode

  -- The policy that the settings make, before its filters are checked.
  abbrev pub restrictive_policy :
      PolicyEnv N
      → Text
      → List Text
      → List (Text × List Text)
      → List (Text × Text)
      → ℕ
      → ℕ
      → ActorPolicy
  restrictive_policy env host allowlist masks filters max_rows max_bytes = record {
    allowed_instances = host ∷ [];
    allow = some (map name_rule allowlist);
    deny_rules = none;
    field_masks = masks;
    max_mode = mode_or_read_only env.max_mode;
    max_rows_per_run = max_rows;
    max_bytes_per_run = max_bytes;
    row_filters = if_any filters;
  }

  unfoldable pub build_policy :
      PolicyEnv N
      → Text
      → List Text
      → List (Text × List Text)
      → List (Text × Text)
      → Result ActorPolicy
  unfolding parse_positive_int assert_policy_row_filters_safe
  build_policy env host allowlist masks filters = do
    max_rows ← parse_positive_int env.max_rows_per_run 10000
    max_bytes ← parse_positive_int env.max_bytes_per_run 5000000
    let policy = restrictive_policy env host allowlist masks filters max_rows max_bytes
    assert_policy_row_filters_safe policy
    ok policy

  unfoldable pub load_actor_policy : PolicyEnv N → Text → Result ActorPolicy
  unfolding parse_table_allowlist parse_table_map parse_row_filters has_flat_policy_config
      build_policy
  load_actor_policy env host = do
    allowlist ← parse_table_allowlist env.table_allowlist
    masks ← parse_table_map env.field_masks
    filters ← parse_row_filters env.row_filters
    if has_flat_policy_config env
        then build_policy env host allowlist masks filters
        else ok (deny_all_policy host)

  -- The body of the loop over the named policies.
  unfoldable pub load_entry : Text → Text → NamedEntry N → Result ActorPolicy
  unfolding is_policy_name has_flat_policy_config load_actor_policy
  load_entry host name other_entry = invalid
  load_entry host name (settings env) =
      if is_policy_name name && has_flat_policy_config env
      then load_actor_policy env host
      else invalid

  unfoldable pub load_entries :
      Text
      → List (Text × NamedEntry N)
      → List (Text × ActorPolicy)
      → Result (List (Text × ActorPolicy))
  unfolding load_entry set_policy
  load_entries host [] out = ok out
  load_entries host ((name, entry) ∷ es) out =
      load_entry host name entry >>= λ p. load_entries host es (set_policy name p out)

  -- `loadNamedActorPolicies`, of the flat settings and `ACTOR_POLICIES_JSON`.
  module _ (parse_json : Text → Result (List (Text × NamedEntry N))) where
    abbrev pub default_policy : PolicyEnv N → Text → Bool → Result ActorPolicy
    default_policy env host has_json =
        if has_json && not (has_flat_policy_config env)
        then ok (deny_all_policy host)
        else load_actor_policy env host

    unfoldable pub load_named_actor_policies :
        PolicyEnv N → Option Text → Text → Result (List (Text × ActorPolicy))
    unfolding load_actor_policy has_flat_policy_config load_entries trim
    load_named_actor_policies env json host = do
      let raw = trim (or_empty_text json)
      default ← default_policy env host (is_not_empty raw)
      if is_not_empty raw
          then (parse_json raw >>= λ entries.
              load_entries host entries ((text "default", default) ∷ []))
          else ok ((text "default", default) ∷ [])
