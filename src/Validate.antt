-- ===== src/Validate.antt =====
-- packages/mcp-server/src/sn/validate.ts: the checks of untrusted arguments at the boundary of the
-- sandbox, with the limits of `SN_REQUEST_LIMITS` and `TABLE_PAGE_CAP` of config.ts.
-- An argument is an `Unknown`: of an array, an element that is no string is `none`; an object has its
-- own keys with values of a type `J`.
pub mod Operators
use snow_mcp.Common.{
  ℕ, ◌+◌, ◌*◌, min, Bool, true, false, not, ◌&&◌, ◌||◌, Option, none, some, List, [], ◌∷◌, ltb, leb,
  ◌==◌, length, any, if◌then◌else◌, ℤ, is_positive, pos_part,
}
use snow_mcp.Errors.{Result, ok, throw, Thrown, tool_error, other_error, path_denied, ◌>>=◌, ◌>>◌}
use snow_mcp.Text.{
  Text, text, text_eq, includes, has_prefix, all_units, is_digit, is_lower, is_letter, is_between,
  to_upper,
}

pub data Unknown (J : Type 0) : Type 0 where
  undefined : Unknown J
  string : Text → Unknown J
  integer : ℤ → Unknown J
  other_number : Unknown J
  array : List (Option Text) → Unknown J
  object : List (Text × J) → Unknown J
  other_value : Unknown J

abbrev pub table_page_cap : ℕ
table_page_cap = 1000

abbrev pub max_encoded_query_chars : ℕ
max_encoded_query_chars = 4096

abbrev pub max_fields : ℕ
max_fields = 100

abbrev pub max_group_by_fields : ℕ
max_group_by_fields = 10

abbrev pub max_approval_token_chars : ℕ
max_approval_token_chars = 512

abbrev pub max_discovery_filter_chars : ℕ
max_discovery_filter_chars = 256

abbrev pub reason_max : ℕ
reason_max = 1024

abbrev pub deny : {A : Type 0} → Result A
deny = throw (tool_error path_denied)

abbrev has_length : ℕ → ℕ → Text → Bool
has_length lo hi s = leb lo (length s) && leb (length s) hi

abbrev is_name_unit : ℕ → Bool
is_name_unit c = is_lower c || is_digit c || (c == b'_')

-- `TABLE_NAME_RE`, `FIELD_NAME_RE`, `SYS_ID` and `IDEMPOTENCY_KEY`.
unfoldable pub is_table_name : Text → Bool
is_table_name s = has_length 1 80 s && all_units is_name_unit s

unfoldable pub is_field_name : Text → Bool
is_field_name s = has_length 1 80 s && all_units (λ c. is_name_unit c || (c == b'.')) s

unfoldable pub is_sys_id : Text → Bool
is_sys_id s = (length s == 32) && all_units (λ c. is_digit c || is_between b'a' b'f' c) s

unfoldable pub is_idempotency_key : Text → Bool
is_idempotency_key s =
    has_length 1 128 s
    && all_units
        (λ c. is_letter c || is_digit c || (c == b'.') || (c == b'_') || (c == b':') || (c == b'-'))
        s

-- The first two code units, in upper case, are an operator.
unfoldable pub is_operator : Text → Bool
unfolding to_upper
is_operator (a ∷ b ∷ s) =
    ((to_upper a == b'O') && (to_upper b == b'R'))
    || ((to_upper a == b'N') && (to_upper b == b'Q'))
    || ((to_upper a == b'E') && (to_upper b == b'Q'))
is_operator s = false

-- What the loop finds at one token.
unfoldable pub is_structural_token : Text → Bool
unfolding is_operator has_prefix
is_structural_token s =
    if has_prefix (text "ORDERBYDESC") s || has_prefix (text "ORDERBY") s
    then false
    else is_operator s

-- The rounds of the loop that stand at a caret.
unfoldable pub operator_after_caret : Text → Bool
operator_after_caret [] = false
operator_after_caret (c ∷ s) = ((c == b'^') && is_structural_token s) || operator_after_caret s

-- `hasEncodedQueryStructuralOperator`.
unfoldable pub has_structural_operator : Text → Bool
unfolding is_structural_token operator_after_caret
has_structural_operator [] = false
has_structural_operator (c ∷ s) =
    (not (c == b'^') && is_structural_token (c ∷ s)) || operator_after_caret (c ∷ s)

-- The loop over the elements.
unfoldable pub field_names : List (Option Text) → Result (List Text)
unfolding is_field_name
field_names [] = ok []
field_names (none ∷ fs) = deny
field_names (some f ∷ fs) =
    if is_field_name f then (field_names fs >>= λ rest. ok (f ∷ rest)) else deny

abbrev reserved_update_keys : List Text
reserved_update_keys = text "__proto__" ∷ text "constructor" ∷ text "prototype" ∷ []

abbrev is_control_char : ℕ → Bool
is_control_char c = leb c 0x1f || (c == 0x7f)

module _ {J : Type 0} where
  unfoldable pub validate_table_name : Unknown J → Result Text
  unfolding is_table_name
  validate_table_name (string s) = if is_table_name s then ok s else deny
  validate_table_name _ = deny

  unfoldable pub validate_sys_id : Unknown J → Result Text
  unfolding is_sys_id
  validate_sys_id (string s) = if is_sys_id s then ok s else deny
  validate_sys_id _ = deny

  unfoldable pub validate_limit : Unknown J → Result (Option ℕ)
  validate_limit undefined = ok none
  validate_limit (integer n) =
      if is_positive n then ok (some (min (pos_part n) table_page_cap)) else deny
  validate_limit _ = deny

  unfoldable pub validate_fields : ℕ → Unknown J → Result (Option (List Text))
  unfolding field_names
  validate_fields limit undefined = ok none
  validate_fields limit (array fs) =
      if ltb limit (length fs) then deny else (field_names fs >>= λ names. ok (some names))
  validate_fields limit _ = deny

  abbrev pub validate_group_by_fields : Unknown J → Result (Option (List Text))
  validate_group_by_fields v = validate_fields max_group_by_fields v

  unfoldable pub check_update_keys : List (Text × J) → Result (Unit {0})
  unfolding is_table_name includes
  check_update_keys [] = ok tt
  check_update_keys ((k, v) ∷ fs) =
      if is_table_name k && not (includes reserved_update_keys k)
      then check_update_keys fs
      else deny

  unfoldable pub validate_update_fields : Unknown J → Result (List (Text × J))
  unfolding check_update_keys
  validate_update_fields (object []) = deny
  validate_update_fields (object (f ∷ fs)) = check_update_keys (f ∷ fs) >> ok (f ∷ fs)
  validate_update_fields _ = deny

  unfoldable pub validate_idempotency_key : Unknown J → Result Text
  unfolding is_idempotency_key
  validate_idempotency_key (string s) = if is_idempotency_key s then ok s else deny
  validate_idempotency_key _ = deny

  unfoldable pub validate_reason : Unknown J → Result Text
  validate_reason (string s) =
      if has_length 1 reason_max s then if any is_control_char s then deny else ok s else deny
  validate_reason _ = deny

  unfoldable pub validate_approval_token : Unknown J → Result Text
  validate_approval_token (string s) =
      if has_length 1 max_approval_token_chars s then ok s else deny
  validate_approval_token _ = deny

  unfoldable pub validate_discovery_filter : Unknown J → Result (Option Text)
  validate_discovery_filter undefined = ok none
  validate_discovery_filter (string s) =
      if ltb max_discovery_filter_chars (length s) then deny else ok (some s)
  validate_discovery_filter _ = deny

  unfoldable pub validate_user_query : Unknown J → Bool → Result Text
  unfolding has_structural_operator
  validate_user_query undefined has_mandatory_filter = ok []
  validate_user_query (string s) has_mandatory_filter =
      if ltb max_encoded_query_chars (length s)
      then deny
      else if has_mandatory_filter && has_structural_operator s
      then deny
      else ok s
  validate_user_query _ has_mandatory_filter = deny

-- An `Error` that is no `McpToolError`.
unfoldable pub assert_mandatory_row_filter_safe : Text → Result (Unit {0})
unfolding has_structural_operator
assert_mandatory_row_filter_safe filter =
    if has_structural_operator filter then throw other_error else ok tt
