-- ===== src/Policy/Filters.antt =====
-- Mandatory row filters: what is sent to the instance cannot escape them.
use snow_mcp.Common.{
  ◌≡◌, refl, true, false, Option, none, some, List, [], ◌∷◌, ◌++◌, arith, Bool-cases, inl, inr,
  eq_of_some-eq, if◌then◌else◌,
}
use snow_mcp.Errors.{ok}
use snow_mcp.Text.{Text, text, text_eq, has_prefix, to_upper}
use snow_mcp.Validate.{
  Unknown, undefined, string, has_structural_operator, is_structural_token, is_operator,
  operator_after_caret, validate_user_query, assert_mandatory_row_filter_safe,
}
use snow_mcp.Validate.Operators.{has_structural_operator-join}
use snow_mcp.Policy.{
  ActorPolicy, find_entry, mandatory_filter, apply_row_filter, assert_filters_safe,
  assert_policy_row_filters_safe, filter_in, own_or_inherited, truthy, or_no_filters,
}

find_entry-safe :
    (fs : List (Text × Text)) (t f : Text)
    → assert_filters_safe fs ≡ ok tt
    → find_entry t fs ≡ some f
    → has_structural_operator f ≡ false
unfolding assert_filters_safe find_entry assert_mandatory_row_filter_safe
find_entry-safe [] t f h e = cc
find_entry-safe ((k, g) ∷ fs) t f h e = ground (arith, h, e, find_entry-safe fs t f)

inherited-safe :
    (t f : Text) → truthy (own_or_inherited none t) ≡ some f → has_structural_operator f ≡ false
unfolding has_structural_operator text_eq is_structural_token has_prefix is_operator to_upper
    operator_after_caret
inherited-safe t f e = elim (Bool-cases (text_eq t (text "constructor"))) [
  | inl h ↦ rw (← eq_of_some-eq (rw h at e)) refl
  | inr h ↦ second (rw h at e)
]
  where
    second :
        truthy (if text_eq t (text "__proto__") then some (text "[object Object]") else none)
          ≡ some f
        → has_structural_operator f ≡ false
    second e = elim (Bool-cases (text_eq t (text "__proto__"))) [
      | inl h ↦ rw (← eq_of_some-eq (rw h at e)) refl
      | inr h ↦ cc (rw h at e)
    ]

mandatory_filter-safe :
    (p : ActorPolicy) (t f : Text)
    → assert_policy_row_filters_safe p ≡ ok tt
    → mandatory_filter p t ≡ some f
    → has_structural_operator f ≡ false
unfolding mandatory_filter assert_policy_row_filters_safe
mandatory_filter-safe p t f h e = in_filters p.row_filters h e
  where
    own :
        (fs : List (Text × Text)) (o : Option Text)
        → find_entry t fs ≡ o
        → assert_filters_safe fs ≡ ok tt
        → truthy (own_or_inherited o t) ≡ some f
        → has_structural_operator f ≡ false
    own fs none k h e = inherited-safe t f e
    own fs (some []) k h e = cc
    own fs (some (c ∷ s)) k h e = rw (← eq_of_some-eq e) (find_entry-safe fs t (c ∷ s) h k)

    in_filters :
        (o : Option (List (Text × Text)))
        → assert_filters_safe (or_no_filters o) ≡ ok tt
        → truthy (filter_in o t) ≡ some f
        → has_structural_operator f ≡ false
    in_filters none h e = cc
    in_filters (some fs) h e = own fs (find_entry t fs) refl h e

pub has_prefix-append : (s t : Text) → has_prefix s (s ++ t) ≡ true
unfolding has_prefix
has_prefix-append [] t = refl
has_prefix-append (c ∷ s) t = ground (arith, has_prefix-append s t)

has_prefix_refl : (s : Text) → has_prefix s s ≡ true
unfolding has_prefix
has_prefix_refl [] = refl
has_prefix_refl (c ∷ s) = ground (arith, has_prefix_refl s)

no_operator-nil : has_structural_operator [] ≡ false
unfolding has_structural_operator
no_operator-nil = refl

pub validate_user_query-safe :
    {J : Type 0} (v : Unknown J) (q : Text)
    → validate_user_query v true ≡ ok q
    → has_structural_operator q ≡ false
unfolding validate_user_query
validate_user_query-safe undefined q h = let e : [] ≡ q = cc in rw (← e) no_operator-nil
validate_user_query-safe (string s) q h = ground (arith, h)
validate_user_query-safe _ q h = cc

-- A filter that stands is not empty.
pub mandatory_filter-nonempty : (p : ActorPolicy) (t : Text) → mandatory_filter p t ≡ some [] → ⊥
unfolding mandatory_filter
mandatory_filter-nonempty p t e = by_value (filter_in p.row_filters t) e
  where
    by_value : (o : Option Text) → truthy o ≡ some [] → ⊥
    by_value none e = cc
    by_value (some []) e = cc
    by_value (some (c ∷ s)) e = cc

-- A query without structural operators stays behind the filter of its table.
pub apply_row_filter-kept :
    (p : ActorPolicy) (t f q : Text)
    → assert_policy_row_filters_safe p ≡ ok tt
    → mandatory_filter p t ≡ some f
    → has_structural_operator q ≡ false
    → (has_structural_operator (apply_row_filter p t q) ≡ false)
      × (has_prefix f (apply_row_filter p t q) ≡ true)
unfolding apply_row_filter
apply_row_filter-kept p t f [] safe e h =
    rw e (mandatory_filter-safe p t f safe e, has_prefix_refl f)
apply_row_filter-kept p t f (c ∷ s) safe e h = rw e (
  has_structural_operator-join f (c ∷ s) (mandatory_filter-safe p t f safe e) h,
  has_prefix-append f (b'^' ∷ c ∷ s),
)

-- If the policy's filters pass the check made when it is loaded, and one stands for the table, then
-- the query that is sent for a caller's query that passes validation begins with that filter, and no
-- clause of it begins with an operator by which rows could escape the filter.
pub apply_row_filter-safe :
    {J : Type 0} (p : ActorPolicy) (t f q : Text) (v : Unknown J)
    → assert_policy_row_filters_safe p ≡ ok tt
    → mandatory_filter p t ≡ some f
    → validate_user_query v true ≡ ok q
    → (has_structural_operator (apply_row_filter p t q) ≡ false)
      × (has_prefix f (apply_row_filter p t q) ≡ true)
apply_row_filter-safe p t f q v safe e h =
    apply_row_filter-kept p t f q safe e (validate_user_query-safe v q h)
