-- ===== src/Rpc/Permitted.antt =====
-- The requests that an actor's policy permits, and a client with a log of what it is asked.
use snow_mcp.Common.{
  ◌≡◌, refl, true, false, ◌||◌, Option, none, some, List, [], ◌∷◌, ◌++◌, any, arith,
}
use snow_mcp.Errors.{ok}
use snow_mcp.Exec.{Exec}
use snow_mcp.Text.{Text, text, has_prefix, all_units, is_digit, is_between, to_upper}
use snow_mcp.Validate.{
  Unknown, has_structural_operator, is_structural_token, is_operator, operator_after_caret,
  validate_sys_id,
}
use snow_mcp.Policy.{ActorPolicy, mandatory_filter}
use snow_mcp.Policy.Masks.{is_covered}
use snow_mcp.Policy.Access.{MayTouch}
use snow_mcp.Policy.Filters.{mandatory_filter-nonempty}
use snow_mcp.Rpc.{RpcDeps, SnRequest, Endpoint, table_list, table_record, table_stats, if_not_empty}

abbrev pub table_of : Endpoint → Text
table_of (table_list t) = t
table_of (table_record t sys_id) = t
table_of (table_stats t) = t

-- Where a filter stands for the table, the query begins with it and has no structural operator.
abbrev pub Behind : Option Text → Option Text → Type 0
Behind none query = Unit
Behind (some f) query =
    (q : Text) × (query ≡ some q) × (has_structural_operator q ≡ false) × (has_prefix f q ≡ true)

abbrev pub Filtered : ActorPolicy → SnRequest → Type 0
Filtered p req = Behind (mandatory_filter p (table_of req.endpoint)) req.params.query

pub Behind-of :
    (o query : Option Text) → ((f : Text) → o ≡ some f → Behind (some f) query) → Behind o query
Behind-of none query h = tt
Behind-of (some f) query h = h f refl

abbrev pub GroupsShown : ActorPolicy → Text → Option (List Text) → Type 0
GroupsShown p t none = Unit
GroupsShown p t (some fs) = any (is_covered p t) fs ≡ false

-- The policy lets the instance, table and mode through, the filter stands, and no group is masked.
abbrev pub Permitted : {W V : Type 0} → RpcDeps W V → SnRequest → Type 0
Permitted deps req =
    MayTouch deps.actor_policy deps.instance_host (table_of req.endpoint) deps.effective_mode
    × Filtered deps.actor_policy req
    × GroupsShown deps.actor_policy (table_of req.endpoint) req.params.group_by

-- The client with a log of the requests that it is given.
abbrev pub logging :
    {W A : Type 0} → (SnRequest → Exec W A) → SnRequest → Exec (W × List SnRequest) A
logging call req (w, log) = let (r, w') = call req w in (r, (w', req ∷ log))

abbrev pub watched : {W V : Type 0} → RpcDeps W V → RpcDeps (W × List SnRequest) V
watched deps = record {
  http = record {
    get_rows = logging deps.http.get_rows;
    get_row = logging deps.http.get_row;
    get_stats = logging deps.http.get_stats;
  };
  instance_host = deps.instance_host;
  effective_mode = deps.effective_mode;
  actor_policy = deps.actor_policy;
  query_bytes = deps.query_bytes;
  rows_bytes = deps.rows_bytes;
  row_bytes = deps.row_bytes;
  stats_bytes = deps.stats_bytes;
}

pub if_not_empty-prefix :
    (p : ActorPolicy) (t f q : Text)
    → mandatory_filter p t ≡ some f
    → has_prefix f q ≡ true
    → if_not_empty q ≡ some q
unfolding has_prefix
if_not_empty-prefix p t [] q e h = absurd (mandatory_filter-nonempty p t e)
if_not_empty-prefix p t (c ∷ f) [] e h = cc
if_not_empty-prefix p t (c ∷ f) (d ∷ q) e h = refl

operator_after_caret-sys_id :
    (s : Text)
    → all_units (λ c. is_digit c || is_between b'a' b'f' c) s ≡ true
    → operator_after_caret s ≡ false
unfolding operator_after_caret all_units
operator_after_caret-sys_id [] h = refl
operator_after_caret-sys_id (c ∷ s) h =
    let rest = operator_after_caret-sys_id s in ground (arith, h, rest)

-- A lookup by a valid `sys_id` has no structural operator.
pub sys_id_query-safe :
    {J : Type 0} (v : Unknown J) (s : Text)
    → validate_sys_id v ≡ ok s
    → has_structural_operator (text "sys_id=" ++ s) ≡ false
unfolding validate_sys_id has_structural_operator is_structural_token has_prefix is_operator
    to_upper operator_after_caret
sys_id_query-safe (Unknown.string u) s h =
    let hex : all_units (λ c. is_digit c || is_between b'a' b'f' c) s ≡ true = ground (arith, h) in
    operator_after_caret-sys_id s hex
sys_id_query-safe _ s h = cc
