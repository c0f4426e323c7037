-- ===== src/Rpc/Sent.antt =====
-- What the reading methods send to the instance: only requests that the actor's policy permits, behind
-- the mandatory filter of their table.
use snow_mcp.Common.{
  ℕ, ◌≡◌, refl, Bool, true, false, Option, none, some, List, ◌++◌, All, arith, inl, inr,
  if◌then◌else◌, ◌==◌,
}
use snow_mcp.Errors.{ok}
use snow_mcp.Exec.{Exec}
use snow_mcp.Exec.Steps.{◌>>◌, check, return}
use snow_mcp.Exec.Rules.{
  Keeps, Keeps-bind, Keeps-then, Keeps-check, Keeps-check_then, Keeps-checked, Keeps-return,
}
use snow_mcp.Text.{Text, text}
use snow_mcp.Validate.{Unknown, has_structural_operator, validate_user_query, validate_sys_id}
use snow_mcp.Policy.{mandatory_filter, assert_policy_row_filters_safe}
use snow_mcp.Policy.Masks.{assert_requested_fields_allowed-covered}
use snow_mcp.Policy.Access.{MayTouch}
use snow_mcp.Policy.Filters.{validate_user_query-safe}
use snow_mcp.RunBudget.{Metered, RunBudget}
use snow_mcp.Rpc.{
  Row, Host, RpcDeps, SnRequest, SnResponse, TableQueryArgs, TableGetArgs, AggregateArgs, is_some,
  metered, send, counted_request, mapped, fetch_row_in_filter_scope, fetch_row, finish_query,
  finish_get, table_query, table_get, aggregate, result_of, page_limit, with_sys_id,
}
use snow_mcp.Rpc.Gate.{Passed, gate_read-Keeps}
use snow_mcp.Rpc.Requests.{scope_request, query_request, row_request, stats_request, Filtered-query}
use snow_mcp.Rpc.Permitted.{Behind-of, GroupsShown, Permitted, logging, watched, sys_id_query-safe}

module _ {W V : Type 0} (deps : RpcDeps W V) where
  -- Every request of the log is permitted.
  abbrev AllPermitted : Host (W × List SnRequest) → Type 0
  AllPermitted h = All (Permitted deps) h.outside.1

  metered-Keeps : (m : RunBudget → Metered) → Keeps AllPermitted (metered m)
  unfolding metered
  metered-Keeps m = record { keeps = λ h i. i }

  send-Keeps :
      {A : Type 0} (call : SnRequest → Exec W A) (req : SnRequest)
      → Permitted deps req
      → Keeps AllPermitted (send (logging call req))
  unfolding send
  send-Keeps call req p = record { keeps = λ h i. (p, i) }

  mapped-Keeps : {A : Type 0} (res : SnResponse A) → Keeps AllPermitted (mapped res)
  unfolding mapped
  mapped-Keeps res = Keeps-checked _

  counted_request-Keeps :
      {A : Type 0} (call : SnRequest → Exec W (SnResponse A)) (req : SnRequest)
      → Permitted deps req
      → Keeps AllPermitted (counted_request (watched deps) (logging call) req)
  unfolding counted_request
  counted_request-Keeps call req p =
      Keeps-then _ _ (metered-Keeps _) (Keeps-then _ _ (metered-Keeps _) (send-Keeps call req p))

  module _ (safe : assert_policy_row_filters_safe deps.actor_policy ≡ ok tt) where
    fetch_row_in_filter_scope-Keeps :
        {J : Type 0} (v : Unknown J) (t s : Text) (fields : Option (List Text))
        → validate_sys_id v ≡ ok s
        → MayTouch deps.actor_policy deps.instance_host t deps.effective_mode
        → Keeps AllPermitted (fetch_row_in_filter_scope (watched deps) t s fields)
    unfolding fetch_row_in_filter_scope
    fetch_row_in_filter_scope-Keeps v t s fields valid may =
        let filtered =
          Filtered-query deps safe (scope_request deps t s fields) (text "sys_id=" ++ s) (inl refl)
            (λ f e. sys_id_query-safe v s valid) in
        Keeps-bind _ _
          (counted_request-Keeps deps.http.get_rows (scope_request deps t s fields)
            (may, filtered, tt))
          λ res.
            Keeps-then _ _ (mapped-Keeps res)
              (Keeps-bind _ _ (Keeps-checked _) λ rows. Keeps-return _)

    user_query-safe :
        {J : Type 0} (v : Unknown J) (t q f : Text)
        → validate_user_query v (is_some (mandatory_filter deps.actor_policy t)) ≡ ok q
        → mandatory_filter deps.actor_policy t ≡ some f
        → has_structural_operator q ≡ false
    user_query-safe v t q f h e = validate_user_query-safe v q (rw e at h)

    finish_query-Keeps :
        (t : Text) (limit : ℕ) (raw : List (Row V))
        → Keeps AllPermitted (finish_query (watched deps) t limit raw)
    unfolding finish_query
    finish_query-Keeps t limit raw =
        Keeps-then _ _ (metered-Keeps _) (Keeps-then _ _ (metered-Keeps _) (Keeps-return _))

    table_query-Keeps :
        {J : Type 0} (args : TableQueryArgs J)
        → Keeps AllPermitted (table_query (watched deps) args)
    unfolding table_query
    table_query-Keeps args = Keeps-check _ _ λ t valid. Keeps-check _ _ λ fields _.
        Keeps-check _ _ λ q user. Keeps-check _ _ λ limit _.
          gate_read-Keeps (watched deps) t fields _ (metered-Keeps _) λ (may, requested).
            Keeps-check_then _ _ λ shown.
              let filtered =
                Filtered-query deps safe (query_request deps t (page_limit limit) q fields) q
                  (inr refl) (λ f. user_query-safe args.query t q f user) in
              Keeps-bind _ _
                (counted_request-Keeps deps.http.get_rows
                  (query_request deps t (page_limit limit) q fields) (may, filtered, tt))
                λ res.
                  Keeps-then _ _ (mapped-Keeps res)
                    (Keeps-bind _ _ (Keeps-checked _) λ raw. finish_query-Keeps t _ _)

    fetch_row-Keeps :
        (t s : Text) (fields : Option (List Text))
        → is_some (mandatory_filter deps.actor_policy t) ≡ false
        → MayTouch deps.actor_policy deps.instance_host t deps.effective_mode
        → Keeps AllPermitted (fetch_row (watched deps) t s fields)
    unfolding fetch_row
    fetch_row-Keeps t s fields open_table may =
        Keeps-bind _ _
          (counted_request-Keeps deps.http.get_row (row_request deps t s fields)
            (may, Behind-of _ none (λ f e. absurd (cc (rw e at open_table))), tt))
          λ res. by_status (res.status == 404) res
      where
        by_status :
            (b : Bool) (res : SnResponse (Row V))
            → Keeps AllPermitted
                (if b then return none else (mapped res >> check (result_of res.body)))
        by_status true res = Keeps-return _
        by_status false res = Keeps-then _ _ (mapped-Keeps res) (Keeps-checked _)

    finish_get-Keeps :
        (t : Text) (row : Option (Row V)) → Keeps AllPermitted (finish_get (watched deps) t row)
    unfolding finish_get
    finish_get-Keeps t none = Keeps-return _
    finish_get-Keeps t (some row) =
        Keeps-then _ _ (metered-Keeps _) (Keeps-then _ _ (metered-Keeps _) (Keeps-return _))

    table_get-Keeps :
        {J : Type 0} (args : TableGetArgs J) → Keeps AllPermitted (table_get (watched deps) args)
    unfolding table_get
    table_get-Keeps args = Keeps-check _ _ λ t valid. Keeps-check _ _ λ s sys_id.
        Keeps-check _ _ λ fields _.
          gate_read-Keeps (watched deps) t fields _ (metered-Keeps _) λ (may, requested).
            Keeps-bind _ _ (by_filter t s fields sys_id may _ refl) (finish_get-Keeps t)
      where
        by_filter :
            (t s : Text) (fields : Option (List Text))
            → validate_sys_id args.sys_id ≡ ok s
            → MayTouch deps.actor_policy deps.instance_host t deps.effective_mode
            → (b : Bool) → is_some (mandatory_filter deps.actor_policy t) ≡ b
            → Keeps AllPermitted (
                if b
                then fetch_row_in_filter_scope (watched deps) t s (with_sys_id fields)
                else fetch_row (watched deps) t s (with_sys_id fields))
        by_filter t s fields valid may true e =
            fetch_row_in_filter_scope-Keeps args.sys_id t s (with_sys_id fields) valid may
        by_filter t s fields valid may false e = fetch_row-Keeps t s (with_sys_id fields) e may

    groups_shown :
        (t : Text) (groups : Option (List Text))
        → Passed (watched deps) t groups
        → GroupsShown deps.actor_policy t groups
    groups_shown t none passed = tt
    groups_shown t (some fs) passed =
        let e = assert_requested_fields_allowed-covered deps.actor_policy t fs in
        ground (arith, passed.1, e)

    aggregate-Keeps :
        {J : Type 0} (args : AggregateArgs J) → Keeps AllPermitted (aggregate (watched deps) args)
    unfolding aggregate
    aggregate-Keeps args = Keeps-check _ _ λ t valid. Keeps-check _ _ λ q user.
        Keeps-check _ _ λ groups _.
          gate_read-Keeps (watched deps) t groups _ (metered-Keeps _) λ passed.
            Keeps-check_then _ _ λ shown.
              let filtered =
                Filtered-query deps safe (stats_request deps t q groups) q (inr refl)
                  (λ f. user_query-safe args.query t q f user) in
              Keeps-bind _ _
                (counted_request-Keeps deps.http.get_stats (stats_request deps t q groups)
                  (passed.0, filtered, groups_shown t groups passed))
                λ res. Keeps-then _ _ (mapped-Keeps res) (
                  Keeps-bind _ _ (Keeps-checked _)
                    λ result. Keeps-then _ _ (metered-Keeps _) (Keeps-return _))

-- The methods, with their arguments.
pub data ReadCall (J : Type 0) : Type 0 where
  call_query : TableQueryArgs J → ReadCall J
  call_get : TableGetArgs J → ReadCall J
  call_aggregate : AggregateArgs J → ReadCall J

-- What a call leaves of the host, whether it returns or throws.
abbrev pub left_by : {W V J : Type 0} → RpcDeps W V → ReadCall J → Host W → Host W
left_by deps (call_query args) h = (table_query deps args h).1
left_by deps (call_get args) h = (table_get deps args h).1
left_by deps (call_aggregate args) h = (aggregate deps args h).1

-- If the policy's filters passed the check made when it was loaded, a call sends only requests for an
-- instance, table and mode that the policy lets through; where the table has a mandatory filter the
-- query begins with it and no clause of it can escape it; and no masked field is grouped by.
pub sent-Permitted :
    {W V J : Type 0} (deps : RpcDeps W V)
    → assert_policy_row_filters_safe deps.actor_policy ≡ ok tt
    → (call : ReadCall J) (h : Host (W × List SnRequest)) → All (Permitted deps) h.outside.1
    → All (Permitted deps) (left_by (watched deps) call h).outside.1
sent-Permitted deps safe (call_query args) h i = (table_query-Keeps deps safe args).keeps h i
sent-Permitted deps safe (call_get args) h i = (table_get-Keeps deps safe args).keeps h i
sent-Permitted deps safe (call_aggregate args) h i = (aggregate-Keeps deps safe args).keeps h i
