-- ===== src/Mutation/Lookup.antt =====
-- The scope check in front of an update: the lookup behind the filter of the table, and what is then known.
use snow_mcp.Common.{
  ◌≡◌, refl, Bool, true, false, Option, none, some, List, [], ◌∷◌, ◌++◌, inl, if◌then◌else◌,
}
use snow_mcp.Errors.{ok}
use snow_mcp.Exec.Steps.{◌>>=◌, check, return}
use snow_mcp.Exec.Rules.{Triple}
use snow_mcp.Exec.Leaves.{
  Outcome, Leaves-bind, Leaves-then, Leaves-return, Leaves-check, Leaves-checked,
}
use snow_mcp.Text.{Text, text}
use snow_mcp.Validate.{Unknown, validate_sys_id}
use snow_mcp.Policy.{mandatory_filter, assert_policy_row_filters_safe}
use snow_mcp.Policy.Access.{MayTouch}
use snow_mcp.Rpc.{
  Row, RpcDeps, SnResponse, Body, result_body, no_object, is_some, counted_request,
  fetch_row_in_filter_scope, result_of, first_of_list, or_empty,
}
use snow_mcp.Rpc.Permitted.{Permitted, sys_id_query-safe}
use snow_mcp.Rpc.Requests.{scope_request, Filtered-query}
use snow_mcp.Mutation.Parts.{WriteClient, MutationDeps, MutationTools}
use snow_mcp.Mutation.Body.{JsTree}
use snow_mcp.Mutation.Update.{in_scope, assert_sys_id_in_row_filter_scope}
use snow_mcp.Mutation.Trace.{
  Sent, listed, has_row, found_in, traced_deps, traced_client, traced_tools, OfHost, metered-Kept,
}
use snow_mcp.Mutation.Steps.{send-Leaves, mapped-Leaves}
use snow_mcp.Mutation.Permitted.{Looked, AllPermitted}

module _ {W V K J : Type 0} (deps : RpcDeps W V) (tools : MutationTools W V K J)
    (client : WriteClient W V K) (mutation : MutationDeps W V K J) where
  abbrev All : List Sent → Type 0
  All = AllPermitted deps tools mutation

  -- The lookup is in the log if a row came back.
  abbrev Answered : Text → Text → Bool → List Sent → Type 0
  Answered table sys_id found log =
      All log × (found ≡ true → Looked deps tools mutation table sys_id log)

  first-has_row :
      {A : Type 0} (b : Body (List A)) (rows : Option (List A))
      → result_of b ≡ ok rows
      → is_some (first_of_list (or_empty rows)) ≡ has_row b
  first-has_row (result_body none) none h = refl
  first-has_row (result_body none) (some rs) h = cc
  first-has_row (result_body (some [])) none h = refl
  first-has_row (result_body (some [])) (some []) h = refl
  first-has_row (result_body (some [])) (some (r ∷ rs)) h = cc
  first-has_row (result_body (some (r ∷ rs))) none h = cc
  first-has_row (result_body (some (r ∷ rs))) (some []) h = cc
  first-has_row (result_body (some (r ∷ rs))) (some (q ∷ qs)) h = refl
  first-has_row no_object rows h = cc

  -- What the scope check leaves, by the filter of the table.
  abbrev pub Scoped : Text → Text → Option Text → Option (Row V) → List Sent → Type 0
  Scoped table sys_id none row log = Unit
  Scoped table sys_id (some filter) row log =
      Looked deps tools mutation table sys_id log × (is_some row ≡ true)

  module _ (safe : assert_policy_row_filters_safe deps.actor_policy ≡ ok tt) (table sys_id : Text)
      (arg : Unknown (JsTree J)) (valid : validate_sys_id arg ≡ ok sys_id)
      (may : MayTouch deps.actor_policy deps.instance_host table deps.effective_mode) where
    lookup-Permitted : Permitted deps (scope_request deps table sys_id none)
    lookup-Permitted = (
      may,
      Filtered-query deps safe (scope_request deps table sys_id none) (text "sys_id=" ++ sys_id)
          (inl refl) (λ f e. sys_id_query-safe arg sys_id valid),
      tt,
    )

    noted_lookup :
        (log : List Sent)
        → All log
        → (b : Bool)
        → Answered table sys_id b (listed (scope_request deps table sys_id none) b ∷ log)
    noted_lookup log i true = ((lookup-Permitted, i), λ e. inl refl)
    noted_lookup log i false = ((lookup-Permitted, i), λ e. cc)

    lookup-Leaves :
        Triple
          (OfHost All)
          (fetch_row_in_filter_scope (traced_deps deps) table sys_id none)
          (Outcome (λ row. OfHost (Answered table sys_id (is_some row))) (OfHost All))
    unfolding fetch_row_in_filter_scope counted_request
    lookup-Leaves =
        let asked = λ (res : SnResponse (List (Row V))).
          OfHost {W = W} (Answered table sys_id (has_row res.body)) in
        Leaves-bind _ _
          (Leaves-then _ _ (metered-Kept All _) (
            Leaves-then _ _ (metered-Kept All _) (
              send-Leaves All All (λ res. Answered table sys_id (has_row res.body))
                (λ q r. listed q (found_in r)) deps.http.get_rows
                (scope_request deps table sys_id none)
                (λ log i res. noted_lookup log i (has_row res.body))
                (λ log i r. (noted_lookup log i (found_in r)).0))))
          λ res. Leaves-then _ _ (mapped-Leaves {I = asked res} res (λ s i. i.0)) (
            Leaves-check _ _ (λ s i. i.0)
              λ rows e. Leaves-return _ (λ s i. rw (first-has_row res.body rows e) i))

    scope_row-Leaves :
        (f : Text) (row : Option (Row V))
        → Triple
            (OfHost {W = W} (Answered table sys_id (is_some row)))
            (check (in_scope deps tools client row))
            (Outcome
              (λ r. OfHost (λ log. All log × Scoped table sys_id (some f) r log))
              (OfHost All))
    scope_row-Leaves f none = Leaves-checked _ (λ s i. i.0) (λ a e. absurd (cc e))
    scope_row-Leaves f (some row) =
        Leaves-checked _ (λ s i. i.0) (λ r e s i. (i.0, (i.1 refl, has_some r e)))
      where
        has_some : (r : Option (Row V)) → ok (some row) ≡ ok r → is_some r ≡ true
        has_some none e = cc
        has_some (some q) e = refl

    by_filter-Leaves :
        (o : Option Text)
        → Triple
            (OfHost All)
            (if is_some o
              then (fetch_row_in_filter_scope (traced_deps deps) table sys_id none >>= λ row.
                  check (in_scope deps tools client row))
              else return none)
            (Outcome (λ row. OfHost (λ log. All log × Scoped table sys_id o row log)) (OfHost All))
    by_filter-Leaves none = Leaves-return none (λ s i. (i, tt))
    by_filter-Leaves (some f) = Leaves-bind _ _ lookup-Leaves (scope_row-Leaves f)

    pub assert_scope-Leaves :
        Triple
          (OfHost All)
          (assert_sys_id_in_row_filter_scope
            (traced_deps deps)
            (traced_tools tools)
            (traced_client client)
            table
            sys_id)
          (Outcome
            (λ row. OfHost (λ log.
              All log × Scoped table sys_id (mandatory_filter deps.actor_policy table) row log))
            (OfHost All))
    unfolding assert_sys_id_in_row_filter_scope
    assert_scope-Leaves = by_filter-Leaves (mandatory_filter deps.actor_policy table)
