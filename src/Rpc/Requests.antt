-- ===== src/Rpc/Requests.antt =====
-- The requests that the methods make, and the filter in front of their queries.
use snow_mcp.Common.{ℕ, ◌≡◌, false, Option, some, List, ◌++◌, inl, inr, ◌⊎◌, ◌∙◌}
use snow_mcp.Errors.{ok}
use snow_mcp.Text.{Text, text}
use snow_mcp.Validate.{has_structural_operator}
use snow_mcp.Policy.{mandatory_filter, apply_row_filter, assert_policy_row_filters_safe}
use snow_mcp.Policy.Filters.{apply_row_filter-kept}
use snow_mcp.Rpc.{
  RpcDeps, SnRequest, table_list, table_record, table_stats, if_not_empty, list_params,
  record_params, stats_params, request_limit, with_sys_id,
}
use snow_mcp.Rpc.Permitted.{Behind-of, Filtered, table_of, if_not_empty-prefix}

module _ {W V : Type 0} (deps : RpcDeps W V) where
  -- The requests that the methods make.
  abbrev pub scope_request : Text → Text → Option (List Text) → SnRequest
  scope_request t s fields = record {
    endpoint = table_list t;
    params =
        list_params 1 (some (apply_row_filter deps.actor_policy t (text "sys_id=" ++ s))) fields;
  }

  abbrev pub query_request : Text → ℕ → Text → Option (List Text) → SnRequest
  query_request t limit q fields = record {
    endpoint = table_list t;
    params =
        list_params (request_limit limit) (if_not_empty (apply_row_filter deps.actor_policy t q))
          (with_sys_id fields);
  }

  abbrev pub row_request : Text → Text → Option (List Text) → SnRequest
  row_request t s fields = record { endpoint = table_record t s; params = record_params fields }

  abbrev pub stats_request : Text → Text → Option (List Text) → SnRequest
  stats_request t q groups = record {
    endpoint = table_stats t;
    params = stats_params (if_not_empty (apply_row_filter deps.actor_policy t q)) groups;
  }

  module _ (safe : assert_policy_row_filters_safe deps.actor_policy ≡ ok tt) where
    -- A request keeps the filter of its table, if its query is made from one without structural
    -- operators.
    pub Filtered-query :
        (req : SnRequest) (q : Text)
        → let sent = apply_row_filter deps.actor_policy (table_of req.endpoint) q in
          (req.params.query ≡ some sent) ⊎ (req.params.query ≡ if_not_empty sent)
          → ((f : Text)
              → mandatory_filter deps.actor_policy (table_of req.endpoint) ≡ some f
              → has_structural_operator q ≡ false)
          → Filtered deps.actor_policy req
    Filtered-query req q made safe_query = Behind-of _ req.params.query λ f e.
        let t = table_of req.endpoint in
        let (structural, prefix) =
          apply_row_filter-kept deps.actor_policy t f q safe e (safe_query f e) in
        let sent = apply_row_filter deps.actor_policy t q in
        (
          sent,
          by_form made (if_not_empty-prefix deps.actor_policy t f sent e prefix),
          structural,
          prefix,
        )
      where
        by_form :
            {o : Option Text} {sent : Text}
            → (o ≡ some sent) ⊎ (o ≡ if_not_empty sent)
            → if_not_empty sent ≡ some sent
            → o ≡ some sent
        by_form (inl h) e = h
        by_form (inr h) e = h ∙ e
