-- ===== src/Mutation/CurrentRow.antt =====
-- The row that the snapshot of an update takes: it is the one that the scope check found, or it is read
-- where the table has no mandatory filter.
use snow_mcp.Common.{◌≡◌, refl, false, Option, none, some, List, ◌∷◌, inr}
use snow_mcp.Exec.Rules.{Triple}
use snow_mcp.Exec.Leaves.{
  Ends, Leaves-bind, Leaves-then, Leaves-return, Leaves-check, Leaves-weaken,
}
use snow_mcp.Text.{Text}
use snow_mcp.Policy.{mandatory_filter}
use snow_mcp.Policy.Access.{MayTouch}
use snow_mcp.Rpc.{Row, RpcDeps, is_some, counted_request}
use snow_mcp.RunBudget.{RunBudget, Metered}
use snow_mcp.Rpc.Permitted.{Permitted, Behind-of}
use snow_mcp.Rpc.Requests.{row_request}
use snow_mcp.Mutation.Parts.{WriteClient, MutationDeps, MutationTools}
use snow_mcp.Mutation.Update.{current_row}
use snow_mcp.Mutation.Trace.{
  Sent, fetched, traced_deps, traced_client, traced_tools, OfHost, metered-Kept,
}
use snow_mcp.Mutation.Permitted.{PermittedAfter, AllPermitted}
use snow_mcp.Mutation.Steps.{send-Leaves, mapped-Leaves}
use snow_mcp.Mutation.Lookup.{Scoped}

module _ {W V K J : Type 0} (deps : RpcDeps W V) (tools : MutationTools W V K J)
    (client : WriteClient W V K) (mutation : MutationDeps W V K J) (table sys_id : Text) where
  abbrev All : List Sent → Type 0
  All = AllPermitted deps tools mutation

  abbrev filter : Option Text
  filter = mandatory_filter deps.actor_policy table

  abbrev ScopedBy : Option Text → Option (Row V) → List Sent → Type 0
  ScopedBy = Scoped deps tools client mutation table sys_id

  -- A scope check that gave no row stands on a table without a filter.
  pub no_row-open :
      (o : Option Text) (row : Option (Row V)) (log : List Sent)
      → ScopedBy o row log
      → is_some row ≡ false
      → is_some o ≡ false
  no_row-open none row log i e = refl
  no_row-open (some f) row log i e = cc (i.1, e)

  -- What is known is kept by another request.
  pub ScopedBy-grows :
      (o : Option Text) (row : Option (Row V)) (e : Sent) (log : List Sent)
      → ScopedBy o row log
      → ScopedBy o row (e ∷ log)
  ScopedBy-grows none row e log i = tt
  ScopedBy-grows (some f) row e log i = (inr i.0, i.1)

  record-Permitted :
      MayTouch deps.actor_policy deps.instance_host table deps.effective_mode
      → is_some filter ≡ false
      → Permitted deps (row_request deps table sys_id none)
  record-Permitted may open_table =
      (may, Behind-of _ none (λ f e. absurd (cc (rw e at open_table))), tt)

  pub current_row-Leaves :
      (may : MayTouch deps.actor_policy deps.instance_host table deps.effective_mode)
      (Q : List Sent → Type 0) (row : Option (Row V))
      → (is_some row ≡ false → is_some filter ≡ false)
      → ((log : List Sent) → Q log → All log)
      → ((e : Sent) (log : List Sent)
          → PermittedAfter deps tools mutation e log
          → Q log
          → Q (e ∷ log))
      → Triple
          (OfHost {W = W} Q)
          (current_row
            (traced_deps deps)
            (traced_tools tools)
            (traced_client client)
            table
            sys_id
            row)
          (Ends (OfHost Q) (OfHost All))
  unfolding current_row counted_request
  current_row-Leaves may Q (some r) open_table all grows = Leaves-return r (λ s i. i)
  current_row-Leaves may Q none open_table all grows =
      let weak = λ (m : RunBudget → Metered).
        Leaves-weaken _ (metered-Kept {W = W} Q m) (λ a s i. i) (λ s i. all s.outside.1 i) in
      let allowed = record-Permitted may (open_table refl) in
      Leaves-bind _ _
        (Leaves-then _ _ (weak _) (
          Leaves-then _ _ (weak _) (
            send-Leaves Q All (λ res. Q) (λ q r. fetched q) deps.http.get_row
              (row_request deps table sys_id none) (λ log i res. grows _ log allowed i)
              (λ log i r. (allowed, all log i)))))
        λ res.
          Leaves-then _ _ (mapped-Leaves res (λ s i. all s.outside.1 i))
            (Leaves-check _ _ (λ s i. all s.outside.1 i) λ r e. Leaves-return _ (λ s i. i))
