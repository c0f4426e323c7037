-- ===== src/Rpc/Results.antt =====
-- What the reading methods return: rows within the page, with the masked columns gone.
use snow_mcp.Common.{
  ℕ, zero, suc, sym, ◌∙◌, Bool-cases, inl, inr, ◌≤◌, ◌≡◌, false, Option, List, [], ◌∷◌, map, length,
  All, arith,
}
use snow_mcp.Errors.{ok}
use snow_mcp.Exec.Rules.{Ensures, Ensures-bind, Ensures-then, Ensures-check, Ensures-return}
use snow_mcp.Text.{Text}
use snow_mcp.Validate.{
  Unknown, undefined, integer, validate_table_name, validate_limit, table_page_cap,
}
use snow_mcp.Policy.{ActorPolicy, masked_fields, is_field_masked, mask_row}
use snow_mcp.Policy.Masks.{is_covered, is_field_masked-covers}
use snow_mcp.Policy.Access.{MayTouch}
use snow_mcp.Rpc.Gate.{gate_read-Ensures}
use snow_mcp.Rpc.{
  Row, RpcDeps, TableQueryArgs, TableRowsResult, take, page_limit, is_partial, finish_query,
  table_query, or_empty,
}

-- No column of the row is covered by a mask of the table.
abbrev pub ShowsNoMask : {V : Type 0} → ActorPolicy → Text → Row V → Type 0
ShowsNoMask p t row = All (λ e. is_covered p t e.0 ≡ false) row

mask_row-ShowsNoMask :
    {V : Type 0} (p : ActorPolicy) (t : Text) (row : Row V) → ShowsNoMask p t (mask_row p t row)
unfolding mask_row
mask_row-ShowsNoMask p t [] = tt
mask_row-ShowsNoMask p t ((f, v) ∷ row) =
    let covered = is_field_masked-covers (masked_fields p t) f in
    let rest = mask_row-ShowsNoMask p t row in
    elim (Bool-cases (is_field_masked (masked_fields p t) f)) [
      | inl hidden ↦ rw hidden rest
      | inr shown ↦ rw shown (sym covered ∙ shown, rest)
    ]

map-ShowsNoMask :
    {V : Type 0} (p : ActorPolicy) (t : Text) (rows : List (Row V))
    → All (ShowsNoMask p t) (map (mask_row p t) rows)
map-ShowsNoMask p t [] = tt
map-ShowsNoMask p t (row ∷ rows) = (mask_row-ShowsNoMask p t row, map-ShowsNoMask p t rows)

length-map-take : {A B : Type 0} (f : A → B) (n : ℕ) (xs : List A) → length (map f (take n xs)) ≤ n
unfolding take
length-map-take f zero xs = omega arith
length-map-take f (suc n) [] = omega arith
length-map-take f (suc n) (x ∷ xs) = omega (arith, length-map-take f n xs)

validate_limit-le :
    {J : Type 0} (v : Unknown J) (o : Option ℕ)
    → validate_limit v ≡ ok o
    → page_limit o ≤ table_page_cap
unfolding validate_limit
validate_limit-le undefined o h = ground (arith, h)
validate_limit-le (integer n) o h = ground (arith, h)
validate_limit-le _ o h = cc

-- What a query for a table may return.
abbrev pub Shown : {W V J : Type 0} → RpcDeps W V → TableQueryArgs J → TableRowsResult V → Type 0
Shown deps args r =
    (t : Text) × (validate_table_name args.table ≡ ok t)
    × MayTouch deps.actor_policy deps.instance_host t deps.effective_mode
    × (length r.rows ≤ table_page_cap)
    × All (ShowsNoMask deps.actor_policy t) r.rows

module _ {W V J : Type 0} (deps : RpcDeps W V) (args : TableQueryArgs J) where
  finish_query-Shown :
      (t : Text) (limit : ℕ) (raw : List (Row V))
      → validate_table_name args.table ≡ ok t
      → MayTouch deps.actor_policy deps.instance_host t deps.effective_mode
      → limit ≤ table_page_cap
      → Ensures (finish_query deps t limit raw) (Shown deps args)
  unfolding finish_query
  finish_query-Shown t limit raw valid may le =
      let shown : Shown deps args (record {
        rows = map (mask_row deps.actor_policy t) (take limit raw);
        partial = is_partial limit (length raw);
      }) =
        (
          t,
          valid,
          may,
          omega (arith, le, length-map-take (mask_row deps.actor_policy t) limit raw),
          map-ShowsNoMask deps.actor_policy t (take limit raw),
        ) in
      Ensures-then _ _ (Ensures-then _ _ (Ensures-return _ shown))

  -- A query that returns was for a table, instance and mode that the actor's policy lets through; it
  -- returns no more rows than a page has, and none of them shows a column that a mask covers.
  pub table_query-Shown : Ensures (table_query deps args) (Shown deps args)
  unfolding table_query
  table_query-Shown = Ensures-check _ _ λ t valid. Ensures-check _ _ λ fields _.
      Ensures-check _ _ λ q _. Ensures-check _ _ λ limit le.
        gate_read-Ensures deps t fields _ λ (may, requested). Ensures-then _ _ (
          Ensures-bind _ _ λ res. Ensures-then _ _ (
            Ensures-bind _ _ λ raw.
              finish_query-Shown t (page_limit limit) (or_empty raw) valid may
                (validate_limit-le args.limit limit le)))
