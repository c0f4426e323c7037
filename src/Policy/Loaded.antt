-- ===== src/Policy/Loaded.antt =====
-- What is known of every policy that the loader of packages/mcp-server/src/authz/actor-policy.ts
-- returns.
use snow_mcp.Common.{
  ℕ, ◌≤◌, ◌≡◌, ◌⊎◌, refl, true, Option, none, some, List, [], ◌∷◌, map, All, leb, arith, Bool-cases,
  inl, inr,
}
use snow_mcp.Errors.{ok}
use snow_mcp.Mode.{Mode, is_valid_mode, read_only-valid, valid_or_read_only}
use snow_mcp.Text.{Text}
use snow_mcp.Validate.{is_table_name}
use snow_mcp.Policy.{
  ActorPolicy, name_rule, deny_all_policy, assert_policy_row_filters_safe, or_no_filters,
  assert_filters_safe,
}
use snow_mcp.Policy.Loader.{
  PolicyEnv, parse_list, parse_table_map, parse_fields, parse_filter, parse_row_filters,
  mode_or_read_only, if_any, positive, parse_positive_int, has_flat_policy_config,
  restrictive_policy, build_policy, load_actor_policy, parse_table_allowlist,
}
use snow_mcp.Policy.Entries.{
  bind-ok, then-ok, value_of-ok, GoodEntry, MaskFields, NonEmpty, parse_fields-MaskFields,
  parse_filter-NonEmpty, parse_table_allowlist-All, parse_table_scoped_config-All,
}

-- What the allow list of a policy names: valid table names only.
abbrev pub Names : List Text → ActorPolicy → Type 0
Names ts p = (p.allow ≡ some (map name_rule ts)) × All (λ t. is_table_name t ≡ true) ts

-- A policy that fails closed: it is for one host, allows tables by valid names only, has no mask and no
-- filter that is empty, a mode that is one, ceilings of at least one, and filters that are safe.
abbrev pub FailsClosed : Text → ActorPolicy → Type 0
FailsClosed host p =
    (p.allowed_instances ≡ host ∷ [])
    × ((ts : List Text) × Names ts p)
    × (p.deny_rules ≡ none)
    × All (GoodEntry MaskFields) p.field_masks
    × All (GoodEntry NonEmpty) (or_no_filters p.row_filters)
    × (is_valid_mode p.max_mode ≡ true)
    × (1 ≤ p.max_rows_per_run)
    × (1 ≤ p.max_bytes_per_run)
    × (assert_policy_row_filters_safe p ≡ ok tt)

pub deny_all_policy-FailsClosed : (host : Text) → FailsClosed host (deny_all_policy host)
unfolding assert_policy_row_filters_safe assert_filters_safe
deny_all_policy-FailsClosed host =
    (refl, ([], (refl, tt)), refl, tt, tt, read_only-valid, ground arith, ground arith, refl)

mode_or_read_only-valid : (m : Option Mode) → is_valid_mode (mode_or_read_only m) ≡ true
mode_or_read_only-valid none = read_only-valid
mode_or_read_only-valid (some m) = valid_or_read_only m

filters-if_any :
    (fs : List (Text × Text))
    → All (GoodEntry NonEmpty) fs
    → All (GoodEntry NonEmpty) (or_no_filters (if_any fs))
filters-if_any [] h = h
filters-if_any (f ∷ fs) h = h

-- The default ceilings.
some_rows : 1 ≤ 10000
some_rows = omega arith

some_bytes : 1 ≤ 5000000
some_bytes = omega arith

module _ {N : Type 0} (natural : N → Option ℕ) where
  positive_lem : (o : Option ℕ) (n : ℕ) → positive natural o ≡ ok n → 1 ≤ n
  positive_lem none n h = absurd (cc h)
  positive_lem (some m) n h = elim (Bool-cases (leb 1 m)) [
    | inl e ↦
        let e1 : ok m ≡ ok n = ground (arith, e, h) in rw (← value_of-ok e1) (ground (arith, e))
    | inr e ↦ absurd (ground (arith, e, h))
  ]

  parse_positive_int-bound :
      (o : Option N) (d n : ℕ) → 1 ≤ d → parse_positive_int natural o d ≡ ok n → 1 ≤ n
  unfolding parse_positive_int
  parse_positive_int-bound none d n h e = rw (← value_of-ok e) h
  parse_positive_int-bound (some v) d n h e = positive_lem (natural v) n e

  build_policy-FailsClosed :
      (env : PolicyEnv N) (host : Text) (ts : List Text) (masks : List (Text × List Text))
      (filters : List (Text × Text)) (p : ActorPolicy)
      → All (λ t. is_table_name t ≡ true) ts
      → All (GoodEntry MaskFields) masks
      → All (GoodEntry NonEmpty) filters
      → build_policy natural env host ts masks filters ≡ ok p
      → FailsClosed host p × Names ts p
  unfolding build_policy
  build_policy-FailsClosed env host ts masks filters p names good_masks good_filters e =
      let (rows, e1, f1) = bind-ok (parse_positive_int natural env.max_rows_per_run 10000) _ p e in
      let (bytes, e2, f2) =
        bind-ok (parse_positive_int natural env.max_bytes_per_run 5000000) _ p f1 in
      let (safe, f3) = then-ok _ _ p f2 in
      let f4 : ok (restrictive_policy natural env host ts masks filters rows bytes) ≡ ok p = f3 in
      rw (← value_of-ok f4) (
        (
          refl,
          (ts, (refl, names)),
          refl,
          good_masks,
          filters-if_any filters good_filters,
          mode_or_read_only-valid env.max_mode,
          parse_positive_int-bound env.max_rows_per_run 10000 rows some_rows e1,
          parse_positive_int-bound env.max_bytes_per_run 5000000 bytes some_bytes e2,
          safe,
        ),
        (refl, names),
      )

  -- The policy of the settings: it fails closed, and its allow list is the configured one, or empty.
  pub load_actor_policy-Names :
      (env : PolicyEnv N) (host : Text) (p : ActorPolicy)
      → load_actor_policy natural env host ≡ ok p
      → FailsClosed host p × (Names (parse_list env.table_allowlist) p ⊎ Names [] p)
  unfolding load_actor_policy parse_table_map parse_row_filters
  load_actor_policy-Names env host p e =
      let (ts, e1, f1) = bind-ok (parse_table_allowlist env.table_allowlist) _ p e in
      let (masks, e2, f2) = bind-ok (parse_table_map env.field_masks) _ p f1 in
      let (filters, e3, f3) = bind-ok (parse_row_filters env.row_filters) _ p f2 in
      let (listed, names) = parse_table_allowlist-All env.table_allowlist ts e1 in
      let good_masks : All (GoodEntry MaskFields) masks =
        parse_table_scoped_config-All MaskFields parse_fields parse_fields-MaskFields
          env.field_masks masks e2 in
      let good_filters : All (GoodEntry NonEmpty) filters =
        parse_table_scoped_config-All NonEmpty parse_filter parse_filter-NonEmpty env.row_filters
          filters e3 in
      elim (Bool-cases (has_flat_policy_config natural env)) [
        | inl c ↦
            let built : build_policy natural env host ts masks filters ≡ ok p =
              ground (arith, f3, c) in
            let (closed, named) =
              build_policy-FailsClosed env host ts masks filters p names good_masks good_filters
                built in
            (closed, inl (rw listed named))
        | inr c ↦
            let denied : ok (deny_all_policy host) ≡ ok p = ground (arith, f3, c) in
            rw (← value_of-ok denied) (deny_all_policy-FailsClosed host, inr (refl, tt))
      ]
