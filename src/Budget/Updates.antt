-- ===== src/Budget/Updates.antt =====
-- What a write of `updates` leaves in every counter, global and per user.
use snow_mcp.Common.{
  ℕ, ◌≡◌, refl, ◌∙◌, String, Bool, true, false, ◌&&◌, ◌||◌, Option, none, some, List, [], ◌∷◌,
  filter_by, if◌then◌else◌, arith, Bool-cases, inl, inr, str_eq, str_eq_iff,
}
use snow_mcp.Budget.Storage.{
  Dimension, unique_workers, dim_eq, dimensions, global, per_user, Counters, counter, put_all,
  dim_eq-eq, dim_eq_self, mem, put_laws, put_global-per_user,
}
use snow_mcp.Budget.{updates}

-- The user that an operation accounts to.
abbrev pub is_user : Option String → String → Bool
is_user none v = false
is_user (some u) v = str_eq u v

module _ (f : Dimension → ℕ → ℕ) (s : Counters) where
  -- The later updates win; the first one counts where they do not write.
  choose_global :
      (d e : Dimension) (b : Bool) (n : ℕ)
      → (if b
          then f e (counter s (global e))
          else if dim_eq d e
          then f d (counter s (global d))
          else n)
        ≡ (if dim_eq d e || b then f e (counter s (global e)) else n)
  choose_global d e true n = ground arith
  choose_global d e false n = elim (Bool-cases (dim_eq d e)) [
    | inl h ↦ rw h (rw (dim_eq-eq d e h) refl)
    | inr h ↦ rw h
  ]

  choose_user :
      (u v : String) (d e : Dimension) (b : Bool) (n : ℕ)
      → (if str_eq u v && b
          then f e (counter s (per_user v e))
          else if str_eq u v && dim_eq d e
          then f d (counter s (per_user u d))
          else n)
        ≡ (if str_eq u v && (dim_eq d e || b) then f e (counter s (per_user v e)) else n)
  choose_user u v d e b n = elim (Bool-cases (str_eq u v)) [
    | inr h ↦ rw h
    | inl h ↦ rw h (rw ((str_eq_iff u v).0 h) (same_user v b))
  ]
    where
      same_user :
          (w : String) (b : Bool)
          → (if b
              then f e (counter s (per_user w e))
              else if dim_eq d e
              then f d (counter s (per_user w d))
              else n)
            ≡ (if dim_eq d e || b then f e (counter s (per_user w e)) else n)
      same_user w true = ground arith
      same_user w false = elim (Bool-cases (dim_eq d e)) [
        | inl h ↦ rw h (rw (dim_eq-eq d e h) refl)
        | inr h ↦ rw h
      ]

  -- A global counter holds the new value if its dimension is listed.
  pub counter-updates-global :
      (user : Option String) (ds : List Dimension) (t : Counters) (e : Dimension)
      → counter (put_all (updates f user s ds) t) (global e)
        ≡ (if mem e ds then f e (counter s (global e)) else counter t (global e))
  unfolding updates put_all
  counter-updates-global none [] t e = refl
  counter-updates-global (some u) [] t e = refl
  counter-updates-global none (d ∷ ds) t e =
      counter-updates-global none ds _ e ∙ simp put_laws (choose_global d e (mem e ds) _)
  counter-updates-global (some u) (d ∷ ds) t e =
      counter-updates-global (some u) ds _ e ∙ simp put_laws (choose_global d e (mem e ds) _)

  -- So does a counter of the user that the operation accounts to; the others keep theirs.
  pub counter-updates-per_user :
      (user : Option String) (ds : List Dimension) (t : Counters) (v : String) (e : Dimension)
      → counter (put_all (updates f user s ds) t) (per_user v e) ≡ (
          if is_user user v && mem e ds
          then f e (counter s (per_user v e))
          else counter t (per_user v e))
  unfolding updates put_all
  counter-updates-per_user none [] t v e = refl
  counter-updates-per_user (some u) [] t v e = ground arith
  counter-updates-per_user none (d ∷ ds) t v e =
      counter-updates-per_user none ds _ v e ∙ put_global-per_user t v d e _
  counter-updates-per_user (some u) (d ∷ ds) t v e =
      counter-updates-per_user (some u) ds _ v e ∙ simp put_laws (choose_user u v d e (mem e ds) _)

mem-filter_by :
    (p : Dimension → Bool) (ds : List Dimension) (e : Dimension)
    → mem e (filter_by p ds) ≡ (p e && mem e ds)
mem-filter_by p [] e = ground arith
mem-filter_by p (d ∷ ds) e = elim (Bool-cases (dim_eq d e)) [
  | inl h ↦ rw (← dim_eq-eq d e h) (elim (Bool-cases (p d)) [
    | inl q ↦ rw (q, dim_eq_self d)
    | inr q ↦ rw q (rw (mem-filter_by p ds d) (rw q))
  ])
  | inr h ↦ elim (Bool-cases (p d)) [
    | inl q ↦ rw (q, h) (mem-filter_by p ds e)
    | inr q ↦ rw (q, h) (mem-filter_by p ds e)
  ]
]

mem-dimensions : (e : Dimension) → mem e dimensions ≡ true
unfolding dim_eq
mem-dimensions unique_workers = refl
mem-dimensions _ = refl

-- The dimensions that an operation writes are those that pass its filter.
pub mem_selected : (p : Dimension → Bool) (e : Dimension) → mem e (filter_by p dimensions) ≡ p e
mem_selected p e = mem-filter_by p dimensions e ∙ rw (mem-dimensions e) (and_true (p e))
  where
    and_true : (b : Bool) → (b && true) ≡ b
    and_true true = refl
    and_true false = refl
