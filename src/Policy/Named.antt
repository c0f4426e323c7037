-- ===== src/Policy/Named.antt =====
-- The policies that `loadNamedActorPolicies` of packages/mcp-server/src/authz/actor-policy.ts
-- returns, and what the policy of the settings lets an actor touch.
use snow_mcp.Common.{
  ap, subst, ℕ, ◌≡◌, refl, Bool, true, false, not, ◌&&◌, ◌||◌, Option, List, [], ◌∷◌, map, All, any,
  arith, Bool-cases, inl, inr, if◌then◌else◌,
}
use snow_mcp.Errors.{Result, ok}
use snow_mcp.Risk.{RiskLe, Risk, finite, infinity}
use snow_mcp.Mode.{Mode, is_valid_mode, mode_risk, mode_risk-valid, mode_risk-invalid}
use snow_mcp.Text.{Text, text, text_eq, includes}
use snow_mcp.Text.Laws.{text_eq-eq}
use snow_mcp.Validate.{is_table_name}
use snow_mcp.Policy.{ActorPolicy, name_rule, deny_all_policy, assert_actor_policy}
use snow_mcp.Policy.Access.{rule_matches, Allows, assert_actor_policy_iff}
use snow_mcp.Policy.Loader.{
  PolicyEnv, NamedEntry, settings, other_entry, trim, parse_list, set_policy,
  has_flat_policy_config, load_actor_policy, load_entry, load_entries, default_policy,
  load_named_actor_policies, is_not_empty, is_policy_name, or_empty_text,
}
use snow_mcp.Policy.Entries.{bind-ok, value_of-ok}
use snow_mcp.Policy.Loaded.{
  FailsClosed, Names, load_actor_policy-Names, deny_all_policy-FailsClosed,
}

-- A policy of the map: its name is valid, and it fails closed.
abbrev pub GoodPolicy : Text → Text × ActorPolicy → Type 0
GoodPolicy host e = (is_policy_name e.0 ≡ true) × FailsClosed host e.1

set_policy-All :
    (host name : Text) (p : ActorPolicy) (ps : List (Text × ActorPolicy))
    → GoodPolicy host (name, p)
    → All (GoodPolicy host) ps
    → All (GoodPolicy host) (set_policy name p ps)
unfolding set_policy
set_policy-All host name p [] g h = (g, tt)
set_policy-All host name p ((n, q) ∷ ps) g h = elim (Bool-cases (text_eq n name)) [
  | inl e ↦ rw e ((h.0.0, g.1), h.1)
  | inr e ↦ rw e (h.0, set_policy-All host name p ps g h.1)
]

if-true :
    {A : Type 0} (b : Bool) (x y : Result A) (a : A)
    → b ≡ true
    → (if b then x else y) ≡ ok a
    → x ≡ ok a
if-true true x y a h e = e
if-true false x y a h e = absurd (cc h)

if-false :
    {A : Type 0} (b : Bool) (x y : Result A) (a : A)
    → b ≡ false
    → (if b then x else y) ≡ ok a
    → y ≡ ok a
if-false true x y a h e = absurd (cc h)
if-false false x y a h e = e

default-name : is_policy_name (text "default") ≡ true
unfolding is_policy_name
default-name = refl

module _ {N : Type 0} (natural : N → Option ℕ) where
  load_entry-GoodPolicy :
      (host name : Text) (entry : NamedEntry N) (p : ActorPolicy)
      → load_entry natural host name entry ≡ ok p
      → GoodPolicy host (name, p)
  unfolding load_entry
  load_entry-GoodPolicy host name other_entry p e = absurd (cc e)
  load_entry-GoodPolicy host name (settings env) p e =
      let e1 : load_actor_policy natural env host ≡ ok p = ground (arith, e) in
      (ground (arith, e), (load_actor_policy-Names natural env host p e1).0)

  load_entries-All :
      (host : Text) (es : List (Text × NamedEntry N)) (out ps : List (Text × ActorPolicy))
      → All (GoodPolicy host) out
      → load_entries natural host es out ≡ ok ps
      → All (GoodPolicy host) ps
  unfolding load_entries
  load_entries-All host [] out ps h e = rw (← value_of-ok e) h
  load_entries-All host ((name, entry) ∷ es) out ps h e =
      let (p, e1, e2) = bind-ok (load_entry natural host name entry) _ ps e in
      load_entries-All host es (set_policy name p out) ps
        (set_policy-All host name p out (load_entry-GoodPolicy host name entry p e1) h) e2

  default_policy-FailsClosed :
      (parse_json : Text → Result (List (Text × NamedEntry N))) (env : PolicyEnv N) (host : Text)
      (has_json : Bool) (p : ActorPolicy)
      → default_policy natural parse_json env host has_json ≡ ok p
      → FailsClosed host p
  default_policy-FailsClosed parse_json env host has_json p e =
      elim (Bool-cases (has_json && not (has_flat_policy_config natural env))) [
        | inl c ↦
            let denied : ok (deny_all_policy host) ≡ ok p = ground (arith, e, c) in
            rw (← value_of-ok denied) (deny_all_policy-FailsClosed host)
        | inr c ↦
            let loaded : load_actor_policy natural env host ≡ ok p = ground (arith, e, c) in
            (load_actor_policy-Names natural env host p loaded).0
      ]

  -- If loading returns policies, each has a valid name and fails closed: it is for the given host only,
  -- allows tables by valid names only, denies none by rule, masks fields with valid names on valid
  -- tables, has filters that are not empty and pass the check of mandatory filters, a ceiling that is
  -- one of the three modes, and caps of at least one row and one byte.
  pub load_named_actor_policies-FailsClosed :
      (parse_json : Text → Result (List (Text × NamedEntry N))) (env : PolicyEnv N)
      (json : Option Text) (host : Text) (ps : List (Text × ActorPolicy))
      → load_named_actor_policies natural parse_json env json host ≡ ok ps
      → All (GoodPolicy host) ps
  unfolding load_named_actor_policies
  load_named_actor_policies-FailsClosed parse_json env json host ps e =
      let raw = trim (or_empty_text json) in
      let (p, e1, e2) =
        bind-ok (default_policy natural parse_json env host (is_not_empty raw)) _ ps e in
      let first : All (GoodPolicy host) ((text "default", p) ∷ []) =
        ((default-name, default_policy-FailsClosed parse_json env host _ p e1), tt) in
      elim (Bool-cases (is_not_empty raw)) [
        | inl c ↦
            let (entries, _, e3) = bind-ok (parse_json raw) _ ps (if-true _ _ _ ps c e2) in
            load_entries-All host entries ((text "default", p) ∷ []) ps first e3
        | inr c ↦
            let alone : ok ((text "default", p) ∷ []) ≡ ok ps = if-false _ _ _ ps c e2 in
            rw (← value_of-ok alone) first
      ]

-- A text that a list of names allows is one of them.
any-includes : (ts : List Text) (t : Text) → any (rule_matches t) (map name_rule ts) ≡ includes ts t
unfolding includes
any-includes [] t = refl
any-includes (s ∷ ss) t = ap (λ r. text_eq s t || r) (any-includes ss t)

included-All :
    (P : Text → Type 0) (ts : List Text) (t : Text) → All P ts → includes ts t ≡ true → P t
unfolding includes
included-All P [] t h e = absurd (cc e)
included-All P (s ∷ ss) t h e = elim (Bool-cases (text_eq s t)) [
  | inl c ↦ rw (← text_eq-eq s t c) h.0
  | inr c ↦ included-All P ss t h.1 (ground (arith, e, c))
]

-- What a finite ceiling admits is a mode.
bounded-valid :
    (ceiling mode : Mode)
    → is_valid_mode ceiling ≡ true
    → RiskLe (mode_risk mode) (mode_risk ceiling)
    → is_valid_mode mode ≡ true
bounded-valid ceiling mode h le = elim (Bool-cases (is_valid_mode mode)) [
  | inl e ↦ e
  | inr e ↦ absurd (
      infinite (mode_risk ceiling) (mode_risk-valid ceiling h) (rw (← mode_risk-invalid mode e) le))
]
  where
    infinite : (r : Risk) → RiskLe r (finite 2) → RiskLe infinity r → ⊥
    infinite (finite n) a b = b
    infinite infinity a b = a

only_host : (a b : Text) → includes (a ∷ []) b ≡ true → a ≡ b
unfolding includes
only_host a b h = text_eq-eq a b (ground (arith, h))

empty_list : (t : Text) → includes [] t ≡ true → ⊥
unfolding includes
empty_list t h = cc h

module _ {N : Type 0} (natural : N → Option ℕ) where
  named-includes :
      (ts : List Text) (p : ActorPolicy) (t : Text)
      → Names ts p
      → Allows p.allow t
      → (includes ts t ≡ true) × (is_table_name t ≡ true)
  named-includes ts p t h a =
      let matched : any (rule_matches t) (map name_rule ts) ≡ true =
        subst (λ o. Allows o t) h.0 a in
      let listed : includes ts t ≡ true = rw (← any-includes ts t) matched in
      (listed, included-All (λ s. is_table_name s ≡ true) ts t h.1 listed)

  -- If loading the settings returns a policy, and its check of an instance, a table and a mode passes,
  -- then the instance is the host, the table is in the allow list of the settings and has a valid name,
  -- and the mode is one of the three modes, whatever text the settings have for the ceiling.
  pub load_actor_policy-assert_actor_policy :
      (env : PolicyEnv N) (host instance_host table : Text) (mode : Mode) (p : ActorPolicy)
      → load_actor_policy natural env host ≡ ok p
      → assert_actor_policy p instance_host table mode ≡ ok tt
      → (host ≡ instance_host)
        × (includes (parse_list env.table_allowlist) table ≡ true)
        × (is_table_name table ≡ true)
        × (is_valid_mode mode ≡ true)
  load_actor_policy-assert_actor_policy env host instance_host table mode p e h =
      let (closed, named) = load_actor_policy-Names natural env host p e in
      let (at_host, _, allowed, le) = (assert_actor_policy_iff p instance_host table mode).0 h in
      let here : includes (host ∷ []) instance_host ≡ true =
        subst (λ hs. includes hs instance_host ≡ true) closed.0 at_host in
      let valid = bounded-valid p.max_mode mode closed.5 le in
      elim named [
        | inl listed ↦
            let (named_table, table_ok) =
              named-includes (parse_list env.table_allowlist) p table listed allowed in
            (only_host host instance_host here, named_table, table_ok, valid)
        | inr nothing ↦ absurd (empty_list table (named-includes [] p table nothing allowed).0)
      ]
