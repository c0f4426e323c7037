-- ===== src/Policy/Access.antt =====
-- Which instance, table and mode an actor's policy lets through.
use snow_mcp.Common.{
  ◌≡◌, ◌↔◌, refl, Bool, true, false, Option, none, some, List, [], ◌∷◌, any, arith,
}
use snow_mcp.Errors.{ok}
use snow_mcp.Risk.{RiskLe, risk_ltb-RiskLe, RiskLe-risk_ltb}
use snow_mcp.Mode.{Mode, mode_risk}
use snow_mcp.Text.{Text, text_eq, includes}
use snow_mcp.Policy.{
  TableRule, name_rule, pattern_rule, ActorPolicy, compile_rules, matches_table, is_table_allowed,
  assert_mode_within_policy, assert_actor_policy, or_no_rules, allowed_by,
}

-- A rule matches a table.
abbrev pub rule_matches : Text → TableRule → Bool
rule_matches t (name_rule name) = text_eq name t
rule_matches t (pattern_rule p) = p t

-- The split of the rules into names and patterns loses no rule.
matches_table-compile_rules :
    (rs : List TableRule) (t : Text) → matches_table (compile_rules rs) t ≡ any (rule_matches t) rs
unfolding matches_table compile_rules includes
matches_table-compile_rules [] t = refl
matches_table-compile_rules (name_rule name ∷ rs) t =
    let rest = matches_table-compile_rules rs t in ground (arith, rest)
matches_table-compile_rules (pattern_rule p ∷ rs) t =
    let rest = matches_table-compile_rules rs t in ground (arith, rest)

-- With an allow list a rule of it has to match; without one every table will do.
abbrev pub Allows : Option (List TableRule) → Text → Type 0
Allows none t = Unit
Allows (some rs) t = any (rule_matches t) rs ≡ true

abbrev pub MayTouch : ActorPolicy → Text → Text → Mode → Type 0
MayTouch p host table mode =
    (includes p.allowed_instances host ≡ true)
    × (any (rule_matches table) (or_no_rules p.deny_rules) ≡ false)
    × Allows p.allow table
    × RiskLe (mode_risk mode) (mode_risk p.max_mode)

allowed_by-Allows : (o : Option (List TableRule)) (t : Text) → (allowed_by o t ≡ true) ↔ Allows o t
allowed_by-Allows none t = (λ h. tt, λ h. refl)
allowed_by-Allows (some rs) t =
    let e = matches_table-compile_rules rs t in (λ h. rw (← e) h, λ h. rw e h)

pub passes_mode :
    (p : ActorPolicy) (mode : Mode)
    → (assert_mode_within_policy p mode ≡ ok tt) ↔ RiskLe (mode_risk mode) (mode_risk p.max_mode)
unfolding assert_mode_within_policy
passes_mode p mode = (
  λ h. risk_ltb-RiskLe (mode_risk p.max_mode) (mode_risk mode) (ground (arith, h)),
  λ h. let e = RiskLe-risk_ltb (mode_risk p.max_mode) (mode_risk mode) h in ground (arith, e),
)

is_table_allowed_iff :
    (p : ActorPolicy) (t : Text)
    → (is_table_allowed p t ≡ true)
      ↔ ((any (rule_matches t) (or_no_rules p.deny_rules) ≡ false) × Allows p.allow t)
unfolding is_table_allowed
is_table_allowed_iff p t =
    let deny = matches_table-compile_rules (or_no_rules p.deny_rules) t in
    let allow = allowed_by-Allows p.allow t in
    (
      λ h. (ground (arith, h, deny), allow.0 (ground (arith, h))),
      λ h. let allowed = allow.1 h.1 in ground (arith, h.0, deny, allowed),
    )

passes-parts :
    (p : ActorPolicy) (host table : Text) (mode : Mode)
    → assert_actor_policy p host table mode ≡ ok tt
    → (includes p.allowed_instances host ≡ true)
      × (is_table_allowed p table ≡ true)
      × (assert_mode_within_policy p mode ≡ ok tt)
unfolding assert_actor_policy
passes-parts p host table mode h = (ground (arith, h), ground (arith, h), ground (arith, h))

parts-passes :
    (p : ActorPolicy) (host table : Text) (mode : Mode)
    → includes p.allowed_instances host ≡ true
    → is_table_allowed p table ≡ true
    → assert_mode_within_policy p mode ≡ ok tt
    → assert_actor_policy p host table mode ≡ ok tt
unfolding assert_actor_policy
parts-passes p host table mode a b c = rw (a, b, c) refl

-- The check of a table passes exactly if the instance is one of the actor's, no deny rule matches the
-- table, an allow rule does if there is an allow list, and the mode's risk is at most the ceiling's.
pub assert_actor_policy_iff :
    (p : ActorPolicy) (host table : Text) (mode : Mode)
    → (assert_actor_policy p host table mode ≡ ok tt) ↔ MayTouch p host table mode
assert_actor_policy_iff p host table mode = (
  λ h.
      let (a, b, c) = passes-parts p host table mode h in
      let (d, e) = (is_table_allowed_iff p table).0 b in (a, d, e, (passes_mode p mode).0 c),
  λ (a, b, c, d).
      parts-passes p host table mode a ((is_table_allowed_iff p table).1 (b, c))
        ((passes_mode p mode).1 d),
)
