-- ===== src/EffectiveMode/Laws.antt =====
-- What `resolveEffectiveMode` guarantees: the ceiling is the lowest of the three, a permitted mode is
-- the requested one, and a mode above a ceiling is denied.
use snow_mcp.Common.{String, ◌≡◌, refl, ◌↔◌, ◌⊎◌, inl, inr, true, Option, none, some}
use snow_mcp.Common.{Bool-cases, if◌then◌else◌}
use snow_mcp.Risk.{
  finite, infinity, risk_ltb, RiskLe, RiskLt, RiskLe-refl, RiskLe-trans, RiskLe-of_RiskLt,
  not-RiskLe-of_RiskLt, risk_ltb-RiskLt, risk_ltb-RiskLe,
}
use snow_mcp.Mode.{Mode, is_valid_mode, mode_risk, mode_risk-invalid, mode_risk-valid}
use snow_mcp.Mode.{parse_scope_max_mode, valid_or_read_only, admin_script-valid}
use snow_mcp.EffectiveMode.{
  min_by_risk, ModeCeilings, ModeCeilingSource, scope, tenant, instance_host, parse_max_mode,
  permitted, mode_not_permitted, CeilingEntry, ceiling_of, entry, lowest_entry, ceiling_entry,
  or_default, resolve_effective_mode,
}

-- The lower of two entries, as one round of the loop keeps it.
abbrev lower : CeilingEntry → CeilingEntry → CeilingEntry
lower e x = if risk_ltb (mode_risk x.mode) (mode_risk e.mode) then x else e

lower-le :
    (e x : CeilingEntry)
    → RiskLe (mode_risk (lower e x).mode) (mode_risk e.mode)
      × RiskLe (mode_risk (lower e x).mode) (mode_risk x.mode)
lower-le e x = elim (Bool-cases (risk_ltb (mode_risk x.mode) (mode_risk e.mode))) [
  | inl h ↦ rw h (RiskLe-of_RiskLt _ _ (risk_ltb-RiskLt _ _ h), RiskLe-refl _)
  | inr h ↦ rw h (RiskLe-refl _, risk_ltb-RiskLe _ _ h)
]

-- The chosen entry is one of the three, and its mode is the lowest of the three ceilings.
pub record IsLowest (c : ModeCeilings) (e : CeilingEntry) : Type 0 where
  pub own : e.mode ≡ ceiling_of c e.source
  pub below : (s : ModeCeilingSource) → RiskLe (mode_risk e.mode) (mode_risk (ceiling_of c s))

abbrev IsOwn : ModeCeilings → CeilingEntry → Type 0
IsOwn c e = e.mode ≡ ceiling_of c e.source

lower-IsOwn : (c : ModeCeilings) (e x : CeilingEntry) → IsOwn c e → IsOwn c x → IsOwn c (lower e x)
lower-IsOwn c e x h k = elim (Bool-cases (risk_ltb (mode_risk x.mode) (mode_risk e.mode))) [
  | inl p ↦ rw p k
  | inr p ↦ rw p h
]

pub ceiling_entry-IsLowest : (c : ModeCeilings) → IsLowest c (ceiling_entry c)
unfolding ceiling_entry lowest_entry
ceiling_entry-IsLowest c =
    let a = entry c scope in
    let b = entry c tenant in
    let d = entry c instance_host in
    let first = lower a b in
    let h = lower-le a b in
    let k = lower-le first d in
    record {
      own = lower-IsOwn c first d (lower-IsOwn c a b refl refl) refl;
      below = elim [
        | scope ↦ RiskLe-trans _ _ _ k.0 h.0
        | tenant ↦ RiskLe-trans _ _ _ k.0 h.1
        | instance_host ↦ k.1
      ];
    }

module _ (requested : Option Mode) (c : ModeCeilings) where
  -- The request is within all three ceilings.
  abbrev pub WithinCeilings : Type 0
  WithinCeilings =
      (s : ModeCeilingSource)
      → RiskLe (mode_risk (or_default requested)) (mode_risk (ceiling_of c s))

  within_ceiling_entry :
      WithinCeilings → RiskLe (mode_risk (or_default requested)) (mode_risk (ceiling_entry c).mode)
  within_ceiling_entry h = rw (ceiling_entry-IsLowest c).own (h (ceiling_entry c).source)

  resolve-within :
      RiskLe (mode_risk (or_default requested)) (mode_risk (ceiling_entry c).mode)
      → resolve_effective_mode requested c ≡ permitted (or_default requested)
  unfolding resolve_effective_mode min_by_risk
  resolve-within h =
      elim (Bool-cases
        (risk_ltb (mode_risk (ceiling_entry c).mode) (mode_risk (or_default requested)))) [
          | inl p ↦ absurd (not-RiskLe-of_RiskLt _ _ (risk_ltb-RiskLt _ _ p) h)
          | inr p ↦ rw p
        ]

  resolve-above :
      RiskLt (mode_risk (ceiling_entry c).mode) (mode_risk (or_default requested))
      → resolve_effective_mode requested c
        ≡ mode_not_permitted (or_default requested) (ceiling_entry c).mode (ceiling_entry c).source
  unfolding resolve_effective_mode
  resolve-above h =
      elim (Bool-cases
        (risk_ltb (mode_risk (ceiling_entry c).mode) (mode_risk (or_default requested)))) [
          | inl p ↦ rw p
          | inr p ↦ absurd (not-RiskLe-of_RiskLt _ _ h (risk_ltb-RiskLe _ _ p))
        ]

  -- The request against the chosen ceiling: within it, or above it.
  ceiling_cases :
      RiskLe (mode_risk (or_default requested)) (mode_risk (ceiling_entry c).mode)
      ⊎ RiskLt (mode_risk (ceiling_entry c).mode) (mode_risk (or_default requested))
  ceiling_cases =
      elim (Bool-cases
        (risk_ltb (mode_risk (ceiling_entry c).mode) (mode_risk (or_default requested)))) [
          | inl p ↦ inr (risk_ltb-RiskLt _ _ p)
          | inr p ↦ inl (risk_ltb-RiskLe _ _ p)
        ]

  within_of_ceiling :
      RiskLe (mode_risk (or_default requested)) (mode_risk (ceiling_entry c).mode) → WithinCeilings
  within_of_ceiling h s = RiskLe-trans _ _ _ h ((ceiling_entry-IsLowest c).below s)

-- A request is permitted exactly when its risk is at most that of the scope, tenant and instance
-- ceilings, and the permitted mode is then the requested one, or the default if there was none.
pub permitted_iff :
    (requested : Option Mode) (c : ModeCeilings) (e : Mode)
    → (resolve_effective_mode requested c ≡ permitted e)
      ↔ ((e ≡ or_default requested) × WithinCeilings requested c)
permitted_iff requested c e = (to, from)
  where
    to :
        resolve_effective_mode requested c ≡ permitted e
        → (e ≡ or_default requested) × WithinCeilings requested c
    to h = elim (ceiling_cases requested c) [
      | inl p ↦ (cc (resolve-within requested c p), within_of_ceiling requested c p)
      | inr p ↦ absurd (cc (resolve-above requested c p))
    ]

    from :
        (e ≡ or_default requested) × WithinCeilings requested c
        → resolve_effective_mode requested c ≡ permitted e
    from h = rw h.0 (resolve-within requested c (within_ceiling_entry requested c h.1))

-- A denial names the mode that was asked for, and a ceiling that is its source's, has the least risk
-- of the three, and has less risk than the request.
pub mode_not_permitted_sound :
    (requested : Option Mode) (c : ModeCeilings) (asked ceiling : Mode) (source : ModeCeilingSource)
    → resolve_effective_mode requested c ≡ mode_not_permitted asked ceiling source
    → (asked ≡ or_default requested)
      × (ceiling ≡ ceiling_of c source)
      × RiskLt (mode_risk ceiling) (mode_risk asked)
      × ((s : ModeCeilingSource) → RiskLe (mode_risk ceiling) (mode_risk (ceiling_of c s)))
mode_not_permitted_sound requested c asked ceiling source h = elim (ceiling_cases requested c) [
  | inl p ↦ absurd (cc (resolve-within requested c p))
  | inr p ↦
      let denied = resolve-above requested c p in
      let low = ceiling_entry-IsLowest c in
      let same : asked ≡ or_default requested = cc denied in
      let top : ceiling ≡ (ceiling_entry c).mode = cc denied in
      let from : source ≡ (ceiling_entry c).source = cc denied in
      (same, rw (top, from) low.own, rw (same, top) p, λ s. rw top (low.below s))
]

valid_of_le :
    (m n : Mode)
    → RiskLe (mode_risk m) (mode_risk n)
    → is_valid_mode n ≡ true
    → is_valid_mode m ≡ true
valid_of_le m n h v = elim (Bool-cases (is_valid_mode m)) [
  | inl e ↦ e
  | inr e ↦
      absurd
        (RiskLe-trans infinity _ (finite 2) (rw (mode_risk-invalid m e) at h) (mode_risk-valid n v))
]

parse_max_mode-valid : (v : Option String) → is_valid_mode (parse_max_mode v) ≡ true
unfolding parse_max_mode
parse_max_mode-valid none = admin_script-valid
parse_max_mode-valid (some v) = valid_or_read_only v

-- The ceilings as the host builds them: from the grant's props and from two environment variables.
abbrev pub host_ceilings : (grant tenant_var instance_var : Option String) → ModeCeilings
host_ceilings grant tenant_var instance_var = record {
  scope_max_mode = parse_scope_max_mode grant;
  tenant_max_mode = parse_max_mode tenant_var;
  instance_max_mode = parse_max_mode instance_var;
}

-- Whatever strings the request, the grant and the environment hold, a mode that is permitted under
-- ceilings parsed from them is one of the three modes, and its risk is at most that of each ceiling.
pub permitted-valid :
    (requested : Option Mode) (grant tenant_var instance_var : Option String) (e : Mode)
    → resolve_effective_mode requested (host_ceilings grant tenant_var instance_var) ≡ permitted e
    → (is_valid_mode e ≡ true)
      × ((s : ModeCeilingSource)
          → RiskLe
              (mode_risk e)
              (mode_risk (ceiling_of (host_ceilings grant tenant_var instance_var) s)))
permitted-valid requested grant tenant_var instance_var e h =
    let c = host_ceilings grant tenant_var instance_var in
    let (same, within) = (permitted_iff requested c e).0 h in
    let bounded : (s : ModeCeilingSource) → RiskLe (mode_risk e) (mode_risk (ceiling_of c s)) =
      λ s. rw same (within s) in
    (valid_of_le e _ (bounded tenant) (parse_max_mode-valid tenant_var), bounded)
