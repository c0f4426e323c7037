-- ===== src/Tests/Modes.antt =====
-- The resolution of modes on concrete requests and ceilings.
use snow_mcp.Common.{◌≡◌, refl, ◌↔◌, none, some, true}
use snow_mcp.Risk.{RiskLe, RiskLt}
use snow_mcp.Mode.{Mode, mode_risk_table, is_valid_mode, mode_risk, parse_scope_max_mode}
use snow_mcp.EffectiveMode.{
  ModeCeilings, ModeCeilingSource, tenant, permitted, mode_not_permitted, ceiling_of,
  resolve_effective_mode, ceiling_entry, lowest_entry, min_by_risk, parse_max_mode,
}
use snow_mcp.EffectiveMode.Laws.{
  WithinCeilings, permitted_iff, mode_not_permitted_sound, host_ceilings, permitted-valid,
}

modes : Unit {0}
unfolding resolve_effective_mode ceiling_entry lowest_entry min_by_risk mode_risk mode_risk_table
    is_valid_mode parse_max_mode parse_scope_max_mode
modes = tt

abbrev write_tenant : ModeCeilings
write_tenant = record {
  scope_max_mode = "admin_script";
  tenant_max_mode = "write";
  instance_max_mode = "admin_script";
}

resolutions :
    (resolve_effective_mode none write_tenant ≡ permitted "read_only")
    × (resolve_effective_mode (some "write") write_tenant ≡ permitted "write")
    × (resolve_effective_mode (some "admin_script") write_tenant
        ≡ mode_not_permitted "admin_script" "write" tenant)
    × (resolve_effective_mode (some "Write") write_tenant
        ≡ mode_not_permitted "Write" "write" tenant)
unfolding modes
resolutions = (refl, refl, refl, refl)

permitted_iff_example :
    (resolve_effective_mode (some "write") write_tenant ≡ permitted "write")
    ↔ ((◌≡◌ {A = Mode} "write" "write") × WithinCeilings (some "write") write_tenant)
permitted_iff_example = permitted_iff (some "write") write_tenant "write"

mode_not_permitted_sound_example :
    (◌≡◌ {A = Mode} "admin_script" "admin_script")
    × (◌≡◌ {A = Mode} "write" "write")
    × RiskLt (mode_risk "write") (mode_risk "admin_script")
    × ((s : ModeCeilingSource) → RiskLe (mode_risk "write") (mode_risk (ceiling_of write_tenant s)))
mode_not_permitted_sound_example =
    mode_not_permitted_sound (some "admin_script") write_tenant "admin_script" "write" tenant
      resolutions.2

parsed :
    resolve_effective_mode none (host_ceilings (some "garbled") none (some "write"))
    ≡ permitted "read_only"
unfolding modes
parsed = refl

permitted-valid_example :
    (is_valid_mode "read_only" ≡ true)
    × ((s : ModeCeilingSource)
        → RiskLe
            (mode_risk "read_only")
            (mode_risk (ceiling_of (host_ceilings (some "garbled") none (some "write")) s)))
permitted-valid_example =
    permitted-valid none (some "garbled") none (some "write") "read_only" parsed
