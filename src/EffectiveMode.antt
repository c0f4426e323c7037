-- ===== src/EffectiveMode.antt =====
-- packages/mcp-server/src/authz/effective-mode.ts: a requested mode can only narrow what the three
-- ceilings allow.
pub mod Laws
use snow_mcp.Common.{String, Bool, Option, none, some, List, [], ◌∷◌, if◌then◌else◌}
use snow_mcp.Risk.{risk_ltb}
use snow_mcp.Mode.{Mode, is_valid_mode, mode_risk}

abbrev pub default_mode : Mode
default_mode = "read_only"

unfoldable pub min_by_risk : Mode → List Mode → Mode
min_by_risk lowest [] = lowest
min_by_risk lowest (m ∷ rest) =
    min_by_risk (if risk_ltb (mode_risk m) (mode_risk lowest) then m else lowest) rest

pub record ModeCeilings : Type 0 where
  pub scope_max_mode : Mode
  pub tenant_max_mode : Mode
  pub instance_max_mode : Mode

pub data ModeCeilingSource : Type 0 where
  scope tenant instance_host : ModeCeilingSource

unfoldable pub parse_max_mode : Option String → Mode
parse_max_mode none = "admin_script"
parse_max_mode (some v) = if is_valid_mode v then v else "read_only"

-- `ok: false` always carries the code "mode_not_permitted".
pub data EffectiveModeResult : Type 0 where
  permitted : (effective : Mode) → EffectiveModeResult
  mode_not_permitted :
      (requested ceiling : Mode) (ceiling_source : ModeCeilingSource) → EffectiveModeResult

pub record CeilingEntry : Type 0 where
  pub source : ModeCeilingSource
  pub mode : Mode

abbrev pub ceiling_of : ModeCeilings → ModeCeilingSource → Mode
ceiling_of c scope = c.scope_max_mode
ceiling_of c tenant = c.tenant_max_mode
ceiling_of c instance_host = c.instance_max_mode

abbrev pub entry : ModeCeilings → ModeCeilingSource → CeilingEntry
entry c s = record { source = s; mode = ceiling_of c s }

-- The loop over `ceilingEntries.slice(1)`.
unfoldable pub lowest_entry : CeilingEntry → List CeilingEntry → CeilingEntry
lowest_entry e [] = e
lowest_entry e (x ∷ xs) =
    lowest_entry (if risk_ltb (mode_risk x.mode) (mode_risk e.mode) then x else e) xs

unfoldable pub ceiling_entry : ModeCeilings → CeilingEntry
ceiling_entry c = lowest_entry (entry c scope) (entry c tenant ∷ entry c instance_host ∷ [])

abbrev pub or_default : Option Mode → Mode
or_default none = default_mode
or_default (some m) = m

cap_at : Mode → CeilingEntry → EffectiveModeResult
cap_at requested e =
    if risk_ltb (mode_risk e.mode) (mode_risk requested)
    then mode_not_permitted requested e.mode e.source
    else permitted (min_by_risk requested (e.mode ∷ []))

unfoldable pub resolve_effective_mode : Option Mode → ModeCeilings → EffectiveModeResult
unfolding cap_at
resolve_effective_mode requested c = cap_at (or_default requested) (ceiling_entry c)
