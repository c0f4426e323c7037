-- ===== src/Mode.antt =====
-- The execution modes of packages/shared/src/types.ts. The static type `Mode` is erased at run
-- time, so a mode is any string here, and `is_valid_mode` tells the three modes from the rest.
use snow_mcp.Common.{String, ◌≡◌, refl, Bool, true, false, Option, none, some, ℕ, str_eq}
use snow_mcp.Common.{if◌then◌else◌, arith, Bool-cases, inl, inr}
use snow_mcp.Risk.{Risk, finite, infinity, RiskLe}

abbrev pub Mode : Type 0
Mode = String

-- `MODE_RISK[value]`, where it has that own property.
unfoldable pub mode_risk_table : Mode → Option ℕ
mode_risk_table m =
    if str_eq m "read_only"
    then some 0
    else if str_eq m "write"
    then some 1
    else if str_eq m "admin_script"
    then some 2
    else none

abbrev has_property : Option ℕ → Bool
has_property none = false
has_property (some n) = true

unfoldable pub is_valid_mode : Mode → Bool
is_valid_mode m = has_property (mode_risk_table m)

abbrev risk_or_infinity : Option ℕ → Risk
risk_or_infinity none = infinity
risk_or_infinity (some n) = finite n

unfoldable pub mode_risk : Mode → Risk
mode_risk m = risk_or_infinity (mode_risk_table m)

-- An untrusted value that may be absent or no string, as it is read off the grant's props.
unfoldable pub parse_scope_max_mode : Option String → Mode
parse_scope_max_mode none = "read_only"
parse_scope_max_mode (some m) = if is_valid_mode m then m else "read_only"

pub mode_risk-invalid : (m : Mode) → is_valid_mode m ≡ false → mode_risk m ≡ infinity
unfolding is_valid_mode mode_risk
mode_risk-invalid m h = ground arith

-- A valid mode has a risk of at most 2.
pub mode_risk-valid : (m : Mode) → is_valid_mode m ≡ true → RiskLe (mode_risk m) (finite 2)
unfolding is_valid_mode mode_risk mode_risk_table
mode_risk-valid m h = ground arith

pub read_only-valid : is_valid_mode "read_only" ≡ true
unfolding is_valid_mode mode_risk_table
read_only-valid = refl

pub admin_script-valid : is_valid_mode "admin_script" ≡ true
unfolding is_valid_mode mode_risk_table
admin_script-valid = refl

-- `isValidMode(value) ? value : "read_only"` is a valid mode, whatever the value.
pub valid_or_read_only :
    (m : String) → is_valid_mode (if is_valid_mode m then m else "read_only") ≡ true
valid_or_read_only m = elim (Bool-cases (is_valid_mode m)) [
  | inl e ↦ rw e e
  | inr e ↦ rw e read_only-valid
]

pub parse_scope_max_mode-valid : (v : Option String) → is_valid_mode (parse_scope_max_mode v) ≡ true
unfolding parse_scope_max_mode
parse_scope_max_mode-valid none = read_only-valid
parse_scope_max_mode-valid (some m) = valid_or_read_only m
