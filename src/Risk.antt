-- ===== src/Risk.antt =====
-- The risk of a mode as `modeRisk` of packages/shared/src/types.ts computes it: a number of
-- `MODE_RISK`, or `Number.POSITIVE_INFINITY`; and JavaScript's `<` on these.
use snow_mcp.Common.{ℕ, ◌≤◌, ◌<◌, ◌≡◌, refl, Bool, true, false, ltb, arith}

pub data Risk : Type 0 where
  finite : ℕ → Risk
  infinity : Risk

-- `a < b` on numbers, with infinity.
abbrev pub risk_ltb : Risk → Risk → Bool
risk_ltb (finite a) (finite b) = ltb a b
risk_ltb (finite a) infinity = true
risk_ltb infinity b = false

abbrev pub RiskLe : Risk → Risk → Type 0
RiskLe (finite a) (finite b) = a ≤ b
RiskLe (finite a) infinity = Unit
RiskLe infinity (finite b) = ⊥
RiskLe infinity infinity = Unit

abbrev pub RiskLt : Risk → Risk → Type 0
RiskLt (finite a) (finite b) = a < b
RiskLt (finite a) infinity = Unit
RiskLt infinity b = ⊥

pub RiskLe-refl : (a : Risk) → RiskLe a a
RiskLe-refl (finite a) = omega arith
RiskLe-refl infinity = tt

pub RiskLe-trans : (a b c : Risk) → RiskLe a b → RiskLe b c → RiskLe a c
RiskLe-trans (finite a) (finite b) (finite c) h k = omega arith
RiskLe-trans (finite a) b infinity h k = tt
RiskLe-trans (finite a) infinity (finite c) h k = absurd k
RiskLe-trans infinity (finite b) c h k = absurd h
RiskLe-trans infinity infinity c h k = k

pub RiskLe-of_RiskLt : (a b : Risk) → RiskLt a b → RiskLe a b
RiskLe-of_RiskLt (finite a) (finite b) h = omega arith
RiskLe-of_RiskLt (finite a) infinity h = tt
RiskLe-of_RiskLt infinity b h = absurd h

pub not-RiskLe-of_RiskLt : (a b : Risk) → RiskLt a b → ¬ RiskLe b a
not-RiskLe-of_RiskLt (finite a) (finite b) h k = omega arith
not-RiskLe-of_RiskLt (finite a) infinity h k = k
not-RiskLe-of_RiskLt infinity b h k = h

pub risk_ltb-RiskLt : (a b : Risk) → risk_ltb a b ≡ true → RiskLt a b
risk_ltb-RiskLt (finite a) (finite b) h = ground arith
risk_ltb-RiskLt (finite a) infinity h = tt
risk_ltb-RiskLt infinity b h = cc

pub risk_ltb-RiskLe : (a b : Risk) → risk_ltb a b ≡ false → RiskLe b a
risk_ltb-RiskLe (finite a) (finite b) h = ground arith
risk_ltb-RiskLe (finite a) infinity h = cc
risk_ltb-RiskLe infinity (finite b) h = tt
risk_ltb-RiskLe infinity infinity h = tt

pub RiskLe-risk_ltb : (a b : Risk) → RiskLe b a → risk_ltb a b ≡ false
RiskLe-risk_ltb (finite a) (finite b) h = ground arith
RiskLe-risk_ltb (finite a) infinity h = absurd h
RiskLe-risk_ltb infinity b h = refl
