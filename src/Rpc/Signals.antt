-- ===== src/Rpc/Signals.antt =====
-- The signals that the host keeps while a snippet runs: what its calls threw, whatever the snippet does
-- with the errors.
use snow_mcp.Common.{◌≡◌, refl, Option, none, some, List, [], arith, ◌∷◌, String, ap, ◌∙◌}
use snow_mcp.Errors.{
  Thrown, tool_error, budget_error, reauth_error, budget_exceeded, reauth_required, RunDimension,
}
use snow_mcp.Rpc.{HostSignals, raise_signal}

-- The signals after calls that threw these errors, in this order.
unfoldable pub raise_all : List Thrown → HostSignals → HostSignals
unfolding raise_signal
raise_all [] g = g
raise_all (e ∷ es) g = raise_all es (raise_signal e g)

-- The run's dimension that ran out, where the error is of a budget; `none` is the daily budget.
abbrev pub budget_of : Thrown → Option (Option RunDimension)
budget_of (budget_error d) = some (some d)
budget_of (tool_error budget_exceeded) = some none
budget_of e = none

-- The address at which to authorize again, where the error asks for that.
abbrev pub reauth_of : Thrown → Option (Option String)
reauth_of (reauth_error url) = some url
reauth_of (tool_error reauth_required) = some none
reauth_of e = none

abbrev pub either : {A : Type 0} → Option A → Option A → Option A
either none o = o
either (some a) o = some a

-- The first of the values.
unfoldable pub first_of : {A : Type 0} → (Thrown → Option A) → List Thrown → Option A
first_of f [] = none
first_of f (e ∷ es) = either (f e) (first_of f es)

raise_signal-budget :
    (e : Thrown) (g : HostSignals)
    → (raise_signal e g).budget_signal ≡ either g.budget_signal (budget_of e)
unfolding raise_signal
raise_signal-budget e g = ground arith

raise_signal-reauth :
    (e : Thrown) (g : HostSignals)
    → (raise_signal e g).reauth_signal ≡ either g.reauth_signal (reauth_of e)
unfolding raise_signal
raise_signal-reauth e g = ground arith

either_assoc : {A : Type 0} (a b c : Option A) → either (either a b) c ≡ either a (either b c)
either_assoc none b c = refl
either_assoc (some a) b c = refl

either-none : {A : Type 0} (a : Option A) → a ≡ either a none
either-none none = refl
either-none (some a) = refl

-- After any errors, each signal is as before if it was set, or else that of the first error that raises
-- it.
raise_all-first :
    (es : List Thrown) (g : HostSignals)
    → ((raise_all es g).budget_signal ≡ either g.budget_signal (first_of budget_of es))
      × ((raise_all es g).reauth_signal ≡ either g.reauth_signal (first_of reauth_of es))
unfolding raise_all first_of
raise_all-first [] g = (either-none g.budget_signal, either-none g.reauth_signal)
raise_all-first (e ∷ es) g =
    let (budget, reauth) = raise_all-first es (raise_signal e g) in
    (
      budget
          ∙ ap (λ o. either o (first_of budget_of es)) (raise_signal-budget e g)
          ∙ either_assoc g.budget_signal (budget_of e) _,
      reauth
          ∙ ap (λ o. either o (first_of reauth_of es)) (raise_signal-reauth e g)
          ∙ either_assoc g.reauth_signal (reauth_of e) _,
    )
