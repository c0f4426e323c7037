-- ===== src/Exec.antt =====
-- Asynchronous host code as a state monad with thrown errors: a call takes the state of everything
-- outside it and returns a value or an error, with the state that it leaves.
pub mod Steps
pub mod Rules
pub mod Leaves
use snow_mcp.Common.{Option, none, some}
use snow_mcp.Errors.{Thrown, Result, ok, throw}

abbrev pub Exec : Type 0 → Type 0 → Type 0
Exec S A = S → Result A × S

abbrev pub pure : {S A : Type 0} → A → Exec S A
pure a s = (ok a, s)

abbrev pub raise : {S A : Type 0} → Thrown → Exec S A
raise e s = (throw e, s)

infixr 5 ◌>>=◌ ◌>>◌
abbrev pub then_run : {S A B : Type 0} → Result A × S → (A → Exec S B) → Result B × S
then_run (ok a, s) f = f a s
then_run (throw e, s) f = (throw e, s)

abbrev pub ◌>>=◌ : {S A B : Type 0} → Exec S A → (A → Exec S B) → Exec S B
◌>>=◌ m f s = then_run (m s) f

abbrev pub ◌>>◌ : {S B : Type 0} → Exec S (Unit {0}) → Exec S B → Exec S B
m >> k = m >>= λ _. k

-- `try { m } catch (e) { handler }`.
abbrev pub or_handle : {S A : Type 0} → Result A × S → (Thrown → Exec S A) → Result A × S
or_handle (ok a, s) handler = (ok a, s)
or_handle (throw e, s) handler = handler e s

abbrev pub catch : {S A : Type 0} → Exec S A → (Thrown → Exec S A) → Exec S A
catch m handler s = or_handle (m s) handler

-- `try { m } catch { }`.
abbrev pub best_effort : {S : Type 0} → Exec S (Unit {0}) → Exec S (Unit {0})
best_effort m = catch m (λ _. pure tt)

-- `callback?.()`.
abbrev pub optional : {S : Type 0} → Option (Exec S (Unit {0})) → Exec S (Unit {0})
optional none = pure tt
optional (some m) = m
