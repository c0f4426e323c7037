-- ===== src/Exec/Steps.antt =====
-- The sequencing of Exec, shut: proofs about long chains of calls go by the rules of Exec.Rules.
use snow_mcp.Errors.{Result, ok}
use snow_mcp.Exec.{Exec, then_run}

infixr 5 ◌>>=◌ ◌>>◌
unfoldable pub ◌>>=◌ : {S A B : Type 0} → Exec S A → (A → Exec S B) → Exec S B
◌>>=◌ m f s = then_run (m s) f

unfoldable pub ◌>>◌ : {S B : Type 0} → Exec S (Unit {0}) → Exec S B → Exec S B
unfolding ◌>>=◌
m >> k = m >>= λ _. k

-- A check that reads no state.
unfoldable pub check : {S A : Type 0} → Result A → Exec S A
check r s = (r, s)

unfoldable pub return : {S A : Type 0} → A → Exec S A
return a s = (ok a, s)
