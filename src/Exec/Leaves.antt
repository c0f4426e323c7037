-- ===== src/Exec/Leaves.antt =====
-- Rules for what host code leaves: one property where it returns, of the value too, and one where it
-- throws.
use snow_mcp.Common.{◌≡◌, refl}
use snow_mcp.Errors.{Result, ok, throw}
use snow_mcp.Exec.{Exec, then_run}
use snow_mcp.Exec.Steps.{◌>>=◌, ◌>>◌, check, return}
use snow_mcp.Exec.Rules.{Triple}

abbrev pub Outcome : {S A : Type 0} → (A → S → Type 0) → (S → Type 0) → Result A × S → Type 0
Outcome P E (ok a, s) = P a s
Outcome P E (throw e, s) = E s

-- Where the code returns it leaves `P`, where it throws `E`.
abbrev pub Ends : {S A : Type 0} → (S → Type 0) → (S → Type 0) → Result A × S → Type 0
Ends P E = Outcome (λ a. P) E

abbrev pub Kept : {S A : Type 0} → (S → Type 0) → Exec S A → Type 0
Kept I m = Triple I m (Ends I I)

module _ {S : Type 0} where
  after_run :
      {A B : Type 0} {P : A → S → Type 0} {Q : B → S → Type 0} {E : S → Type 0} (f : A → Exec S B)
      → ((a : A) → Triple (P a) (f a) (Outcome Q E))
      → (r : Result A × S) → Outcome P E r
      → Outcome Q E (then_run r f)
  after_run f k (ok a, t) g = (k a).ends t g
  after_run f k (throw e, t) g = g

  pub Leaves-bind :
      {A B : Type 0} {I E : S → Type 0} {P : A → S → Type 0} {Q : B → S → Type 0} (m : Exec S A)
      (f : A → Exec S B)
      → Triple I m (Outcome P E)
      → ((a : A) → Triple (P a) (f a) (Outcome Q E))
      → Triple I (m >>= f) (Outcome Q E)
  unfolding ◌>>=◌
  Leaves-bind m f h k = record { ends = λ s i. after_run f k (m s) (h.ends s i) }

  pub Leaves-then :
      {B : Type 0} {I P E : S → Type 0} {Q : B → S → Type 0} (m : Exec S (Unit {0})) (k : Exec S B)
      → Triple I m (Ends P E)
      → Triple P k (Outcome Q E)
      → Triple I (m >> k) (Outcome Q E)
  unfolding ◌>>◌
  Leaves-then m k h t = Leaves-bind m (λ _. k) h (λ _. t)

  pub Leaves-return :
      {A : Type 0} {I E : S → Type 0} {P : A → S → Type 0} (a : A)
      → ((s : S) → I s → P a s)
      → Triple I (return a) (Outcome P E)
  unfolding return
  Leaves-return a h = record { ends = h }

  -- A check leaves the state, and its result is known.
  pub Leaves-check :
      {A B : Type 0} {I E : S → Type 0} {Q : B → S → Type 0} (r : Result A) (f : A → Exec S B)
      → ((s : S) → I s → E s)
      → ((a : A) → r ≡ ok a → Triple I (f a) (Outcome Q E))
      → Triple I (check r >>= f) (Outcome Q E)
  unfolding ◌>>=◌ check
  Leaves-check {A} {B} {I} {E} {Q} r f out h = record { ends = λ s i. after r h s i }
    where
      after :
          (x : Result A)
          → ((a : A) → x ≡ ok a → Triple I (f a) (Outcome Q E))
          → (s : S) → I s
          → Outcome Q E (then_run (x, s) f)
      after (ok a) h s i = (h a refl).ends s i
      after (throw e) h s i = out s i

  pub Leaves-check_then :
      {B : Type 0} {I E : S → Type 0} {Q : B → S → Type 0} (r : Result (Unit {0})) (k : Exec S B)
      → ((s : S) → I s → E s)
      → (r ≡ ok tt → Triple I k (Outcome Q E))
      → Triple I (check r >> k) (Outcome Q E)
  unfolding ◌>>◌
  Leaves-check_then r k out h = Leaves-check r (λ _. k) out (λ a e. h e)

  pub Leaves-checked :
      {A : Type 0} {I E : S → Type 0} {P : A → S → Type 0} (r : Result A)
      → ((s : S) → I s → E s)
      → ((a : A) → r ≡ ok a → (s : S) → I s → P a s)
      → Triple I (check r) (Outcome P E)
  unfolding check
  Leaves-checked {A} {I} {E} {P} r out h = record { ends = λ s i. after r h s i }
    where
      after :
          (x : Result A)
          → ((a : A) → x ≡ ok a → (s : S) → I s → P a s)
          → (s : S) → I s
          → Outcome P E (x, s)
      after (ok a) h s i = h a refl s i
      after (throw e) h s i = out s i

  -- A fact that the state gives may be used to choose the rule.
  pub Leaves-known :
      {A : Type 0} {I : S → Type 0} {R : Result A × S → Type 0} (F : Type 0) (m : Exec S A)
      → ((s : S) → I s → F)
      → (F → Triple I m R)
      → Triple I m R
  Leaves-known F m k h = record { ends = λ s i. (h (k s i)).ends s i }

  outcome_weaken :
      {A : Type 0} {P Q : A → S → Type 0} {E F : S → Type 0}
      → ((a : A) (s : S) → P a s → Q a s)
      → ((s : S) → E s → F s)
      → (r : Result A × S) → Outcome P E r
      → Outcome Q F r
  outcome_weaken h k (ok a, s) g = h a s g
  outcome_weaken h k (throw e, s) g = k s g

  pub Leaves-weaken :
      {A : Type 0} {I : S → Type 0} {P Q : A → S → Type 0} {E F : S → Type 0} (m : Exec S A)
      → Triple I m (Outcome P E)
      → ((a : A) (s : S) → P a s → Q a s)
      → ((s : S) → E s → F s)
      → Triple I m (Outcome Q F)
  Leaves-weaken m t h k = record { ends = λ s i. outcome_weaken h k (m s) (t.ends s i) }

  state_of : {A : Type 0} (E : S → Type 0) (r : Result A × S) → Ends E E r → E r.1
  state_of E (ok a, s) g = g
  state_of E (throw e, s) g = g

  -- One property, whether it returns or throws.
  pub Leaves-state :
      {A : Type 0} {I : S → Type 0} (E : S → Type 0) (m : Exec S A)
      → Triple I m (Ends E E)
      → Triple I m (λ x. E x.1)
  Leaves-state E m t = record { ends = λ s i. state_of E (m s) (t.ends s i) }

  -- A check that passes is no step.
  pub Leaves-passed :
      {A B : Type 0} {I : S → Type 0} {R : Result B × S → Type 0} (a : A) (f : A → Exec S B)
      → Triple I (f a) R
      → Triple I (check (ok a) >>= f) R
  unfolding ◌>>=◌ check
  Leaves-passed a f t = record { ends = t.ends }
