-- ===== src/Exec/Rules.antt =====
-- Rules for host code: what holds of every value that it returns, and what it keeps whether it returns
-- or throws.
use mathlib.Core.Path.{fun_ext}
use snow_mcp.Common.{◌≡◌, refl}
use snow_mcp.Errors.{Result, ok, throw, Thrown}
use snow_mcp.Exec.{Exec, then_run}
use snow_mcp.Exec.Steps.{◌>>=◌, ◌>>◌, check, return}

abbrev pub After : {S A : Type 0} → Result A × S → (A → Type 0) → Type 0
After (ok a, s) Q = Q a
After (throw e, s) Q = Unit

-- Every value that the code returns has the property.
pub record Ensures {S A : Type 0} (m : Exec S A) (Q : A → Type 0) : Type 0 where
  pub after : (s : S) → After (m s) Q

-- The state keeps the property, whether the code returns or throws.
pub record Keeps {S A : Type 0} (I : S → Type 0) (m : Exec S A) : Type 0 where
  pub keeps : (s : S) → I s → I (m s).1

module _ {S : Type 0} where
  after-then_run :
      {A B : Type 0} (Q : B → Type 0) (x : Result A × S) (f : A → Exec S B)
      → ((a : A) → x.0 ≡ ok a → Ensures (f a) Q)
      → After (then_run x f) Q
  after-then_run Q (ok a, s) f h = (h a refl).after s
  after-then_run Q (throw e, s) f h = tt

  keeps-then_run :
      {A B : Type 0} (I : S → Type 0) (x : Result A × S) (f : A → Exec S B)
      → I x.1
      → ((a : A) → x.0 ≡ ok a → Keeps I (f a))
      → I (then_run x f).1
  keeps-then_run I (ok a, s) f i h = (h a refl).keeps s i
  keeps-then_run I (throw e, s) f i h = i

  pub Ensures-bind :
      {A B : Type 0} {Q : B → Type 0} (m : Exec S A) (f : A → Exec S B)
      → ((a : A) → Ensures (f a) Q)
      → Ensures (m >>= f) Q
  unfolding ◌>>=◌
  Ensures-bind {Q = Q} m f h = record { after = λ s. after-then_run Q (m s) f (λ a e. h a) }

  pub Ensures-then :
      {B : Type 0} {Q : B → Type 0} (m : Exec S (Unit {0})) (k : Exec S B)
      → Ensures k Q
      → Ensures (m >> k) Q
  unfolding ◌>>◌
  Ensures-then {Q = Q} m k h = record { after = λ s. after-then_run Q (m s) (λ _. k) (λ a e. h) }

  -- After a check, its result is known.
  pub Ensures-check :
      {A B : Type 0} {Q : B → Type 0} (r : Result A) (f : A → Exec S B)
      → ((a : A) → r ≡ ok a → Ensures (f a) Q)
      → Ensures (check r >>= f) Q
  unfolding ◌>>=◌ check
  Ensures-check {Q = Q} r f h = record { after = λ s. after-then_run Q (r, s) f h }

  pub Ensures-return : {A : Type 0} {Q : A → Type 0} (a : A) → Q a → Ensures (return {S = S} a) Q
  unfolding return
  Ensures-return a q = record { after = λ s. q }

  pub Keeps-bind :
      {A B : Type 0} {I : S → Type 0} (m : Exec S A) (f : A → Exec S B)
      → Keeps I m
      → ((a : A) → Keeps I (f a))
      → Keeps I (m >>= f)
  unfolding ◌>>=◌
  Keeps-bind {I = I} m f k h = record {
    keeps = λ s i. keeps-then_run I (m s) f (k.keeps s i) (λ a e. h a);
  }

  pub Keeps-then :
      {B : Type 0} {I : S → Type 0} (m : Exec S (Unit {0})) (k : Exec S B)
      → Keeps I m
      → Keeps I k
      → Keeps I (m >> k)
  unfolding ◌>>◌
  Keeps-then {I = I} m k a b = record {
    keeps = λ s i. keeps-then_run I (m s) (λ _. k) (a.keeps s i) (λ _ e. b);
  }

  pub Keeps-check :
      {A B : Type 0} {I : S → Type 0} (r : Result A) (f : A → Exec S B)
      → ((a : A) → r ≡ ok a → Keeps I (f a))
      → Keeps I (check r >>= f)
  unfolding ◌>>=◌ check
  Keeps-check {I = I} r f h = record { keeps = λ s i. keeps-then_run I (r, s) f i h }

  -- A check keeps everything.
  pub Keeps-checked : {A : Type 0} {I : S → Type 0} (r : Result A) → Keeps I (check {S = S} r)
  unfolding check
  Keeps-checked r = record { keeps = λ s i. i }

  pub Keeps-return : {A : Type 0} {I : S → Type 0} (a : A) → Keeps I (return {S = S} a)
  unfolding return
  Keeps-return a = record { keeps = λ s i. i }

  assoc_at :
      {B : Type 0} (x : Result (Unit {0}) × S) (n : Exec S (Unit {0})) (k : Exec S B)
      → then_run (then_run x (λ _. n)) (λ _. k) ≡ then_run x (λ _ s. then_run (n s) (λ _. k))
  assoc_at (ok a, s) n k = refl
  assoc_at (throw e, s) n k = refl

  pub then_assoc :
      {B : Type 0} (m n : Exec S (Unit {0})) (k : Exec S B) → ((m >> n) >> k) ≡ (m >> (n >> k))
  unfolding ◌>>◌
  then_assoc m n k = fun_ext (λ s. assoc_at (m s) n k)

  pub Ensures-checked :
      {B : Type 0} {Q : B → Type 0} (r : Result (Unit {0})) (k : Exec S B)
      → (r ≡ ok tt → Ensures k Q)
      → Ensures (check r >> k) Q
  unfolding ◌>>◌ check
  Ensures-checked {Q = Q} r k h = record {
    after = λ s. after-then_run Q (r, s) (λ _. k) (λ a e. h e);
  }

  pub Keeps-check_then :
      {B : Type 0} {I : S → Type 0} (r : Result (Unit {0})) (k : Exec S B)
      → (r ≡ ok tt → Keeps I k)
      → Keeps I (check r >> k)
  unfolding ◌>>◌ check
  Keeps-check_then {I = I} r k h = record {
    keeps = λ s i. keeps-then_run I (r, s) (λ _. k) i (λ a e. h e);
  }

-- From a state with `I`, the code ends with `Q`, of its result and its state.
pub record Triple {S A : Type 0} (I : S → Type 0) (m : Exec S A) (Q : Result A × S → Type 0)
    : Type 0 where
  pub ends : (s : S) → I s → Q (m s)

module _ {S : Type 0} where
  triple-then_run :
      {A B : Type 0} (R : Result A × S → Type 0) (Q : Result B × S → Type 0) (x : Result A × S)
      (f : A → Exec S B)
      → ((e : Thrown) (s : S) → R (throw e, s) → Q (throw e, s))
      → ((a : A) → x.0 ≡ ok a → Triple (λ s. R (ok a, s)) (f a) Q)
      → R x
      → Q (then_run x f)
  triple-then_run R Q (ok a, s) f out h r = (h a refl).ends s r
  triple-then_run R Q (throw e, s) f out h r = out e s r

  pub Triple-bind :
      {A B : Type 0} {I : S → Type 0} (R : Result A × S → Type 0) {Q : Result B × S → Type 0}
      (m : Exec S A) (f : A → Exec S B)
      → Triple I m R
      → ((e : Thrown) (s : S) → R (throw e, s) → Q (throw e, s))
      → ((a : A) → Triple (λ s. R (ok a, s)) (f a) Q)
      → Triple I (m >>= f) Q
  unfolding ◌>>=◌
  Triple-bind R {Q = Q} m f t out h = record {
    ends = λ s i. triple-then_run R Q (m s) f out (λ a e. h a) (t.ends s i);
  }

  pub Triple-then :
      {B : Type 0} {I : S → Type 0} (R : Result (Unit {0}) × S → Type 0) {Q : Result B × S → Type 0}
      (m : Exec S (Unit {0})) (k : Exec S B)
      → Triple I m R
      → ((e : Thrown) (s : S) → R (throw e, s) → Q (throw e, s))
      → Triple (λ s. R (ok tt, s)) k Q
      → Triple I (m >> k) Q
  unfolding ◌>>◌
  Triple-then R m k t out h = Triple-bind R m (λ _. k) t out (λ _. h)

  pub Triple-check :
      {A B : Type 0} {I : S → Type 0} {Q : Result B × S → Type 0} (r : Result A) (f : A → Exec S B)
      → ((e : Thrown) (s : S) → I s → Q (throw e, s))
      → ((a : A) → r ≡ ok a → Triple I (f a) Q)
      → Triple I (check r >>= f) Q
  unfolding ◌>>=◌ check
  Triple-check {I = I} {Q = Q} r f out h = record {
    ends = λ s i. triple-then_run (λ x. I x.1) Q (r, s) f out h i;
  }

  pub Triple-check_then :
      {B : Type 0} {I : S → Type 0} {Q : Result B × S → Type 0} (r : Result (Unit {0}))
      (k : Exec S B)
      → ((e : Thrown) (s : S) → I s → Q (throw e, s))
      → (r ≡ ok tt → Triple I k Q)
      → Triple I (check r >> k) Q
  unfolding ◌>>◌ check
  Triple-check_then {I = I} {Q = Q} r k out h = record {
    ends = λ s i. triple-then_run (λ x. I x.1) Q (r, s) (λ _. k) out (λ a e. h e) i;
  }
