-- ===== src/Guard/Gated.antt =====
-- A guarded mutation runs its effect only after its preflight: what the preflight establishes, and the
-- other callbacks keep, holds whenever the effect is run.
use snow_mcp.Common.{ℕ, String, Bool, true, false, Option, none, some, if◌then◌else◌}
use snow_mcp.Errors.{Thrown, Result, ok, throw}
use snow_mcp.Exec.{Exec, pure, raise, then_run, or_handle, ◌>>=◌, catch, best_effort}
use snow_mcp.Exec.Rules.{Triple}
use snow_mcp.Exec.Leaves.{Ends, Kept}
use snow_mcp.Guard.Audit.{
  AuditRecord, AuditTools, AuditStatus, ErrorClass, build_audit_record, emit_audit, hash_option,
}
use snow_mcp.Guard.{
  LedgerHandle, executed, MutationGuard, GuardedEffect, audit_input, write_row, emit_denial,
  emit_outcome_error, deny, deny_and_throw, write_intent, effect_failed, effect_succeeded,
  judged_indeterminate, with_ledger, write_outcome, after_effect, handle_of,
}

module _ {S : Type 0} where
  pub Ends-bind :
      {A B : Type 0} {I P Q E : S → Type 0} (m : Exec S A) (f : A → Exec S B)
      → Triple I m (Ends P E)
      → ((a : A) → Triple P (f a) (Ends Q E))
      → Triple I (m >>= f) (Ends Q E)
  Ends-bind {A} {B} {I} {P} {Q} {E} m f h k = record { ends = λ s i. after (m s) (h.ends s i) }
    where
      after : (r : Result A × S) → Ends P E r → Ends Q E (then_run r f)
      after (ok a, t) g = (k a).ends t g
      after (throw e, t) g = g

  pub Ends-catch :
      {A : Type 0} {I P E F : S → Type 0} (m : Exec S A) (f : Thrown → Exec S A)
      → Triple I m (Ends P E)
      → ((e : Thrown) → Triple E (f e) (Ends P F))
      → Triple I (catch m f) (Ends P F)
  Ends-catch {A} {I} {P} {E} {F} m f h k = record { ends = λ s i. after (m s) (h.ends s i) }
    where
      after : (r : Result A × S) → Ends P E r → Ends P F (or_handle r f)
      after (ok a, t) g = g
      after (throw e, t) g = (k e).ends t g

  pub Ends-pure : {A : Type 0} {I E : S → Type 0} (a : A) → Triple I (pure a) (Ends I E)
  Ends-pure a = record { ends = λ s i. i }

  pub Ends-raise :
      {A : Type 0} {I P : S → Type 0} (e : Thrown) → Triple I (raise {A = A} e) (Ends P I)
  Ends-raise e = record { ends = λ s i. i }

  Kept-best_effort : {I : S → Type 0} (m : Exec S (Unit {0})) → Kept I m → Kept I (best_effort m)
  Kept-best_effort m h = Ends-catch m (λ _. pure tt) h (λ _. Ends-pure tt)

module _ {S T J : Type 0} (tools : AuditTools S J) (date_of : ℕ → String)
    (guard : MutationGuard S T) (eff : GuardedEffect S T J) where
  pub record HandleKeeps (Q : S → Type 0) (l : LedgerHandle S T) : Type 0 where
    pub begin : (hash : String) → Kept Q (l.begin hash)
    pub complete : (result : T) → Kept Q (l.complete result)
    pub fail : Kept Q l.fail
    pub mark_indeterminate : Kept Q l.mark_indeterminate

  abbrev pub HandleKept : (S → Type 0) → Option (LedgerHandle S T) → Type 0
  HandleKept Q none = Unit
  HandleKept Q (some l) = HandleKeeps Q l

  abbrev pub AuditKept : (S → Type 0) → Option (AuditRecord → Exec S (Unit {0})) → Type 0
  AuditKept Q none = Unit
  AuditKept Q (some sink) = (r : AuditRecord) → Kept Q (sink r)

  -- The hashes, the audit sink and the ledger keep the property.
  pub record Quiet (Q : S → Type 0) : Type 0 where
    pub hash : (v : J) → Kept Q (tools.hash_value v)
    pub audit : AuditKept Q guard.audit
    pub ledger : HandleKept Q (handle_of tools date_of guard eff guard.ledger)

  module _ (Q : S → Type 0) (quiet : Quiet Q) where
    hash_option-Kept : (o : Option J) → Kept Q (hash_option tools o)
    hash_option-Kept none = Ends-pure none
    hash_option-Kept (some v) = Ends-bind _ _ (quiet.hash v) (λ h. Ends-pure (some h))

    write_row-Kept :
        (sink : AuditRecord → Exec S (Unit {0}))
        → ((r : AuditRecord) → Kept Q (sink r))
        → (date_key : Option String) (before : S → Option J) (after : Option J)
          (status : AuditStatus) (error_class : Option ErrorClass)
        → Kept Q (write_row tools date_of guard eff sink date_key before after status error_class)
    unfolding write_row build_audit_record emit_audit
    write_row-Kept sink h date_key before after status error_class = record {
      ends = λ s i.
          (Ends-bind
              (build_audit_record tools (
                audit_input tools date_of guard eff (guard.now s) date_key (before s) after status
                  error_class))
              (λ r. emit_audit tools sink r)
              (Ends-bind _ _ (hash_option-Kept (before s))
                λ b. Ends-bind _ _ (hash_option-Kept after) λ a. Ends-pure _)
              (λ r. h (tools.redact r))).ends
            s i;
    }

    row-Kept :
        (o : Option (AuditRecord → Exec S (Unit {0})))
        → AuditKept Q o
        → (row : (AuditRecord → Exec S (Unit {0})) → Exec S (Unit {0}))
        → ((sink : AuditRecord → Exec S (Unit {0}))
            → ((r : AuditRecord) → Kept Q (sink r))
            → Kept Q (row sink))
        → Kept Q (elim o [ none ↦ pure tt | some sink ↦ row sink ])
    row-Kept none h row k = Ends-pure tt
    row-Kept (some sink) h row k = k sink h

    -- A denial throws.
    pub deny-Ends :
        {A : Type 0} (P : S → Type 0) (e : Thrown)
        → Triple Q (deny tools date_of guard eff {A = A} e) (Ends P Q)
    unfolding emit_denial
    deny-Ends P e =
        Ends-bind _ _
          (row-Kept guard.audit quiet.audit _
            (λ sink h. Kept-best_effort _ (write_row-Kept sink h none (λ _. none) none _ _)))
          (λ _. Ends-raise e)

    with_ledger-Kept :
        (o : Option (LedgerHandle S T)) (f : LedgerHandle S T → Exec S (Unit {0}))
        → ((l : LedgerHandle S T) → HandleKeeps Q l → Kept Q (f l))
        → HandleKept Q o
        → Kept Q (with_ledger tools date_of guard eff o f)
    with_ledger-Kept none f k h = Ends-pure tt
    with_ledger-Kept (some l) f k h = k l h

    module _ (o : Option (LedgerHandle S T)) (handle : HandleKept Q o) where
      pub deny_and_throw-Ends :
          {A : Type 0} (P : S → Type 0) (e : Thrown)
          → Triple Q (deny_and_throw tools date_of guard eff {A = A} o e) (Ends P Q)
      unfolding deny_and_throw
      deny_and_throw-Ends P e =
          Ends-bind _ _ (with_ledger-Kept o (λ l. l.fail) (λ l h. h.fail) handle)
            (λ _. deny-Ends P e)

      pub write_intent-Kept :
          (date_key : String) → Kept Q (write_intent tools date_of guard eff o date_key)
      unfolding write_intent
      write_intent-Kept date_key = row-Kept guard.audit quiet.audit _ λ sink h.
          Ends-catch _ _ (write_row-Kept sink h (some date_key) eff.before none _ none)
            (λ _. deny_and_throw-Ends Q _)

      mark_or_fail-Kept :
          (b : Bool) (l : LedgerHandle S T)
          → HandleKeeps Q l
          → Kept Q (if b then l.mark_indeterminate else l.fail)
      mark_or_fail-Kept true l h = h.mark_indeterminate
      mark_or_fail-Kept false l h = h.fail

      pub after_effect-Kept :
          (date_key : String) (r : Result (T × Option J) × S)
          → Q r.1
          → Ends Q Q (after_effect tools date_of guard eff o date_key r)
      unfolding effect_failed effect_succeeded emit_outcome_error write_outcome
      after_effect-Kept date_key (ok (result, content), t) i =
          (Ends-bind _ _
              (Kept-best_effort _
                (with_ledger-Kept o (λ l. l.complete result) (λ l h. h.complete result) handle))
              λ _.
                Ends-bind _ _
                  (row-Kept guard.audit quiet.audit _ (λ sink h.
                    Kept-best_effort _
                      (write_row-Kept sink h (some date_key) eff.before content _ none)))
                  (λ _. Ends-pure (executed result))).ends
            t i
      after_effect-Kept date_key (throw e, t) i =
          let unknown = judged_indeterminate tools date_of guard eff e in
          (Ends-bind _ _
              (Kept-best_effort _ (
                with_ledger-Kept o (λ l. if unknown then l.mark_indeterminate else l.fail)
                  (mark_or_fail-Kept unknown) handle))
              λ _.
                Ends-bind _ _
                  (row-Kept guard.audit quiet.audit _ (λ sink h.
                    Kept-best_effort _
                      (write_row-Kept sink h (some date_key) (λ _. none) none _ _)))
                  (λ _. Ends-raise e)).ends
            t i
