-- ===== src/Guard/Balance.antt =====
-- A guarded mutation never runs its effect without a claim: for any measure of the effects that were
-- run and of the claims that were granted, the effects grow by no more than the claims do.
use snow_mcp.Common.{
  ℕ, ◌+◌, ◌≤◌, ◌≡◌, ◌≢◌, refl, String, Bool, true, false, Option, none, some, arith, if◌then◌else◌,
}
use snow_mcp.Errors.{capability_denied, internal_error, tool_error, Thrown, Result, ok, throw}
use snow_mcp.Exec.{Exec, pure, raise, then_run, or_handle, ◌>>=◌, catch, best_effort, optional}
use snow_mcp.Guard.Audit.{
  AuditRecord, AuditTools, AuditStatus, BuildInput, ErrorClass, build_audit_record, emit_audit,
  hash_option,
}
use snow_mcp.Guard.{
  LedgerBegin, claim_new, claim_replay, claim_blocked, LedgerHandle, GuardMutationResult,
  MutationGuard, GuardedEffect, audit_input, write_row, emit_denial, emit_outcome_error, deny,
  deny_and_throw, write_intent, effect_failed, effect_succeeded, executed, judged_indeterminate,
  write_outcome, after_effect, handle_of, run_effect, run_gates, act_on_claim, claim_and_run,
  guard_mutation, as_tool_error,
}
use snow_mcp.Guard.Cases.{guard_mutation-cases}

module _ {S : Type 0} (Good : S → Type 0) (effects claims : S → ℕ) where
  -- From a good state the effects that are added are covered by the claims that are added, up to
  -- `spare` ones, and the state stays good.
  abbrev pub Step : ℕ → S → S → Type 0
  Step spare s t = (effects t + claims s ≤ effects s + claims t + spare) × Good t

  pub record Covered {A : Type 0} (m : Exec S A) : Type 0 where
    pub at : (s : S) → Good s → Step 0 s (m s).1

  -- Covered but for one effect.
  pub record Spends {A : Type 0} (m : Exec S A) : Type 0 where
    pub at : (s : S) → Good s → Step 1 s (m s).1

  module _ {A B : Type 0} where
    pub Covered-bind :
        (m : Exec S A) (f : A → Exec S B)
        → Covered m
        → ((a : A) → Covered (f a))
        → Covered (m >>= f)
    Covered-bind m f h k = record { at = λ s good. after s (m s) (h.at s good) }
      where
        after : (s : S) (r : Result A × S) → Step 0 s r.1 → Step 0 s (then_run r f).1
        after s (ok a, t) g = let g' = (k a).at t g.1 in (omega arith, g'.1)
        after s (throw e, t) g = g

    pub Spends-bind :
        (m : Exec S A) (f : A → Exec S B) → Covered m → ((a : A) → Spends (f a)) → Spends (m >>= f)
    Spends-bind m f h k = record { at = λ s good. after s (m s) (h.at s good) }
      where
        after : (s : S) (r : Result A × S) → Step 0 s r.1 → Step 1 s (then_run r f).1
        after s (ok a, t) g = let g' = (k a).at t g.1 in (omega arith, g'.1)
        after s (throw e, t) g = (omega arith, g.1)

  module _ {A : Type 0} where
    pub Covered-pure : (a : A) → Covered {A = A} (pure a)
    Covered-pure a = record { at = λ s good. (omega arith, good) }

    pub Covered-raise : (e : Thrown) → Covered {A = A} (raise e)
    Covered-raise e = record { at = λ s good. (omega arith, good) }

    pub Covered-catch :
        (m : Exec S A) (f : Thrown → Exec S A)
        → Covered m
        → ((e : Thrown) → Covered (f e))
        → Covered (catch m f)
    Covered-catch m f h k = record { at = λ s good. after s (m s) (h.at s good) }
      where
        after : (s : S) (r : Result A × S) → Step 0 s r.1 → Step 0 s (or_handle r f).1
        after s (ok a, t) g = g
        after s (throw e, t) g = let g' = (k e).at t g.1 in (omega arith, g'.1)

  pub Covered-best_effort : (m : Exec S (Unit {0})) → Covered m → Covered (best_effort m)
  Covered-best_effort m h = Covered-catch m (λ _. pure tt) h (λ _. Covered-pure tt)

  -- An optional callback is covered if it is, when it is there.
  abbrev pub CoveredOption : Option (Exec S (Unit {0})) → Type 0
  CoveredOption none = Unit
  CoveredOption (some m) = Covered m

  pub Covered-optional : (o : Option (Exec S (Unit {0}))) → CoveredOption o → Covered (optional o)
  Covered-optional none h = Covered-pure tt
  Covered-optional (some m) h = h

  -- What the callbacks of a guarded mutation do: a ledger handle grants at least one claim when it
  -- answers `new`, the effect runs at most once, and nothing else runs it or takes a claim back.
  pub record HandleLaws {T : Type 0} (l : LedgerHandle S T) : Type 0 where
    pub begin_new :
        (hash : String) (s t : S)
        → Good s
        → l.begin hash s ≡ (ok claim_new, t)
        → effects t + claims s + 1 ≤ effects s + claims t
    pub begin_other : (hash : String) → Covered (l.begin hash)
    pub complete : (result : T) → Covered (l.complete result)
    pub fail : Covered l.fail
    pub mark_indeterminate : Covered l.mark_indeterminate

  abbrev pub AuditLaw : Option (AuditRecord → Exec S (Unit {0})) → Type 0
  AuditLaw none = Unit
  AuditLaw (some sink) = (r : AuditRecord) → Covered (sink r)

  module _ {T J : Type 0} (tools : AuditTools S J) (date_of : ℕ → String)
      (guard : MutationGuard S T) (eff : GuardedEffect S T J) where
    pub record CallbackLaws : Type 0 where
      pub hash : (v : J) → Covered (tools.hash_value v)
      pub audit : AuditLaw guard.audit
      pub preflight : CoveredOption eff.preflight
      pub replay_preflight : CoveredOption eff.replay_preflight
      pub snapshot : CoveredOption eff.snapshot
      pub effect : Spends eff.effect

    -- The handle of the effect's ordinal keeps the laws.
    abbrev pub LedgerLaw : Option (ℕ → LedgerHandle S T) → Type 0
    LedgerLaw none = ⊥
    LedgerLaw (some f) = HandleLaws (f eff.ordinal)

    module _ (laws : CallbackLaws) where
      hash_option-Covered : (o : Option J) → Covered (hash_option tools o)
      hash_option-Covered none = Covered-pure none
      hash_option-Covered (some v) = Covered-bind _ _ (laws.hash v) (λ h. Covered-pure (some h))

      build-Covered : (input : BuildInput J) → Covered (build_audit_record tools input)
      unfolding build_audit_record
      build-Covered input =
          Covered-bind _ _ (hash_option-Covered input.before)
            λ b. Covered-bind _ _ (hash_option-Covered input.after) λ a. Covered-pure _

      emit-Covered :
          (sink : AuditRecord → Exec S (Unit {0}))
          → ((r : AuditRecord) → Covered (sink r))
          → (input : BuildInput J)
          → Covered (build_audit_record tools input >>= λ r. emit_audit tools sink r)
      unfolding emit_audit
      emit-Covered sink h input =
          Covered-bind (build_audit_record tools input) (λ r. emit_audit tools sink r)
            (build-Covered input) (λ r. h (tools.redact r))

      write_row-Covered :
          (sink : AuditRecord → Exec S (Unit {0}))
          → ((r : AuditRecord) → Covered (sink r))
          → (date_key : Option String) (before : S → Option J) (after : Option J)
            (status : AuditStatus) (error_class : Option ErrorClass)
          → Covered
              (write_row tools date_of guard eff sink date_key before after status error_class)
      unfolding write_row
      write_row-Covered sink h date_key before after status error_class = record {
        at = λ s good.
            let input =
              audit_input tools date_of guard eff (guard.now s) date_key (before s) after status
                error_class in
            let row = emit-Covered sink h input in row.at s good;
      }

      row-Covered :
          (o : Option (AuditRecord → Exec S (Unit {0})))
          → AuditLaw o
          → (row : (AuditRecord → Exec S (Unit {0})) → Exec S (Unit {0}))
          → ((sink : AuditRecord → Exec S (Unit {0}))
              → ((r : AuditRecord) → Covered (sink r))
              → Covered (row sink))
          → Covered (elim o [ none ↦ pure tt | some sink ↦ row sink ])
      row-Covered none h row k = Covered-pure tt
      row-Covered (some sink) h row k = k sink h

      emit_denial-Covered : (e : Thrown) → Covered (emit_denial tools date_of guard eff e)
      unfolding emit_denial
      emit_denial-Covered e =
          row-Covered guard.audit laws.audit _
            (λ sink h. Covered-best_effort _ (write_row-Covered sink h none (λ _. none) none _ _))

      emit_outcome_error-Covered :
          (e : Thrown) (unknown : Bool) (date_key : String)
          → Covered (emit_outcome_error tools date_of guard eff e unknown date_key)
      unfolding emit_outcome_error
      emit_outcome_error-Covered e unknown date_key =
          row-Covered guard.audit laws.audit _ (λ sink h.
            Covered-best_effort _ (write_row-Covered sink h (some date_key) (λ _. none) none _ _))

      write_outcome-Covered :
          (date_key : String) (after : Option J)
          → Covered (write_outcome tools date_of guard eff date_key after)
      unfolding write_outcome
      write_outcome-Covered date_key after = row-Covered guard.audit laws.audit _ (λ sink h.
          Covered-best_effort _ (write_row-Covered sink h (some date_key) eff.before after _ none))

      deny-Covered : {A : Type 0} (e : Thrown) → Covered (deny tools date_of guard eff {A = A} e)
      deny-Covered e = Covered-bind _ _ (emit_denial-Covered e) (λ _. Covered-raise e)

      module _ (l : LedgerHandle S T) (handle : HandleLaws l) where
        deny_and_throw-Covered :
            {A : Type 0} (e : Thrown)
            → Covered (deny_and_throw tools date_of guard eff {A = A} (some l) e)
        unfolding deny_and_throw
        deny_and_throw-Covered e = Covered-bind _ _ handle.fail (λ _. deny-Covered e)

        write_intent-Covered :
            (date_key : String) → Covered (write_intent tools date_of guard eff (some l) date_key)
        unfolding write_intent
        write_intent-Covered date_key = row-Covered guard.audit laws.audit _ λ sink h.
            Covered-catch _ _ (write_row-Covered sink h (some date_key) eff.before none _ none)
              (λ _. deny_and_throw-Covered _)

        mark_or_fail-Covered : (b : Bool) → Covered (if b then l.mark_indeterminate else l.fail)
        mark_or_fail-Covered true = handle.mark_indeterminate
        mark_or_fail-Covered false = handle.fail

        effect_failed-Covered :
            (date_key : String) (e : Thrown)
            → Covered (
                effect_failed tools date_of guard eff {A = GuardMutationResult T}
                  (some l)
                  date_key
                  e)
        unfolding effect_failed
        effect_failed-Covered date_key e =
            let unknown = judged_indeterminate tools date_of guard eff e in
            Covered-bind _ _ (Covered-best_effort _ (mark_or_fail-Covered unknown)) λ _.
              Covered-bind _ _ (emit_outcome_error-Covered e unknown date_key)
                (λ _. Covered-raise e)

        effect_succeeded-Covered :
            (date_key : String) (result : T) (after : Option J)
            → Covered (effect_succeeded tools date_of guard eff (some l) date_key result after)
        unfolding effect_succeeded
        effect_succeeded-Covered date_key result after =
            Covered-bind _ _ (Covered-best_effort _ (handle.complete result)) λ _.
              Covered-bind _ _ (write_outcome-Covered date_key after)
                (λ _. Covered-pure (executed result))

        run_effect-Spends :
            (date_key : String) → Spends (run_effect tools date_of guard eff (some l) date_key)
        unfolding run_effect
        run_effect-Spends date_key = record {
          at = λ s good. after s (eff.effect s) (laws.effect.at s good);
        }
          where
            after :
                (s : S) (r : Result (T × Option J) × S)
                → Step 1 s r.1
                → Step 1 s (after_effect tools date_of guard eff (some l) date_key r).1
            after s (ok (result, content), t) g =
                let g' = (effect_succeeded-Covered date_key result content).at t g.1 in
                (omega arith, g'.1)
            after s (throw e, t) g =
                let g' = (effect_failed-Covered date_key e).at t g.1 in (omega arith, g'.1)

        run_gates-Spends :
            (date_key : String) → Spends (run_gates tools date_of guard eff (some l) date_key)
        unfolding run_gates
        run_gates-Spends date_key =
            Spends-bind _ _
              (Covered-catch _ _ (Covered-optional _ laws.preflight)
                (λ e. deny_and_throw-Covered e))
              λ _.
                Spends-bind _ _
                  (Covered-catch _ _ (Covered-optional _ laws.snapshot)
                    (λ e. deny_and_throw-Covered (as_tool_error e)))
                  (λ _.
                    Spends-bind _ _ (write_intent-Covered date_key)
                      (λ _. run_effect-Spends date_key))

        act_on_claim-Covered :
            (date_key : String) (c : LedgerBegin T)
            → c ≢ claim_new
            → Covered (act_on_claim tools date_of guard eff l date_key c)
        unfolding act_on_claim
        act_on_claim-Covered date_key claim_new h = absurd (h refl)
        act_on_claim-Covered date_key (claim_replay result) h =
            Covered-bind _ _
              (Covered-catch _ _ (Covered-optional _ laws.replay_preflight) (λ e. deny-Covered e))
              (λ _. Covered-pure _)
        act_on_claim-Covered date_key (claim_blocked status) h = deny-Covered _

        claim_and_run-Covered :
            (date_key : String) → Covered (claim_and_run tools date_of guard eff (some l) date_key)
        unfolding claim_and_run act_on_claim
        claim_and_run-Covered date_key = record {
          at = λ s good.
              after s (l.begin eff.request_hash s) good refl
                ((handle.begin_other eff.request_hash).at s good);
        }
          where
            after :
                (s : S) (r : Result (LedgerBegin T) × S)
                → Good s
                → l.begin eff.request_hash s ≡ r
                → Step 0 s r.1
                → Step 0 s (then_run r (λ c. act_on_claim tools date_of guard eff l date_key c)).1
            after s (ok claim_new, t) good e g =
                let b = handle.begin_new eff.request_hash s t good e in
                let g' = (run_gates-Spends date_key).at t g.1 in (omega arith, g'.1)
            after s (ok (claim_replay x), t) good e g =
                let g' = (act_on_claim-Covered date_key (claim_replay x) (cc)).at t g.1 in
                (omega arith, g'.1)
            after s (ok (claim_blocked x), t) good e g =
                let g' = (act_on_claim-Covered date_key (claim_blocked x) (cc)).at t g.1 in
                (omega arith, g'.1)
            after s (throw x, t) good e g = g

      claim-Covered :
          (o : Option (ℕ → LedgerHandle S T))
          → LedgerLaw o
          → (date_key : String)
          → Covered
              (claim_and_run tools date_of guard eff (handle_of tools date_of guard eff o) date_key)
      claim-Covered none h date_key = absurd h
      claim-Covered (some f) h date_key = claim_and_run-Covered (f eff.ordinal) h date_key

      -- With a ledger, a guarded mutation runs its effect only against a claim that the ledger has
      -- granted: for every measure of effects and claims that the callbacks respect, and from every
      -- state, the effects that it adds are at most the claims that it adds.
      pub guard_mutation-Covered :
          LedgerLaw guard.ledger → Covered (guard_mutation tools date_of guard eff)
      guard_mutation-Covered h = record {
        at = λ s good.
            guard_mutation-cases tools date_of guard eff (λ r. Step 0 s r.1) s
              ((Covered-raise {A = GuardMutationResult T} (tool_error internal_error)).at s good)
              ((deny-Covered {A = GuardMutationResult T} (tool_error capability_denied)).at s good)
              ((claim-Covered guard.ledger h (date_of (guard.now s))).at s good);
      }
