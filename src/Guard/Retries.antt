-- ===== src/Guard/Retries.antt =====
-- Retries of one mutation against one ledger object: a world that holds the object of `Ledger`, and
-- guarded mutations that reach it over calls which may be lost.
use snow_mcp.Common.{
  ℕ, ◌+◌, ◌≤◌, ◌<◌, ◌≡◌, refl, ap, String, Option, some, List, [], ◌∷◌, All, arith, inl,
}
use snow_mcp.Errors.{ok, throw, other_error}
use snow_mcp.Exec.{Exec}
use snow_mcp.Ledger.{
  LedgerState, ReplayFormat, BeginResult, new, replay, blocked, empty_ledger, retention_ms, begin,
  complete, fail, mark_indeterminate,
}
use snow_mcp.Ledger.Spec.{slot_of}
use snow_mcp.Ledger.Refinement.{Lasts}
use snow_mcp.Ledger.AtMostOnce.{
  Call, is_fail, begin_call, complete_call, fail_call, mark_call, perform, perform-claimed, claimed,
  claimed-le,
}
use snow_mcp.Guard.Audit.{AuditTools}
use snow_mcp.Guard.{
  LedgerBegin, claim_new, claim_replay, claim_blocked, LedgerHandle, MutationGuard, GuardedEffect,
  guard_mutation,
}
use snow_mcp.Guard.Balance.{Step, HandleLaws, CallbackLaws, LedgerLaw, guard_mutation-Covered}

-- The ledger object, the effects that reached ServiceNow, the clean failures reported to the ledger,
-- and the time.
pub record World (V : Type 0) : Type 0 where
  pub ledger : LedgerState V
  pub effects : ℕ
  pub fails : ℕ
  pub clock : ℕ

-- A call of a Durable Object arrives and is answered, or is lost on the way there or back.
pub data Delivery : Type 0 where
  delivered lost_call lost_answer : Delivery

abbrev pub deliver : {S A : Type 0} → Delivery → Exec S A → Exec S A
deliver delivered m s = m s
deliver lost_call m s = (throw other_error, s)
deliver lost_answer m s = (throw other_error, (m s).1)

module _ {V : Type 0} (format : ReplayFormat V) (delivery : World V → Delivery) where
  abbrev to_claim : BeginResult V → LedgerBegin (Option V)
  to_claim new = claim_new
  to_claim (replay v) = claim_replay v
  to_claim (blocked st) = claim_blocked st

  abbrev begin_arrived : String → Exec (World V) (LedgerBegin (Option V))
  begin_arrived hash w = (
    ok (to_claim (begin format hash w.clock w.clock w.ledger).0),
    record w { ledger = (begin format hash w.clock w.clock w.ledger).1 },
  )

  abbrev arrived : (World V → World V) → Exec (World V) (Unit {0})
  arrived f w = (ok tt, f w)

  -- The handle that the host makes of the object's stub.
  abbrev pub object_handle : LedgerHandle (World V) (Option V)
  object_handle = record {
    begin = λ hash w. deliver (delivery w) (begin_arrived hash) w;
    complete = λ result w.
        deliver (delivery w)
          (arrived (λ u. record u { ledger = complete format result u.clock u.clock u.ledger })) w;
    fail = λ w.
        deliver (delivery w)
          (arrived
            (λ u. record u { ledger = fail format u.clock u.clock u.ledger; fails = u.fails + 1 }))
          w;
    mark_indeterminate = λ w.
        deliver (delivery w)
          (arrived (λ u. record u { ledger = mark_indeterminate format u.clock u.clock u.ledger }))
          w;
  }

  module _ (start : ℕ) where
    abbrev horizon : ℕ
    horizon = start + retention_ms

    -- The time lies within one retention period, in which the record does not expire.
    abbrev pub Good : World V → Type 0
    Good w = Lasts format horizon w.ledger × (start ≤ w.clock) × (w.clock < horizon)

    abbrev pub claims : World V → ℕ
    claims w = claimed format (slot_of format w.ledger) + w.fails

    abbrev pub effects_of : World V → ℕ
    effects_of w = w.effects

    abbrev WorldStep : ℕ → World V → World V → Type 0
    WorldStep = Step Good effects_of claims

    deliver-step :
        {A : Type 0} (d : Delivery) (m : Exec (World V) A) (w : World V)
        → Good w
        → WorldStep 0 w (m w).1
        → WorldStep 0 w (deliver d m w).1
    deliver-step delivered m w good h = h
    deliver-step lost_call m w good h = (omega arith, good)
    deliver-step lost_answer m w good h = h

    -- What one call that arrives does, by the potential of `AtMostOnce`.
    call_step :
        (c : Call V) (w : World V)
        → Good w
        → Lasts format horizon (perform format w.clock w.clock c w.ledger).1
          × ((perform format w.clock w.clock c w.ledger).0
                + claimed format (slot_of format w.ledger)
              ≤ is_fail format c
                + claimed format (slot_of format (perform format w.clock w.clock c w.ledger).1))
    call_step c w good =
        perform-claimed format horizon w.clock w.clock c w.ledger good.2 (omega arith) good.0

    begin_step : (hash : String) (w : World V) → Good w → WorldStep 0 w (begin_arrived hash w).1
    unfolding perform
    begin_step hash w good =
        let (kept, le) = call_step (begin_call hash) w good in (omega arith, (kept, good.1, good.2))

    new_of_claim_new : (r : BeginResult V) → to_claim r ≡ claim_new → r ≡ new
    new_of_claim_new new h = refl
    new_of_claim_new (replay v) h = cc
    new_of_claim_new (blocked st) h = cc

    begin_new_step :
        (d : Delivery) (hash : String) (w t : World V)
        → Good w
        → deliver d (begin_arrived hash) w ≡ (ok claim_new, t)
        → effects_of t + claims w + 1 ≤ effects_of w + claims t
    unfolding perform
    begin_new_step delivered hash w t good e =
        let answer : ok (to_claim (begin format hash w.clock w.clock w.ledger).0) ≡ ok claim_new =
          ap (λ p. p.0) e in
        let told = new_of_claim_new (begin format hash w.clock w.clock w.ledger).0 (cc answer) in
        let (kept, le) = call_step (begin_call hash) w good in
        rw (← ap (λ p. p.1) e) (omega (arith, rw told at le))
    begin_new_step lost_call hash w t good e = absurd (cc (ap (λ p. p.0) e))
    begin_new_step lost_answer hash w t good e = absurd (cc (ap (λ p. p.0) e))

    fail_step :
        (w : World V)
        → Good w
        → WorldStep 0 w
            (record w { ledger = fail format w.clock w.clock w.ledger; fails = w.fails + 1 })
    unfolding perform
    fail_step w good =
        let (kept, le) = call_step fail_call w good in (omega arith, (kept, good.1, good.2))

    complete_step :
        (result : Option V) (w : World V)
        → Good w
        → WorldStep 0 w (record w { ledger = complete format result w.clock w.clock w.ledger })
    unfolding perform
    complete_step result w good =
        let (kept, le) = call_step (complete_call result) w good in
        (omega arith, (kept, good.1, good.2))

    mark_step :
        (w : World V)
        → Good w
        → WorldStep 0 w (record w { ledger = mark_indeterminate format w.clock w.clock w.ledger })
    unfolding perform
    mark_step w good =
        let (kept, le) = call_step mark_call w good in (omega arith, (kept, good.1, good.2))

    object_handle-HandleLaws : HandleLaws Good effects_of claims object_handle
    object_handle-HandleLaws = record {
      begin_new = λ hash s t good e. begin_new_step (delivery s) hash s t good e;
      begin_other = λ hash. record {
        at = λ w good.
            deliver-step (delivery w) (begin_arrived hash) w good (begin_step hash w good);
      };
      complete = λ result. record {
        at = λ w good. deliver-step (delivery w) _ w good (complete_step result w good);
      };
      fail = record { at = λ w good. deliver-step (delivery w) _ w good (fail_step w good) };
      mark_indeterminate = record {
        at = λ w good. deliver-step (delivery w) _ w good (mark_step w good);
      };
    }

    module _ {J : Type 0} (tools : AuditTools (World V) J) (date_of : ℕ → String) where
      -- One guarded mutation.
      pub record Attempt : Type 0 where
        pub guard : MutationGuard (World V) (Option V)
        pub eff : GuardedEffect (World V) (Option V) J

      -- It reaches the object through its stub, its effect is sent at most once, and its other
      -- callbacks leave the object and the count of effects alone.
      pub record IsRetry (a : Attempt) : Type 0 where
        pub stub : a.guard.ledger ≡ some (λ ordinal. object_handle)
        pub laws : CallbackLaws Good effects_of claims tools date_of a.guard a.eff

      unfoldable pub run_attempts : List Attempt → World V → World V
      run_attempts [] w = w
      run_attempts (a ∷ rest) w = run_attempts rest (guard_mutation tools date_of a.guard a.eff w).1

      handle_law :
          (a : Attempt)
          → IsRetry a
          → LedgerLaw Good effects_of claims tools date_of a.guard a.eff a.guard.ledger
      handle_law a r = rw r.stub object_handle-HandleLaws

      run_attempts-step :
          (attempts : List Attempt) (w : World V)
          → All IsRetry attempts
          → Good w
          → WorldStep 0 w (run_attempts attempts w)
      unfolding run_attempts
      run_attempts-step [] w rs good = (omega arith, good)
      run_attempts-step (a ∷ rest) w (r, rs) good =
          let covered =
            guard_mutation-Covered Good effects_of claims tools date_of a.guard a.eff r.laws
              (handle_law a r) in
          let first = covered.at w good in
          let later =
            run_attempts-step rest (guard_mutation tools date_of a.guard a.eff w).1 rs first.1 in
          (omega arith, later.1)

      -- However often a mutation is retried with its key within one retention period, over calls of
      -- the ledger that may be lost, the number of effects sent exceeds by at most one the number of
      -- clean failures that the ledger recorded.
      pub effects-le-fails :
          (attempts : List Attempt) (clock : ℕ)
          → All IsRetry attempts
          → start ≤ clock
          → clock < horizon
          → (run_attempts attempts
              (record { ledger = empty_ledger; effects = 0; fails = 0; clock = clock })).effects
            ≤ 1
              + (run_attempts attempts
                  (record { ledger = empty_ledger; effects = 0; fails = 0; clock = clock })).fails
      effects-le-fails attempts clock rs h k =
          let w : World V = record {
            ledger = empty_ledger;
            effects = 0;
            fails = 0;
            clock = clock;
          } in
          let step = run_attempts-step attempts w rs (inl refl, h, k) in
          omega (arith, claimed-le format (slot_of format (run_attempts attempts w).ledger))
