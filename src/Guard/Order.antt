-- ===== src/Guard/Order.antt =====
-- The order of the safety layers, for callbacks that log their calls: what stands before an effect,
-- and what is recorded after it.
use snow_mcp.Common.{
  ◌≡◌, refl, ◌≢◌, ◌∙◌, ◌⊎◌, String, Bool, true, false, not, ◌&&◌, Option, [], ◌∷◌, arith,
  Bool-cases, inl, inr,
}
use snow_mcp.Errors.{Thrown, Result, ok, throw}
use snow_mcp.Exec.{Exec, optional, catch, then_run, ◌>>◌}
use snow_mcp.Guard.{
  LedgerBegin, claim_new, claim_replay, claim_blocked, GuardMutationResult, is_missing,
  as_tool_error, write_row, emit_denial, deny_and_throw, write_intent, run_effect, run_gates,
  act_on_claim, claim_and_run, guard_mutation, handle_of,
}
use snow_mcp.Guard.Script.{
  preflight_run, snapshot_run, effect_run, Script, Log, logged_option, script_tools, script_guard,
  script_effect, logged_if, gates, outcome,
}
use snow_mcp.Guard.Layers.{
  ran, Passes, claimed_log, saved_log, handle_option, Stops, gate_cases, AuditPasses, intent_cases,
  run_effect_log,
}

module _ {T J : Type 0} (script : Script T J) where
  open script use {
    has_ledger, has_audit, begin_answer, complete_answer, fail_answer, mark_answer, audit_answer,
    preflight_answer, replay_answer, snapshot_answer, effect_answer, judge, durable, frozen,
    run_key, now, hash, date_of, request_id, instance_host, request_hash, identity, op, ordinal,
    table, sys_id, reason, before,
  }

  -- Every layer let the mutation through.
  pub record Passed (date_key : String) : Type 0 where
    pub preflight : Passes script preflight_answer
    pub snapshot : Passes script snapshot_answer
    pub intent : AuditPasses script date_key

  abbrev run_claimed : String → Result (GuardMutationResult T) × Log
  run_claimed date_key =
      run_gates (script_tools script) date_of (script_guard script) (script_effect script)
        (handle_option script) date_key (claimed_log script)

  quiet_claim : ran script (claimed_log script) ≡ false
  quiet_claim = ground arith

  then_stop :
      {A : Type 0} (r : Result (Unit {0}) × Log) (f : Unit {0} → Exec Log A)
      → Stops script r
      → ran script (then_run r f).1 ≡ false
  then_stop r f (e, l, same, quiet) = rw same quiet

  then_pass :
      {A : Type 0} (r : Result (Unit {0}) × Log) (f : Unit {0} → Exec Log A) (l : Log)
      → r ≡ (ok tt, l)
      → then_run r f ≡ f tt l
  then_pass r f l same = rw same

  abbrev effect_part : String → Exec Log (GuardMutationResult T)
  effect_part date_key =
      run_effect (script_tools script) date_of (script_guard script) (script_effect script)
        (handle_option script) date_key

  abbrev gate : Option (Exec Log (Unit {0})) → (Thrown → Thrown) → Exec Log (Unit {0})
  gate callback f = catch (optional callback) (λ e.
      deny_and_throw (script_tools script) date_of (script_guard script) (script_effect script)
        (handle_option script) (f e))

  abbrev from_intent : String → Exec Log (GuardMutationResult T)
  from_intent date_key =
      write_intent (script_tools script) date_of (script_guard script) (script_effect script)
        (handle_option script) date_key
      >> effect_part date_key

  abbrev from_snapshot : String → Exec Log (GuardMutationResult T)
  from_snapshot date_key =
      gate (logged_option snapshot_run snapshot_answer) as_tool_error >> from_intent date_key

  checked_log : Log
  checked_log = logged_if preflight_answer preflight_run (claimed_log script)

  -- The gates let the mutation through to its effect, or the effect is not run.
  run_gates_cases :
      (date_key : String)
      → (Passed date_key × (run_claimed date_key ≡ effect_part date_key (gates script date_key)))
        ⊎ (ran script (run_claimed date_key).1 ≡ false)
  unfolding run_gates checked_log
  run_gates_cases date_key =
      elim (gate_cases script preflight_run preflight_answer (λ e. e) (claimed_log script) refl
        quiet_claim) [
          | inr stop ↦ inr (then_stop _ (λ _. from_snapshot date_key) stop)
          | inl (p, passes, quiet) ↦
              let first = then_pass _ (λ _. from_snapshot date_key) checked_log p in
              elim (gate_cases script snapshot_run snapshot_answer as_tool_error checked_log refl
                quiet) [
                  | inr stop ↦ inr (rw first (then_stop _ (λ _. from_intent date_key) stop))
                  | inl (q, saves, quiet') ↦
                      let second = then_pass _ (λ _. from_intent date_key) (saved_log script) q in
                      elim (intent_cases script date_key quiet') [
                        | inr stop ↦
                            inr (rw (first, second) (then_stop _ (λ _. effect_part date_key) stop))
                        | inl (r, written) ↦ inl (
                          record { preflight = passes; snapshot = saves; intent = written },
                          first
                              ∙ second
                              ∙ then_pass _ (λ _. effect_part date_key) (gates script date_key) r,
                        )
                      ]
                ]
        ]

  abbrev claim_part : String → Result (GuardMutationResult T) × Log
  claim_part date_key =
      claim_and_run (script_tools script) date_of (script_guard script) (script_effect script)
        (handle_of (script_tools script) date_of (script_guard script) (script_effect script)
          (script_guard script).ledger)
        date_key []

  claim_granted :
      (date_key : String)
      → (has_ledger ≡ false) ⊎ (begin_answer ≡ ok claim_new)
      → claim_part date_key ≡ run_claimed date_key
  unfolding claim_and_run act_on_claim
  claim_granted date_key h = ground arith

  claim_refused :
      (date_key : String)
      → has_ledger ≡ true
      → begin_answer ≢ ok claim_new
      → ran script (claim_part date_key).1 ≡ false
  unfolding claim_and_run act_on_claim emit_denial write_row
  claim_refused date_key h k = ground arith

  abbrev pub whole : Result (GuardMutationResult T) × Log
  whole =
      guard_mutation (script_tools script) date_of (script_guard script) (script_effect script) []

  -- The guard's own conditions: what it requires is there, mutations are not frozen and there is a key.
  pub record Admitted : Type 0 where
    pub durability : durable ≡ true → (has_audit ≡ true) × (has_ledger ≡ true)
    pub not_frozen : frozen ≡ false
    pub has_key : is_missing run_key ≡ false

  abbrev admits : Bool
  admits =
      not (durable && not has_audit)
      && not frozen
      && not (is_missing run_key)
      && not (durable && not has_ledger)

  guard_refused : admits ≡ false → ran script whole.1 ≡ false
  unfolding guard_mutation emit_denial write_row
  guard_refused h = ground arith

  guard_admitted : admits ≡ true → whole ≡ claim_part (date_of (now []))
  unfolding guard_mutation
  guard_admitted h = ground arith

  Admitted_of_admits : admits ≡ true → Admitted
  Admitted_of_admits h = record {
    durability = λ d. (ground arith, ground arith);
    not_frozen = ground arith;
    has_key = ground arith;
  }

  begin_cases : (r : Result (LedgerBegin T)) → (r ≡ ok claim_new) ⊎ (r ≢ ok claim_new)
  begin_cases (ok claim_new) = inl refl
  begin_cases (ok (claim_replay x)) = inr (λ h. cc)
  begin_cases (ok (claim_blocked x)) = inr (λ h. cc)
  begin_cases (throw e) = inr (λ h. cc)

  claim_cases :
      (date_key : String)
      → ((claim_part date_key ≡ run_claimed date_key)
          × (has_ledger ≡ true → begin_answer ≡ ok claim_new))
        ⊎ (ran script (claim_part date_key).1 ≡ false)
  claim_cases date_key = elim (Bool-cases has_ledger) [
    | inr a ↦ inl (claim_granted date_key (inl a), λ b. absurd (cc))
    | inl a ↦ elim (begin_cases begin_answer) [
      | inl e ↦ inl (claim_granted date_key (inr e), λ b. e)
      | inr n ↦ inr (claim_refused date_key a n)
    ]
  ]

  not_ran : {A : Type 0} → (l : Log) → ran script l ≡ true → ran script l ≡ false → A
  not_ran l h k = absurd (cc)

  -- If the effect runs, then what is required was there, mutations were not frozen and there was a
  -- key; the ledger, if there is one, granted a new claim; and preflight, snapshot and intent row
  -- passed. The log is then these layers in this order, the effect once, the outcome reported to the
  -- ledger (complete, or for an error: marked as unknown if it was judged so, else failed), and the
  -- outcome row, which is written under the date of the intent row.
  pub effect_log :
      ran script whole.1 ≡ true
      → Admitted
        × (has_ledger ≡ true → begin_answer ≡ ok claim_new)
        × Passed (date_of (now []))
        × (whole.1
            ≡ outcome script
                (date_of (now []))
                effect_answer
                (effect_run ∷ gates script (date_of (now []))))
  effect_log h = elim (Bool-cases admits) [
    | inr a ↦ not_ran whole.1 h (guard_refused a)
    | inl a ↦
        let date_key = date_of (now []) in
        let first = guard_admitted a in
        elim (claim_cases date_key) [
          | inr quiet ↦ not_ran whole.1 h (rw first quiet)
          | inl (second, granted) ↦ elim (run_gates_cases date_key) [
            | inr quiet ↦ not_ran whole.1 h (rw (first, second) quiet)
            | inl (passed, third) ↦ (
              Admitted_of_admits a,
              granted,
              passed,
              rw (first, second, third) (run_effect_log script date_key (gates script date_key)),
            )
          ]
        ]
  ]
