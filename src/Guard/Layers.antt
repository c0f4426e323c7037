-- ===== src/Guard/Layers.antt =====
-- The gates of `guardMutation` under a script, packages/mcp-server/src/sn/mutation-guard.ts: each lets the
-- mutation through and logs what it ran, or stops it before the effect.
use snow_mcp.Common.{
  ◌≡◌, refl, ◌≢◌, ◌⊎◌, String, Bool, true, false, Option, none, some, [], ◌∷◌, arith, any,
  Bool-cases, inl, inr,
}
use snow_mcp.Errors.{tool_error, internal_error, Thrown, Result, ok, throw}
use snow_mcp.Exec.{optional, catch}
use snow_mcp.Guard.Audit.{AuditRecord, intent}
use snow_mcp.Guard.{
  LedgerHandle, write_row, emit_denial, emit_outcome_error, deny_and_throw, write_intent,
  write_outcome, effect_failed, effect_succeeded, run_effect,
}
use snow_mcp.Guard.Script.{
  Event, begun, preflight_run, snapshot_run, effect_run, Script, Log, when, logged_option,
  script_tools, script_handle, script_guard, script_effect, row, logged_if, push_if, gates, outcome,
}

module _ {T J : Type 0} (script : Script T J) where
  open script use {
    has_ledger, has_audit, begin_answer, complete_answer, fail_answer, mark_answer, audit_answer,
    preflight_answer, replay_answer, snapshot_answer, effect_answer, judge, durable, frozen,
    run_key, now, hash, date_of, request_id, instance_host, request_hash, identity, op, ordinal,
    table, sys_id, reason, before,
  }

  pub run_effect_log :
      (date_key : String) (log : Log)
      → (run_effect
          (script_tools script)
          date_of
          (script_guard script)
          (script_effect script)
          (when has_ledger (script_handle script))
          date_key
          log).1
        ≡ outcome script date_key effect_answer (effect_run ∷ log)
  unfolding run_effect effect_succeeded effect_failed write_outcome emit_outcome_error write_row
  run_effect_log date_key log = ground arith

  abbrev pub is_effect : Event → Bool
  is_effect effect_run = true
  is_effect _ = false

  abbrev pub ran : Log → Bool
  ran log = any is_effect log

  abbrev pub Passes : Option (Result (Unit {0})) → Type 0
  Passes none = Unit
  Passes (some r) = r ≡ ok tt

  abbrev pub claimed_log : Log
  claimed_log = push_if has_ledger begun []

  abbrev pub saved_log : Log
  saved_log =
      logged_if snapshot_answer snapshot_run (logged_if preflight_answer preflight_run claimed_log)

  abbrev pub handle_option : Option (LedgerHandle Log T)
  handle_option = when has_ledger (script_handle script)

  deny_log :
      (e : Thrown) (log : Log)
      → ran log ≡ false
      → (ran
            (emit_denial
              (script_tools script)
              date_of
              (script_guard script)
              (script_effect script)
              e
              log).1
          ≡ false)
        × (ran
              (deny_and_throw
                (script_tools script)
                date_of
                (script_guard script)
                (script_effect script)
                {A = Unit {0}}
                handle_option
                e
                log).1
            ≡ false)
        × ((deny_and_throw
              (script_tools script)
              date_of
              (script_guard script)
              (script_effect script)
              {A = Unit {0}}
              handle_option
              e
              log).0
            ≢ ok tt)
  unfolding deny_and_throw emit_denial write_row
  deny_log e log h = (ground arith, ground arith, ground arith)

  -- A gate lets the mutation through and logs what it ran, or stops it before the effect.
  abbrev pub Stops : Result (Unit {0}) × Log → Type 0
  Stops r = (e : Thrown) × (l : Log) × (r ≡ (throw e, l)) × (ran l ≡ false)

  Stops-of : (r : Result (Unit {0}) × Log) → r.0 ≢ ok tt → ran r.1 ≡ false → Stops r
  Stops-of (ok tt, l) h k = absurd (h refl)
  Stops-of (throw e, l) h k = (e, l, refl, k)

  deny-Stops :
      (e : Thrown) (log : Log)
      → ran log ≡ false
      → Stops (
          deny_and_throw
            (script_tools script)
            date_of
            (script_guard script)
            (script_effect script)
            {A = Unit {0}}
            handle_option
            e
            log)
  deny-Stops e log h = let (denial, quiet, thrown) = deny_log e log h in Stops-of _ thrown quiet

  pub gate_cases :
      (event : Event) (o : Option (Result (Unit {0}))) (f : Thrown → Thrown) (log : Log)
      → is_effect event ≡ false
      → ran log ≡ false
      → ((catch
              (optional (logged_option event o))
              (λ e.
                deny_and_throw
                  (script_tools script)
                  date_of
                  (script_guard script)
                  (script_effect script)
                  handle_option
                  (f e))
              log
            ≡ (ok tt, logged_if o event log))
          × Passes o
          × (ran (logged_if o event log) ≡ false))
        ⊎ Stops (
            catch
              (optional (logged_option event o))
              (λ e.
                deny_and_throw
                  (script_tools script)
                  date_of
                  (script_guard script)
                  (script_effect script)
                  handle_option
                  (f e))
              log)
  gate_cases event none f log h k = inl (refl, tt, k)
  gate_cases event (some (ok tt)) f log h k = inl (refl, refl, rw h k)
  gate_cases event (some (throw e)) f log h k = inr (deny-Stops (f e) (event ∷ log) (rw h k))

  abbrev pub intent_row : String → AuditRecord
  intent_row date_key = row script saved_log date_key (before saved_log) none intent none

  abbrev pub AuditPasses : String → Type 0
  AuditPasses date_key = has_audit ≡ true → audit_answer (intent_row date_key) ≡ ok tt

  abbrev pub write_saved : String → Result (Unit {0}) × Log
  write_saved date_key =
      write_intent (script_tools script) date_of (script_guard script) (script_effect script)
        handle_option date_key saved_log

  intent_passes :
      (date_key : String)
      → (has_audit ≡ false) ⊎ (audit_answer (intent_row date_key) ≡ ok tt)
      → write_saved date_key ≡ (ok tt, gates script date_key)
  unfolding write_intent write_row
  intent_passes date_key h = ground arith

  intent_fails :
      (date_key : String) (e : Thrown)
      → has_audit ≡ true
      → audit_answer (intent_row date_key) ≡ throw e
      → write_saved date_key
        ≡ deny_and_throw
            (script_tools script)
            date_of
            (script_guard script)
            (script_effect script)
            handle_option
            (tool_error internal_error)
            (gates script date_key)
  unfolding write_intent write_row
  intent_fails date_key e h k = ground arith

  gates-quiet : (date_key : String) → ran saved_log ≡ false → ran (gates script date_key) ≡ false
  gates-quiet date_key h = ground arith

  pub intent_cases :
      (date_key : String)
      → ran saved_log ≡ false
      → ((write_saved date_key ≡ (ok tt, gates script date_key)) × AuditPasses date_key)
        ⊎ Stops (write_saved date_key)
  intent_cases date_key h = elim (Bool-cases has_audit) [
    | inr a ↦ inl (intent_passes date_key (inl a), λ b. absurd (cc))
    | inl a ↦ by_answer (audit_answer (intent_row date_key)) refl a
  ]
    where
      by_answer :
          (r : Result (Unit {0}))
          → audit_answer (intent_row date_key) ≡ r
          → has_audit ≡ true
          → ((write_saved date_key ≡ (ok tt, gates script date_key)) × AuditPasses date_key)
            ⊎ Stops (write_saved date_key)
      by_answer (ok tt) e a = inl (intent_passes date_key (inr e), λ b. e)
      by_answer (throw x) e a = inr (
          rw (intent_fails date_key x a e) (
            deny-Stops (tool_error internal_error) (gates script date_key)
              (gates-quiet date_key h)))
