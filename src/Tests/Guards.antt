-- ===== src/Tests/Guards.antt =====
-- Guarded mutations on concrete callbacks.
use snow_mcp.Common.{
  ℕ, ◌+◌, ◌≤◌, ◌≡◌, refl, String, Bool, true, false, Option, none, some, List, [], ◌∷◌, arith,
}
use snow_mcp.Errors.{ok, throw, Thrown, tool_error, other_error, timeout, capability_denied}
use snow_mcp.Exec.{Exec}
use snow_mcp.Ledger.{
  empty_ledger, normalize_record, get_active_record, put_record, begin, complete, fail,
  mark_indeterminate,
}
use snow_mcp.Guard.Audit.{AuditIdentity, AuditTools, update, build_audit_record, emit_audit}
use snow_mcp.Guard.{
  claim_new, guard_mutation, write_row, emit_denial, emit_outcome_error, deny_and_throw,
  write_intent, write_outcome, effect_failed, effect_succeeded, run_effect, run_gates, act_on_claim,
  claim_and_run,
}
use snow_mcp.Guard.Script.{effect_run, Script, outcome, gates}
use snow_mcp.Guard.Layers.{ran}
use snow_mcp.Guard.Order.{effect_log, whole, Admitted, Passed}
use snow_mcp.Guard.Retries.{
  World, Delivery, delivered, object_handle, Attempt, IsRetry, run_attempts, effects-le-fails,
}
use snow_mcp.Tests.Ledgers.{numbers}

guards : Unit {0}
unfolding normalize_record get_active_record put_record begin complete fail mark_indeterminate
    build_audit_record emit_audit write_row emit_denial emit_outcome_error deny_and_throw
    write_intent write_outcome effect_failed effect_succeeded run_effect run_gates act_on_claim
    claim_and_run guard_mutation run_attempts
guards = tt

abbrev pub ann : AuditIdentity
ann = record { mcp_actor_user_id = "ann"; mcp_actor_email = none; snow_effective_user = none }

abbrev script : Script ℕ ℕ
script = record {
  has_ledger = true;
  has_audit = true;
  begin_answer = ok claim_new;
  complete_answer = ok tt;
  fail_answer = ok tt;
  mark_answer = throw other_error;
  audit_answer = λ r. ok tt;
  preflight_answer = some (ok tt);
  replay_answer = none;
  snapshot_answer = some (ok tt);
  effect_answer = throw (tool_error timeout);
  judge = none;
  durable = true;
  frozen = false;
  run_key = some "key";
  now = λ log. 5;
  hash = λ n. "hash";
  date_of = λ t. "2026-01-01";
  request_id = "req";
  instance_host = "dev.service-now.com";
  request_hash = "h";
  identity = ann;
  op = update;
  ordinal = 0;
  table = some "incident";
  sys_id = some "id";
  reason = none;
  before = λ log. some 3;
}

ran_holds : ran script (whole script).1 ≡ true
unfolding guards
ran_holds = refl

script_throws : (whole script).0 ≡ throw (tool_error timeout)
unfolding guards
script_throws = refl

frozen_denied : (whole (record script { frozen = true })).0 ≡ throw (tool_error capability_denied)
unfolding guards
frozen_denied = refl

effect_log_example :
    Admitted script
    × (script.has_ledger ≡ true → script.begin_answer ≡ ok claim_new)
    × Passed script (script.date_of (script.now []))
    × ((whole script).1
        ≡ outcome script
            (script.date_of (script.now []))
            script.effect_answer
            (effect_run ∷ gates script (script.date_of (script.now []))))
effect_log_example = effect_log script ran_holds

abbrev delivery : World ℕ → Delivery
delivery w = delivered

abbrev tools : AuditTools (World ℕ) ℕ
tools = record { hash_value = λ v w. (ok "hash", w); redact = λ r. r }

abbrev date_of : ℕ → String
date_of t = "2026-01-01"

-- The effect is sent, and times out.
abbrev send : Exec (World ℕ) (Option ℕ × Option ℕ)
send w = (throw (tool_error timeout), record w { effects = w.effects + 1 })

abbrev judge_clean : Bool → Option (Thrown → Bool)
judge_clean b = some (λ e. b)

abbrev attempt : Bool → Attempt numbers delivery 0 tools date_of
attempt unknown = record {
  guard = record {
    request_id = "req";
    run_key = some "key";
    instance_host = "dev.service-now.com";
    identity = ann;
    now = λ w. w.clock;
    durability_required = false;
    mutation_freeze = false;
    ledger = some (λ ordinal. object_handle numbers delivery);
    audit = none;
  };
  eff = record {
    ordinal = 0;
    op = update;
    table = some "incident";
    sys_id = some "id";
    reason = none;
    request_hash = "h";
    preflight = none;
    replay_preflight = none;
    snapshot = none;
    before = λ w. none;
    effect = send;
    is_indeterminate = judge_clean unknown;
  };
}

attempt-IsRetry : (unknown : Bool) → IsRetry numbers delivery 0 tools date_of (attempt unknown)
attempt-IsRetry unknown = record {
  stub = refl;
  laws = record {
    hash = λ v. record { at = λ w good. (omega arith, good) };
    audit = tt;
    preflight = tt;
    replay_preflight = tt;
    snapshot = tt;
    effect = record { at = λ w good. (omega arith, good) };
  };
}

abbrev attempts : List (Attempt numbers delivery 0 tools date_of)
attempts = attempt false ∷ attempt true ∷ attempt true ∷ []

abbrev start_world : World ℕ
start_world = record { ledger = empty_ledger; effects = 0; fails = 0; clock = 7 }

-- The first attempt fails cleanly and is retried once; the third is blocked.
attempts_count :
    ((run_attempts numbers delivery 0 tools date_of attempts start_world).effects ≡ 2)
    × ((run_attempts numbers delivery 0 tools date_of attempts start_world).fails ≡ 1)
unfolding guards
attempts_count = (refl, refl)

effects-le-fails_example :
    (run_attempts numbers delivery 0 tools date_of attempts start_world).effects
    ≤ 1 + (run_attempts numbers delivery 0 tools date_of attempts start_world).fails
effects-le-fails_example =
    effects-le-fails numbers delivery 0 tools date_of attempts 7
      (attempt-IsRetry false, (attempt-IsRetry true, (attempt-IsRetry true, tt))) (omega arith)
      (omega arith)
