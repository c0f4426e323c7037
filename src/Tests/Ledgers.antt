-- ===== src/Tests/Ledgers.antt =====
-- The ledger object on concrete calls.
use snow_mcp.Common.{
  ℕ, ◌+◌, ◌≤◌, ◌≡◌, refl, inr, Option, none, some, List, [], ◌∷◌, arith, leb, if◌then◌else◌,
}
use snow_mcp.Ledger.{
  started, indeterminate, LedgerRecord, LedgerState, ReplayFormat, new, replay, blocked,
  retention_ms, begin, complete, fail, to_stored, mark_indeterminate, status, alarm, empty_ledger,
  normalize_record, get_active_record, put_record,
}
use snow_mcp.Ledger.Spec.{slot_of}
use snow_mcp.Ledger.Refinement.{Lasts}
use snow_mcp.Ledger.AtMostOnce.{
  Call, begin_call, complete_call, fail_call, alarm_call, status_call, Timed, executions, fails,
  executions-le-fails, perform,
}
use snow_mcp.Ledger.AtMostOnce.{InTime}
use snow_mcp.Common.{All}
use snow_mcp.Ledger.Runs.{answers, slot_answers, left_by, slot_left_by, answers-slot_answers}
use snow_mcp.Ledger.Alarm.{executions-InDoubt, perform_all-AlarmSet, AlarmSet, perform_all}

ledgers : Unit {0}
unfolding normalize_record get_active_record put_record begin complete fail mark_indeterminate
    status alarm perform executions fails perform_all
ledgers = tt

-- Numbers above 100 are too large to be replayed.
abbrev pub capped : Option ℕ → ℕ
capped none = 0
capped (some n) = if leb n 100 then n else 100

pub capped_idem : (o : Option ℕ) → capped (some (capped o)) ≡ capped o
capped_idem none = refl
capped_idem (some n) = ground arith

abbrev pub numbers : ReplayFormat ℕ
numbers = record { replay_safe = capped; replay_safe_idem = capped_idem }

abbrev claimed_record : LedgerRecord ℕ
claimed_record = record {
  status = started;
  request_hash = "h";
  expires_at = retention_ms;
  result = none;
}

abbrev claimed_state : LedgerState ℕ
claimed_state = record { stored = some (to_stored claimed_record); alarm_at = some retention_ms }

first_claim : begin numbers "h" 0 0 empty_ledger ≡ (new, claimed_state)
unfolding ledgers
first_claim = refl

-- A second call finds the first one in flight; another request under the key is blocked too.
second_claims :
    ((begin numbers "h" 5 5 claimed_state).0 ≡ blocked started)
    × ((begin numbers "other" 5 5 claimed_state).0 ≡ blocked started)
    × ((begin numbers "h" 6 6 (complete numbers (some 200) 5 5 claimed_state)).0
        ≡ replay (some 100))
    × ((begin numbers "h" 6 6 (fail numbers 5 5 claimed_state)).0 ≡ new)
    × ((begin numbers "h" 6 6 (mark_indeterminate numbers 5 5 claimed_state)).0
        ≡ blocked indeterminate)
unfolding ledgers
second_claims = (refl, refl, refl, refl, refl)

claimed_state-Lasts : Lasts numbers retention_ms claimed_state
claimed_state-Lasts = inr (claimed_record, refl, omega arith)

abbrev at : ℕ → Call ℕ → Timed ℕ
at t c = record { now = t; later = t; call = c }

abbrev retries : List (Timed ℕ)
retries =
    at 1 (begin_call "h")
    ∷ at 2 (begin_call "h")
    ∷ at 3 fail_call
    ∷ at 4 (begin_call "h")
    ∷ at 5 (complete_call (some 7))
    ∷ at 6 (begin_call "h")
    ∷ []

retries_count : (executions numbers retries empty_ledger ≡ 2) × (fails numbers retries ≡ 1)
unfolding ledgers
retries_count = (refl, refl)

executions-le-fails_example : executions numbers retries empty_ledger ≤ 1 + fails numbers retries
executions-le-fails_example = executions-le-fails numbers 0 retries (
  (omega arith, omega arith),
  (
    (omega arith, omega arith),
    (
      (omega arith, omega arith),
      ((omega arith, omega arith), ((omega arith, omega arith), ((omega arith, omega arith), tt))),
    ),
  ),
)

retries-InTime : All (InTime numbers retention_ms) retries
retries-InTime = (
  (omega arith, omega arith),
  (
    (omega arith, omega arith),
    (
      (omega arith, omega arith),
      ((omega arith, omega arith), ((omega arith, omega arith), ((omega arith, omega arith), tt))),
    ),
  ),
)

-- The status is asked before the calls.
abbrev observed : List (Timed ℕ)
observed = at 0 status_call ∷ retries

observed-InTime : All (InTime numbers retention_ms) observed
observed-InTime = ((omega arith, omega arith), retries-InTime)

answers-slot_answers_example :
    (answers numbers observed claimed_state
      ≡ slot_answers numbers observed (slot_of numbers claimed_state))
    × (slot_of numbers (left_by numbers observed claimed_state)
        ≡ slot_left_by numbers observed (slot_of numbers claimed_state))
answers-slot_answers_example =
    answers-slot_answers numbers retention_ms observed claimed_state observed-InTime
      claimed_state-Lasts

abbrev lost : LedgerState ℕ
lost = mark_indeterminate numbers 5 5 claimed_state

-- A year later the outcome is still unknown.
abbrev later_calls : List (Timed ℕ)
later_calls =
    at 31536000000 (begin_call "h")
    ∷ at 31536000001 (complete_call (some 7))
    ∷ at 31536000002 fail_call
    ∷ at 31536000003 alarm_call
    ∷ at 31536000004 (begin_call "h")
    ∷ []

executions-InDoubt_example : executions numbers later_calls lost ≡ 0
unfolding ledgers
executions-InDoubt_example =
    executions-InDoubt numbers indeterminate "h" later_calls lost (tt, (tt, (tt, (tt, (tt, tt)))))
      (inr refl, refl, refl)

perform_all-AlarmSet_example :
    AlarmSet numbers
      (perform_all numbers retries claimed_state).stored
      (perform_all numbers retries claimed_state).alarm_at
perform_all-AlarmSet_example = perform_all-AlarmSet numbers retries claimed_state refl
