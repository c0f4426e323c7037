-- ===== src/Ledger/Runs.antt =====
-- Runs of one ledger object against runs of a slot: every answer, and the slot that is left.
use snow_mcp.Common.{ℕ, ◌+◌, ◌≤◌, ◌<◌, ◌≡◌, refl, Option, List, [], ◌∷◌, All, ap, ap₂, ◌∙◌}
use snow_mcp.Ledger.{
  LedgerStatus, LedgerState, ReplayFormat, BeginResult, retention_ms, begin, complete, fail,
  mark_indeterminate, status, alarm,
}
use snow_mcp.Ledger.Spec.{
  Slot, status_slot, slot_of, begin_slot, complete_slot, fail_slot, mark_slot,
}
use snow_mcp.Ledger.Refinement.{
  Lasts, status-status_slot, begin-begin_slot, complete-complete_slot, fail-fail_slot,
  mark_indeterminate-mark_slot, status-slot, alarm-slot,
}
use snow_mcp.Ledger.AtMostOnce.{
  Call, begin_call, complete_call, fail_call, mark_call, status_call, alarm_call, Timed, InTime,
}

-- What a call answers: `begin` its claim, `status` the status or none, the others nothing.
pub data Answer (V : Type 0) : Type 0 where
  begun : BeginResult V → Answer V
  told : Option LedgerStatus → Answer V
  nothing : Answer V

module _ {V : Type 0} (format : ReplayFormat V) where
  -- What a call answers, and what it leaves.
  abbrev pub answer : ℕ → ℕ → Call V → LedgerState V → Answer V × LedgerState V
  answer now later (begin_call hash) s =
      (begun (begin format hash now later s).0, (begin format hash now later s).1)
  answer now later (complete_call r) s = (nothing, complete format r now later s)
  answer now later fail_call s = (nothing, fail format now later s)
  answer now later mark_call s = (nothing, mark_indeterminate format now later s)
  answer now later status_call s = (told (status format now s).0, (status format now s).1)
  answer now later alarm_call s = (nothing, alarm format now s)

  -- The same of a slot, which has no times.
  abbrev pub slot_answer : Call V → Slot V → Answer V × Slot V
  slot_answer (begin_call hash) x =
      (begun (begin_slot format hash x).0, (begin_slot format hash x).1)
  slot_answer (complete_call r) x = (nothing, complete_slot format r x)
  slot_answer fail_call x = (nothing, fail_slot format x)
  slot_answer mark_call x = (nothing, mark_slot format x)
  slot_answer status_call x = (told (status_slot x), x)
  slot_answer alarm_call x = (nothing, x)

  -- The answers of a sequence of calls, in their order.
  unfoldable pub answers : List (Timed V) → LedgerState V → List (Answer V)
  answers [] s = []
  answers (c ∷ cs) s =
      (answer c.now c.later c.call s).0 ∷ answers cs (answer c.now c.later c.call s).1

  unfoldable pub left_by : List (Timed V) → LedgerState V → LedgerState V
  left_by [] s = s
  left_by (c ∷ cs) s = left_by cs (answer c.now c.later c.call s).1

  unfoldable pub slot_answers : List (Timed V) → Slot V → List (Answer V)
  slot_answers [] x = []
  slot_answers (c ∷ cs) x = (slot_answer c.call x).0 ∷ slot_answers cs (slot_answer c.call x).1

  unfoldable pub slot_left_by : List (Timed V) → Slot V → Slot V
  slot_left_by [] x = x
  slot_left_by (c ∷ cs) x = slot_left_by cs (slot_answer c.call x).1

  module _ (horizon : ℕ) where
    answer-slot_answer :
        (now later : ℕ) (c : Call V) (s : LedgerState V)
        → now < horizon
        → horizon ≤ later + retention_ms
        → Lasts format horizon s
        → ((answer now later c s).0 ≡ (slot_answer c (slot_of format s)).0)
          × (slot_of format (answer now later c s).1 ≡ (slot_answer c (slot_of format s)).1)
          × Lasts format horizon (answer now later c s).1
    answer-slot_answer now later (begin_call hash) s h k lasts =
        let (reply, slot, kept) = begin-begin_slot format horizon now later h k hash s lasts in
        (ap begun reply, slot, kept)
    answer-slot_answer now later (complete_call r) s h k lasts =
        let (slot, kept) = complete-complete_slot format horizon now later h k r s lasts in
        (refl, slot, kept)
    answer-slot_answer now later fail_call s h k lasts =
        let (slot, kept) = fail-fail_slot format horizon now later h k s lasts in (refl, slot, kept)
    answer-slot_answer now later mark_call s h k lasts =
        let (slot, kept) = mark_indeterminate-mark_slot format horizon now later h k s lasts in
        (refl, slot, kept)
    answer-slot_answer now later status_call s h k lasts =
        let (slot, kept) = status-slot format horizon now later h k s lasts in
        (ap told (status-status_slot format horizon now later h k s lasts), slot, kept)
    answer-slot_answer now later alarm_call s h k lasts =
        let (slot, kept) = alarm-slot format horizon now later h k s lasts in (refl, slot, kept)

    -- The calls read before the horizon and write records that last up to it, and the record at the
    -- start lasts up to it: then a sequence of calls of the object answers as a sequence of calls of
    -- its slot does, which knows no time and no stored form, each `begin` with its claim and each
    -- `status` with the status, and leaves what stands for the slot left.
    pub answers-slot_answers :
        (cs : List (Timed V)) (s : LedgerState V)
        → All (InTime format horizon) cs
        → Lasts format horizon s
        → (answers cs s ≡ slot_answers cs (slot_of format s))
          × (slot_of format (left_by cs s) ≡ slot_left_by cs (slot_of format s))
    unfolding answers slot_answers left_by slot_left_by
    answers-slot_answers [] s times lasts = (refl, refl)
    answers-slot_answers (c ∷ cs) s (time, times) lasts =
        let (reply, slot, kept) = answer-slot_answer c.now c.later c.call s time.0 time.1 lasts in
        let (rest, last) = answers-slot_answers cs (answer c.now c.later c.call s).1 times kept in
        (
          ap₂ (λ a as'. a ∷ as') reply (rest ∙ ap (slot_answers cs) slot),
          last ∙ ap (slot_left_by cs) slot,
        )
