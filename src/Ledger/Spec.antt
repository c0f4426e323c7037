-- ===== src/Ledger/Spec.antt =====
-- What one idempotency record promises, with the times and the stored form left out: a slot that is
-- empty, in flight, of unknown outcome, done with a result, or cleanly failed.
use snow_mcp.Common.{String, Option, none, some, str_eq, if◌then◌else◌}
use snow_mcp.Ledger.{
  LedgerStatus, started, completed, failed, indeterminate, Stored, BeginResult, new, replay,
  blocked, LedgerState, ReplayFormat,
}

pub data Slot (V : Type 0) : Type 0 where
  empty : Slot V
  in_flight : String → Slot V
  unknown : String → Slot V
  done : String → V → Slot V
  clean_failed : String → Slot V

module _ {V : Type 0} (format : ReplayFormat V) where
  open format use {replay_safe}

  abbrev slot_by_status : LedgerStatus → String → Option V → Slot V
  slot_by_status started hash result = in_flight hash
  slot_by_status completed hash result = done hash (replay_safe result)
  slot_by_status failed hash result = clean_failed hash
  slot_by_status indeterminate hash result = unknown hash

  abbrev slot_by_fields : Option LedgerStatus → Option String → Option V → Slot V
  slot_by_fields none hash result = empty
  slot_by_fields (some s) none result = empty
  slot_by_fields (some s) (some hash) result = slot_by_status s hash result

  abbrev slot_of_record : Option (Stored V) → Slot V
  slot_of_record none = empty
  slot_of_record (some r) = slot_by_fields r.status r.request_hash r.result

  -- The slot that a state stands for, as long as its record has not expired.
  abbrev pub slot_of : LedgerState V → Slot V
  slot_of s = slot_of_record s.stored

  -- Only an empty or a cleanly failed slot is claimed; a done slot replays its result; a slot with
  -- another request, in flight or of unknown outcome blocks.
  abbrev pub begin_slot : String → Slot V → BeginResult V × Slot V
  begin_slot hash empty = (new, in_flight hash)
  begin_slot hash (in_flight h) = (blocked started, in_flight h)
  begin_slot hash (unknown h) = (blocked indeterminate, unknown h)
  begin_slot hash (done h v) =
      (if str_eq h hash then replay (some v) else blocked completed, done h v)
  begin_slot hash (clean_failed h) =
      if str_eq h hash then (new, in_flight hash) else (blocked failed, clean_failed h)

  -- Only a slot in flight is completed, failed or marked; all else is left as it is.
  abbrev pub complete_slot : Option V → Slot V → Slot V
  complete_slot result (in_flight h) = done h (replay_safe result)
  complete_slot result s = s

  abbrev pub fail_slot : Slot V → Slot V
  fail_slot (in_flight h) = clean_failed h
  fail_slot s = s

  abbrev pub mark_slot : Slot V → Slot V
  mark_slot (in_flight h) = unknown h
  mark_slot s = s

-- What `status` tells; none of an empty slot.
abbrev pub status_slot : {V : Type 0} → Slot V → Option LedgerStatus
status_slot empty = none
status_slot (in_flight h) = some started
status_slot (unknown h) = some indeterminate
status_slot (done h v) = some completed
status_slot (clean_failed h) = some failed
