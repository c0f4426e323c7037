-- ===== src/Ledger/AtMostOnce.antt =====
-- Sequences of calls of one ledger object, each with the times that it reads, in the order in which
-- the promise chain runs them: how often a request may be executed.
use snow_mcp.Common.{ℕ, ◌+◌, ◌≤◌, ◌<◌, ◌≡◌, refl, String, inl, Option, List, [], ◌∷◌, arith, All}
use snow_mcp.Ledger.{
  LedgerState, ReplayFormat, BeginResult, new, retention_ms, begin, complete, fail,
  mark_indeterminate, status, alarm, empty_ledger,
}
use snow_mcp.Ledger.Spec.{
  Slot, empty, in_flight, unknown, done, clean_failed, slot_of, begin_slot, complete_slot,
  fail_slot, mark_slot,
}
use snow_mcp.Ledger.Refinement.{
  Lasts, begin-begin_slot, complete-complete_slot, fail-fail_slot, mark_indeterminate-mark_slot,
  status-slot, alarm-slot,
}

pub data Call (V : Type 0) : Type 0 where
  begin_call : String → Call V
  complete_call : Option V → Call V
  fail_call : Call V
  mark_call : Call V
  status_call : Call V
  alarm_call : Call V

-- A call, with the times at which it reads the record and writes one.
pub record Timed (V : Type 0) : Type 0 where
  pub now : ℕ
  pub later : ℕ
  pub call : Call V

module _ {V : Type 0} (format : ReplayFormat V) where
  abbrev pub answer_new : BeginResult V → ℕ
  answer_new new = 1
  answer_new _ = 0

  -- One call: 1 if it is a `begin` that is told to execute, and the state that it leaves.
  unfoldable pub perform : ℕ → ℕ → Call V → LedgerState V → ℕ × LedgerState V
  perform now later (begin_call hash) s =
      (answer_new (begin format hash now later s).0, (begin format hash now later s).1)
  perform now later (complete_call result) s = (0, complete format result now later s)
  perform now later fail_call s = (0, fail format now later s)
  perform now later mark_call s = (0, mark_indeterminate format now later s)
  perform now later status_call s = (0, (status format now s).1)
  perform now later alarm_call s = (0, alarm format now s)

  -- How many calls of the sequence are told to execute.
  unfoldable pub executions : List (Timed V) → LedgerState V → ℕ
  executions [] s = 0
  executions (c ∷ cs) s =
      (perform c.now c.later c.call s).0 + executions cs (perform c.now c.later c.call s).1

  abbrev pub is_fail : Call V → ℕ
  is_fail fail_call = 1
  is_fail _ = 0

  unfoldable pub fails : List (Timed V) → ℕ
  fails [] = 0
  fails (c ∷ cs) = is_fail c.call + fails cs

  -- 1 if the slot is claimed: in flight, of unknown outcome or done.
  abbrev pub claimed : Slot V → ℕ
  claimed empty = 0
  claimed (in_flight h) = 1
  claimed (unknown h) = 1
  claimed (done h v) = 1
  claimed (clean_failed h) = 0

  begin_slot-claimed :
      (hash : String) (x : Slot V)
      → answer_new (begin_slot format hash x).0 + claimed x ≤ claimed (begin_slot format hash x).1
  begin_slot-claimed hash empty = omega arith
  begin_slot-claimed hash (in_flight h) = omega arith
  begin_slot-claimed hash (unknown h) = omega arith
  begin_slot-claimed hash (done h v) = ground arith
  begin_slot-claimed hash (clean_failed h) = ground arith

  pub claimed-le : (x : Slot V) → claimed x ≤ 1
  claimed-le empty = omega arith
  claimed-le _ = omega arith

  complete_slot-claimed :
      (r : Option V) (x : Slot V) → claimed (complete_slot format r x) ≡ claimed x
  complete_slot-claimed r empty = refl
  complete_slot-claimed r _ = refl

  mark_slot-claimed : (x : Slot V) → claimed (mark_slot format x) ≡ claimed x
  mark_slot-claimed empty = refl
  mark_slot-claimed _ = refl

  fail_slot-claimed : (x : Slot V) → claimed x ≤ 1 + claimed (fail_slot format x)
  fail_slot-claimed empty = omega arith
  fail_slot-claimed _ = omega arith

  module _ (horizon : ℕ) where
    -- The call reads before the horizon and writes a record that lasts up to it.
    abbrev pub InTime : Timed V → Type 0
    InTime c = (c.now < horizon) × (horizon ≤ c.later + retention_ms)

    pub perform-claimed :
        (now later : ℕ) (c : Call V) (s : LedgerState V)
        → now < horizon
        → horizon ≤ later + retention_ms
        → Lasts format horizon s
        → Lasts format horizon (perform now later c s).1
          × ((perform now later c s).0 + claimed (slot_of format s)
              ≤ is_fail c + claimed (slot_of format (perform now later c s).1))
    unfolding perform
    perform-claimed now later (begin_call hash) s h k lasts =
        let (answer, slot, kept) = begin-begin_slot format horizon now later h k hash s lasts in
        (kept, rw (answer, slot) (omega (arith, begin_slot-claimed hash (slot_of format s))))
    perform-claimed now later (complete_call r) s h k lasts =
        let (slot, kept) = complete-complete_slot format horizon now later h k r s lasts in
        (kept, rw slot (omega (arith, complete_slot-claimed r (slot_of format s))))
    perform-claimed now later fail_call s h k lasts =
        let (slot, kept) = fail-fail_slot format horizon now later h k s lasts in
        (kept, rw slot (omega (arith, fail_slot-claimed (slot_of format s))))
    perform-claimed now later mark_call s h k lasts =
        let (slot, kept) = mark_indeterminate-mark_slot format horizon now later h k s lasts in
        (kept, rw slot (omega (arith, mark_slot-claimed (slot_of format s))))
    perform-claimed now later status_call s h k lasts =
        let (slot, kept) = status-slot format horizon now later h k s lasts in
        (kept, rw slot (omega arith))
    perform-claimed now later alarm_call s h k lasts =
        let (slot, kept) = alarm-slot format horizon now later h k s lasts in
        (kept, rw slot (omega arith))

    executions-le :
        (cs : List (Timed V)) (s : LedgerState V)
        → All InTime cs
        → Lasts format horizon s
        → executions cs s + claimed (slot_of format s) ≤ 1 + fails cs
    unfolding executions fails
    executions-le [] s times lasts = omega (arith, claimed-le (slot_of format s))
    executions-le (c ∷ cs) s (time, times) lasts =
        let (kept, step) = perform-claimed c.now c.later c.call s time.0 time.1 lasts in
        omega (arith, executions-le cs (perform c.now c.later c.call s).1 times kept)

  -- Over the calls made within one retention period of a new key, whatever their requests, results
  -- and order, a `begin` is told to execute at most once more often than `fail` is called.
  pub executions-le-fails :
      (start : ℕ) (cs : List (Timed V))
      → All (λ c. (c.now < start + retention_ms) × (start ≤ c.later)) cs
      → executions cs empty_ledger ≤ 1 + fails cs
  executions-le-fails start cs times =
      omega
        (arith, executions-le (start + retention_ms) cs empty_ledger (in_time cs times) (inl refl))
    where
      in_time :
          (cs : List (Timed V))
          → All (λ c. (c.now < start + retention_ms) × (start ≤ c.later)) cs
          → All (InTime (start + retention_ms)) cs
      in_time [] h = tt
      in_time (c ∷ cs) (h, hs) = ((h.0, omega arith), in_time cs hs)
