-- ===== src/Ledger/Alarm.antt =====
-- An attempt whose outcome is unknown is never forgotten, and the storage alarm stands at the expiry
-- of the record.
use snow_mcp.Common.{ℕ, ◌≡◌, refl, String, ◌⊎◌, Option, none, some, List, [], ◌∷◌, arith, All}
use snow_mcp.Ledger.{
  LedgerStatus, started, indeterminate, Stored, LedgerState, LedgerRecord, ReplayFormat, blocked,
  get_active_record, begin, complete, fail, mark_indeterminate, status, alarm,
}
use snow_mcp.Ledger.AtMostOnce.{
  Call, begin_call, status_call, alarm_call, Timed, perform, executions,
}

abbrev status_in : {V : Type 0} → Option (Stored V) → Option LedgerStatus
status_in none = none
status_in (some r) = r.status

abbrev hash_in : {V : Type 0} → Option (Stored V) → Option String
hash_in none = none
hash_in (some r) = r.request_hash

-- The record says that the outcome of an attempt at `hash` is in doubt: it is in flight, or unknown.
abbrev pub InDoubt : {V : Type 0} → LedgerStatus → String → LedgerState V → Type 0
InDoubt st hash s =
    ((st ≡ started) ⊎ (st ≡ indeterminate))
    × (status_in s.stored ≡ some st)
    × (hash_in s.stored ≡ some hash)

module _ {V : Type 0} (format : ReplayFormat V) where
  abbrev Doubted : LedgerStatus → String → Option (LedgerRecord V) → Type 0
  Doubted st hash none = ⊥
  Doubted st hash (some r) = (r.status ≡ st) × (r.request_hash ≡ hash)

  -- Reading it, at any time and whatever its expiry, returns it and keeps it.
  read-InDoubt :
      (st : LedgerStatus) (hash : String) (now : ℕ) (s : LedgerState V)
      → InDoubt st hash s
      → Doubted st hash (get_active_record format now s).0
        × InDoubt st hash (get_active_record format now s).1
  unfolding get_active_record
  read-InDoubt st hash now s d = ground arith

  begin-InDoubt :
      (st : LedgerStatus) (hash other : String) (now later : ℕ) (s : LedgerState V)
      → InDoubt st hash s
      → ((begin format other now later s).0 ≡ blocked st)
        × InDoubt st hash (begin format other now later s).1
  unfolding begin
  begin-InDoubt st hash other now later s d =
      let h = read-InDoubt st hash now s d in ground (arith, h)

  -- A call that cannot resolve the doubt: nothing resolves an unknown outcome, and an attempt in
  -- flight is ended by `complete`, `fail` and `mark_indeterminate`.
  abbrev pub Leaves : LedgerStatus → Call V → Type 0
  Leaves indeterminate c = Unit
  Leaves st (begin_call hash) = Unit
  Leaves st status_call = Unit
  Leaves st alarm_call = Unit
  Leaves st _ = ⊥

  perform-InDoubt :
      (st : LedgerStatus) (hash : String) (now later : ℕ) (c : Call V) (s : LedgerState V)
      → Leaves st c
      → InDoubt st hash s
      → ((perform format now later c s).0 ≡ 0) × InDoubt st hash (perform format now later c s).1
  unfolding perform complete fail mark_indeterminate status alarm
  perform-InDoubt st hash now later (begin_call other) s l d =
      let h = begin-InDoubt st hash other now later s d in ground (arith, h)
  perform-InDoubt st hash now later alarm_call s l d =
      let h = read-InDoubt st hash now (record s { alarm_at = none }) d in ground (arith, h)
  perform-InDoubt st hash now later _ s l d =
      let h = read-InDoubt st hash now s d in ground (arith, h)

  -- Once an outcome is unknown, no later `begin` is told to execute, whatever is called and however
  -- much time passes; while an attempt is in flight, none is before it is ended.
  pub executions-InDoubt :
      (st : LedgerStatus) (hash : String) (cs : List (Timed V)) (s : LedgerState V)
      → All (λ c. Leaves st c.call) cs
      → InDoubt st hash s
      → executions format cs s ≡ 0
  unfolding executions
  executions-InDoubt st hash [] s ls d = refl
  executions-InDoubt st hash (c ∷ cs) s (l, ls) d =
      let (none_now, kept) = perform-InDoubt st hash c.now c.later c.call s l d in
      omega (arith, executions-InDoubt st hash cs (perform format c.now c.later c.call s).1 ls kept)

  -- The alarm stands at the expiry of the record, if there is a record.
  abbrev pub AlarmSet : Option (Stored V) → Option ℕ → Type 0
  AlarmSet none at = Unit
  AlarmSet (some r) at = at ≡ r.expires_at

  read-AlarmSet :
      (now : ℕ) (s : LedgerState V)
      → AlarmSet s.stored s.alarm_at
      → AlarmSet
          (get_active_record format now s).1.stored
          (get_active_record format now s).1.alarm_at
  unfolding get_active_record
  read-AlarmSet now s h = ground arith

  abbrev SameExpiry : Option (LedgerRecord V) → Option (Stored V) → Type 0
  SameExpiry none none = Unit
  SameExpiry (some r) (some x) = x.expires_at ≡ some r.expires_at
  SameExpiry _ _ = ⊥

  read-SameExpiry :
      (now : ℕ) (s : LedgerState V)
      → SameExpiry (get_active_record format now s).0 (get_active_record format now s).1.stored
  unfolding get_active_record
  read-SameExpiry now s = ground arith

  -- The alarm that went off is set again at the expiry of the record that is left.
  alarm-AlarmSet :
      (now : ℕ) (s : LedgerState V)
      → AlarmSet (alarm format now s).stored (alarm format now s).alarm_at
  unfolding alarm
  alarm-AlarmSet now s =
      let e = read-SameExpiry now (record s { alarm_at = none }) in ground (arith, e)

  perform-AlarmSet :
      (now later : ℕ) (c : Call V) (s : LedgerState V)
      → AlarmSet s.stored s.alarm_at
      → AlarmSet (perform format now later c s).1.stored (perform format now later c s).1.alarm_at
  unfolding perform begin complete fail mark_indeterminate status alarm
  perform-AlarmSet now later (begin_call hash) s h =
      let k = read-AlarmSet now s h in ground (arith, k)
  perform-AlarmSet now later alarm_call s h = alarm-AlarmSet now s
  perform-AlarmSet now later _ s h =
      let k = read-AlarmSet now s h in let e = read-SameExpiry now s in ground (arith, k, e)

  -- The state after a sequence of calls.
  unfoldable pub perform_all : List (Timed V) → LedgerState V → LedgerState V
  perform_all [] s = s
  perform_all (c ∷ cs) s = perform_all cs (perform format c.now c.later c.call s).1

  -- If the alarm of the object stands at the expiry of its record, where there is one, then it does
  -- after every sequence of calls, at whatever times they are made, and of alarms that go off among
  -- them, each of which is dropped before it is handled.
  pub perform_all-AlarmSet :
      (cs : List (Timed V)) (s : LedgerState V)
      → AlarmSet s.stored s.alarm_at
      → AlarmSet (perform_all cs s).stored (perform_all cs s).alarm_at
  unfolding perform_all
  perform_all-AlarmSet [] s h = h
  perform_all-AlarmSet (c ∷ cs) s h =
      perform_all-AlarmSet cs (perform format c.now c.later c.call s).1
        (perform-AlarmSet c.now c.later c.call s h)
