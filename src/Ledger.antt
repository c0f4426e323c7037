-- ===== src/Ledger.antt =====
-- `MutationLedgerDO` of packages/mcp-server/src/do/mutation-ledger.ts: one idempotency record, which
-- says whether a mutation may be executed, replayed or not.
-- An operation takes the state of the object and the times that it reads: `now` when it reads the
-- record, `later` when it writes one. The promise chain runs one operation at a time.
pub mod Spec
pub mod Lasting
pub mod Refinement
pub mod AtMostOnce
pub mod Runs
pub mod Alarm
use snow_mcp.Common.{
  ℕ, ◌+◌, ◌*◌, ◌≡◌, String, Bool, true, false, Option, none, some, leb, str_eq, if◌then◌else◌,
}

pub data LedgerStatus : Type 0 where
  started completed failed indeterminate : LedgerStatus

abbrev pub retention_ms : ℕ
retention_ms = 30 * 24 * 60 * 60 * 1000

-- `LedgerRecord`. `result` is absent, or any value.
pub record LedgerRecord (V : Type 0) : Type 0 where
  pub status : LedgerStatus
  pub request_hash : String
  pub expires_at : ℕ
  pub result : Option V

-- `Partial<LedgerRecord>`, as it is read back: `status` is `none` if it is absent or is not one of
-- the four, and the other fields are `none` if they are absent or of another type.
pub record Stored (V : Type 0) : Type 0 where
  pub status : Option LedgerStatus
  pub request_hash : Option String
  pub expires_at : Option ℕ
  pub result : Option V

pub data BeginResult (V : Type 0) : Type 0 where
  new : BeginResult V
  replay : Option V → BeginResult V
  blocked : LedgerStatus → BeginResult V

pub data Normalized (V : Type 0) : Type 0 where
  missing : Normalized V
  expired : Normalized V
  migrated : LedgerRecord V → Normalized V
  active : LedgerRecord V → Normalized V

-- The object: the record under `RECORD_KEY`, and the storage alarm.
pub record LedgerState (V : Type 0) : Type 0 where
  pub stored : Option (Stored V)
  pub alarm_at : Option ℕ

abbrev pub empty_ledger : {V : Type 0} → LedgerState V
empty_ledger = record { stored = none; alarm_at = none }

abbrev pub to_stored : {V : Type 0} → LedgerRecord V → Stored V
to_stored r = record {
  status = some r.status;
  request_hash = some r.request_hash;
  expires_at = some r.expires_at;
  result = r.result;
}

-- `replaySafeResult` of sn/replay-payload.ts: what a replay may return, for a value or `undefined`.
-- A replay-safe value is returned as it is.
pub record ReplayFormat (V : Type 0) : Type 0 where
  pub replay_safe : Option V → V
  pub replay_safe_idem : (o : Option V) → replay_safe (some (replay_safe o)) ≡ replay_safe o

module _ {V : Type 0} (format : ReplayFormat V) where
  open format use {replay_safe}

  -- A record whose time has come: an attempt whose outcome is unknown is kept.
  abbrev past_expiry : LedgerStatus → String → ℕ → Normalized V
  past_expiry started hash now = migrated (record {
    status = started;
    request_hash = hash;
    expires_at = now + retention_ms;
    result = none;
  })
  past_expiry indeterminate hash now = migrated (record {
    status = indeterminate;
    request_hash = hash;
    expires_at = now + retention_ms;
    result = none;
  })
  past_expiry completed hash now = expired
  past_expiry failed hash now = expired

  abbrev before_expiry : LedgerStatus → String → ℕ → Option V → Normalized V
  before_expiry completed hash at result = migrated (record {
    status = completed;
    request_hash = hash;
    expires_at = at;
    result = some (replay_safe result);
  })
  before_expiry s hash at result =
      active (record { status = s; request_hash = hash; expires_at = at; result = result })

  -- A record that was written without an expiry.
  abbrev without_expiry : LedgerStatus → String → ℕ → Option V → Normalized V
  without_expiry failed hash now result = expired
  without_expiry completed hash now result = migrated (record {
    status = completed;
    request_hash = hash;
    expires_at = now + retention_ms;
    result = some (replay_safe result);
  })
  without_expiry s hash now result =
      migrated
        (record { status = s; request_hash = hash; expires_at = now + retention_ms; result = none })

  abbrev by_expiry : LedgerStatus → String → Option ℕ → Option V → ℕ → Normalized V
  by_expiry s hash none result now = without_expiry s hash now result
  by_expiry s hash (some at) result now =
      if leb at now then past_expiry s hash now else before_expiry s hash at result

  abbrev by_fields : Option LedgerStatus → Option String → Option ℕ → Option V → ℕ → Normalized V
  by_fields none hash at result now = missing
  by_fields (some s) none at result now = missing
  by_fields (some s) (some hash) at result now = by_expiry s hash at result now

  unfoldable pub normalize_record : Option (Stored V) → ℕ → Normalized V
  normalize_record none now = missing
  normalize_record (some r) now = by_fields r.status r.request_hash r.expires_at r.result now

  -- `storage.put` of the record, and the alarm at its expiry.
  abbrev pub write_record : LedgerRecord V → LedgerState V
  write_record r = record { stored = some (to_stored r); alarm_at = some r.expires_at }

  abbrev settle : Normalized V → LedgerState V → Option (LedgerRecord V) × LedgerState V
  settle missing s = (none, record s { stored = none })
  settle expired s = (none, record s { stored = none })
  settle (active r) s = (some r, s)
  settle (migrated r) s = (some r, write_record r)

  unfoldable pub get_active_record : ℕ → LedgerState V → Option (LedgerRecord V) × LedgerState V
  unfolding normalize_record
  get_active_record now s = settle (normalize_record s.stored now) s

  unfoldable pub put_record : LedgerStatus → String → Option V → ℕ → LedgerState V
  put_record status hash result later = write_record (record {
    status = status;
    request_hash = hash;
    expires_at = later + retention_ms;
    result = result;
  })

  -- The `switch` of `beginCritical`.
  abbrev claim :
      LedgerStatus → LedgerRecord V → String → ℕ → LedgerState V → BeginResult V × LedgerState V
  claim completed r hash later s = (replay r.result, s)
  claim failed r hash later s = (new, put_record started hash none later)
  claim started r hash later s = (blocked started, s)
  claim indeterminate r hash later s = (blocked indeterminate, s)

  -- `beginCritical`, after the record is read.
  abbrev begin_with :
      String → ℕ → Option (LedgerRecord V) → LedgerState V → BeginResult V × LedgerState V
  begin_with hash later none s = (new, put_record started hash none later)
  begin_with hash later (some r) s =
      if str_eq r.request_hash hash then claim r.status r hash later s else (blocked r.status, s)

  unfoldable pub begin : String → ℕ → ℕ → LedgerState V → BeginResult V × LedgerState V
  unfolding put_record
  begin hash now later s = let (rec, s') = get_active_record now s in begin_with hash later rec s'

  abbrev is_started : LedgerStatus → Bool
  is_started started = true
  is_started _ = false

  -- `completeCritical`, `failCritical` and `markIndeterminateCritical`: only an attempt in flight
  -- is ended.
  abbrev end_attempt :
      LedgerStatus → Option V → ℕ → Option (LedgerRecord V) → LedgerState V → LedgerState V
  end_attempt status result later none s = s
  end_attempt status result later (some r) s =
      if is_started r.status then put_record status r.request_hash result later else s

  unfoldable pub complete : Option V → ℕ → ℕ → LedgerState V → LedgerState V
  unfolding put_record
  complete result now later s =
      let (rec, s') = get_active_record now s in
      end_attempt completed (some (replay_safe result)) later rec s'

  unfoldable pub fail : ℕ → ℕ → LedgerState V → LedgerState V
  unfolding put_record
  fail now later s = let (rec, s') = get_active_record now s in end_attempt failed none later rec s'

  unfoldable pub mark_indeterminate : ℕ → ℕ → LedgerState V → LedgerState V
  unfolding put_record
  mark_indeterminate now later s =
      let (rec, s') = get_active_record now s in end_attempt indeterminate none later rec s'

  -- `status()`: `none` for "none".
  abbrev status_of : Option (LedgerRecord V) → Option LedgerStatus
  status_of none = none
  status_of (some r) = some r.status

  unfoldable pub status : ℕ → LedgerState V → Option LedgerStatus × LedgerState V
  status now s = let (rec, s') = get_active_record now s in (status_of rec, s')

  abbrev set_alarm : Option (LedgerRecord V) → LedgerState V → LedgerState V
  set_alarm none s = s
  set_alarm (some r) s = record s { alarm_at = some r.expires_at }

  -- `alarm()`. The platform drops the alarm that goes off before it calls the handler.
  unfoldable pub alarm : ℕ → LedgerState V → LedgerState V
  alarm now s =
      let (rec, s') = get_active_record now (record s { alarm_at = none }) in set_alarm rec s'
