-- ===== src/Ledger/Lasting.antt =====
-- A state whose record, if it has one, is whole and does not expire before a given time, and what
-- reading the record does to such a state.
use snow_mcp.Common.{ℕ, ◌<◌, ◌≡◌, Option, none, some, arith}
use snow_mcp.Ledger.{
  LedgerStatus, completed, LedgerRecord, LedgerState, ReplayFormat, to_stored, get_active_record,
}

module _ {V : Type 0} (format : ReplayFormat V) where
  open format use {replay_safe, replay_safe_idem}

  -- The result of a completed record is made replay-safe when it is read.
  abbrev refreshed_result : LedgerStatus → Option V → Option V
  refreshed_result completed result = some (replay_safe result)
  refreshed_result _ result = result

  abbrev pub refresh : LedgerRecord V → LedgerRecord V
  refresh r = record r { result = refreshed_result r.status r.result }

  pub get_active_record-before_expiry :
      (r : LedgerRecord V) (now : ℕ) (s : LedgerState V)
      → now < r.expires_at
      → s.stored ≡ some (to_stored r)
      → (get_active_record format now s).0 ≡ some (refresh r)
  unfolding get_active_record
  get_active_record-before_expiry r now s h e = ground arith

  pub stored-get_active_record :
      (r : LedgerRecord V) (now : ℕ) (s : LedgerState V)
      → now < r.expires_at
      → s.stored ≡ some (to_stored r)
      → (get_active_record format now s).1.stored ≡ some (to_stored (refresh r))
  unfolding get_active_record
  stored-get_active_record r now s h e = ground arith

  pub get_active_record-none :
      (now : ℕ) (s : LedgerState V)
      → s.stored ≡ none
      → ((get_active_record format now s).0 ≡ none)
        × ((get_active_record format now s).1.stored ≡ none)
  unfolding get_active_record
  get_active_record-none now s e = ground arith
