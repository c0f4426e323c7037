-- ===== src/Ledger/Refinement.antt =====
-- The operations of the ledger against the slots of `Spec`, while the record has not expired.
use snow_mcp.Common.{
  ℕ, ◌+◌, ◌≤◌, ◌<◌, ◌≡◌, refl, String, ◌⊎◌, inl, inr, Option, none, some, arith, Bool-cases,
  str_eq_iff,
}
use snow_mcp.Ledger.{
  LedgerStatus, started, completed, failed, indeterminate, LedgerRecord, LedgerState, ReplayFormat,
  to_stored, get_active_record, put_record, retention_ms, end_attempt, is_started, begin, complete,
  fail, mark_indeterminate, status, alarm,
}
use snow_mcp.Ledger.Spec.{status_slot, slot_of, begin_slot, complete_slot, fail_slot, mark_slot}
use snow_mcp.Ledger.Lasting.{
  refresh, get_active_record-before_expiry, stored-get_active_record, get_active_record-none,
}

module _ {V : Type 0} (format : ReplayFormat V) where
  open format use {replay_safe, replay_safe_idem}

  -- The state has no record, or a whole one that does not expire before the horizon.
  abbrev pub Lasts : ℕ → LedgerState V → Type 0
  Lasts horizon s =
      (s.stored ≡ none)
      ⊎ ((r : LedgerRecord V) × (s.stored ≡ some (to_stored r)) × (horizon ≤ r.expires_at))

  module _ (horizon now later : ℕ) (in_time : now < horizon)
      (kept : horizon ≤ later + retention_ms) where
    Lasts-read :
        (s : LedgerState V) → Lasts horizon s → Lasts horizon (get_active_record format now s).1
    Lasts-read s (inl e) = inl (get_active_record-none format now s e).1
    Lasts-read s (inr (r, e, lasts)) =
        inr (refresh format r, stored-get_active_record format r now s (omega arith) e, lasts)

    Lasts-put_record :
        (st : LedgerStatus) (hash : String) (result : Option V)
        → Lasts horizon (put_record format st hash result later)
    unfolding put_record
    Lasts-put_record st hash result = inr (
      record {
        status = st;
        request_hash = hash;
        expires_at = later + retention_ms;
        result = result;
      },
      refl,
      kept,
    )

    begin_state :
        (hash : String) (s : LedgerState V)
        → ((begin format hash now later s).1 ≡ (get_active_record format now s).1)
          ⊎ ((begin format hash now later s).1 ≡ put_record format started hash none later)
    unfolding begin
    begin_state hash s = ground arith

    begin_slots :
        (hash : String) (s : LedgerState V)
        → Lasts horizon s
        → ((begin format hash now later s).0 ≡ (begin_slot format hash (slot_of format s)).0)
          × (slot_of format (begin format hash now later s).1
              ≡ (begin_slot format hash (slot_of format s)).1)
    unfolding begin
    begin_slots hash s (inl e) =
        let p = get_active_record-none format now s e in (ground (arith, p), ground (arith, p))
    begin_slots hash s (inr (r, e, lasts)) =
        let p = get_active_record-before_expiry format r now s (omega arith) e in
        let q = stored-get_active_record format r now s (omega arith) e in
        let same = str_eq_iff r.request_hash hash in
        (ground (arith, p, q, same), ground (arith, p, q, same, replay_safe_idem r.result))

    -- While the record has not expired, `begin` answers as the slot says and claims as it says, and
    -- what it leaves lasts as long.
    pub begin-begin_slot :
        (hash : String) (s : LedgerState V)
        → Lasts horizon s
        → ((begin format hash now later s).0 ≡ (begin_slot format hash (slot_of format s)).0)
          × (slot_of format (begin format hash now later s).1
              ≡ (begin_slot format hash (slot_of format s)).1)
          × Lasts horizon (begin format hash now later s).1
    begin-begin_slot hash s h =
        let (answer, slot) = begin_slots hash s h in
        (
          answer,
          slot,
          elim (begin_state hash s) [
            | inl e ↦ rw e (Lasts-read s h)
            | inr e ↦ rw e (Lasts-put_record started hash none)
          ],
        )

    ended :
        (st : LedgerStatus) (result : Option V) (rec : Option (LedgerRecord V)) (s : LedgerState V)
        → Lasts horizon s
        → Lasts horizon (end_attempt format st result later rec s)
    ended st result none s h = h
    ended st result (some r) s h = elim (Bool-cases (is_started format r.status)) [
      | inl e ↦ rw e (Lasts-put_record st r.request_hash result)
      | inr e ↦ rw e h
    ]

    -- While the record has not expired, `complete` turns a slot in flight into one that is done with
    -- the replay-safe result and leaves every other slot as it is, and what it leaves lasts as long.
    pub complete-complete_slot :
        (result : Option V) (s : LedgerState V)
        → Lasts horizon s
        → (slot_of format (complete format result now later s)
            ≡ complete_slot format result (slot_of format s))
          × Lasts horizon (complete format result now later s)
    unfolding complete
    complete-complete_slot result s h = (slot s h, ended completed _ _ _ (Lasts-read s h))
      where
        slot :
            (s : LedgerState V)
            → Lasts horizon s
            → slot_of format (complete format result now later s)
              ≡ complete_slot format result (slot_of format s)
        slot s (inl e) = ground (arith, get_active_record-none format now s e)
        slot s (inr (r, e, lasts)) =
            let p = get_active_record-before_expiry format r now s (omega arith) e in
            let q = stored-get_active_record format r now s (omega arith) e in
            ground (arith, p, q, replay_safe_idem r.result, replay_safe_idem result)

    -- While the record has not expired, `fail` turns a slot in flight into a cleanly failed one and
    -- leaves every other slot as it is, and what it leaves lasts as long.
    pub fail-fail_slot :
        (s : LedgerState V)
        → Lasts horizon s
        → (slot_of format (fail format now later s) ≡ fail_slot format (slot_of format s))
          × Lasts horizon (fail format now later s)
    unfolding fail
    fail-fail_slot s h = (slot s h, ended failed _ _ _ (Lasts-read s h))
      where
        slot :
            (s : LedgerState V)
            → Lasts horizon s
            → slot_of format (fail format now later s) ≡ fail_slot format (slot_of format s)
        slot s (inl e) = ground (arith, get_active_record-none format now s e)
        slot s (inr (r, e, lasts)) =
            let p = get_active_record-before_expiry format r now s (omega arith) e in
            let q = stored-get_active_record format r now s (omega arith) e in
            ground (arith, p, q, replay_safe_idem r.result)

    -- While the record has not expired, `mark_indeterminate` turns a slot in flight into one of unknown
    -- outcome and leaves every other slot as it is, and what it leaves lasts as long.
    pub mark_indeterminate-mark_slot :
        (s : LedgerState V)
        → Lasts horizon s
        → (slot_of format (mark_indeterminate format now later s)
            ≡ mark_slot format (slot_of format s))
          × Lasts horizon (mark_indeterminate format now later s)
    unfolding mark_indeterminate
    mark_indeterminate-mark_slot s h = (slot s h, ended indeterminate _ _ _ (Lasts-read s h))
      where
        slot :
            (s : LedgerState V)
            → Lasts horizon s
            → slot_of format (mark_indeterminate format now later s)
              ≡ mark_slot format (slot_of format s)
        slot s (inl e) = ground (arith, get_active_record-none format now s e)
        slot s (inr (r, e, lasts)) =
            let p = get_active_record-before_expiry format r now s (omega arith) e in
            let q = stored-get_active_record format r now s (omega arith) e in
            ground (arith, p, q, replay_safe_idem r.result)

    -- `status` tells the status of the slot.
    pub status-status_slot :
        (s : LedgerState V)
        → Lasts horizon s
        → (status format now s).0 ≡ status_slot (slot_of format s)
    unfolding status
    status-status_slot s (inl e) = ground (arith, get_active_record-none format now s e)
    status-status_slot s (inr (r, e, lasts)) =
        ground (arith, get_active_record-before_expiry format r now s (omega arith) e, e)

    -- `status` and the alarm only read: the slot stays, and the record lasts as long.
    pub status-slot :
        (s : LedgerState V)
        → Lasts horizon s
        → (slot_of format (status format now s).1 ≡ slot_of format s)
          × Lasts horizon (status format now s).1
    unfolding status
    status-slot s h = (slot s h, Lasts-read s h)
      where
        slot :
            (s : LedgerState V)
            → Lasts horizon s
            → slot_of format (get_active_record format now s).1 ≡ slot_of format s
        slot s (inl e) = ground (arith, get_active_record-none format now s e)
        slot s (inr (r, e, lasts)) =
            let q = stored-get_active_record format r now s (omega arith) e in
            ground (arith, q, replay_safe_idem r.result)

    abbrev unalarmed : LedgerState V → LedgerState V
    unalarmed s = record s { alarm_at = none }

    stored-alarm :
        (s : LedgerState V)
        → (alarm format now s).stored ≡ (status format now (unalarmed s)).1.stored
    unfolding alarm status
    stored-alarm s = ground arith

    pub alarm-slot :
        (s : LedgerState V)
        → Lasts horizon s
        → (slot_of format (alarm format now s) ≡ slot_of format s)
          × Lasts horizon (alarm format now s)
    alarm-slot s h = rw (stored-alarm s) (status-slot (unalarmed s) h)
