-- ===== src/Admission.antt =====
-- `McpAdmissionDO` of packages/mcp-server/src/do/mcp-admission.ts: how many requests of an actor are
-- admitted in a window, and how many are in flight.
-- A call takes the time and the state of the object; the promise chain runs one call at a time. The
-- lease map is a list of its entries; the id of a new lease, a random UUID, is an argument.
pub mod Bounds
pub mod Retry
pub mod Window
pub mod Quiet
use snow_mcp.Common.{
  ℕ, ◌+◌, ◌-◌, ◌*◌, min, max, String, Bool, true, false, ◌||◌, not, Option, none, some, List, [],
  ◌∷◌, leb, ltb, length, any, filter_by, str_eq, if◌then◌else◌,
}

abbrev pub window_ms : ℕ
window_ms = 60000

abbrev pub max_requests_per_window : ℕ
max_requests_per_window = 60

abbrev pub max_in_flight : ℕ
max_in_flight = 4

abbrev pub stale_lease_ms : ℕ
stale_lease_ms = 75000

pub record WindowState : Type 0 where
  pub start_at : ℕ
  pub count : ℕ

-- An entry of `LeaseMap`: a lease id and the time at which the lease expires.
pub record Lease : Type 0 where
  pub lease_id : String
  pub expires_at : ℕ

pub data Reason : Type 0 where
  rate concurrency : Reason

pub data AdmissionResult : Type 0 where
  admitted : String → AdmissionResult
  refused : Reason → ℕ → AdmissionResult

-- The storage of the object under its two keys.
pub record AdmissionState : Type 0 where
  pub window : Option WindowState
  pub leases : Option (List Lease)

abbrev pub or_empty : Option (List Lease) → List Lease
or_empty none = []
or_empty (some ls) = ls

abbrev pub lease_expires_at : ℕ → ℕ
lease_expires_at now = now + stale_lease_ms

abbrev pub is_live : ℕ → Lease → Bool
is_live now l = ltb now l.expires_at

unfoldable pub prune_leases : List Lease → ℕ → List Lease
prune_leases ls now = filter_by (is_live now) ls

abbrev pub has_id : String → Lease → Bool
has_id id l = str_eq l.lease_id id

-- The properties that a plain object inherits.
abbrev pub inherited_names : List String
inherited_names =
    "constructor" ∷ "__proto__" ∷ "hasOwnProperty" ∷ "isPrototypeOf" ∷ "propertyIsEnumerable"
    ∷ "toString" ∷ "toLocaleString" ∷ "valueOf" ∷ "__defineGetter__" ∷ "__defineSetter__"
    ∷ "__lookupGetter__" ∷ "__lookupSetter__" ∷ []

unfoldable pub is_inherited : String → Bool
is_inherited id = any (λ name. str_eq id name) inherited_names

-- `leases[leaseId] !== undefined`, inherited properties included.
unfoldable pub has_lease : String → List Lease → Bool
has_lease id ls = any (has_id id) ls || is_inherited id

unfoldable pub put_lease : String → ℕ → List Lease → List Lease
put_lease id at [] = record { lease_id = id; expires_at = at } ∷ []
put_lease id at (l ∷ ls) =
    if has_id id l then record { lease_id = id; expires_at = at } ∷ ls else l ∷ put_lease id at ls

-- `leases[leaseId] = at`; a number that is assigned to `__proto__` is dropped.
unfoldable pub set_lease : String → ℕ → List Lease → List Lease
unfolding put_lease
set_lease id at ls = if str_eq id "__proto__" then ls else put_lease id at ls

-- `delete leases[leaseId]`.
unfoldable pub delete_lease : String → List Lease → List Lease
delete_lease id ls = filter_by (λ l. not (has_id id l)) ls

-- `Math.min` of the expiries of a lease and of those after it.
unfoldable pub earliest : ℕ → List Lease → ℕ
earliest at [] = at
earliest at (l ∷ ls) = min at (earliest l.expires_at ls)

-- `Math.min(...leaseExpiries)`; it is called on no empty list.
unfoldable pub earliest_expiry : List Lease → ℕ
earliest_expiry [] = 0
earliest_expiry (l ∷ ls) = earliest l.expires_at ls

unfoldable pub current_window : Option WindowState → ℕ → WindowState
current_window none now = record { start_at = now; count = 0 }
current_window (some w) now =
    if leb (w.start_at + window_ms) now then record { start_at = now; count = 0 } else w

abbrev count_request : WindowState → WindowState
count_request w = record w { count = w.count + 1 }

-- `admitCritical`, with the id of a new lease.
unfoldable pub admit : ℕ → String → AdmissionState → AdmissionResult × AdmissionState
unfolding prune_leases earliest_expiry current_window
admit now id s =
    let w = current_window s.window now in
    let ls = prune_leases (or_empty s.leases) now in
    if leb max_requests_per_window w.count
    then (refused rate (max 1 ((w.start_at + window_ms) - now)), s)
    else if leb max_in_flight (length ls)
    then (
      refused concurrency (max 1 (earliest_expiry ls - now)),
      record { window = some (count_request w); leases = some ls },
    )
    else (
      admitted id,
      record {
        window = some (count_request w);
        leases = some (set_lease id (lease_expires_at now) ls);
      },
    )

abbrev release_from : String → Option (List Lease) → AdmissionState → AdmissionState
release_from id none s = s
release_from id (some ls) s =
    if has_lease id ls then record s { leases = some (delete_lease id ls) } else s

unfoldable pub release : String → AdmissionState → AdmissionState
unfolding has_lease delete_lease
release id s = release_from id s.leases s

unfoldable pub renew : String → ℕ → AdmissionState → Bool × AdmissionState
unfolding prune_leases has_lease set_lease
renew id now s =
    let ls = prune_leases (or_empty s.leases) now in
    if has_lease id ls
    then (true, record s { leases = some (set_lease id (lease_expires_at now) ls) })
    else (false, record s { leases = some ls })

-- `snapshot`: the requests counted in the window, and the leases in flight.
abbrev window_count : Option WindowState → ℕ → ℕ
window_count none now = 0
window_count (some w) now = if ltb now (w.start_at + window_ms) then w.count else 0

unfoldable pub snapshot : ℕ → AdmissionState → ℕ × ℕ
unfolding prune_leases
snapshot now s = (window_count s.window now, length (prune_leases (or_empty s.leases) now))
