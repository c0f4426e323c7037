-- ===== src/Budget.antt =====
-- `BudgetDO` of packages/mcp-server/src/do/budget.ts: the daily counters, their atomic reserve, the
-- accrual after a run and the reconciliation with what was used.
-- The promise chain runs one operation at a time, so an operation is a function on the storage.
mod Storage
pub mod Updates
pub mod Reserve
pub mod Reconcile
pub mod Caps
use snow_mcp.Common.{
  ℕ, ◌+◌, ◌*◌, String, Bool, ◌&&◌, Option, none, some, List, [], ◌∷◌, ◌++◌, ltb, leb, length, ◌==◌,
  filter_by, if◌then◌else◌, ℤ, pos, pos_part, is_positive, is_nonzero, add_clamped, str_eq,
}
pub use Storage.{Dimension, unique_workers, sandbox_rpc_calls, service_now_requests}
pub use Storage.{rows_returned, bytes_returned, outbound_bytes_sent, Key, global, per_user}
pub use Storage.{Counters, dimensions}
unfoldable pub use Storage.{dim_eq, key_eq, counter, put, put_all}

-- `Partial<Record<BudgetDimension, number>>`.
abbrev pub ReserveRequest : Type 0
ReserveRequest = Dimension → Option ℤ

pub data ReserveResult : Type 0 where
  reserved : ReserveResult
  over_cap : (dimension : Dimension) (cap would : ℕ) → ReserveResult

-- `req[d] ?? 0`.
abbrev pub amount : ReserveRequest → Dimension → ℤ
amount req d = elim (req d) [ none ↦ pos 0 | some n ↦ n ]

unfoldable pub requested_dimensions : ReserveRequest → List Dimension
requested_dimensions req = filter_by (λ d. is_positive (amount req d)) dimensions

-- `BUDGETS.daily` of config.ts.
unfoldable pub daily_caps : Dimension → ℕ
daily_caps unique_workers = 1000
daily_caps sandbox_rpc_calls = 100_000
daily_caps service_now_requests = 100_000
daily_caps rows_returned = 5_000_000
daily_caps bytes_returned = 1024 * 1024 * 1024
daily_caps outbound_bytes_sent = 1024 * 1024 * 1024

-- `{ ...this.caps(), ...(capOverride ?? {}) }`.
abbrev pub caps_with : (Dimension → Option ℕ) → Dimension → ℕ
caps_with override d = elim (override d) [ none ↦ daily_caps d | some n ↦ n ]

-- The empty string is falsy: `userId ? … : …` takes it for no user.
abbrev pub truthy : Option String → Option String
truthy none = none
truthy (some u) = if str_eq u "" then none else some u

-- The dimensions that are accrued after a run and refused before the next one.
abbrev pub admission_dimensions : List Dimension
admission_dimensions = rows_returned ∷ bytes_returned ∷ outbound_bytes_sent ∷ sandbox_rpc_calls ∷ []

-- The first loop: a dimension that has reached its cap.
unfoldable pub check_admission : (Dimension → ℕ) → Counters → List Dimension → Option ReserveResult
check_admission caps s [] = none
check_admission caps s (d ∷ ds) =
    if leb (caps d) (counter s (global d))
    then some (over_cap d (caps d) (counter s (global d)))
    else check_admission caps s ds

-- The second loop: a requested dimension that would pass its cap.
unfoldable pub check_requested :
    (Dimension → ℕ) → ReserveRequest → Counters → List Dimension → Option ReserveResult
check_requested caps req s [] = none
check_requested caps req s (d ∷ ds) =
    if is_positive (amount req d) && ltb (caps d) (counter s (global d) + pos_part (amount req d))
    then some (over_cap d (caps d) (counter s (global d) + pos_part (amount req d)))
    else check_requested caps req s ds

-- The loop over the dimensions that fills `updates`: each counter from its stored value.
unfoldable pub updates :
    (Dimension → ℕ → ℕ) → Option String → Counters → List Dimension → List (Key × ℕ)
updates f user s [] = []
updates f none s (d ∷ ds) = (global d, f d (counter s (global d))) ∷ updates f none s ds
updates f (some u) s (d ∷ ds) =
    (global d, f d (counter s (global d)))
    ∷ (per_user u d, f d (counter s (per_user u d)))
    ∷ updates f (some u) s ds

-- `(stored.get(key) ?? 0) + inc`.
abbrev pub add_amount : ReserveRequest → Dimension → ℕ → ℕ
add_amount req d n = n + pos_part (amount req d)

-- `Math.max(0, (stored.get(key) ?? 0) + adj)`.
abbrev pub adjust : ReserveRequest → Dimension → ℕ → ℕ
adjust delta d n = add_clamped n (amount delta d)

-- `incrementCritical`, which is also the commit of a reserve.
unfoldable pub increment : ReserveRequest → Option String → Counters → Counters
increment req user s =
    put_all (updates (add_amount req) (truthy user) s (requested_dimensions req)) s

unfoldable pub reserve :
    ReserveRequest → (Dimension → Option ℕ) → Option String → Counters → ReserveResult × Counters
reserve req override user s = elim (check_admission (caps_with override) s admission_dimensions) [
  | some denial ↦ (denial, s)
  | none ↦ elim (check_requested (caps_with override) req s dimensions) [
    | some denial ↦ (denial, s)
    | none ↦
        (reserved, put_all (updates (add_amount req) (truthy user) s (requested_dimensions req)) s)
  ]
]

-- `DIMENSIONS.filter((d) => (delta[d] ?? 0) !== 0)`.
unfoldable pub adjusted_dimensions : ReserveRequest → List Dimension
adjusted_dimensions delta = filter_by (λ d. is_nonzero (amount delta d)) dimensions

unfoldable pub reconcile : ReserveRequest → Option String → Counters → Counters
reconcile delta user s =
    put_all (updates (adjust delta) (truthy user) s (adjusted_dimensions delta)) s

-- `get`, `getUser` and `snapshot`.
unfoldable pub get : Dimension → Counters → ℕ
get d s = counter s (global d)

unfoldable pub get_user : String → Dimension → Counters → ℕ
get_user u d s = counter s (per_user u d)

unfoldable pub snapshot : Counters → Dimension → ℕ
snapshot s d = counter s (global d)
