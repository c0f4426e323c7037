-- ===== src/Admission/Retry.antt =====
-- What a refusal of the admission object tells its caller: how long to wait.
use snow_mcp.Common.{ℕ, ◌+◌, ◌≤◌, ◌<◌, ◌≡◌, ◌≢◌, ◌⊎◌, inl, String, List, [], ◌∷◌, length, arith}
use snow_mcp.Admission.{
  Lease, AdmissionState, Reason, rate, concurrency, refused, or_empty, prune_leases, earliest,
  earliest_expiry, current_window, admit,
}
use snow_mcp.Admission.Bounds.{Bounded, length-prune_leases-le}

earliest-cases :
    (at later : ℕ) (ls : List Lease)
    → earliest at ls ≤ later
    → (at ≤ later) ⊎ (length (prune_leases ls later) < length ls)
unfolding earliest prune_leases
earliest-cases at later [] h = inl h
earliest-cases at later (l ∷ ls) h =
    let rec = earliest-cases l.expires_at later ls in
    let shorter = length-prune_leases-le ls later in ground (arith, rec, shorter)

-- Once the earliest lease of a list has expired, pruning drops one.
length-prune_leases-earliest :
    (later : ℕ) (ls : List Lease)
    → 1 ≤ length ls
    → earliest_expiry ls ≤ later
    → length (prune_leases ls later) < length ls
unfolding earliest_expiry prune_leases
length-prune_leases-earliest later [] h k = absurd (omega arith)
length-prune_leases-earliest later (l ∷ ls) h k =
    let rec = earliest-cases l.expires_at later ls in
    let shorter = length-prune_leases-le ls later in ground (arith, rec, shorter)

rate_retry :
    (now later ms other : ℕ) (id id' : String) (s : AdmissionState)
    → (admit now id s).0 ≡ refused rate ms
    → now + ms ≤ later
    → (1 ≤ ms) × ((admit later id' (admit now id s).1).0 ≢ refused rate other)
unfolding admit current_window
rate_retry now later ms other id id' s e h = ground arith

concurrency_retry :
    (now later ms other : ℕ) (id id' : String) (s : AdmissionState)
    → Bounded s
    → (admit now id s).0 ≡ refused concurrency ms
    → now + ms ≤ later
    → (1 ≤ ms) × ((admit later id' (admit now id s).1).0 ≢ refused concurrency other)
unfolding admit current_window
concurrency_retry now later ms other id id' s b e h =
    let ls = prune_leases (or_empty s.leases) now in
    let shorter = length-prune_leases-le (or_empty s.leases) now in
    let dropped = length-prune_leases-earliest later ls in ground (arith, shorter, dropped, b)

-- A refusal, from a state within the limits, asks for a wait of at least a millisecond, and if no
-- other call comes between, a request after that wait is not refused for the same reason.
pub refused-retry :
    (reason : Reason) (now later ms other : ℕ) (id id' : String) (s : AdmissionState)
    → Bounded s
    → (admit now id s).0 ≡ refused reason ms
    → now + ms ≤ later
    → (1 ≤ ms) × ((admit later id' (admit now id s).1).0 ≢ refused reason other)
refused-retry rate now later ms other id id' s b e h = rate_retry now later ms other id id' s e h
refused-retry concurrency now later ms other id id' s b e h =
    concurrency_retry now later ms other id id' s b e h
