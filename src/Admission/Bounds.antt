-- ===== src/Admission/Bounds.antt =====
-- The bounds of the admission object: over any sequence of calls no more leases and requests are held
-- than are allowed, and a call is admitted exactly within them.
use snow_mcp.Common.{
  ℕ, ◌+◌, ◌≤◌, ◌<◌, ◌≡◌, ◌↔◌, String, true, Option, none, some, List, [], ◌∷◌, length,
  length-filter_by-le, arith, any, All, false,
}
use snow_mcp.Admission.{
  WindowState, Lease, AdmissionState, admitted, or_empty, prune_leases, has_lease, set_lease,
  put_lease, has_id, is_inherited, delete_lease, current_window, admit, release, renew, snapshot,
  max_requests_per_window, max_in_flight,
}

pub data Call : Type 0 where
  admit_call : String → Call
  release_call : String → Call
  renew_call : String → Call

pub record Timed : Type 0 where
  pub now : ℕ
  pub call : Call

unfoldable pub perform : Timed → AdmissionState → AdmissionState
perform c s = elim c.call [
  | admit_call id ↦ (admit c.now id s).1
  | release_call id ↦ release id s
  | renew_call id ↦ (renew id c.now s).1
]

unfoldable pub perform_all : List Timed → AdmissionState → AdmissionState
perform_all [] s = s
perform_all (c ∷ cs) s = perform_all cs (perform c s)

abbrev count_of : Option WindowState → ℕ
count_of none = 0
count_of (some w) = w.count

-- What the storage holds is within the limits.
abbrev pub Bounded : AdmissionState → Type 0
Bounded s =
    (count_of s.window ≤ max_requests_per_window) × (length (or_empty s.leases) ≤ max_in_flight)

length-put_lease-le :
    (id : String) (at : ℕ) (ls : List Lease) → length (put_lease id at ls) ≤ length ls + 1
unfolding put_lease
length-put_lease-le id at [] = omega arith
length-put_lease-le id at (l ∷ ls) = ground (arith, length-put_lease-le id at ls)

length-set_lease-le :
    (id : String) (at : ℕ) (ls : List Lease) → length (set_lease id at ls) ≤ length ls + 1
unfolding set_lease
length-set_lease-le id at ls = ground (arith, length-put_lease-le id at ls)

length-put_lease-known :
    (id : String) (at : ℕ) (ls : List Lease)
    → any (has_id id) ls ≡ true
    → length (put_lease id at ls) ≡ length ls
unfolding put_lease
length-put_lease-known id at [] h = cc
length-put_lease-known id at (l ∷ ls) h = ground (arith, length-put_lease-known id at ls)

length-set_lease-known :
    (id : String) (at : ℕ) (ls : List Lease)
    → is_inherited id ≡ false
    → has_lease id ls ≡ true
    → length (set_lease id at ls) ≡ length ls
unfolding set_lease has_lease
length-set_lease-known id at ls own h =
    let known = length-put_lease-known id at ls (ground (arith, own, h)) in ground (arith, known)

pub length-prune_leases-le : (ls : List Lease) (now : ℕ) → length (prune_leases ls now) ≤ length ls
unfolding prune_leases
length-prune_leases-le ls now = length-filter_by-le _ ls

length-delete_lease-le : (id : String) (ls : List Lease) → length (delete_lease id ls) ≤ length ls
unfolding delete_lease
length-delete_lease-le id ls = length-filter_by-le _ ls

admit-Bounded :
    (now : ℕ) (id : String) (s : AdmissionState) → Bounded s → Bounded (admit now id s).1
unfolding admit
admit-Bounded now id s h =
    let pruned = length-prune_leases-le (or_empty s.leases) now in
    let set = length-set_lease-le id (now + 75000) (prune_leases (or_empty s.leases) now) in
    ground (arith, pruned, set, h)

release-Bounded : (id : String) (s : AdmissionState) → Bounded s → Bounded (release id s)
unfolding release
release-Bounded id s h =
    let deleted = length-delete_lease-le id (or_empty s.leases) in ground (arith, deleted, h)

renew-Bounded :
    (id : String) (now : ℕ) (s : AdmissionState)
    → is_inherited id ≡ false
    → Bounded s
    → Bounded (renew id now s).1
unfolding renew
renew-Bounded id now s own h =
    let pruned = length-prune_leases-le (or_empty s.leases) now in
    let set = length-set_lease-known id (now + 75000) (prune_leases (or_empty s.leases) now) own in
    ground (arith, pruned, set, h)

-- A renewal is not of a name that every object has, as `constructor`; the ids of leases are UUIDs.
abbrev pub RenewsOwn : Call → Type 0
RenewsOwn (renew_call id) = is_inherited id ≡ false
RenewsOwn call = Unit

-- From a state within the limits, every sequence of calls, at whatever times, leaves at most 60
-- requests counted in the window and at most 4 leases, if no id that is renewed is the name of a
-- property that every object inherits.
pub perform_all-Bounded :
    (cs : List Timed) (s : AdmissionState)
    → All (λ c. RenewsOwn c.call) cs
    → Bounded s
    → Bounded (perform_all cs s)
unfolding perform_all perform
perform_all-Bounded [] s own h = h
perform_all-Bounded (c ∷ cs) s own h =
    perform_all-Bounded cs (perform c s) own.1 (step c.call own.0)
  where
    step :
        (call : Call)
        → RenewsOwn call
        → Bounded (elim call [
          | admit_call id ↦ (admit c.now id s).1
          | release_call id ↦ release id s
          | renew_call id ↦ (renew id c.now s).1
        ])
    step (admit_call id) o = admit-Bounded c.now id s h
    step (release_call id) o = release-Bounded id s h
    step (renew_call id) o = renew-Bounded id c.now s o h

-- A request is admitted exactly when the snapshot of the object shows fewer than 60 requests in the
-- window and fewer than 4 leases in flight.
pub admitted_iff :
    (now : ℕ) (id : String) (s : AdmissionState)
    → ((admit now id s).0 ≡ admitted id)
      ↔ ((snapshot now s).0 < max_requests_per_window × (snapshot now s).1 < max_in_flight)
unfolding admit snapshot current_window
admitted_iff now id s = ground arith
