-- ===== src/Admission/Quiet.antt =====
-- The admission object recovers from anything its callers did: once they are quiet for the life of a
-- lease, the next request is admitted.
use snow_mcp.Common.{
  ℕ, ◌+◌, ◌≤◌, ◌≡◌, String, Bool, Option, none, some, List, [], ◌∷◌, All, not, leb, filter_by,
  length, refl, arith, Bool-cases, str_eq, chosen, inl, inr,
}
use snow_mcp.Admission.{
  WindowState, Lease, AdmissionState, admitted, or_empty, is_live, prune_leases, set_lease,
  put_lease, has_lease, current_window, admit, release, renew, stale_lease_ms,
  max_requests_per_window, max_in_flight, has_id,
}
use snow_mcp.Admission.Bounds.{Timed, perform, perform_all, admit_call, release_call, renew_call}

abbrev StartsBy : ℕ → Option WindowState → Type 0
StartsBy t none = Unit
StartsBy t (some w) = w.start_at ≤ t

abbrev ExpiresBy : ℕ → Lease → Type 0
ExpiresBy t l = l.expires_at ≤ t + stale_lease_ms

-- Nothing in the storage is from after a time.
abbrev LastedBy : ℕ → AdmissionState → Type 0
LastedBy t s = StartsBy t s.window × All (ExpiresBy t) (or_empty s.leases)

filter_by-ExpiresBy :
    (t : ℕ) (p : Lease → Bool) (ls : List Lease)
    → All (ExpiresBy t) ls
    → All (ExpiresBy t) (filter_by p ls)
filter_by-ExpiresBy t p [] h = tt
filter_by-ExpiresBy t p (l ∷ ls) h =
    let rest = filter_by-ExpiresBy t p ls h.1 in
    elim (Bool-cases (p l)) [ inl e ↦ rw e (h.0, rest) | inr e ↦ rw e rest ]

put_lease-ExpiresBy :
    (t at : ℕ) (id : String) (ls : List Lease)
    → at ≤ t + stale_lease_ms
    → All (ExpiresBy t) ls
    → All (ExpiresBy t) (put_lease id at ls)
unfolding put_lease
put_lease-ExpiresBy t at id [] k h = (k, tt)
put_lease-ExpiresBy t at id (l ∷ ls) k h =
    let rest = put_lease-ExpiresBy t at id ls k h.1 in
    chosen (All (ExpiresBy t)) _ (record { lease_id = id; expires_at = at } ∷ ls)
      (l ∷ put_lease id at ls) (λ e. (k, h.1)) (λ e. (h.0, rest))

set_lease-ExpiresBy :
    (t at : ℕ) (id : String) (ls : List Lease)
    → at ≤ t + stale_lease_ms
    → All (ExpiresBy t) ls
    → All (ExpiresBy t) (set_lease id at ls)
unfolding set_lease
set_lease-ExpiresBy t at id ls k h =
    chosen (All (ExpiresBy t)) (str_eq id "__proto__") ls (put_lease id at ls) (λ e. h)
      (λ e. put_lease-ExpiresBy t at id ls k h)

prune_leases-none :
    (t later : ℕ) (ls : List Lease)
    → All (ExpiresBy t) ls
    → t + stale_lease_ms ≤ later
    → prune_leases ls later ≡ []
unfolding prune_leases
prune_leases-none t later [] h k = refl
prune_leases-none t later (l ∷ ls) h k =
    let rest = prune_leases-none t later ls h.1 k in ground (arith, rest, h.0)

current_window-StartsBy :
    (t now : ℕ) (o : Option WindowState)
    → now ≤ t
    → StartsBy t o
    → (current_window o now).start_at ≤ t
unfolding current_window
current_window-StartsBy t now none k h = k
current_window-StartsBy t now (some w) k h = ground (arith, k, h)

admit-LastedBy :
    (t now : ℕ) (id : String) (s : AdmissionState)
    → now ≤ t
    → LastedBy t s
    → LastedBy t (admit now id s).1
unfolding admit
admit-LastedBy t now id s k h =
    let starts = current_window-StartsBy t now s.window k h.0 in
    let live = filter_by-ExpiresBy t (is_live now) (or_empty s.leases) h.1 in
    let added =
      set_lease-ExpiresBy t (now + stale_lease_ms) id (prune_leases (or_empty s.leases) now)
        (omega arith) live in
    elim (Bool-cases (leb max_requests_per_window (current_window s.window now).count)) [
      | inl e ↦ rw e h
      | inr e ↦
          elim (Bool-cases (leb max_in_flight (length (prune_leases (or_empty s.leases) now)))) [
            | inl f ↦ rw (e, f) (starts, live)
            | inr f ↦ rw (e, f) (starts, added)
          ]
    ]

release-LastedBy :
    (t : ℕ) (id : String) (w : Option WindowState) (o : Option (List Lease))
    → LastedBy t (record { window = w; leases = o })
    → LastedBy t (release id (record { window = w; leases = o }))
unfolding release
release-LastedBy t id w none h = h
release-LastedBy t id w (some ls) h =
    let kept = filter_by-ExpiresBy t (λ l. not (has_id id l)) ls h.1 in
    elim (Bool-cases (has_lease id ls)) [ inl e ↦ rw e (h.0, kept) | inr e ↦ rw e h ]

renew-LastedBy :
    (t now : ℕ) (id : String) (s : AdmissionState)
    → now ≤ t
    → LastedBy t s
    → LastedBy t (renew id now s).1
unfolding renew
renew-LastedBy t now id s k h =
    let live = filter_by-ExpiresBy t (is_live now) (or_empty s.leases) h.1 in
    let added =
      set_lease-ExpiresBy t (now + stale_lease_ms) id (prune_leases (or_empty s.leases) now)
        (omega arith) live in
    elim (Bool-cases (has_lease id (prune_leases (or_empty s.leases) now))) [
      | inl e ↦ rw e (h.0, added)
      | inr e ↦ rw e (h.0, live)
    ]

perform-LastedBy :
    (t : ℕ) (c : Timed) (s : AdmissionState) → c.now ≤ t → LastedBy t s → LastedBy t (perform c s)
unfolding perform
perform-LastedBy t c s k h = elim c.call as (λ x. LastedBy t (perform (record c { call = x }) s)) [
  | admit_call id ↦ admit-LastedBy t c.now id s k h
  | release_call id ↦ release-LastedBy t id s.window s.leases h
  | renew_call id ↦ renew-LastedBy t c.now id s k h
]

perform_all-LastedBy :
    (t : ℕ) (cs : List Timed) (s : AdmissionState)
    → All (λ c. c.now ≤ t) cs
    → LastedBy t s
    → LastedBy t (perform_all cs s)
unfolding perform_all
perform_all-LastedBy t [] s k h = h
perform_all-LastedBy t (c ∷ cs) s k h =
    perform_all-LastedBy t cs (perform c s) k.1 (perform-LastedBy t c s k.0 h)

current_window-count :
    (t later : ℕ) (o : Option WindowState)
    → StartsBy t o
    → t + stale_lease_ms ≤ later
    → (current_window o later).count ≡ 0
unfolding current_window
current_window-count t later none h k = refl
current_window-count t later (some w) h k = ground (arith, h, k)

quiet-admitted :
    (t later : ℕ) (id : String) (s : AdmissionState)
    → LastedBy t s
    → t + stale_lease_ms ≤ later
    → (admit later id s).0 ≡ admitted id
unfolding admit
quiet-admitted t later id s h k =
    let none_left = prune_leases-none t later (or_empty s.leases) h.1 k in
    let window = current_window-count t later s.window h.0 k in ground (arith, none_left, window)

-- Whatever calls were made up to a time, on an empty storage, a request that comes when a lease's life
-- has passed since then without a call is admitted.
pub perform_all-admitted :
    (t later : ℕ) (id : String) (cs : List Timed)
    → All (λ c. c.now ≤ t) cs
    → t + stale_lease_ms ≤ later
    → (admit later id (perform_all cs (record { window = none; leases = none }))).0 ≡ admitted id
perform_all-admitted t later id cs h k =
    quiet-admitted t later id _ (perform_all-LastedBy t cs _ h (tt, tt)) k
