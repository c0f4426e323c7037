-- ===== src/Budget/Reserve.antt =====
-- The reserve of `BudgetDO`: when it succeeds, what it adds, and what a denial reports.
use snow_mcp.Common.{
  ℕ, ◌+◌, ◌≤◌, ◌<◌, ◌≡◌, refl, ◌∙◌, String, Bool, true, false, ◌↔◌, ◌⊎◌, ◌&&◌, Option, none, some,
  List, [], ◌∷◌, inl, inr, if◌then◌else◌, arith, leb→le, ltb→lt, eq_of_some-eq, Bool-cases,
  Option-cases, ℤ, pos_part, is_positive, leb, ltb, All,
}
use mathlib.Core.Path.{subst}
use snow_mcp.Budget.Storage.{mem}
use snow_mcp.Budget.Updates.{
  is_user, counter-updates-global, counter-updates-per_user, mem_selected,
}
use snow_mcp.Budget.{
  Dimension, dim_eq, unique_workers, sandbox_rpc_calls, service_now_requests, rows_returned,
  bytes_returned, outbound_bytes_sent, dimensions, global, Counters, counter, ReserveRequest,
  ReserveResult, reserved, over_cap, amount, caps_with, truthy, admission_dimensions,
  check_admission, check_requested, add_amount, requested_dimensions, reserve, get, get_user,
  increment,
}

-- What an operation that adds the positive amounts of `req` for `user` leaves in every counter.
pub record Accrues (req : ReserveRequest) (user : Option String) (s t : Counters) : Type 0 where
  pub total : (d : Dimension) → get d t ≡ get d s + pos_part (amount req d)
  pub tally :
      (u : String) (d : Dimension)
      → get_user u d t
        ≡ get_user u d s + (if is_user (truthy user) u then pos_part (amount req d) else 0)

add_positive :
    (b : Bool) (z : ℤ) (n : ℕ) → (if is_positive z then n + pos_part z else n) ≡ n + pos_part z
add_positive b z n = ground arith

add_positive_user :
    (b : Bool) (z : ℤ) (n : ℕ)
    → (if b && is_positive z then n + pos_part z else n) ≡ n + (if b then pos_part z else 0)
add_positive_user true z n = ground arith
add_positive_user false z n = omega arith

pub increment-Accrues :
    (req : ReserveRequest) (user : Option String) (s : Counters)
    → Accrues req user s (increment req user s)
unfolding increment get get_user requested_dimensions
increment-Accrues req user s = record {
  total = λ d.
      counter-updates-global (add_amount req) s (truthy user) (requested_dimensions req) s d
      ∙ rw (mem_selected (λ e. is_positive (amount req e)) d) (add_positive true (amount req d) _);
  tally = λ u d.
      counter-updates-per_user (add_amount req) s (truthy user) (requested_dimensions req) s u d
      ∙ rw (mem_selected (λ e. is_positive (amount req e)) d)
          (add_positive_user (is_user (truthy user) u) (amount req d) _);
}

module _ (caps : Dimension → ℕ) (req : ReserveRequest) (s : Counters) where
  -- No dimension that is accrued after a run has reached its cap, and every requested amount fits.
  pub record Fits : Type 0 where
    pub open_dimension : (d : Dimension) → mem d admission_dimensions ≡ true → get d s < caps d
    pub room :
        (d : Dimension) → 0 < pos_part (amount req d) → get d s + pos_part (amount req d) ≤ caps d

  -- The dimension that a denial reports breaks one of the two conditions, by the figures reported.
  abbrev pub IsBreach : ReserveResult → Type 0
  IsBreach reserved = ⊥
  IsBreach (over_cap d cap would) =
      (cap ≡ caps d)
      × (((mem d admission_dimensions ≡ true) × (would ≡ get d s) × (cap ≤ would))
          ⊎ ((0 < pos_part (amount req d))
              × (would ≡ get d s + pos_part (amount req d))
              × (cap < would)))

  check_admission-none :
      (ds : List Dimension) → check_admission caps s ds ≡ none → All (λ d. get d s < caps d) ds
  unfolding check_admission get
  check_admission-none [] h = tt
  check_admission-none (d ∷ ds) h = ground (arith, check_admission-none ds)

  check_admission-some :
      (ds : List Dimension) (r : ReserveResult)
      → All (λ d. mem d admission_dimensions ≡ true) ds
      → check_admission caps s ds ≡ some r
      → IsBreach r
  unfolding check_admission get
  check_admission-some [] r a h = cc
  check_admission-some (d ∷ ds) r a h = elim (Bool-cases (leb (caps d) (counter s (global d)))) [
    | inr p ↦ check_admission-some ds r a.1 (rw p at h)
    | inl p ↦ subst IsBreach (eq_of_some-eq (rw p at h)) (refl, inl (a.0, refl, leb→le _ _ p))
  ]

  check_requested-none :
      (ds : List Dimension)
      → check_requested caps req s ds ≡ none
      → All (λ d. 0 < pos_part (amount req d) → get d s + pos_part (amount req d) ≤ caps d) ds
  unfolding check_requested get
  check_requested-none [] h = tt
  check_requested-none (d ∷ ds) h = (λ p. ground arith, check_requested-none ds (ground arith))

  check_requested-some :
      (ds : List Dimension) (r : ReserveResult)
      → check_requested caps req s ds ≡ some r
      → IsBreach r
  unfolding check_requested get
  check_requested-some [] r h = cc
  check_requested-some (d ∷ ds) r h = elim (Bool-cases (is_positive (amount req d))) [
    | inr q ↦ check_requested-some ds r (rw q at h)
    | inl q ↦ elim (Bool-cases (ltb (caps d) (counter s (global d) + pos_part (amount req d)))) [
      | inr p ↦ check_requested-some ds r (rw (q, p) at h)
      | inl p ↦
          subst IsBreach (eq_of_some-eq (rw (q, p) at h))
            (refl, inr (ltb→lt _ _ q, refl, ltb→lt _ _ p))
    ]
  ]

All-dimensions {κ} : (P : Dimension → Type κ) → All P dimensions → (d : Dimension) → P d
All-dimensions P a unique_workers = a.0
All-dimensions P a sandbox_rpc_calls = a.1.0
All-dimensions P a service_now_requests = a.1.1.0
All-dimensions P a rows_returned = a.1.1.1.0
All-dimensions P a bytes_returned = a.1.1.1.1.0
All-dimensions P a outbound_bytes_sent = a.1.1.1.1.1.0

All-admission {κ} :
    (P : Dimension → Type κ)
    → All P admission_dimensions
    → (d : Dimension) → mem d admission_dimensions ≡ true
    → P d
unfolding dim_eq
All-admission P a rows_returned h = a.0
All-admission P a bytes_returned h = a.1.0
All-admission P a outbound_bytes_sent h = a.1.1.0
All-admission P a sandbox_rpc_calls h = a.1.1.1.0
All-admission P a _ h = absurd (cc)

admission-listed : All (λ d. mem d admission_dimensions ≡ true) admission_dimensions
unfolding dim_eq
admission-listed = (refl, (refl, (refl, (refl, tt))))

module _ (req : ReserveRequest) (override : Dimension → Option ℕ) (user : Option String)
    (s : Counters) where
  -- The three ways that a reserve can go.
  pub reserve_cases :
      ((t : Counters) × (reserve req override user s ≡ (reserved, t))
        × Fits (caps_with override) req s
        × Accrues req user s t)
      ⊎ ((r : ReserveResult) × (reserve req override user s ≡ (r, s))
          × IsBreach (caps_with override) req s r)
  unfolding reserve increment
  reserve_cases =
      elim (Option-cases (check_admission (caps_with override) s admission_dimensions)) [
        | inr (r, e) ↦ inr (
          r,
          rw (e, reserve),
          check_admission-some _ req s admission_dimensions r admission-listed e,
        )
        | inl e ↦ elim (Option-cases (check_requested (caps_with override) req s dimensions)) [
          | inr (r, q) ↦ inr (r, rw (e, q, reserve), check_requested-some _ req s dimensions r q)
          | inl q ↦ inl (
            increment req user s,
            rw (e, q, reserve),
            record {
              open_dimension =
                  All-admission _ (check_admission-none _ req s admission_dimensions e);
              room = All-dimensions _ (check_requested-none _ req s dimensions q);
            },
            increment-Accrues req user s,
          )
        ]
      ]

module _ (caps : Dimension → ℕ) (req : ReserveRequest) (s : Counters) where
  not-IsBreach_of_Fits : (r : ReserveResult) → Fits caps req s → ¬ IsBreach caps req s r
  not-IsBreach_of_Fits reserved h b = b
  not-IsBreach_of_Fits (over_cap d cap would) h (same, inl (listed, w, over)) =
      let room = h.open_dimension d listed in omega arith
  not-IsBreach_of_Fits (over_cap d cap would) h (same, inr (positive, w, over)) =
      let room = h.room d positive in omega arith

-- A reserve succeeds exactly when none of the dimensions that are accrued after a run has reached
-- its cap, and for every dimension with a positive amount the counter and the amount stay within it.
pub reserved_iff :
    (req : ReserveRequest) (override : Dimension → Option ℕ) (user : Option String) (s : Counters)
    → ((reserve req override user s).0 ≡ reserved) ↔ Fits (caps_with override) req s
reserved_iff req override user s = elim (reserve_cases req override user s) [
  | inl (t, e, fits, accrued) ↦ (λ _. fits, λ _. rw e)
  | inr (r, e, breach) ↦ (
    λ h. absurd (subst (IsBreach (caps_with override) req s) (rw e at h) breach),
    λ fits. absurd (not-IsBreach_of_Fits _ req s r fits breach),
  )
]

-- A reserve that succeeds adds every positive amount to the day's counter and, with a user, to that
-- user's tally; it changes no other counter.
pub reserved-Accrues :
    (req : ReserveRequest) (override : Dimension → Option ℕ) (user : Option String) (s : Counters)
    → (reserve req override user s).0 ≡ reserved
    → Accrues req user s (reserve req override user s).1
reserved-Accrues req override user s h = elim (reserve_cases req override user s) [
  | inl (t, e, fits, accrued) ↦ rw e accrued
  | inr (r, e, breach) ↦ absurd (subst (IsBreach (caps_with override) req s) (rw e at h) breach)
]

-- A reserve that is denied changes nothing, and the dimension, cap and figure that it reports are
-- those of a breach: the counter has reached the cap, or a positive amount would pass it.
pub over_cap_sound :
    (req : ReserveRequest) (override : Dimension → Option ℕ) (user : Option String) (s : Counters)
    (d : Dimension) (cap would : ℕ)
    → (reserve req override user s).0 ≡ over_cap d cap would
    → ((reserve req override user s).1 ≡ s)
      × IsBreach (caps_with override) req s (over_cap d cap would)
over_cap_sound req override user s d cap would h = elim (reserve_cases req override user s) [
  | inl (t, e, fits, accrued) ↦ absurd (cc e)
  | inr (r, e, breach) ↦ (rw e, subst (IsBreach (caps_with override) req s) (rw e at h) breach)
]
