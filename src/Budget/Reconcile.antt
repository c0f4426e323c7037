-- ===== src/Budget/Reconcile.antt =====
-- The reconciliation of `BudgetDO`: what it leaves in every counter, and that a refund of what was
-- reserved beyond the use leaves the use.
use snow_mcp.Common.{
  ℕ, ◌+◌, ◌≡◌, refl, ◌∙◌, String, Bool, true, false, ◌&&◌, Option, if◌then◌else◌, arith, ℤ,
  pos_part, sub_ℕ, is_nonzero, add_clamped, add_clamped-sub_ℕ,
}
use snow_mcp.Budget.Updates.{
  is_user, counter-updates-global, counter-updates-per_user, mem_selected,
}
use snow_mcp.Budget.Reserve.{reserved-Accrues}
use snow_mcp.Budget.{
  Dimension, Counters, ReserveRequest, reserved, amount, truthy, adjust, adjusted_dimensions,
  reserve, reconcile, get, get_user,
}

adjust_nonzero : (z : ℤ) (n : ℕ) → (if is_nonzero z then add_clamped n z else n) ≡ add_clamped n z
adjust_nonzero z n = ground arith

adjust_nonzero_user :
    (b : Bool) (z : ℤ) (n : ℕ)
    → (if b && is_nonzero z then add_clamped n z else n) ≡ (if b then add_clamped n z else n)
adjust_nonzero_user true z n = ground arith
adjust_nonzero_user false z n = refl

-- What an operation that adds the signed amounts of `delta` for `user`, and stops at 0, leaves in
-- every counter.
pub record Adjusts (delta : ReserveRequest) (user : Option String) (s t : Counters) : Type 0 where
  pub total : (d : Dimension) → get d t ≡ add_clamped (get d s) (amount delta d)
  pub tally :
      (u : String) (d : Dimension)
      → get_user u d t ≡ (
          if is_user (truthy user) u
          then add_clamped (get_user u d s) (amount delta d)
          else get_user u d s)

-- A reconciliation adds every signed amount to the day's counter and, with a user, to that user's
-- tally, stopping at 0; it changes no other counter.
pub reconcile-Adjusts :
    (delta : ReserveRequest) (user : Option String) (s : Counters)
    → Adjusts delta user s (reconcile delta user s)
unfolding reconcile get get_user adjusted_dimensions
reconcile-Adjusts delta user s = record {
  total = λ d.
      counter-updates-global (adjust delta) s (truthy user) (adjusted_dimensions delta) s d
      ∙ rw (mem_selected (λ e. is_nonzero (amount delta e)) d) (adjust_nonzero (amount delta d) _);
  tally = λ u d.
      counter-updates-per_user (adjust delta) s (truthy user) (adjusted_dimensions delta) s u d
      ∙ rw (mem_selected (λ e. is_nonzero (amount delta e)) d)
          (adjust_nonzero_user (is_user (truthy user) u) (amount delta d) _);
}

-- After a reserve that succeeds, the reconciliation with used minus reserved amounts leaves each of
-- the day's counters, and each tally of the user, at its value before the reserve plus what was used.
pub reserve-reconcile :
    (req delta : ReserveRequest) (used : Dimension → ℕ) (override : Dimension → Option ℕ)
    (user : Option String) (s : Counters)
    → (reserve req override user s).0 ≡ reserved
    → ((d : Dimension) → amount delta d ≡ sub_ℕ (used d) (pos_part (amount req d)))
    → (d : Dimension)
    → (get d (reconcile delta user (reserve req override user s).1) ≡ get d s + used d)
      × ((u : String)
          → is_user (truthy user) u ≡ true
          → get_user u d (reconcile delta user (reserve req override user s).1)
            ≡ get_user u d s + used d)
reserve-reconcile req delta used override user s h k d =
    let t = (reserve req override user s).1 in
    let first = reserved-Accrues req override user s h in
    let second = reconcile-Adjusts delta user t in
    (
      second.total d ∙ rw (k d, first.total d) (add_clamped-sub_ℕ (get d s) (used d) _),
      λ u own.
          second.tally u d
          ∙ rw (own, k d, first.tally u d, own) (add_clamped-sub_ℕ (get_user u d s) (used d) _),
    )
