-- ===== src/Budget/Caps.antt =====
-- Sequences of operations on one budget object, in the order in which the promise chain runs them:
-- the day's cap holds throughout, and a user's tallies change only by that user's operations.
use snow_mcp.Common.{
  ℕ, zero, suc, ◌+◌, ◌≤◌, ◌<◌, ◌≡◌, refl, ◌∙◌, String, false, Option, none, List, [], ◌∷◌, arith,
  pos_part, All, inl, inr,
}
use snow_mcp.Budget.Updates.{is_user}
use snow_mcp.Budget.Reserve.{increment-Accrues, reserve_cases}
use snow_mcp.Budget.Reconcile.{reconcile-Adjusts}
use snow_mcp.Budget.{
  Dimension, Counters, ReserveRequest, amount, truthy, daily_caps, caps_with, reserve, increment,
  reconcile, get, get_user,
}

pub data Operation : Type 0 where
  reserve_op : ReserveRequest → (Dimension → Option ℕ) → Option String → Operation
  increment_op : ReserveRequest → Option String → Operation
  reconcile_op : ReserveRequest → Option String → Operation

unfoldable pub perform : Operation → Counters → Counters
perform (reserve_op req override user) s = (reserve req override user s).1
perform (increment_op req user) s = increment req user s
perform (reconcile_op delta user) s = reconcile delta user s

unfoldable pub perform_all : List Operation → Counters → Counters
perform_all [] s = s
perform_all (o ∷ os) s = perform_all os (perform o s)

-- The operation adds to `d` only by a reserve under the configured cap: the way in which a
-- dimension that is reserved before a run is used.
abbrev pub ReservesOnly : Dimension → Operation → Type 0
ReservesOnly d (reserve_op req override user) = override d ≡ none
ReservesOnly d (increment_op req user) = pos_part (amount req d) ≡ 0
ReservesOnly d (reconcile_op delta user) = pos_part (amount delta d) ≡ 0

-- The user that an operation names.
abbrev pub user_of : Operation → Option String
user_of (reserve_op req override user) = user
user_of (increment_op req user) = user
user_of (reconcile_op delta user) = user

caps_with-none :
    (override : Dimension → Option ℕ) (d : Dimension)
    → override d ≡ none
    → caps_with override d ≡ daily_caps d
caps_with-none override d h = rw (h, caps_with)

fits_cap : (n a cap : ℕ) → n ≤ cap → (0 < a → n + a ≤ cap) → n + a ≤ cap
fits_cap n zero cap h k = omega arith
fits_cap n (suc a) cap h k = k (omega arith)

perform-within :
    (d : Dimension) (o : Operation) (s : Counters)
    → ReservesOnly d o
    → get d s ≤ daily_caps d
    → get d (perform o s) ≤ daily_caps d
unfolding perform
perform-within d (reserve_op req override user) s only h =
    elim (reserve_cases req override user s) [
      | inr (r, e, breach) ↦ rw (e, perform) h
      | inl (t, e, fits, accrued) ↦
          rw (e, perform)
            (rw (accrued.total d) (
              fits_cap (get d s) (pos_part (amount req d)) (daily_caps d) h
                (λ p. rw (caps_with-none override d only) at (fits.room d p))))
    ]
perform-within d (increment_op req user) s only h =
    rw (increment-Accrues req user s).total (rw only (omega arith))
perform-within d (reconcile_op delta user) s only h =
    let t = (reconcile-Adjusts delta user s).total d in omega arith

-- If a dimension is added to only by reserves under its configured cap, and its counter is within
-- the cap at first, then it is so after the operations, whatever their order and their users.
pub perform_all-within :
    (d : Dimension) (os : List Operation) (s : Counters)
    → All (ReservesOnly d) os
    → get d s ≤ daily_caps d
    → get d (perform_all os s) ≤ daily_caps d
unfolding perform_all
perform_all-within d [] s only h = h
perform_all-within d (o ∷ os) s only h =
    perform_all-within d os (perform o s) only.1 (perform-within d o s only.0 h)

perform-other_user :
    (u : String) (d : Dimension) (o : Operation) (s : Counters)
    → is_user (truthy (user_of o)) u ≡ false
    → get_user u d (perform o s) ≡ get_user u d s
unfolding perform
perform-other_user u d (reserve_op req override user) s other =
    elim (reserve_cases req override user s) [
      | inr (r, e, breach) ↦ rw (e, perform)
      | inl (t, e, fits, accrued) ↦
          rw (e, perform) (rw (accrued.tally u d) (rw other (omega arith)))
    ]
perform-other_user u d (increment_op req user) s other =
    rw (increment-Accrues req user s).tally (rw other (omega arith))
perform-other_user u d (reconcile_op delta user) s other =
    (reconcile-Adjusts delta user s).tally u d ∙ rw other

-- The tallies of a user are not changed by operations that account to another user or to none.
pub perform_all-other_users :
    (u : String) (os : List Operation) (s : Counters)
    → All (λ o. is_user (truthy (user_of o)) u ≡ false) os
    → (d : Dimension) → get_user u d (perform_all os s) ≡ get_user u d s
unfolding perform_all
perform_all-other_users u [] s others d = refl
perform_all-other_users u (o ∷ os) s others d =
    perform_all-other_users u os (perform o s) others.1 d ∙ perform-other_user u d o s others.0
