-- ===== src/Tests/Budgets.antt =====
-- The budget object on concrete requests.
use snow_mcp.Common.{
  ℕ, ◌+◌, ◌≤◌, ◌≡◌, refl, ◌↔◌, String, true, Option, none, some, [], ◌∷◌, arith, pos, sub_ℕ,
  pos_part,
}
use snow_mcp.Budget.{
  Dimension, unique_workers, service_now_requests, rows_returned, Counters, global, counter,
  ReserveRequest, reserved, over_cap, amount, truthy, daily_caps, caps_with, reserve, reconcile,
  increment, get, get_user, requested_dimensions, adjusted_dimensions, check_admission,
  check_requested, updates, put, put_all, key_eq, dim_eq,
}
use snow_mcp.Budget.Updates.{is_user}
use snow_mcp.Budget.Reserve.{Fits, IsBreach, reserved_iff, over_cap_sound}
use snow_mcp.Budget.Reconcile.{reserve-reconcile}
use snow_mcp.Budget.Caps.{reserve_op, reconcile_op, perform, perform_all, perform_all-within}

budgets : Unit {0}
unfolding reserve reconcile increment requested_dimensions adjusted_dimensions check_admission
    check_requested updates put put_all key_eq dim_eq counter get get_user daily_caps perform
    perform_all
budgets = tt

abbrev empty : Counters
empty k = none

abbrev no_override : Dimension → Option ℕ
no_override d = none

-- What a run reserves: one worker and 200 requests.
abbrev run_request : ReserveRequest
run_request unique_workers = some (pos 1)
run_request service_now_requests = some (pos 200)
run_request _ = none

-- The run used 30 requests and returned 12 rows.
abbrev run_delta : ReserveRequest
run_delta service_now_requests = some (sub_ℕ 30 200)
run_delta rows_returned = some (pos 12)
run_delta _ = some (pos 0)

abbrev run_used : Dimension → ℕ
run_used unique_workers = 1
run_used service_now_requests = 30
run_used rows_returned = 12
run_used _ = 0

abbrev after_run : Counters
after_run = (reserve run_request no_override (some "ann") empty).1

run_tests :
    ((reserve run_request no_override (some "ann") empty).0 ≡ reserved)
    × (get service_now_requests after_run ≡ 200)
    × (get_user "ann" unique_workers after_run ≡ 1)
    × (get_user "bob" unique_workers after_run ≡ 0)
    × (get service_now_requests (reconcile run_delta (some "ann") after_run) ≡ 30)
unfolding budgets
run_tests = (refl, refl, refl, refl, refl)

-- The cap on workers is reached.
abbrev busy : Counters
busy (global unique_workers) = some 1000
busy _ = none

busy_denied : (reserve run_request no_override none busy).0 ≡ over_cap unique_workers 1000 1001
unfolding budgets
busy_denied = refl

reserved_iff_example :
    ((reserve run_request no_override (some "ann") empty).0 ≡ reserved)
    ↔ Fits (caps_with no_override) run_request empty
reserved_iff_example = reserved_iff run_request no_override (some "ann") empty

over_cap_sound_example :
    ((reserve run_request no_override none busy).1 ≡ busy)
    × IsBreach (caps_with no_override) run_request busy (over_cap unique_workers 1000 1001)
over_cap_sound_example =
    over_cap_sound run_request no_override none busy unique_workers 1000 1001 busy_denied

abbrev full_delta : ReserveRequest
full_delta d = some (sub_ℕ (run_used d) (pos_part (amount run_request d)))

reserve-reconcile_example :
    (get service_now_requests (reconcile full_delta (some "ann") after_run)
      ≡ get service_now_requests empty + 30)
    × ((u : String)
        → is_user (truthy (some "ann")) u ≡ true
        → get_user u service_now_requests (reconcile full_delta (some "ann") after_run)
          ≡ get_user u service_now_requests empty + 30)
reserve-reconcile_example =
    reserve-reconcile run_request full_delta run_used no_override (some "ann") empty run_tests.0
      (λ d. refl) service_now_requests

perform_all-within_example :
    get unique_workers (
      perform_all
        (reserve_op run_request no_override (some "ann")
          ∷ reconcile_op run_delta (some "ann")
          ∷ reserve_op run_request no_override (some "bob")
          ∷ [])
        busy)
    ≤ 1000
unfolding budgets
perform_all-within_example =
    perform_all-within unique_workers
      (reserve_op run_request no_override (some "ann")
        ∷ reconcile_op run_delta (some "ann")
        ∷ reserve_op run_request no_override (some "bob")
        ∷ [])
      busy (refl, (refl, (refl, tt))) (omega arith)
