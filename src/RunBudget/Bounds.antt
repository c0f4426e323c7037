-- ===== src/RunBudget/Bounds.antt =====
-- What a run can spend, though the snippet may catch what a meter throws and go on.
use snow_mcp.Common.{ℕ, ◌+◌, ◌-◌, ◌≤◌, ◌≡◌, ◌∙◌, refl, Option, none, some, List, [], ◌∷◌, arith}
use snow_mcp.Errors.{
  Result, ok, throw, RunDimension, rpc_calls, service_now_requests, rows_returned, bytes_returned,
  outbound_bytes_sent,
}
use snow_mcp.RunBudget.{
  RunBudget, Metered, count_rpc_call, count_service_now_request, count_rows, count_bytes,
  count_outbound_bytes, count_query_bytes,
}

pub data Use : Type 0 where
  use_rpc_call use_request : Use
  use_rows use_bytes use_outbound use_query : ℕ → Use

unfoldable pub spend : Use → RunBudget → Metered
unfolding count_rpc_call count_service_now_request count_rows count_bytes count_outbound_bytes
    count_query_bytes
spend use_rpc_call b = count_rpc_call b
spend use_request b = count_service_now_request b
spend (use_rows n) b = count_rows n b
spend (use_bytes n) b = count_bytes n b
spend (use_outbound n) b = count_outbound_bytes n b
spend (use_query n) b = count_query_bytes n b

-- What a use adds to a dimension, if its meter lets it pass.
abbrev pub amount : RunDimension → Use → ℕ
amount rpc_calls use_rpc_call = 1
amount service_now_requests use_request = 1
amount rows_returned (use_rows n) = n
amount bytes_returned (use_bytes n) = n
amount outbound_bytes_sent (use_outbound n) = n
amount outbound_bytes_sent (use_query n) = n
amount _ _ = 0

abbrev if_passed : Result (Unit {0}) → ℕ → ℕ
if_passed (ok u) n = n
if_passed (throw e) n = 0

-- How much of a dimension a sequence of uses is granted.
unfoldable pub granted : RunDimension → List Use → RunBudget → ℕ
granted d [] b = 0
granted d (u ∷ us) b = if_passed (spend u b).0 (amount d u) + granted d us (spend u b).1

abbrev pub cap : RunDimension → RunBudget → Option ℕ
cap rpc_calls b = some b.limits.rpc_call_limit
cap service_now_requests b = some b.limits.service_now_request_limit
cap rows_returned b = b.max_rows
cap bytes_returned b = b.max_bytes
cap outbound_bytes_sent b = some b.limits.max_outbound_bytes

abbrev pub used : RunDimension → RunBudget → ℕ
used rpc_calls b = b.rpc_calls_made
used service_now_requests b = b.requests_made
used rows_returned b = b.rows
used bytes_returned b = b.bytes
used outbound_bytes_sent b = b.outbound_bytes

-- At most what is left of a cap.
abbrev pub AtMostLeft : ℕ → Option ℕ → ℕ → Type 0
AtMostLeft n none used_up = Unit
AtMostLeft n (some c) used_up = n ≤ c - used_up

spend-cap : (d : RunDimension) (u : Use) (b : RunBudget) → cap d (spend u b).1 ≡ cap d b
unfolding spend
spend-cap rpc_calls use_rpc_call b = ground arith
spend-cap d u b = ground arith

spend-left :
    (d : RunDimension) (u : Use) (b : RunBudget) (n c : ℕ)
    → cap d b ≡ some c
    → n ≤ c - used d (spend u b).1
    → if_passed (spend u b).0 (amount d u) + n ≤ c - used d b
unfolding spend
spend-left rpc_calls use_rpc_call b n c e h = ground arith
spend-left d u b n c e h = ground arith

granted-left :
    (d : RunDimension) (us : List Use) (b : RunBudget) (c : ℕ)
    → cap d b ≡ some c
    → granted d us b ≤ c - used d b
unfolding granted
granted-left d [] b c e = omega arith
granted-left d (u ∷ us) b c e =
    let rest = granted-left d us (spend u b).1 c (spend-cap d u b ∙ e) in
    spend-left d u b (granted d us (spend u b).1) c e rest

-- In each dimension the uses that a meter lets pass come to no more than what is left of its cap, if
-- it has one, whatever the order of the uses and however many are tried after one has failed.
pub granted-AtMostLeft :
    (d : RunDimension) (us : List Use) (b : RunBudget)
    → AtMostLeft (granted d us b) (cap d b) (used d b)
granted-AtMostLeft d us b = by_cap (cap d b) refl
  where
    by_cap : (o : Option ℕ) → cap d b ≡ o → AtMostLeft (granted d us b) o (used d b)
    by_cap none e = tt
    by_cap (some c) e = granted-left d us b c e
